-- ===== src/Diff/Lists.antt =====
-- The list of entities of a client under the loops of `_handle_parsed_statediff`,
-- src/client/client.c.
use text.Mathlib.Text.{◌==◌ as str_eq}
use text.Mathlib.TextEquality.{eq_iff}
use allonet.Common.{
  ◌≡◌, refl, sym, ap, ◌∙◌, List, [], ◌∷◌, Option, none, some, Bool, true, false, ◌||◌, String,
  if◌then◌else◌, arith, Bool-cases, inl, inr,
}
use allonet.Common.Outcome.{ok}
use allonet.Diff.{Object, EntityRep, lookup}
use allonet.Diff.Handle.{
  Entity, state_get_entity, create_each, remove_found, delete_each, set_components, update_each,
}

pub str_eq-path : (a b : String) → str_eq a b ≡ true → a ≡ b
str_eq-path a b e = (eq_iff a b).0 e

pub str_eq_self : (a : String) → str_eq a a ≡ true
str_eq_self a = (eq_iff a a).1 refl

unfoldable pub mem : String → List String → Bool
mem k [] = false
mem k (i ∷ is) = str_eq k i || mem k is

unfoldable pub NoRepeat : List String → Type 0
NoRepeat [] = Unit {0}
NoRepeat (i ∷ is) = (mem i is ≡ false) × NoRepeat is

mem_apart :
    (k i : String) (is : List String) → mem k is ≡ true → mem i is ≡ false → str_eq k i ≡ false
mem_apart k i is m n = elim (Bool-cases (str_eq k i)) [
  | inl same ↦ absurd (ground (arith, ap (λ x. mem x is) (str_eq-path k i same), m, n))
  | inr other ↦ other
]

if_either :
    {A : Type 0} (a b : Bool) (x y : A)
    → (if b then x else (if a then x else y)) ≡ (if a || b then x else y)
if_either true true x y = refl
if_either true false x y = refl
if_either false true x y = refl
if_either false false x y = refl

module _ {V : Type 0} where
  -- The components of the entity with an id, if there is one.
  unfoldable pub found : String → List (Entity V) → Option (Option (Object V))
  found k [] = none
  found k (e ∷ es) = let rest = found k es in if str_eq k e.id then some e.components else rest

  unfoldable pub Distinct : List (Entity V) → Type 0
  Distinct [] = Unit {0}
  Distinct (e ∷ es) = (found e.id es ≡ none) × Distinct es

  pub found-create_each :
      (k : String) (is : List String) (es : List (Entity V))
      → found k (create_each is es) ≡ (if mem k is then some none else found k es)
  unfolding found create_each mem
  found-create_each k [] es = refl
  found-create_each k (i ∷ is) es =
      ground (arith, found-create_each k is (record { id = i; components = none } ∷ es))

  pub create_each-Distinct :
      (is : List String) (es : List (Entity V))
      → NoRepeat is
      → ((k : String) → mem k is ≡ true → found k es ≡ none)
      → Distinct es
      → Distinct (create_each is es)
  unfolding create_each NoRepeat mem Distinct found
  create_each-Distinct [] es n absent d = d
  create_each-Distinct (i ∷ is) es n absent d =
      create_each-Distinct is (record { id = i; components = none } ∷ es) n.1
        (λ k m.
          let other = mem_apart k i is m n.0 in
          ground (arith, other, absent k (ground (arith, other, m))))
        (absent i (ground (arith, str_eq_self i)), d)

  found-remove_found :
      (k i : String) (es : List (Entity V))
      → Distinct es
      → found k (remove_found i es) ≡ (if str_eq k i then none else found k es)
  unfolding found remove_found Distinct
  found-remove_found k i [] d = ground arith
  found-remove_found k i (e ∷ es) d = elim (Bool-cases (str_eq i e.id)) [
    | inl same ↦
        let p = str_eq-path i e.id same in
        elim (Bool-cases (str_eq k i)) [
          | inl hit ↦
              let q : k ≡ e.id = str_eq-path k i hit ∙ p in
              let gone : found k es ≡ none = ap (λ x. found x es) q ∙ d.0 in
              ground (arith, same, hit, gone)
          | inr miss ↦
              let far : str_eq k e.id ≡ false = ap (str_eq k) (sym p) ∙ miss in
              ground (arith, same, miss, far)
        ]
    | inr other ↦ elim (Bool-cases (str_eq k i)) [
      | inl hit ↦
          let far : str_eq k e.id ≡ false = ap (λ x. str_eq x e.id) (str_eq-path k i hit) ∙ other in
          ground (arith, other, hit, far, found-remove_found k i es d.1)
      | inr miss ↦ ground (arith, other, miss, found-remove_found k i es d.1)
    ]
  ]

  remove_found-Distinct :
      (i : String) (es : List (Entity V)) → Distinct es → Distinct (remove_found i es)
  unfolding remove_found Distinct
  remove_found-Distinct i [] d = d
  remove_found-Distinct i (e ∷ es) d = elim (Bool-cases (str_eq i e.id)) [
    | inl same ↦ rw (same) d.1
    | inr other ↦
        let away : found e.id (remove_found i es) ≡ none =
          ground (arith, found-remove_found e.id i es d.1, d.0) in
        rw (other) (away, remove_found-Distinct i es d.1)
  ]

  get_entity-found :
      (i : String) (es : List (Entity V)) (c : Option (Object V))
      → str_eq i "" ≡ false
      → found i es ≡ some c
      → (e : Entity V) × (state_get_entity i es ≡ some e)
  unfolding state_get_entity found
  get_entity-found i [] c named h = cc
  get_entity-found i (e ∷ es) c named h = elim (Bool-cases (str_eq i e.id)) [
    | inl same ↦ (e, rw (named, same) refl)
    | inr other ↦
        let (f, there) = get_entity-found i es c named (ground (arith, other, h)) in
        (f, rw (named, other) (ground (arith, named, there)))
  ]

  pub delete_each-found :
      (is : List String) (es : List (Entity V))
      → NoRepeat is
      → Distinct es
      → ((k : String)
          → mem k is ≡ true
          → (str_eq k "" ≡ false) × (c : Option (Object V)) × (found k es ≡ some c))
      → (fs : List (Entity V)) × (delete_each is es ≡ ok fs)
        × Distinct fs
        × ((k : String) → found k fs ≡ (if mem k is then none else found k es))
  unfolding delete_each mem NoRepeat
  delete_each-found [] es n d there = (es, refl, d, λ k. refl)
  delete_each-found (i ∷ is) es n d there =
      let (named, c, has) = there i (ground (arith, str_eq_self i)) in
      let (e, gets) = get_entity-found i es c named has in
      let (fs, done, distinct, left) =
        delete_each-found is (remove_found i es) n.1 (remove_found-Distinct i es d) (λ k m.
          let (named', c', has') = there k (ground (arith, m)) in
          let apart : str_eq k i ≡ false = mem_apart k i is m n.0 in
          (named', c', found-remove_found k i es d ∙ rw (apart) has')) in
      (
        fs,
        rw (delete_each, gets) done,
        distinct,
        λ k.
            left k
            ∙ ap (λ x. if mem k is then none else x) (found-remove_found k i es d)
            ∙ if_either (str_eq k i) (mem k is) none (found k es),
      )

  found-set_components :
      (k i : String) (cs : Object V) (es : List (Entity V))
      → found k (set_components i cs es) ≡ (
          if str_eq k i
          then elim (found k es) [ none ↦ none | some _ ↦ some (some cs) ]
          else found k es)
  unfolding found set_components
  found-set_components k i cs [] = ground arith
  found-set_components k i cs (e ∷ es) = elim (Bool-cases (str_eq k i)) [
    | inl hit ↦
        let p : str_eq k e.id ≡ str_eq i e.id = ap (λ x. str_eq x e.id) (str_eq-path k i hit) in
        elim (Bool-cases (str_eq i e.id)) [
          | inl same ↦ ground (arith, hit, p, same)
          | inr other ↦ ground (arith, hit, p, other, found-set_components k i cs es)
        ]
    | inr miss ↦ elim (Bool-cases (str_eq i e.id)) [
      | inl same ↦
          let far : str_eq k e.id ≡ false = ap (str_eq k) (sym (str_eq-path i e.id same)) ∙ miss in
          ground (arith, miss, same, far)
      | inr other ↦ ground (arith, miss, other, found-set_components k i cs es)
    ]
  ]

  set_components-Distinct :
      (i : String) (cs : Object V) (es : List (Entity V))
      → Distinct es
      → Distinct (set_components i cs es)
  unfolding set_components Distinct
  set_components-Distinct i cs [] d = d
  set_components-Distinct i cs (e ∷ es) d = elim (Bool-cases (str_eq i e.id)) [
    | inl same ↦ rw (same) d
    | inr other ↦
        let away : found e.id (set_components i cs es) ≡ none =
          ground (arith, found-set_components e.id i cs es, d.0) in
        rw (other) (away, set_components-Distinct i cs es d.1)
  ]

  -- The keys are the ids of what they stand for, each once, and none is empty.
  unfoldable pub Keyed : Object (EntityRep V) → Type 0
  Keyed [] = Unit {0}
  Keyed (f ∷ fs) = (f.1.id ≡ f.0) × (str_eq f.0 "" ≡ false) × (lookup f.0 fs ≡ none) × Keyed fs

  -- The components that an entity of the list has after the last loop.
  abbrev pub shown : Option (EntityRep V) → Option (Option (Object V)) → Option (Option (Object V))
  shown none old = old
  shown (some r) old = some (some r.components)

  update_each_cons :
      (f : String × EntityRep V) (fs : Object (EntityRep V)) (es : List (Entity V)) (e : Entity V)
      → f.1.id ≡ f.0
      → state_get_entity f.0 es ≡ some e
      → update_each (f ∷ fs) es ≡ update_each fs (set_components f.0 f.1.components es)
  unfolding update_each
  update_each_cons f fs es e is gets =
      let here : state_get_entity f.1.id es ≡ some e = ap (λ i. state_get_entity i es) is ∙ gets in
      (rw (update_each, here) refl)
      ∙ ap (λ i. update_each fs (set_components i f.1.components es)) is

  pub update_each-found :
      (fs : Object (EntityRep V)) (es : List (Entity V))
      → Keyed fs
      → Distinct es
      → ((k : String) (r : EntityRep V)
          → lookup k fs ≡ some r
          → (c : Option (Object V)) × (found k es ≡ some c))
      → (gs : List (Entity V)) × (update_each fs es ≡ ok gs)
        × Distinct gs
        × ((k : String) → found k gs ≡ shown (lookup k fs) (found k es))
  unfolding update_each lookup Keyed
  update_each-found [] es w d there = (es, refl, d, λ k. refl)
  update_each-found (f ∷ fs) es w d there =
      let (is, named, alone, rest) = w in
      let self = str_eq_self f.0 in
      let (c, has) = there f.0 f.1 (rw (self) refl) in
      let (e, gets) = get_entity-found f.0 es c named has in
      let set = set_components f.0 f.1.components es in
      let kept : (k : String) (r : EntityRep V)
          → lookup k fs ≡ some r
          → (c : Option (Object V)) × (found k set ≡ some c) =
        λ k r m. elim (Bool-cases (str_eq k f.0)) [
          | inl hit ↦
              absurd (ground (arith, ap (λ x. lookup x fs) (str_eq-path k f.0 hit), m, alone))
          | inr miss ↦
              let (c', has') = there k r (rw (miss) m) in
              (c', found-set_components k f.0 f.1.components es ∙ rw (miss) has')
        ] in
      let (gs, done, distinct, shows) =
        update_each-found fs set rest (set_components-Distinct f.0 f.1.components es d) kept in
      (
        gs,
        update_each_cons f fs es e is gets ∙ done,
        distinct,
        λ k. elim (Bool-cases (str_eq k f.0)) [
          | inl hit ↦
              let p = str_eq-path k f.0 hit in
              let none_left : lookup k fs ≡ none = ap (λ x. lookup x fs) p ∙ alone in
              let old : found k es ≡ some c = ap (λ x. found x es) p ∙ has in
              ground
                (arith, shows k, none_left, old, hit, found-set_components k f.0 f.1.components es)
          | inr miss ↦
              let same : found k set ≡ found k es =
                found-set_components k f.0 f.1.components es ∙ rw (miss) refl in
              shows k ∙ rw (same, miss) refl
        ],
      )
