-- ===== src/Diff/Changes.antt =====
-- Which entities are new and which are gone, `_compute_merge_diff` of src/delta.c.
use text.Mathlib.Text.{◌==◌ as str_eq}
use mathlib.Core.List.{append-nil, append_assoc}
use allonet.Common.{
  ◌≡◌, refl, sym, ap, ◌∙◌, List, [], ◌∷◌, ◌++◌, Option, none, some, Bool, true, false, not, ◌&&◌,
  String, if◌then◌else◌, arith, Bool-cases, inl, inr,
}
use allonet.Common.Cases.{option-cases}
use allonet.Diff.{
  Object, EntityRep, EntityPatch, ComponentRef, StateDiff, lookup, components_of, gone, come,
  changed, updates, entity_diff, merge_diff,
}
use allonet.Diff.Lists.{mem, NoRepeat, str_eq-path}

abbrev pub is_some : {A : Type 0} → Option A → Bool
is_some none = false
is_some (some _) = true

module _ {V : Type 0} where
  -- Each key once.
  unfoldable pub Unique : Object V → Type 0
  Unique [] = Unit {0}
  Unique (f ∷ fs) = (lookup f.0 fs ≡ none) × Unique fs

module _ {V : Type 0} (null : V → Bool) (existing newstate : Object (EntityRep V)) where
  -- What an entry of the delta says of an entity.
  abbrev pub says_new : String → Option (EntityPatch V) → Bool
  says_new k none = false
  says_new k (some p) = not p.is_null && not (is_some (lookup k existing))

  abbrev pub says_gone : Option (EntityPatch V) → Bool
  says_gone none = false
  says_gone (some p) = p.is_null

  pub new_of : Object (EntityPatch V) → List String
  new_of [] = []
  new_of (e ∷ es) = let rest = new_of es in if says_new e.0 (some e.1) then e.0 ∷ rest else rest

  pub gone_of : Object (EntityPatch V) → List String
  gone_of [] = []
  gone_of (e ∷ es) = let rest = gone_of es in if e.1.is_null then e.0 ∷ rest else rest

  -- The loops over components leave the entities alone.
  record SameEntities (a b : StateDiff V) : Type 0 where
    new : b.new_entities ≡ a.new_entities
    gone : b.deleted_entities ≡ a.deleted_entities

  gone-SameEntities : (i : String) (cs : Object V) (d : StateDiff V) → SameEntities d (gone i cs d)
  unfolding gone
  gone-SameEntities i [] d = record { new = refl; gone = refl }
  gone-SameEntities i (c ∷ cs) d =
      let r = gone-SameEntities i cs _ in record { new = r.new; gone = r.gone }

  come-SameEntities : (i : String) (cs : Object V) (d : StateDiff V) → SameEntities d (come i cs d)
  unfolding come
  come-SameEntities i [] d = record { new = refl; gone = refl }
  come-SameEntities i (c ∷ cs) d =
      let r = come-SameEntities i cs _ in record { new = r.new; gone = r.gone }

  changed-SameEntities :
      (r : ComponentRef V) (c : V) (d : StateDiff V) → SameEntities d (changed null r c d)
  changed-SameEntities r c d = record { new = ground arith; gone = ground arith }

  updates-SameEntities :
      (i : String) (a b cs : Object V) (d : StateDiff V) → SameEntities d (updates null i a b cs d)
  unfolding updates
  updates-SameEntities i a b [] d = record { new = refl; gone = refl }
  updates-SameEntities i a b (c ∷ cs) d =
      let ref : ComponentRef V = record {
        eid = i;
        name = c.0;
        olddata = lookup c.0 a;
        newdata = lookup c.0 b;
      } in
      let s = changed-SameEntities ref c.1 d in
      let r = updates-SameEntities i a b cs (changed null ref c.1 d) in
      record { new = r.new ∙ s.new; gone = r.gone ∙ s.gone }

  record Marks (k : String) (p : EntityPatch V) (a b : StateDiff V) : Type 0 where
    new :
        b.new_entities
        ≡ (if says_new k (some p) then a.new_entities ++ (k ∷ []) else a.new_entities)
    gone :
        b.deleted_entities
        ≡ (if p.is_null then a.deleted_entities ++ (k ∷ []) else a.deleted_entities)

  entity_diff-Marks :
      (k : String) (p : EntityPatch V) (d : StateDiff V)
      → Marks k p d (entity_diff null existing newstate k p d)
  unfolding entity_diff
  entity_diff-Marks k p d = elim (Bool-cases p.is_null) [
    | inl nothing ↦
        let r =
          gone-SameEntities k (components_of (lookup k existing))
            (record d { deleted_entities = d.deleted_entities ++ (k ∷ []) }) in
        record { new = rw (nothing) r.new; gone = rw (nothing) r.gone }
    | inr given ↦ elim (option-cases (lookup k existing)) [
      | inl absent ↦
          let r =
            come-SameEntities k p.components
              (record d { new_entities = d.new_entities ++ (k ∷ []) }) in
          record { new = rw (given, absent) r.new; gone = rw (given, absent) r.gone }
      | inr (e, there) ↦
          let r =
            updates-SameEntities k e.components (components_of (lookup k newstate)) p.components
              d in
          record { new = rw (given, there) r.new; gone = rw (given, there) r.gone }
    ]
  ]

  if_append :
      (b : Bool) (k : String) (xs ys : List String)
      → (if b then xs ++ (k ∷ []) else xs) ++ ys ≡ xs ++ (if b then k ∷ ys else ys)
  if_append true k xs ys = append_assoc xs (k ∷ []) ys
  if_append false k xs ys = refl

  pub record Lists (delta : Object (EntityPatch V)) (a b : StateDiff V) : Type 0 where
    pub new : b.new_entities ≡ a.new_entities ++ new_of delta
    pub gone : b.deleted_entities ≡ a.deleted_entities ++ gone_of delta

  pub merge_diff-Lists :
      (delta : Object (EntityPatch V)) (d : StateDiff V)
      → Lists delta d (merge_diff null existing newstate delta d)
  unfolding merge_diff new_of gone_of
  merge_diff-Lists [] d = record { new = sym (append-nil _); gone = sym (append-nil _) }
  merge_diff-Lists (e ∷ es) d =
      let m = entity_diff-Marks e.0 e.1 d in
      let r = merge_diff-Lists es (entity_diff null existing newstate e.0 e.1 d) in
      record {
        new =
            r.new
            ∙ ap (λ l. l ++ new_of es) m.new
            ∙ if_append (says_new e.0 (some e.1)) e.0 d.new_entities (new_of es);
        gone =
            r.gone
            ∙ ap (λ l. l ++ gone_of es) m.gone
            ∙ if_append e.1.is_null e.0 d.deleted_entities (gone_of es);
      }

  pub mem-new_of :
      (k : String) (delta : Object (EntityPatch V))
      → Unique delta
      → mem k (new_of delta) ≡ says_new k (lookup k delta)
  unfolding new_of mem lookup Unique
  mem-new_of k [] u = refl
  mem-new_of k (e ∷ es) u = elim (Bool-cases (str_eq k e.0)) [
    | inl hit ↦
        let p = str_eq-path k e.0 hit in
        let none_left : lookup k es ≡ none = ap (λ x. lookup x es) p ∙ u.0 in
        let same : says_new k (some e.1) ≡ says_new e.0 (some e.1) =
          ap (λ x. says_new x (some e.1)) p in
        elim (Bool-cases (says_new e.0 (some e.1))) [
          | inl yes' ↦ ground (arith, hit, none_left, same, yes', mem-new_of k es u.1)
          | inr no' ↦ ground (arith, hit, none_left, same, no', mem-new_of k es u.1)
        ]
    | inr miss ↦ elim (Bool-cases (says_new e.0 (some e.1))) [
      | inl yes' ↦ rw (yes', miss) (mem-new_of k es u.1)
      | inr no' ↦ rw (no', miss) (mem-new_of k es u.1)
    ]
  ]

  pub mem-gone_of :
      (k : String) (delta : Object (EntityPatch V))
      → Unique delta
      → mem k (gone_of delta) ≡ says_gone (lookup k delta)
  unfolding gone_of mem lookup Unique
  mem-gone_of k [] u = refl
  mem-gone_of k (e ∷ es) u = elim (Bool-cases (str_eq k e.0)) [
    | inl hit ↦
        let p = str_eq-path k e.0 hit in
        let none_left : lookup k es ≡ none = ap (λ x. lookup x es) p ∙ u.0 in
        elim (Bool-cases e.1.is_null) [
          | inl yes' ↦ rw (yes', hit) refl
          | inr no' ↦ rw (no', hit) (mem-gone_of k es u.1 ∙ rw (none_left) refl)
        ]
    | inr miss ↦ elim (Bool-cases e.1.is_null) [
      | inl yes' ↦ rw (yes', miss) (mem-gone_of k es u.1)
      | inr no' ↦ rw (no', miss) (mem-gone_of k es u.1)
    ]
  ]

  pub NoRepeat-new_of : (delta : Object (EntityPatch V)) → Unique delta → NoRepeat (new_of delta)
  unfolding new_of NoRepeat Unique
  NoRepeat-new_of [] u = tt
  NoRepeat-new_of (e ∷ es) u = elim (Bool-cases (says_new e.0 (some e.1))) [
    | inl yes' ↦ rw (yes') (mem-new_of e.0 es u.1 ∙ rw (u.0) refl, NoRepeat-new_of es u.1)
    | inr no' ↦ rw (no') (NoRepeat-new_of es u.1)
  ]

  pub NoRepeat-gone_of : (delta : Object (EntityPatch V)) → Unique delta → NoRepeat (gone_of delta)
  unfolding gone_of NoRepeat Unique
  NoRepeat-gone_of [] u = tt
  NoRepeat-gone_of (e ∷ es) u = elim (Bool-cases e.1.is_null) [
    | inl yes' ↦ rw (yes') (mem-gone_of e.0 es u.1 ∙ rw (u.0) refl, NoRepeat-gone_of es u.1)
    | inr no' ↦ rw (no') (NoRepeat-gone_of es u.1)
  ]
