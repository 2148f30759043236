-- ===== src/Diff/Mirror.antt =====
-- The list of entities of a client after a delta, `_compute_merge_diff` of src/delta.c and
-- `_handle_parsed_statediff` of src/client/client.c.
use text.Mathlib.Text.{◌==◌ as str_eq}
use allonet.Common.{
  ◌≡◌, refl, sym, ap, ◌∙◌, List, Option, none, some, Bool, true, false, String, if◌then◌else◌,
  arith, Bool-cases, inl, inr,
}
use allonet.Common.Cases.{option-cases}
use allonet.Common.Outcome.{ok}
use allonet.Diff.{Object, EntityRep, EntityPatch, no_diff, lookup, merge_diff}
use allonet.Diff.Handle.{Entity, create_each, delete_each, update_each, handle}
use allonet.Diff.Lists.{
  mem, str_eq-path, found, Distinct, found-create_each, create_each-Distinct, delete_each-found,
  Keyed, shown, update_each-found,
}
use allonet.Diff.Changes.{
  is_some, Unique, says_new, says_gone, new_of, gone_of, merge_diff-Lists, mem-new_of, mem-gone_of,
  NoRepeat-new_of, NoRepeat-gone_of,
}

not-is_some : {A : Type 0} (o : Option A) → is_some o ≡ false → o ≡ none
not-is_some none e = refl
not-is_some (some a) e = cc

is_some-some : {A : Type 0} (o : Option A) → is_some o ≡ true → (a : A) × (o ≡ some a)
is_some-some none e = cc
is_some-some (some a) e = (a, refl)

module _ {V : Type 0} where
  -- What a merge patch does to an entity: without an entry it stays, with null it goes, and with
  -- anything else it is there.
  abbrev pub Merges : Option (EntityPatch V) → Option (EntityRep V) → Option (EntityRep V) → Type 0
  Merges none old new = is_some new ≡ is_some old
  Merges (some p) old new = elim p.is_null [
    | true ↦ (is_some old ≡ true) × (is_some new ≡ false)
    | false ↦ is_some new ≡ true
  ]

  -- The list has the entities of the state, with their components, and each once.
  pub record IsShown (es : List (Entity V)) (state : Object (EntityRep V)) : Type 0 where
    pub distinct : Distinct es
    pub entities : (k : String) → found k es ≡ shown (lookup k state) none

  is_some-found :
      (es : List (Entity V)) (state : Object (EntityRep V))
      → IsShown es state
      → (k : String) → is_some (found k es) ≡ is_some (lookup k state)
  is_some-found es state v k = elim (option-cases (lookup k state)) [
    | inl absent ↦ ground (arith, absent, v.entities k)
    | inr (r, there) ↦ ground (arith, there, v.entities k)
  ]

module _ {V : Type 0} (null : V → Bool) (existing newstate : Object (EntityRep V))
    (delta : Object (EntityPatch V)) (es : List (Entity V)) (v : IsShown es existing)
    (unique : Unique delta) (unnamed : lookup "" existing ≡ none)
    (merged : (k : String) → Merges (lookup k delta) (lookup k existing) (lookup k newstate)) where
  says_new-absent :
      (k : String) (o : Option (EntityPatch V))
      → says_new null existing newstate k o ≡ true
      → is_some (lookup k existing) ≡ false
  says_new-absent k none e = cc
  says_new-absent k (some p) e = elim (Bool-cases p.is_null) [
    | inl yes' ↦ ground (arith, e, yes')
    | inr no' ↦ elim (Bool-cases (is_some (lookup k existing))) [
      | inl there ↦ ground (arith, e, no', there)
      | inr absent ↦ absent
    ]
  ]

  new_absent : (k : String) → mem k (new_of null existing newstate delta) ≡ true → found k es ≡ none
  new_absent k m =
      let says = sym (mem-new_of null existing newstate k delta unique) ∙ m in
      not-is_some (found k es)
        (is_some-found es existing v k ∙ says_new-absent k (lookup k delta) says)

  abbrev created : List (Entity V)
  created = create_each (new_of null existing newstate delta) es

  created-Distinct : Distinct created
  created-Distinct =
      create_each-Distinct (new_of null existing newstate delta) es
        (NoRepeat-new_of null existing newstate delta unique) new_absent v.distinct

  -- What is there once the new entities have been made, and once those that are gone have been removed.
  says_gone-there :
      (k : String) (o : Option (EntityPatch V))
      → Merges o (lookup k existing) (lookup k newstate)
      → says_gone null existing newstate o ≡ true
      → (is_some (lookup k existing) ≡ true)
        × (says_new null existing newstate k o ≡ false)
        × (is_some (lookup k newstate) ≡ false)
  says_gone-there k none m e = cc
  says_gone-there k (some p) m e = ground (arith, m, e)

  merged-rest :
      (k : String) (o : Option (EntityPatch V))
      → Merges o (lookup k existing) (lookup k newstate)
      → says_gone null existing newstate o ≡ false
      → is_some (lookup k newstate)
        ≡ (if says_new null existing newstate k o then true else is_some (lookup k existing))
  merged-rest k none m e = m
  merged-rest k (some p) m e = elim (Bool-cases (is_some (lookup k existing))) [
    | inl there ↦ ground (arith, m, e, there)
    | inr absent ↦ ground (arith, m, e, absent)
  ]

  is_some-if :
      (b : Bool) (o : Option (Option (Object V)))
      → is_some (if b then some none else o) ≡ (if b then true else is_some o)
  is_some-if true o = refl
  is_some-if false o = refl

  -- Of each entity that is to be removed there is one, and its id is not empty.
  created_there :
      (k : String)
      → mem k (gone_of null existing newstate delta) ≡ true
      → (str_eq k "" ≡ false) × (c : Option (Object V)) × (found k created ≡ some c)
  created_there k m =
      let says = sym (mem-gone_of null existing newstate k delta unique) ∙ m in
      let (there, old, _) = says_gone-there k (lookup k delta) (merged k) says in
      let (c, has) = is_some-some (found k es) (is_some-found es existing v k ∙ there) in
      let kept : mem k (new_of null existing newstate delta) ≡ false =
        mem-new_of null existing newstate k delta unique ∙ old in
      (
        elim (Bool-cases (str_eq k "")) [
          | inl empty ↦
              absurd (
                ground
                  (arith, ap (λ x. lookup x existing) (str_eq-path k "" empty), unnamed, there))
          | inr named ↦ named
        ],
        c,
        found-create_each k (new_of null existing newstate delta) es ∙ rw (kept) has,
      )

  -- After both loops, the entities are those of the new state.
  left_there :
      (k : String) (o : Option (Option (Object V)))
      → o ≡ (if mem k (gone_of null existing newstate delta) then none else found k created)
      → is_some o ≡ is_some (lookup k newstate)
  left_there k o e = elim (Bool-cases (says_gone null existing newstate (lookup k delta))) [
    | inl says ↦
        let m : mem k (gone_of null existing newstate delta) ≡ true =
          mem-gone_of null existing newstate k delta unique ∙ says in
        let (_, _, absent) = says_gone-there k (lookup k delta) (merged k) says in
        let nothing : o ≡ none = e ∙ rw (m) refl in ap is_some nothing ∙ sym absent
    | inr stays ↦
        let m : mem k (gone_of null existing newstate delta) ≡ false =
          mem-gone_of null existing newstate k delta unique ∙ stays in
        let kept : o
            ≡ (if mem k (new_of null existing newstate delta) then some none else found k es) =
          e ∙ rw (m) (found-create_each k (new_of null existing newstate delta) es) in
        ap is_some kept
        ∙ is_some-if (mem k (new_of null existing newstate delta)) (found k es)
        ∙ ap (λ b. if b then true else is_some (found k es))
            (mem-new_of null existing newstate k delta unique)
        ∙ ap (λ x. if says_new null existing newstate k (lookup k delta) then true else x)
            (is_some-found es existing v k)
        ∙ sym (merged-rest k (lookup k delta) (merged k) stays)
  ]

  handle_steps :
      (fs gs : List (Entity V))
      → delete_each (gone_of null existing newstate delta) created ≡ ok fs
      → update_each newstate fs ≡ ok gs
      → handle newstate (merge_diff null existing newstate delta no_diff) es ≡ ok gs
  unfolding handle
  handle_steps fs gs deleted updated =
      let l = merge_diff-Lists null existing newstate delta no_diff in
      rw (l.new, l.gone, deleted) updated

  shown-found :
      (k : String) (o : Option (Option (Object V)))
      → is_some o ≡ is_some (lookup k newstate)
      → shown (lookup k newstate) o ≡ shown (lookup k newstate) none
  shown-found k o e = elim (option-cases (lookup k newstate)) [
    | inl absent ↦ rw (absent) (not-is_some o (e ∙ ap is_some absent))
    | inr (r, there) ↦ rw (there) refl
  ]

  -- The list of entities of a client shows a state, and gets the difference to a newer one, computed
  -- from a delta that is a merge patch between the two. Then no entity that the handler looks up is
  -- missing, and afterwards the list shows the newer state: its entities, each once, with its
  -- components. In both states the keys are the ids, each once, and none is empty.
  pub handle-merge_diff :
      Keyed newstate
      → (gs : List (Entity V)) × (handle newstate
            (merge_diff null existing newstate delta no_diff)
            es
          ≡ ok gs)
        × IsShown gs newstate
  handle-merge_diff keyed =
      let (fs, deleted, distinct, left) =
        delete_each-found (gone_of null existing newstate delta) created
          (NoRepeat-gone_of null existing newstate delta unique) created-Distinct created_there in
      let there : (k : String) → is_some (found k fs) ≡ is_some (lookup k newstate) =
        λ k. left_there k (found k fs) (left k) in
      let (gs, updated, distinct', shows) =
        update_each-found newstate fs keyed distinct
          (λ k r at. is_some-some (found k fs) (there k ∙ ap is_some at)) in
      (
        gs,
        handle_steps fs gs deleted updated,
        record {
          distinct = distinct';
          entities = λ k. shows k ∙ shown-found k (found k fs) (there k);
        },
      )
