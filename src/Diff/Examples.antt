-- ===== src/Diff/Examples.antt =====
-- Differences of states at concrete values: tests, and the theorems where their hypotheses hold.
use text.Mathlib.Text.{◌==◌ as str_eq}
use allonet.Common.{
  Bool-cases, inl, inr, ap, ◌≡◌, refl, List, [], ◌∷◌, none, some, Bool, true, false, String,
}
use allonet.Common.Outcome.{ok}
use allonet.Diff.{Object, EntityRep, EntityPatch, no_diff, lookup, merge_diff}
use allonet.Diff.Handle.{Entity, handle}
use allonet.Diff.Changes.{Unique}
use allonet.Diff.Lists.{Keyed, Distinct, found, str_eq-path}
use allonet.Diff.Mirror.{IsShown, Merges, handle-merge_diff}

-- Components are strings, and null is the empty one.
abbrev null : String → Bool
null s = str_eq s ""

abbrev before : Object (EntityRep String)
before = ("a", record { id = "a"; components = ("t", "1") ∷ [] }) ∷ []

-- "a" goes, and "b" comes.
abbrev after : Object (EntityRep String)
after = ("b", record { id = "b"; components = ("t", "2") ∷ [] }) ∷ []

abbrev patch : Object (EntityPatch String)
patch =
    ("a", record { is_null = true; components = [] })
    ∷ ("b", record { is_null = false; components = ("t", "2") ∷ [] })
    ∷ []

abbrev listed : List (Entity String)
listed = record { id = "a"; components = some (("t", "1") ∷ []) } ∷ []

differs : merge_diff null before after patch no_diff ≡ record {
  new_entities = "b" ∷ [];
  deleted_entities = "a" ∷ [];
  new_components = record { eid = "b"; name = "t"; olddata = none; newdata = some "2" } ∷ [];
  updated_components = [];
  deleted_components = record { eid = "a"; name = "t"; olddata = some "1"; newdata = none } ∷ [];
}
unfolding merge_diff
differs = refl

handles :
    handle after (merge_diff null before after patch no_diff) listed
    ≡ ok (record { id = "b"; components = some (("t", "2") ∷ []) } ∷ [])
unfolding merge_diff handle
handles = refl

listed-IsShown : IsShown listed before
unfolding lookup found Distinct
listed-IsShown = record {
  distinct = (refl, tt);
  entities =
      λ k. elim (Bool-cases (str_eq k "a")) [ inl hit ↦ rw (hit) refl | inr miss ↦ rw (miss) refl ];
}

patch-Merges : (k : String) → Merges (lookup k patch) (lookup k before) (lookup k after)
unfolding lookup
patch-Merges k = elim (Bool-cases (str_eq k "a")) [
  | inl is_a ↦
      let not_b : str_eq k "b" ≡ false = ap (λ x. str_eq x "b") (str_eq-path k "a" is_a) in
      rw (is_a, not_b) (refl, refl)
  | inr not_a ↦ elim (Bool-cases (str_eq k "b")) [
    | inl is_b ↦ rw (not_a, is_b) refl
    | inr not_b ↦ rw (not_a, not_b) refl
  ]
]

handle-merge_diff_example :
    (gs : List (Entity String)) × (handle after (merge_diff null before after patch no_diff) listed
      ≡ ok gs)
    × IsShown gs after
unfolding lookup Unique Keyed
handle-merge_diff_example =
    handle-merge_diff null before after patch listed listed-IsShown (refl, (refl, tt)) refl
      patch-Merges (refl, refl, refl, tt)
