-- ===== src/World.antt =====
-- The entities of a world state, src/state.c: looking one up, and removing one with its children or
-- from above them. Of an entity's components only the parent in "relationships" is modelled.
pub mod Members
pub mod Cascade
mod Examples
use text.Mathlib.Text.{◌==◌ as str_eq}
use allonet.Common.{
  ℕ, zero, suc, List, [], ◌∷◌, Option, none, some, Bool, true, false, not, String, ◌==◌,
  if◌then◌else◌,
}
use allonet.Common.Outcome.{Outcome, ok, wild, out_of_fuel, deref, ◌>>=◌}

-- `allo_entity`, at its address.
pub record Entity : Type 0 where
  pub address : ℕ
  pub id : String
  pub parent : Option String

-- `allo_removal_mode`.
pub data RemovalMode : Type 0 where
  cascade reparent : RemovalMode

abbrev pub has_parent : String → Entity → Bool
has_parent i e = elim e.parent [ none ↦ false | some p ↦ str_eq p i ]

-- `state_get_entity`.
unfoldable pub get_entity_from : String → List Entity → Option Entity
get_entity_from i [] = none
get_entity_from i (e ∷ es) = if str_eq i e.id then some e else get_entity_from i es

unfoldable pub get_entity : Option String → List Entity → Option Entity
unfolding get_entity_from
get_entity none es = none
get_entity (some i) es = if str_eq i "" then none else get_entity_from i es

-- `LIST_REMOVE`, of an entity that is in the list; of another one it follows freed pointers.
unfoldable pub unlink : ℕ → List Entity → Option (List Entity)
unlink a [] = none
unlink a (e ∷ es) = elim (e.address == a) [
  | true ↦ some es
  | false ↦ elim (unlink a es) [ none ↦ none | some rest ↦ some (e ∷ rest) ]
]

-- The loop that collects the children of the removed entity.
unfoldable pub children_of : String → List Entity → List Entity
children_of i [] = []
children_of i (e ∷ es) = let rest = children_of i es in if has_parent i e then e ∷ rest else rest

-- The loop over the children, with `AlloRemovalReparent` and with `AlloRemovalCascade`.
unfoldable pub unparent : String → List Entity → List Entity
unparent i [] = []
unparent i (e ∷ es) =
    let rest = unparent i es in
    if has_parent i e then record e { parent = none } ∷ rest else e ∷ rest

unfoldable pub remove_each :
    (Entity → List Entity → Outcome (List Entity))
    → List Entity
    → List Entity
    → Outcome (List Entity)
remove_each remove [] es = ok es
remove_each remove (c ∷ cs) es = remove c es >>= λ es'. remove_each remove cs es'

-- `allo_state_remove_entity`, and `allo_state_remove_entity_id` with what it returns. The fuel is the
-- depth of the recursion.
unfoldable pub remove_entity : ℕ → RemovalMode → Entity → List Entity → Outcome (List Entity)
unfolding unlink children_of unparent remove_each
remove_entity zero mode r es = out_of_fuel
remove_entity (suc fuel) cascade r es = deref (unlink r.address es) >>= λ rest.
    remove_each (remove_entity fuel cascade) (children_of r.id rest) rest
remove_entity (suc fuel) reparent r es =
    deref (unlink r.address es) >>= λ rest. ok (unparent r.id rest)

unfoldable pub remove_entity_id :
    ℕ → RemovalMode → Option String → List Entity → Outcome (List Entity × Bool)
unfolding get_entity remove_entity
remove_entity_id fuel mode i es = elim (get_entity i es) [
  | none ↦ ok (es, false)
  | some e ↦ remove_entity fuel mode e es >>= λ es'. ok (es', true)
]
