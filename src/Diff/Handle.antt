-- ===== src/Diff/Handle.antt =====
-- `_handle_parsed_statediff`, src/client/client.c, and `state_get_entity`, src/state.c: the list of
-- entities of a client.
use text.Mathlib.Text.{◌==◌ as str_eq}
use allonet.Common.{List, [], ◌∷◌, Option, none, some, String, if◌then◌else◌}
use allonet.Common.Outcome.{Outcome, ok, wild, ◌>>=◌}
use allonet.Diff.{Object, EntityRep, StateDiff}

-- `allo_entity`; its components are NULL when it has just been made.
pub record Entity (V : Type 0) : Type 0 where
  pub id : String
  pub components : Option (Object V)

module _ {V : Type 0} where
  -- `state_get_entity`.
  unfoldable pub get_entity_from : String → List (Entity V) → Option (Entity V)
  get_entity_from i [] = none
  get_entity_from i (e ∷ es) =
      let rest = get_entity_from i es in if str_eq i e.id then some e else rest

  unfoldable pub state_get_entity : String → List (Entity V) → Option (Entity V)
  unfolding get_entity_from
  state_get_entity i es = if str_eq i "" then none else get_entity_from i es

  unfoldable pub create_each : List String → List (Entity V) → List (Entity V)
  create_each [] es = es
  create_each (i ∷ is) es = create_each is (record { id = i; components = none } ∷ es)

  -- `LIST_REMOVE` of the entity that was found.
  unfoldable pub remove_found : String → List (Entity V) → List (Entity V)
  remove_found i [] = []
  remove_found i (e ∷ es) = let rest = remove_found i es in if str_eq i e.id then es else e ∷ rest

  unfoldable pub delete_each : List String → List (Entity V) → Outcome (List (Entity V))
  unfolding state_get_entity remove_found
  delete_each [] es = ok es
  delete_each (i ∷ is) es = elim (state_get_entity i es) [
    | some _ ↦ delete_each is (remove_found i es)
    | none ↦ wild
  ]

  unfoldable pub set_components : String → Object V → List (Entity V) → List (Entity V)
  set_components i cs [] = []
  set_components i cs (e ∷ es) =
      let rest = set_components i cs es in
      if str_eq i e.id then record e { components = some cs } ∷ es else e ∷ rest

  unfoldable pub update_each : Object (EntityRep V) → List (Entity V) → Outcome (List (Entity V))
  unfolding state_get_entity set_components
  update_each [] es = ok es
  update_each (f ∷ fs) es = elim (state_get_entity f.1.id es) [
    | some _ ↦ update_each fs (set_components f.1.id f.1.components es)
    | none ↦ wild
  ]

  -- The three loops, over what is new, what is gone, and all that there is now.
  unfoldable pub handle :
      Object (EntityRep V) → StateDiff V → List (Entity V) → Outcome (List (Entity V))
  unfolding create_each delete_each update_each
  handle newstate diff es =
      delete_each diff.deleted_entities (create_each diff.new_entities es) >>= update_each newstate
