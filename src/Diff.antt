-- ===== src/Diff.antt =====
-- What has changed between two states, `_compute_merge_diff` of src/delta.c, and the list of
-- entities of a client, which follows it, `_handle_parsed_statediff` of src/client/client.c. The
-- value of a component is not looked into, but for whether it is null.
pub mod Handle
pub mod Lists
pub mod Changes
pub mod Mirror
mod Examples
use text.Mathlib.Text.{◌==◌ as str_eq}
use allonet.Common.{
  List, [], ◌∷◌, ◌++◌, Option, none, some, Bool, true, false, String, if◌then◌else◌,
}
use allonet.Common.Outcome.{Outcome, ok, wild, asserted, ◌>>=◌}

-- A cJSON object, as its keys and values in order; the code looks a value up by its key.
abbrev pub Object : Type 0 → Type 0
Object V = List (String × V)

-- `cJSON_GetObjectItemCaseSensitive`.
unfoldable pub lookup : {V : Type 0} → String → Object V → Option V
lookup k [] = none
lookup k (f ∷ fs) = let rest = lookup k fs in if str_eq k f.0 then some f.1 else rest

-- An entity in a state: its "id" and its "components"; one in a delta may be null.
pub record EntityRep (V : Type 0) : Type 0 where
  pub id : String
  pub components : Object V

pub record EntityPatch (V : Type 0) : Type 0 where
  pub is_null : Bool
  pub components : Object V

-- `allo_component_ref` and `allo_state_diff`.
pub record ComponentRef (V : Type 0) : Type 0 where
  pub eid : String
  pub name : String
  pub olddata : Option V
  pub newdata : Option V

pub record StateDiff (V : Type 0) : Type 0 where
  pub new_entities : List String
  pub deleted_entities : List String
  pub new_components : List (ComponentRef V)
  pub updated_components : List (ComponentRef V)
  pub deleted_components : List (ComponentRef V)

-- `allo_state_diff_init`.
abbrev pub no_diff : {V : Type 0} → StateDiff V
no_diff = record {
  new_entities = [];
  deleted_entities = [];
  new_components = [];
  updated_components = [];
  deleted_components = [];
}

abbrev pub components_of : {V : Type 0} → Option (EntityRep V) → Object V
components_of none = []
components_of (some e) = e.components

-- The loops over the components of an entity that is gone, and of one that is new.
unfoldable pub gone : {V : Type 0} → String → Object V → StateDiff V → StateDiff V
gone eid [] diff = diff
gone eid (c ∷ cs) diff = gone eid cs (record diff {
  deleted_components =
      diff.deleted_components
      ++ (record { eid = eid; name = c.0; olddata = some c.1; newdata = none } ∷ []);
})

unfoldable pub come : {V : Type 0} → String → Object V → StateDiff V → StateDiff V
come eid [] diff = diff
come eid (c ∷ cs) diff = come eid cs (record diff {
  new_components =
      diff.new_components
      ++ (record { eid = eid; name = c.0; olddata = none; newdata = some c.1 } ∷ []);
})

module _ {V : Type 0} (null : V → Bool) where
  abbrev pub changed : ComponentRef V → V → StateDiff V → StateDiff V
  changed ref cdesc diff =
      if null cdesc
      then record diff { deleted_components = diff.deleted_components ++ (ref ∷ []) }
      else elim ref.olddata [
        | none ↦ record diff { new_components = diff.new_components ++ (ref ∷ []) }
        | some _ ↦ record diff { updated_components = diff.updated_components ++ (ref ∷ []) }
      ]

  -- The loop over the components of an entity that has changed: those there were, those there are
  -- now, and those of the delta.
  unfoldable pub updates : String → Object V → Object V → Object V → StateDiff V → StateDiff V
  unfolding lookup
  updates eid existing newstate [] diff = diff
  updates eid existing newstate (c ∷ cs) diff =
      let ref : ComponentRef V = record {
        eid = eid;
        name = c.0;
        olddata = lookup c.0 existing;
        newdata = lookup c.0 newstate;
      } in
      updates eid existing newstate cs (changed ref c.1 diff)

  -- The body of the loop over the entities of the delta, and the loop.
  unfoldable pub entity_diff :
      Object (EntityRep V)
      → Object (EntityRep V)
      → String
      → EntityPatch V
      → StateDiff V
      → StateDiff V
  unfolding lookup gone come updates
  entity_diff existing newstate eid edesc diff =
      if edesc.is_null
      then gone eid (components_of (lookup eid existing))
          (record diff { deleted_entities = diff.deleted_entities ++ (eid ∷ []) })
      else elim (lookup eid existing) [
        | none ↦
            come eid edesc.components
              (record diff { new_entities = diff.new_entities ++ (eid ∷ []) })
        | some e ↦
            updates eid e.components (components_of (lookup eid newstate)) edesc.components diff
      ]

  unfoldable pub merge_diff :
      Object (EntityRep V)
      → Object (EntityRep V)
      → Object (EntityPatch V)
      → StateDiff V
      → StateDiff V
  unfolding entity_diff
  merge_diff existing newstate [] diff = diff
  merge_diff existing newstate (e ∷ es) diff =
      merge_diff existing newstate es (entity_diff existing newstate e.0 e.1 diff)

  -- `_compute_merge_diff` and `_compute_full_diff`: against the latest state, if that is not the one
  -- that the delta is from. `generate` gives the entities of the patch that cJSON makes.
  unfoldable pub compute_diff :
      (Object (EntityRep V) → Object (EntityRep V) → Option (Object (EntityPatch V)))
      → Bool
      → Object (EntityRep V)
      → Object (EntityRep V)
      → Object (EntityPatch V)
      → Outcome (StateDiff V)
  unfolding merge_diff
  compute_diff generate is_latest latest newstate delta =
      if is_latest
      then ok (merge_diff latest newstate delta no_diff)
      else (asserted (generate latest newstate) >>= λ patch.
          ok (merge_diff latest newstate patch no_diff))
