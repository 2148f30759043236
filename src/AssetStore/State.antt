-- ===== src/AssetStore/State.antt =====
-- The state of an asset store. `store->state`, a cJSON object from asset id to an object with the
-- fields below, is an association list; a field that an object can lack is an option. A mutex is
-- held over each operation, so each is one step. Times are whole milliseconds.

use allonet.Common.{
  ℕ, ◌+◌, List, [], ◌∷◌, ◌++◌, Option, none, some, Bool, String, map, length, take, drop, leb,
  if◌then◌else◌,
}
use allonet.Common.Cjson.{Cjson}
use allonet.Common.Outcome.{Outcome, ok, wild}
use allonet.Ranges.{Range}

-- `lru` is the time of the last use, or `true`, "which means never prune".
pub data Lru : Type 0 where
  stamp : ℕ → Lru
  never_prune : Lru

-- A byte of a `malloc`ed buffer is `none` until it is written.
abbrev pub Buffer : Type 0
Buffer = List (Option ℕ)

pub record Asset : Type 0 where
  pub complete : Option Bool
  pub total_size : Option ℕ
  pub ranges : Option (List Range)
  pub buffer : Option Buffer
  pub lru : Option Lru

abbrev pub Assets : Type 0
Assets = List (String × Asset)

pub record Store : Type 0 where
  pub assets : Assets
  pub use_cache : Bool
  pub cache_count : ℕ
  pub cache_size : ℕ
  pub next_state_prune : ℕ

-- `cJSON_AddObjectToObject`: nothing is known of the asset yet.
abbrev pub no_asset : Asset
no_asset = record { complete = none; total_size = none; ranges = none; buffer = none; lru = none }

-- `memcpy` into and out of a buffer; past its end is undefined.
unfoldable pub memcpy_in : Buffer → ℕ → List ℕ → Outcome Buffer
memcpy_in buf offset bytes =
    if leb (offset + length bytes) (length buf)
    then ok (take offset buf ++ (map some bytes ++ drop (offset + length bytes) buf))
    else wild

unfoldable pub memcpy_out : Buffer → ℕ → ℕ → Outcome Buffer
memcpy_out buf offset n =
    if leb (offset + n) (length buf) then ok (take n (drop offset buf)) else wild

module _ (c : Cjson) where
  open c use {same_key}

  -- `cJSON_GetObjectItem(store->state, asset_id)`.
  unfoldable pub get_asset : String → Assets → Option Asset
  get_asset id [] = none
  get_asset id ((k, a) ∷ rest) = if same_key id k then some a else get_asset id rest

  -- Writes through the pointer that `get_asset` returned.
  unfoldable pub set_asset : String → Asset → Assets → Assets
  set_asset id a [] = []
  set_asset id a ((k, b) ∷ rest) =
      if same_key id k then (k, a) ∷ rest else (k, b) ∷ set_asset id a rest
