-- ===== src/AssetStore/Access.antt =====
-- The operations of the store: `_memstorestore_write`, `_memstore_read`, `_memstore_state`,
-- `_memstore_get_missing_ranges`, and those that register an asset and hand out its bytes.
-- `asset_memstore_init` makes the public `assetstore_*` calls go to these.
pub mod Fill
pub mod Gap
pub mod Bounds
pub mod Tracks
use mathlib.Core.Option
use allonet.Common.{
  ℕ, ◌+◌, ◌-◌, ◌^◌, List, [], ◌∷◌, ◌++◌, Option, none, some, Bool, true, false, not, ◌&&◌, ◌||◌,
  String, map, length, replicate, leb, ltb, ◌==◌, if◌then◌else◌, min,
}
use allonet.Common.Size.{add_size, sub_size}
use allonet.Common.Cjson.{Cjson}
use allonet.Common.Outcome.{Outcome, ok, wild, assert, asserted, deref, ◌>>=◌, ◌>>◌}
use allonet.Ranges.{Range, merge_range}
use allonet.Ranges.Gaps.{missing_ranges, missing_offsets}
use allonet.AssetStore.State.{
  Buffer, Asset, Assets, Store, Lru, never_prune, no_asset, memcpy_in, memcpy_out, get_asset,
  set_asset,
}
use allonet.AssetStore.Prune.{Qsort, lru_tag, lru_prune, remove}

abbrev pub is_true : Option Bool → Bool
is_true (some true) = true
is_true _ = false

abbrev pub is_some {ℓ} : {A : Type ℓ} → Option A → Bool
is_some none = false
is_some (some _) = true

-- `_merge_range`, also called with no array: `cJSON_AddItemToArray(NULL, r)` does nothing.
unfoldable pub merge_into : Option (List Range) → ℕ → ℕ → Outcome (Option (List Range))
merge_into none start end = do assert (leb start end); ok none
merge_into (some rs) start end = do rs' ← asserted (merge_range rs start end); ok (some rs')

module _ (c : Cjson) where
  open c use {valueint}

  abbrev pub spans : Range → ℕ → Bool
  spans r total = r.first == 0 && r.last == valueint total

  -- `_update_asset_state`.
  unfoldable pub update_state : Asset → Outcome Asset
  update_state a = elim a.ranges [
    | some (r ∷ []) ↦ do
      total ← deref a.total_size
      ok (
          if spans r total
          then record a { complete = Option.map (λ _. true) a.complete; ranges = none }
          else a)
    | some _ ↦ ok a
    | none ↦ ok a
  ]

  -- What a write does to the object of its asset, once there is one.
  unfoldable pub store_bytes : ℕ → List ℕ → ℕ → Asset → Outcome Asset
  unfolding merge_into update_state memcpy_in
  store_bytes offset bytes total_size a = do
    buf ← asserted a.buffer
    assert (leb (add_size offset (length bytes)) total_size)
    buf' ← memcpy_in buf offset bytes
    ranges ← merge_into a.ranges offset (add_size offset (length bytes))
    update_state (record a { buffer = some buf'; ranges = ranges })

-- The `int` that a write returns: -1, or how many bytes it was given.
pub data Written : Type 0 where
  out_of_memory : Written
  written : ℕ → Written

-- What a read returns: -1, -2, -3, or bytes; and `*out_total_size` where it was set.
pub data Reply : Type 0 where
  no_such_asset no_size : Reply
  no_data : ℕ → Reply
  bytes : Buffer → ℕ → Reply

abbrev pub new_asset : ℕ → Asset
new_asset total = record {
  complete = some false;
  total_size = some total;
  ranges = some [];
  buffer = some (replicate total none);
  lru = none;
}

-- What `_memstore_state` writes to its out-parameters; `none` is left as the caller had it.
pub record AssetStatus : Type 0 where
  pub exists : Bool
  pub complete : Bool
  pub regions : Option ℕ
  pub total_size : Option ℕ

-- ULONG_MAX
abbrev pub no_limit : ℕ
no_limit = 2 ^ 64 - 1

module _ (c : Cjson) where
  open c use {valueint}

  -- `_missing_ranges_count`, of an asset that is there.
  unfoldable pub missing_ranges_count : Asset → Outcome ℕ
  missing_ranges_count a = if is_true a.complete then ok 0 else (do
    ranges ← asserted a.ranges
    total ← asserted a.total_size
    ok (length (missing_ranges ranges (valueint total) no_limit)))

  abbrev pub count_regions : Bool → Asset → Outcome (Option ℕ)
  count_regions true a = do n ← missing_ranges_count a; ok (some n)
  count_regions false a = ok none

  -- `_memstore_state`; `regions` says whether the caller passed `out_regions_count`.
  unfoldable pub memstore_state : Bool → String → Assets → Outcome AssetStatus
  unfolding missing_ranges_count
  memstore_state regions id s = elim (get_asset c id s) [
    | none ↦ ok (record { exists = false; complete = false; regions = none; total_size = none })
    | some a ↦ do
      count ← count_regions regions a
      ok (record {
        exists = true;
        complete = is_true a.complete;
        regions = count;
        total_size = Option.map valueint a.total_size;
      })
  ]

  -- `_memstore_get_missing_ranges`: what it writes to `out_ranges`, two numbers to a range.
  unfoldable pub memstore_missing_ranges : String → ℕ → Assets → Outcome (List ℕ)
  memstore_missing_ranges id count s = if count == 0 then ok [] else elim (get_asset c id s) [
    | none ↦ ok []
    | some a ↦ do
      total ← asserted a.total_size
      ranges ← asserted a.ranges
      ok (missing_offsets ranges (valueint total) count)
  ]

  -- `asset_memstore_get_data_pointer`, read through to the buffer that it points to.
  unfoldable pub get_data_pointer : String → Assets → Option Buffer
  get_data_pointer id s = elim (get_asset c id s) [
    | none ↦ none
    | some a ↦ if is_true a.complete then a.buffer else none
  ]

-- `allocates` says whether `malloc` succeeds; `now` is `get_ts_monod()`.
module _ (c : Cjson) (q : Qsort) where
  unfoldable pub finish_write :
      ℕ → String → ℕ → List ℕ → ℕ → Asset → Store → Outcome (Store × Written)
  finish_write now id offset data' total a s = do
    a' ← store_bytes c offset data' total a
    s' ← lru_prune c q now (record s { assets = set_asset c id (lru_tag now a') s.assets })
    ok (s', written (length data'))

  -- `_memstorestore_write`.
  unfoldable pub memstore_write :
      (ℕ → Bool) → ℕ → String → ℕ → List ℕ → ℕ → Store → Outcome (Store × Written)
  unfolding finish_write
  memstore_write allocates now id offset data' total s = elim (get_asset c id s.assets) [
    | some a ↦ do
      assert (is_some a.ranges || is_true a.complete)
      assert (is_some a.buffer)
      finish_write now id offset data' total a s
    | none ↦
        if allocates total
        then finish_write now id offset data' total (new_asset total)
            (record s { assets = s.assets ++ ((id, new_asset total) ∷ []) })
        else ok (record s { assets = s.assets ++ ((id, no_asset) ∷ []) }, out_of_memory)
  ]

  -- `_memstore_read`.
  unfoldable pub memstore_read : ℕ → String → ℕ → ℕ → Store → Outcome (Store × Reply)
  memstore_read now id offset len s = elim (get_asset c id s.assets) [
    | none ↦ ok (s, no_such_asset)
    | some a ↦ elim a.total_size [
      | none ↦ ok (s, no_size)
      | some total ↦ elim a.buffer [
        | none ↦ ok (s, no_data total)
        | some buf ↦ do
          got ← memcpy_out buf offset (min len (sub_size total offset))
          s' ← lru_prune c q now (record s { assets = set_asset c id (lru_tag now a) s.assets })
          ok (s', bytes got total)
      ]
    ]
  ]

-- `asset_memstore_register_asset_nocopy`; the id comes from `asset_generate_identifier`, a hash.
unfoldable pub register_nocopy : (List ℕ → String) → List ℕ → Assets → Assets
register_nocopy identify data' s = remove id s ++ ((id, registered) ∷ [])
  where
    id : String
    id = identify data'

    registered : Asset
    registered = record {
      complete = some true;
      total_size = some (length data');
      ranges = none;
      buffer = some (map some data');
      lru = some never_prune;
    }
