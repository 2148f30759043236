-- ===== src/AssetStore/Access/Bounds.antt =====
-- How `_memstore_read` and `_memstorestore_write` access the buffers of assets.
use allonet.Common.{
  ℕ, ◌+◌, ◌-◌, ◌^◌, ◌≤◌, ◌<◌, ◌≡◌, ◌%◌, ◌↔◌, List, some, Bool, true, false, String, length, take,
  drop, leb, arith, min, ◌||◌,
}
use allonet.Common.Size.{sub_size, add_size}
use allonet.Common.Cjson.{Cjson}
use allonet.Common.Outcome.{ok, wild, ◌>>=◌}
use allonet.AssetStore.State.{Buffer, Asset, Store, get_asset, set_asset, memcpy_in, memcpy_out}
use allonet.AssetStore.Prune.{Qsort, lru_tag, lru_prune}
use allonet.AssetStore.Access.{store_bytes, memstore_read, memstore_write, bytes, is_some, is_true}

module _ (c : Cjson) (q : Qsort) (now : ℕ) (id : String) (s : Store) (a : Asset) (buf : Buffer)
    (found : get_asset c id s.assets ≡ some a) (there : a.buffer ≡ some buf) where
  -- A read that starts inside the asset returns the bytes from there on, at most as many as are
  -- left, and the total size; it marks the asset as used, and then prunes.
  pub memstore_read_inside :
      (offset len : ℕ)
      → a.total_size ≡ some (length buf)
      → offset ≤ length buf
      → length buf < 2 ^ 64
      → memstore_read c q now id offset len s ≡ (
          lru_prune c q now (record s { assets = set_asset c id (lru_tag now a) s.assets })
          >>= λ s'.
              ok (s', bytes (take (min len (length buf - offset)) (drop offset buf)) (length buf)))
  unfolding memstore_read memcpy_out
  memstore_read_inside offset len total h l =
      let left : sub_size (length buf) offset ≡ length buf - offset = omega arith in
      let fits : leb (offset + min len (length buf - offset)) (length buf) ≡ true = ground arith in
      simp (found, memstore_read, total, there, left, fits)

  -- A read that starts behind the end is not refused: `*out_total_size - offset` wraps, so that it
  -- reads memory behind the buffer.
  pub memstore_read_behind :
      (offset len : ℕ)
      → a.total_size ≡ some (length buf)
      → length buf < offset
      → offset < 2 ^ 64
      → 0 < len
      → memstore_read c q now id offset len s ≡ wild
  unfolding memstore_read memcpy_out
  memstore_read_behind offset len total h l pos =
      let out : leb (offset + min len (sub_size (length buf) offset)) (length buf) ≡ false =
        ground arith in
      rw (found, memstore_read, total, there, out)

  -- A later chunk of an asset may claim another total size than the first did. The store checks
  -- the chunk against the size that it claims, and not against the buffer, and writes past its end.
  pub memstore_write_behind :
      (allocates : ℕ → Bool) (offset total : ℕ) (data' : List ℕ)
      → (is_some a.ranges || is_true a.complete) ≡ true
      → length buf < offset + length data'
      → offset + length data' ≤ total
      → total < 2 ^ 64
      → memstore_write c q allocates now id offset data' total s ≡ wild
  unfolding memstore_write store_bytes
  memstore_write_behind allocates offset total data' known h le l =
      let sum : add_size offset (length data') ≡ offset + length data' = omega arith in
      let passes : leb (offset + length data') total ≡ true = ground arith in
      let out : leb (offset + length data') (length buf) ≡ false = ground arith in
      rw (found, memstore_write, known, there, sum, passes, out)

-- A chunk of an asset whose size is that of its buffer, below 2^64 bytes, is written outside of the
-- buffer exactly where the sum of its offset and its length wraps around, and what is left of the sum
-- is within the size: then the assertion on it passes.
pub store_bytes-wild :
    (c : Cjson) (a : Asset) (buf : Buffer) (offset : ℕ) (data' : List ℕ)
    → a.buffer ≡ some buf
    → a.total_size ≡ some (length buf)
    → length buf < 2 ^ 64
    → (store_bytes c offset data' (length buf) a ≡ wild)
      ↔ ((2 ^ 64 ≤ offset + length data') × ((offset + length data') % 2 ^ 64 ≤ length buf))
unfolding store_bytes memcpy_in
store_bytes-wild c a buf offset data' there total l =
    (λ e. (ground (arith, e), ground (arith, e)), λ h. ground (arith, h))
