-- ===== src/AssetStore/Access/Fill.antt =====
-- `_memstorestore_write` of one chunk behind the other.

use mathlib.Core.List.{flatten, append-nil, append_assoc, map-append}
use allonet.Common.{
  ℕ, zero, suc, ◌+◌, ◌-◌, ◌≤◌, ◌<◌, ◌≡◌, refl, ap, List, [], ◌∷◌, ◌++◌, Option, none, some, true,
  false, map, take, drop, replicate, length, leb, ◌==◌, if◌then◌else◌, arith, length-append,
  length-map, length-replicate,
}
use allonet.Common.Size.{int_limit, add_size}
use allonet.Common.All.{All}
use allonet.Common.Cjson.{Cjson}
use allonet.Common.Outcome.{Outcome, ok, ◌>>=◌}
use allonet.Ranges.{Range, merge_range}
use allonet.Ranges.Place.{range}
use allonet.Ranges.Merge.{merge_range_first, merge_range_extend}
use allonet.AssetStore.State.{Buffer, Asset, memcpy_in}
use allonet.AssetStore.Access.{store_bytes, new_asset}

-- A buffer whose first bytes are written.
abbrev pub filled : List ℕ → ℕ → Buffer
filled front rest = map some front ++ replicate rest none

pub take-map :
    (front : List ℕ) (tail : Buffer) → take (length front) (map some front ++ tail) ≡ map some front
take-map [] tail = refl
take-map (x ∷ front) tail = ap (λ l. some x ∷ l) (take-map front tail)

pub drop-map :
    (front : List ℕ) (k : ℕ) (tail : Buffer)
    → drop (length front + k) (map some front ++ tail) ≡ drop k tail
drop-map [] k tail = let e : 0 + k ≡ k = omega arith in rw e refl
drop-map (x ∷ front) k tail =
    let e : suc (length front) + k ≡ suc (length front + k) = omega arith in
    rw e (drop-map front k tail)

pub drop-replicate : (k n : ℕ) → drop k (replicate {A = Option ℕ} n none) ≡ replicate (n - k) none
drop-replicate zero n = let e : n - 0 ≡ n = omega arith in rw e refl
drop-replicate (suc k) zero = let e : 0 - suc k ≡ 0 = omega arith in rw e refl
drop-replicate (suc k) (suc n) =
    let e : suc n - suc k ≡ n - k = omega arith in rw e (drop-replicate k n)

pub length-filled : (front : List ℕ) (rest : ℕ) → length (filled front rest) ≡ length front + rest
length-filled front rest = omega (
  arith,
  length-append (map some front) (replicate rest none),
  length-map front (λ (b : ℕ). some b),
  length-replicate {A = Option ℕ} rest none,
)

-- A write that starts where the written bytes end.
pub memcpy_in-filled :
    (front bytes : List ℕ) (rest : ℕ)
    → length bytes ≤ rest
    → memcpy_in (filled front rest) (length front) bytes
      ≡ ok (filled (front ++ bytes) (rest - length bytes))
unfolding memcpy_in
memcpy_in-filled front bytes rest h =
    rw
      (
        take-map front (replicate rest none),
        drop-map front (length bytes) (replicate rest none),
        drop-replicate (length bytes) rest,
      )
      (ground (
        arith,
        length-filled front rest,
        map-append (λ (b : ℕ). some b) front bytes,
        append_assoc (map some front) (map some bytes) (replicate (rest - length bytes) none),
      ))

-- An asset of `n` bytes of which `front` is there, recorded as `ranges`; and one that has it all.
abbrev pub filling : List Range → List ℕ → ℕ → ℕ → Asset
filling ranges front rest n = record {
  complete = some false;
  total_size = some n;
  ranges = some ranges;
  buffer = some (filled front rest);
  lru = none;
}

abbrev pub finished : List ℕ → ℕ → ℕ → Asset
finished front rest n = record {
  complete = some true;
  total_size = some n;
  ranges = none;
  buffer = some (filled front rest);
  lru = none;
}

module _ (c : Cjson) (n : ℕ) where
  -- Chunks written one behind the other, as `asset_handle` asks for them.
  pub write_chunks : ℕ → List (List ℕ) → Asset → Outcome Asset
  write_chunks offset [] a = ok a
  write_chunks offset (b ∷ bs) a =
      store_bytes c offset b n a >>= write_chunks (offset + length b) bs

  write_chunks-cons :
      (offset : ℕ) (b : List ℕ) (bs : List (List ℕ)) (a : Asset)
      → write_chunks offset (b ∷ bs) a
        ≡ (store_bytes c offset b n a >>= write_chunks (offset + length b) bs)
  unfolding write_chunks
  write_chunks-cons offset b bs a = refl

  write_chunks-nil : (offset : ℕ) (a : Asset) → write_chunks offset [] a ≡ ok a
  unfolding write_chunks
  write_chunks-nil offset a = refl

module _ (c : Cjson) (n : ℕ) (small : n < int_limit) where
  -- One chunk that starts where the written bytes end, and that merges into one range.
  pub store_bytes-filling :
      (rs : List Range) (front bytes : List ℕ) (rest e : ℕ)
      → length front + rest ≡ n
      → length bytes ≤ rest
      → e ≡ length front + length bytes
      → merge_range rs (length front) e ≡ some (range 0 e ∷ [])
      → store_bytes c (length front) bytes n (filling rs front rest n)
        ≡ ok (
            if e == n
            then finished (front ++ bytes) (rest - length bytes) n
            else filling (range 0 e ∷ []) (front ++ bytes) (rest - length bytes) n)
  unfolding store_bytes
  store_bytes-filling rs front bytes rest e total fits he merged =
      let sum : add_size (length front) (length bytes) ≡ e = omega arith in
      let room : leb e n ≡ true = ground arith in
      rw (sum, room, memcpy_in-filled front bytes rest fits, merged)
        (ground (arith, c.valueint_small n small))

  -- What the chunks before have left is one range, or nothing yet.
  abbrev Carries : List Range → ℕ → Type 0
  Carries rs s = (e : ℕ) → s < e → e < int_limit → merge_range rs s e ≡ some (range 0 e ∷ [])

  Carries-range : (k : ℕ) → 0 < k → Carries (range 0 k ∷ []) k
  Carries-range k pos e h l =
      merge_range_extend k k e pos (omega arith) (omega arith) (omega arith) l

  write_chunks-filling :
      (rs : List Range) (front b : List ℕ) (bs : List (List ℕ)) (rest : ℕ)
      → Carries rs (length front)
      → length front + rest ≡ n
      → rest ≡ length b + length (flatten bs)
      → 0 < length b
      → All (λ d. 0 < length d) bs
      → write_chunks c n (length front) (b ∷ bs) (filling rs front rest n)
        ≡ ok (finished (front ++ (b ++ flatten bs)) 0 n)
  unfolding flatten
  write_chunks-filling rs front b [] rest carries total left ne nes =
      let e = length front + length b in
      let step =
        store_bytes-filling rs front b rest e total (omega arith) refl
          (carries e (omega arith) (omega arith)) in
      ground (
        arith,
        write_chunks-cons c n (length front) b [] (filling rs front rest n),
        step,
        write_chunks-nil c n e (finished (front ++ b) (rest - length b) n),
        append-nil b,
      )
  write_chunks-filling rs front b (d ∷ bs) rest carries total left ne nes =
      let e = length front + length b in
      let step =
        store_bytes-filling rs front b rest e total (omega arith) refl
          (carries e (omega arith) (omega arith)) in
      let la : length (front ++ b) ≡ e = length-append front b in
      let more : (e == n) ≡ false = ground (arith, length-append d (flatten bs)) in
      rw (write_chunks-cons c n (length front) b (d ∷ bs), step, more)
        (rw (← la) (
          rw (← append_assoc front b (d ++ flatten bs)) (
            write_chunks-filling (range 0 (length (front ++ b)) ∷ []) (front ++ b) d bs
              (rest - length b) (Carries-range (length (front ++ b)) (omega (arith, la)))
              (omega (arith, la)) (omega (arith, length-append d (flatten bs))) nes.0 nes.1)))

  -- A download in order, of an asset below 2^31 bytes: if the chunks, none of them empty, make up the
  -- whole size, the asset ends complete, and its buffer holds the chunks one behind the other.
  pub write_chunks_in_order :
      (b : List ℕ) (bs : List (List ℕ))
      → n ≡ length (flatten (b ∷ bs))
      → 0 < length b
      → All (λ d. 0 < length d) bs
      → write_chunks c n 0 (b ∷ bs) (new_asset n) ≡ ok (finished (flatten (b ∷ bs)) 0 n)
  unfolding flatten
  write_chunks_in_order b bs total ne nes =
      write_chunks-filling [] [] b bs n (λ e pos l. merge_range_first e l) (omega arith)
        (omega (arith, length-append b (flatten bs))) ne nes
