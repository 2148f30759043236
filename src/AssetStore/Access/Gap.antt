-- ===== src/AssetStore/Access/Gap.antt =====
-- Two chunks of an asset with a byte missing between them, src/assetstore.c.
use mathlib.Core.List.{append-nil, append_assoc}
use allonet.Common.{
  ℕ, suc, ◌+◌, ◌-◌, ◌<◌, ◌≡◌, refl, ap, List, [], ◌∷◌, ◌++◌, none, some, true, false, map, take,
  drop, replicate, length, leb, ◌==◌, arith,
}
use allonet.Common.Size.{int_limit, add_size}
use allonet.Common.Cjson.{Cjson}
use allonet.Common.Outcome.{ok, ◌>>=◌}
use allonet.Ranges.Place.{range}
use allonet.Ranges.Merge.{merge_range_first, merge_range_extend}
use allonet.AssetStore.State.{Buffer, memcpy_in}
use allonet.AssetStore.Access.{store_bytes, new_asset}
use allonet.AssetStore.Access.Fill.{
  filled, filling, drop-map, drop-replicate, length-filled, store_bytes-filling,
}

take-map_suc :
    (front : List ℕ) (tail : Buffer)
    → take (length front + 1) (map some front ++ (none ∷ tail)) ≡ map some front ++ (none ∷ [])
take-map_suc [] tail = refl
take-map_suc (x ∷ front) tail =
    let e : suc (length front) + 1 ≡ suc (length front + 1) = omega arith in
    rw e (ap (λ l. some x ∷ l) (take-map_suc front tail))

drop_past :
    (front back : List ℕ)
    → drop (length front + 1 + length back) (filled front (suc (length back))) ≡ []
drop_past front back =
    let e : length front + 1 + length back ≡ length front + suc (length back) = omega arith in
    let z : length back - length back ≡ 0 = omega arith in
    rw (
      e,
      drop-map front (suc (length back)) (none ∷ replicate (length back) none),
      drop-replicate (length back) (length back),
      z,
    )

append_assoc-none : (xs ys : Buffer) → (xs ++ (none ∷ [])) ++ (ys ++ []) ≡ xs ++ (none ∷ ys)
append_assoc-none xs ys = rw (append_assoc, append-nil)

-- A write that leaves out the byte at `length front`, and goes on to the end.
memcpy_in_past :
    (front back : List ℕ)
    → memcpy_in (filled front (suc (length back))) (length front + 1) back
      ≡ ok (map some front ++ (none ∷ map some back))
unfolding memcpy_in
memcpy_in_past front back =
    rw (take-map_suc front (replicate (length back) none), drop_past front back)
      (ground (
        arith,
        append_assoc-none (map some front) (map some back),
        length-filled front (suc (length back)),
      ))

module _ (c : Cjson) (n : ℕ) (small : n < int_limit) (front back : List ℕ)
    (total : n ≡ length front + 1 + length back) where
  behind_gap :
      store_bytes c
        (length front + 1)
        back
        n
        (filling (range 0 (length front) ∷ []) front (suc (length back)) n)
      ≡ ok (record (new_asset n) {
        complete = some true;
        ranges = none;
        buffer = some (map some front ++ (none ∷ map some back));
      })
  unfolding store_bytes
  behind_gap =
      let sum : add_size (length front + 1) (length back) ≡ n = omega arith in
      let room : leb n n ≡ true = ground arith in
      let merged =
        merge_range_extend (length front) (length front + 1) n (omega arith) (omega arith)
          (omega arith) (omega arith) small in
      rw (sum, room, memcpy_in_past front back, merged) (ground (arith, c.valueint_small n small))

  -- A byte that was never sent goes unnoticed: a range records one byte more than was written, so
  -- two chunks with one byte missing between them count as the whole asset.
  pub store_bytes_gap :
      0 < length front
      → (store_bytes c 0 front n (new_asset n) >>= store_bytes c (length front + 1) back n)
        ≡ ok (record (new_asset n) {
          complete = some true;
          ranges = none;
          buffer = some (map some front ++ (none ∷ map some back));
        })
  store_bytes_gap ne =
      let step =
        store_bytes-filling c n small [] [] front n (length front) (omega arith) (omega arith)
          (omega arith) (merge_range_first (length front) (omega arith)) in
      let more : (length front == n) ≡ false = ground arith in
      let left : n - length front ≡ suc (length back) = omega arith in
      rw (step, more, left) behind_gap
