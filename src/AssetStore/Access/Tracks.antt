-- ===== src/AssetStore/Access/Tracks.antt =====
-- The ranges of an asset and the bytes of its buffer, under `_memstorestore_write`.

use mathlib.Core.Option
use allonet.Common.{
  if◌then◌else◌, ℕ, zero, suc, ◌+◌, ◌-◌, ◌≤◌, ◌<◌, ◌≡◌, refl, List, [], ◌∷◌, ◌++◌, Option, none,
  some, Bool, true, false, ◌&&◌, ◌||◌, map, take, drop, length, get_elem?, leb, ltb, arith,
  Bool-cases, inl, inr, ◌⊎◌, length-append, length-map, length-take, length-drop,
}
use allonet.Common.Size.{int_limit, add_size}
use allonet.Common.Cjson.{Cjson}
use allonet.Common.Outcome.{ok}
use allonet.Ranges.{Range}
use allonet.Ranges.View.{covers, IsRanges}
use allonet.Ranges.Merge.{Adds, merge_range-Adds}
use allonet.AssetStore.State.{Buffer, Asset, memcpy_in}
use allonet.AssetStore.Access.{store_bytes, update_state, spans}

abbrev pub is_byte : Option (Option ℕ) → Bool
is_byte (some (some b)) = true
is_byte (some none) = false
is_byte none = false

-- Has the byte at `x` been written?
abbrev pub is_written : Buffer → ℕ → Bool
is_written buf x = is_byte (get_elem? buf x)

abbrev overwritten : Buffer → ℕ → List ℕ → Buffer
overwritten buf offset bytes =
    take offset buf ++ (map some bytes ++ drop (offset + length bytes) buf)

is_written-front :
    (buf : Buffer) (bytes : List ℕ) (x : ℕ)
    → length bytes ≤ length buf
    → is_written (map some bytes ++ drop (length bytes) buf) x
      ≡ (ltb x (length bytes) || is_written buf x)
is_written-front buf [] x h = ground arith
is_written-front [] (b ∷ bytes) x h = absurd (omega arith)
is_written-front (y ∷ buf) (b ∷ bytes) zero h = ground arith
is_written-front (y ∷ buf) (b ∷ bytes) (suc x) h = ground (arith, is_written-front buf bytes x)

is_written-overwritten :
    (buf : Buffer) (offset : ℕ) (bytes : List ℕ) (x : ℕ)
    → offset + length bytes ≤ length buf
    → is_written (overwritten buf offset bytes) x
      ≡ (leb offset x && ltb x (offset + length bytes) || is_written buf x)
is_written-overwritten buf zero bytes x h =
    let e : 0 + length bytes ≡ length bytes = omega arith in
    rw e (ground (arith, is_written-front buf bytes x))
is_written-overwritten [] (suc offset) bytes x h = absurd (omega arith)
is_written-overwritten (y ∷ buf) (suc offset) bytes zero h = ground arith
is_written-overwritten (y ∷ buf) (suc offset) bytes (suc x) h =
    let e : suc offset + length bytes ≡ suc (offset + length bytes) = omega arith in
    rw e (ground (arith, is_written-overwritten buf offset bytes x (omega arith)))

-- The byte at `x` after `bytes` have been written at `offset`.
abbrev pub byte_after : Buffer → ℕ → List ℕ → ℕ → Option (Option ℕ)
byte_after buf offset bytes x =
    if leb offset x && ltb x (offset + length bytes)
    then Option.map (λ b. some b) (get_elem? bytes (x - offset))
    else get_elem? buf x

get_elem?-front :
    (buf : Buffer) (bytes : List ℕ) (x : ℕ)
    → length bytes ≤ length buf
    → get_elem? (map some bytes ++ drop (length bytes) buf) x ≡ byte_after buf 0 bytes x
get_elem?-front buf [] x h = ground arith
get_elem?-front [] (b ∷ bytes) x h = absurd (omega arith)
get_elem?-front (y ∷ buf) (b ∷ bytes) zero h = ground arith
get_elem?-front (y ∷ buf) (b ∷ bytes) (suc x) h =
    let e : x - 0 ≡ x = omega arith in
    let f : suc x - 0 ≡ suc x = omega arith in ground (arith, e, f, get_elem?-front buf bytes x)

get_elem?-overwritten :
    (buf : Buffer) (offset : ℕ) (bytes : List ℕ) (x : ℕ)
    → offset + length bytes ≤ length buf
    → get_elem? (overwritten buf offset bytes) x ≡ byte_after buf offset bytes x
get_elem?-overwritten buf zero bytes x h =
    let e : 0 + length bytes ≡ length bytes = omega arith in
    rw e (ground (arith, get_elem?-front buf bytes x (omega arith)))
get_elem?-overwritten [] (suc offset) bytes x h = absurd (omega arith)
get_elem?-overwritten (y ∷ buf) (suc offset) bytes zero h = ground arith
get_elem?-overwritten (y ∷ buf) (suc offset) bytes (suc x) h =
    let e : suc offset + length bytes ≡ suc (offset + length bytes) = omega arith in
    let f : suc x - suc offset ≡ x - offset = omega arith in
    rw (e, f) (ground (arith, get_elem?-overwritten buf offset bytes x (omega arith)))

length-overwritten :
    (buf : Buffer) (offset : ℕ) (bytes : List ℕ)
    → offset + length bytes ≤ length buf
    → length (overwritten buf offset bytes) ≡ length buf
length-overwritten buf offset bytes h = omega (
  arith,
  length-append (take offset buf) (map some bytes ++ drop (offset + length bytes) buf),
  length-append (map some bytes) (drop (offset + length bytes) buf),
  length-take offset buf,
  length-map bytes (λ (b : ℕ). some b),
  length-drop (offset + length bytes) buf,
)

-- The ranges cover every byte that is written; and nothing else but, at times, the byte behind it.
pub record Agrees (n : ℕ) (buf : Buffer) (rs : List Range) : Type 0 where
  pub size : length buf ≡ n
  pub ranges : IsRanges rs
  pub recorded : (x : ℕ) → is_written buf x ≡ true → covers rs x ≡ true
  pub honest : (x : ℕ) → covers rs x ≡ true → (is_written buf x || is_written buf (x - 1)) ≡ true

-- An asset that is being written, and one that counts as complete.
abbrev pub partial : Asset → ℕ → Buffer → List Range → Asset
partial a n buf rs = record a {
  complete = some false;
  total_size = some n;
  ranges = some rs;
  buffer = some buf;
}

abbrev pub completed : Asset → ℕ → Buffer → Asset
completed a n buf = record a {
  complete = some true;
  total_size = some n;
  ranges = none;
  buffer = some buf;
}

module _ (n offset : ℕ) (bytes : List ℕ) (buf : Buffer) (rs rs' : List Range)
    (some_bytes : 0 < length bytes) (fits : offset + length bytes ≤ n) (v : Agrees n buf rs)
    (added : Adds rs offset (offset + length bytes) rs') where
  Agrees-overwritten : Agrees n (overwritten buf offset bytes) rs'
  Agrees-overwritten = record {
    size = omega (arith, v.size, length-overwritten buf offset bytes (omega (arith, v.size)));
    ranges = added.ranges;
    recorded = λ x w.
        ground
          (arith, v.size, added.adds x, v.recorded x, is_written-overwritten buf offset bytes x);
    honest = λ x w. ground (
      arith,
      v.size,
      added.adds x,
      v.honest x,
      is_written-overwritten buf offset bytes x,
      is_written-overwritten buf offset bytes (x - 1),
    );
  }

-- What becomes of an asset that is being written.
abbrev pub Written : Asset → ℕ → Buffer → Asset → Type 0
Written a n buf a' =
    ((rs : List Range) × (a' ≡ partial a n buf rs) × Agrees n buf rs)
    ⊎ (a' ≡ completed a n buf)
      × ((x : ℕ) → x < n → (is_written buf x || is_written buf (x - 1)) ≡ true)

module _ (c : Cjson) (a : Asset) (n : ℕ) (small : n < int_limit) where
  update_state-Written :
      (buf : Buffer) (rs : List Range)
      → Agrees n buf rs
      → (a' : Asset) × (update_state c (partial a n buf rs) ≡ ok a') × Written a n buf a'
  unfolding update_state covers
  update_state-Written buf [] v = (partial a n buf [], refl, inl ([], refl, v))
  update_state-Written buf (r ∷ s ∷ rs) v =
      (partial a n buf (r ∷ s ∷ rs), refl, inl (r ∷ s ∷ rs, refl, v))
  update_state-Written buf (r ∷ []) v = elim (Bool-cases (spans c r n)) [
    | inl whole ↦ (
      completed a n buf,
      rw whole,
      inr (refl, λ x l. ground (arith, v.honest x, whole, c.valueint_small n small)),
    )
    | inr part ↦ (partial a n buf (r ∷ []), rw part, inl (r ∷ [], refl, v))
  ]

  -- Whatever chunk of an asset below 2^31 bytes arrives, of at least one byte and within its size:
  -- the buffer then has its bytes in its place, and what it had before in every other. Then either
  -- the ranges agree with the buffer as before, or the asset counts as complete; in that case each
  -- byte, or the one before it, is written.
  pub store_bytes-Written :
      (buf : Buffer) (rs : List Range) (offset : ℕ) (bytes : List ℕ)
      → Agrees n buf rs
      → 0 < length bytes
      → offset + length bytes ≤ n
      → (a' : Asset) × (buf' : Buffer) × (store_bytes c offset bytes n (partial a n buf rs) ≡ ok a')
        × ((x : ℕ) → get_elem? buf' x ≡ byte_after buf offset bytes x)
        × Written a n buf' a'
  unfolding store_bytes memcpy_in
  store_bytes-Written buf rs offset bytes v pos fits =
      let e = offset + length bytes in
      let buf' = overwritten buf offset bytes in
      let (rs', merged, added) =
        merge_range-Adds rs offset e v.ranges (omega arith) (omega arith) in
      let (a', updated, w) =
        update_state-Written buf' rs'
          (Agrees-overwritten n offset bytes buf rs rs' pos fits v added) in
      let sum : add_size offset (length bytes) ≡ e = omega arith in
      let room : leb e n ≡ true = ground arith in
      let copied : memcpy_in buf offset bytes ≡ ok buf' = ground (arith, v.size) in
      (
        a',
        buf',
        rw (sum, room, copied, merged) updated,
        λ x. get_elem?-overwritten buf offset bytes x (omega (arith, v.size)),
        w,
      )
