-- ===== src/Ranges/Search.antt =====
-- The binary search of `_merge_range`.
use mathlib.Core.Option
use allonet.Common.{
  ℕ, zero, suc, ◌+◌, ◌-◌, ◌/◌, ◌≤◌, ◌<◌, ◌≡◌, refl, List, [], ◌∷◌, some, arith, take, drop, ◌⊎◌,
  inl, inr, Bool-cases, length, get_elem?, ltb, leb, if◌then◌else◌,
}
use allonet.Ranges.{Range, Probe, search, after_probe, insertion_index, read_probe}
use allonet.Ranges.View.{Above, StartBy, first_of_Above}

-- How many ranges start at `start` or before.
unfoldable pub rank : ℕ → List Range → ℕ
rank start [] = 0
rank start (r ∷ rs) = if leb r.first start then suc (rank start rs) else 0

rank-le-length : (s : ℕ) (rs : List Range) → rank s rs ≤ length rs
unfolding rank
rank-le-length s [] = omega arith
rank-le-length s (r ∷ rs) = ground (arith, rank-le-length s rs)

rank-Above : (s lo : ℕ) (rs : List Range) → Above lo rs → s < lo → rank s rs ≡ 0
unfolding rank
rank-Above s lo [] a h = refl
rank-Above s lo (r ∷ rs) a h = ground arith

get_before_rank :
    (s i : ℕ) (rs : List Range) (r : Range) → get_elem? rs i ≡ some r → i < rank s rs → r.first ≤ s
unfolding rank
get_before_rank s i [] r e h = ground arith
get_before_rank s zero (x ∷ rs) r e h = ground arith
get_before_rank s (suc i) (x ∷ rs) r e h = ground (arith, get_before_rank s i rs r e)

get_from_rank :
    (s lo i : ℕ) (rs : List Range) (r : Range)
    → Above lo rs
    → get_elem? rs i ≡ some r
    → rank s rs ≤ i
    → s < r.first
unfolding rank
get_from_rank s lo i [] r a e h = ground arith
get_from_rank s lo zero (x ∷ rs) r a e h = ground arith
get_from_rank s lo (suc i) (x ∷ rs) r a e h =
    ground
      (arith, get_from_rank s (x.last + 2) i rs r a.2 e, first_of_Above (x.last + 2) i rs r a.2 e)

get_at_rank :
    (s lo i : ℕ) (rs : List Range) (r : Range)
    → Above lo rs
    → get_elem? rs i ≡ some r
    → r.first ≡ s
    → rank s rs ≡ i + 1
unfolding rank
get_at_rank s lo i [] r a e h = ground arith
get_at_rank s lo zero (x ∷ rs) r a e h = ground (arith, rank-Above s (x.last + 2) rs a.2)
get_at_rank s lo (suc i) (x ∷ rs) r a e h =
    ground
      (arith, get_at_rank s (x.last + 2) i rs r a.2 e h, first_of_Above (x.last + 2) i rs r a.2 e)

get_of_lt-length :
    (i : ℕ) (rs : List Range) → i < length rs → (r : Range) × (get_elem? rs i ≡ some r)
get_of_lt-length i [] h = absurd (omega arith)
get_of_lt-length zero (x ∷ rs) h = (x, refl)
get_of_lt-length (suc i) (x ∷ rs) h = get_of_lt-length i rs (omega arith)

module _ (s lo : ℕ) (rs : List Range) (a : Above lo rs) where
  -- One probe: what the range at `i` says of the rank.
  probe_cases :
      (i : ℕ) (r : Range)
      → get_elem? rs i ≡ some r
      → ((r.first < s) × (i + 1 ≤ rank s rs))
        ⊎ (s < r.first) × (rank s rs ≤ i)
        ⊎ (r.first ≡ s) × (rank s rs ≡ i + 1)
  probe_cases i r e = ground (
    arith,
    get_before_rank s i rs r e,
    get_from_rank s lo i rs r a e,
    get_at_rank s lo i rs r a e,
  )

  -- The loop ends within `high - low + 1` rounds, at the rank.
  search-rank :
      (fuel low high : ℕ) (p : Probe)
      → low ≤ rank s rs
      → rank s rs ≤ high
      → high ≤ length rs
      → high < low + fuel
      → (high ≤ low → after_probe s p ≡ rank s rs)
      → Option.map (after_probe s) (search fuel rs s low high p) ≡ some (rank s rs)
  unfolding search after_probe
  search-rank zero low high p l h b f e = absurd (omega arith)
  search-rank (suc fuel) low high p l h b f e = elim (Bool-cases (ltb low high)) [
    | inr stop ↦ rw (stop, search) (ground arith)
    | inl go ↦
        let i = (low + high - 1) / 2 in
        let (r, er) = get_of_lt-length i rs (ground arith) in
        ground (
          arith,
          probe_cases i r er,
          search-rank fuel (i + 1) high (read_probe i r),
          search-rank fuel low i (read_probe i r),
        )
  ]

  -- The binary search returns, on the fuel that it is given, the number of ranges that start at
  -- or before the new one, if the ranges are in order and there is one.
  pub insertion_index-rank : 0 < length rs → insertion_index rs s ≡ some (rank s rs)
  unfolding insertion_index
  insertion_index-rank ne =
      search-rank (length rs + 1) 0 (length rs) _ (omega arith) (rank-le-length s rs) (omega arith)
        (omega arith) (λ h. absurd (omega arith))

-- Cutting at the rank: what starts by `s`, and what starts behind it.
pub take-rank-StartBy : (s : ℕ) (rs : List Range) → StartBy s (take (rank s rs) rs)
unfolding rank
take-rank-StartBy s [] = tt
take-rank-StartBy s (r ∷ rs) = ground (arith, take-rank-StartBy s rs)

pub drop-rank-Above :
    (s lo : ℕ) (rs : List Range) → Above lo rs → Above (s + 1) (drop (rank s rs) rs)
unfolding rank
drop-rank-Above s lo [] a = tt
drop-rank-Above s lo (r ∷ rs) a = ground (arith, drop-rank-Above s (r.last + 2) rs a.2)

pub length-take-rank : (s : ℕ) (rs : List Range) → length (take (rank s rs) rs) ≡ rank s rs
unfolding rank
length-take-rank s [] = refl
length-take-rank s (r ∷ rs) = ground (arith, length-take-rank s rs)
