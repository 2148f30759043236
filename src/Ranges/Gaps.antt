-- ===== src/Ranges/Gaps.antt =====
-- `_missing_ranges`: the gaps between the ranges, and the conversion of them that
-- `_memstore_get_missing_ranges` makes.
use allonet.Common.{
  Bool, ◌||◌, ◌==◌, Bool-cases, inl, inr, ℕ, zero, suc, ◌+◌, ◌-◌, ◌≤◌, ◌<◌, ◌≡◌, List, [], ◌∷◌,
  arith, false, not, ◌&&◌, ltb, leb, if◌then◌else◌, length, set, get_or,
}
use allonet.Common.Size.{add_size, sub_size, int_limit}
use allonet.Ranges.{Range}
use allonet.Ranges.View.{Above, Above-mono, covers_below, IsRanges, Below, covers}
use allonet.Ranges.Place.{range}

-- The loop over the ranges, from the variables `low` and `count` on. What the C code writes to
-- `out_ranges` (unless it is NULL) is the list, and the `count` that it returns is the length.
pub gaps_from : List Range → ℕ → ℕ → ℕ → ℕ → List Range
gaps_from [] low total count max =
    if ltb low total && ltb count max then range low total ∷ [] else []
gaps_from (r ∷ rs) low total count max =
    let found = ltb low r.first in
    let rest = gaps_from rs (add_size r.last 1) total (if found then count + 1 else count) max in
    if leb max count then [] else if found then range low (r.first - 1) ∷ rest else rest

unfoldable pub missing_ranges : List Range → ℕ → ℕ → List Range
unfolding gaps_from
missing_ranges ranges total max = if max == 0 then [] else gaps_from ranges 0 total 0 max

-- `out_ranges`, as the array of numbers that it is.
pub flat : List Range → List ℕ
flat [] = []
flat (r ∷ rs) = r.first ∷ r.last ∷ flat rs

-- `out_ranges[i+1] = out_ranges[i+1] - out_ranges[i]`, for `rounds` values of `i`.
pub adjust : ℕ → ℕ → List ℕ → List ℕ
adjust zero i out = out
adjust (suc rounds) i out =
    adjust rounds (i + 1) (set out (i + 1) (sub_size (get_or out (i + 1) 0) (get_or out i 0)))

unfoldable pub missing_offsets : List Range → ℕ → ℕ → List ℕ
unfolding missing_ranges flat adjust
missing_offsets ranges total max =
    let found = missing_ranges ranges total max in adjust (length found) 0 (flat found)

length-gaps_from-le :
    (rs : List Range) (low total count max : ℕ)
    → count ≤ max
    → length (gaps_from rs low total count max) + count ≤ max
unfolding gaps_from
length-gaps_from-le [] low total count max h = ground arith
length-gaps_from-le (r ∷ rs) low total count max h = ground (
  arith,
  length-gaps_from-le rs (add_size r.last 1) total (count + 1) max,
  length-gaps_from-le rs (add_size r.last 1) total count max,
)

-- The variable `low` after a range, and `count`.
abbrev after : Range → ℕ
after r = add_size r.last 1

abbrev counted : ℕ → ℕ → Range → ℕ
counted low count r = if ltb low r.first then count + 1 else count

after-Above :
    (low : ℕ) (r : Range) (rs : List Range)
    → Above low (r ∷ rs)
    → r.last < int_limit
    → Above (after r) rs
after-Above low r rs a h = Above-mono (r.last + 2) (after r) rs (omega arith) a.2

-- No gap starts before `low`.
gaps_from_below :
    (rs : List Range) (low total count max x : ℕ)
    → Above low rs
    → Below int_limit rs
    → x < low
    → covers (gaps_from rs low total count max) x ≡ false
unfolding gaps_from covers
gaps_from_below [] low total count max x a b l = ground arith
gaps_from_below (r ∷ rs) low total count max x a b l = ground (
  arith,
  gaps_from_below rs (after r) total (counted low count r) max x (after-Above low r rs a b.0) b.1,
)

-- What is behind the last of the ranges, and `low` if there is none.
abbrev pub end_from : ℕ → List Range → ℕ
end_from low [] = low
end_from low (r ∷ rs) = end_from (r.last + 1) rs

-- Is `x` in question: before the end of the last range or, if that is below the total size, up to
-- and with the total size?
abbrev pub in_question : ℕ → ℕ → ℕ → Bool
in_question end total x = ltb x end || (ltb end total && leb x total)

end_from-ge : (low : ℕ) (rs : List Range) → Above low rs → low ≤ end_from low rs
end_from-ge low [] a = omega arith
end_from-ge low (r ∷ rs) a =
    let h =
      end_from-ge (r.last + 1) rs (Above-mono (r.last + 2) (r.last + 1) rs (omega arith) a.2) in
    omega (arith, a.0, a.1, h)

covers-gaps_from :
    (rs : List Range) (low total count max x : ℕ)
    → Above low rs
    → Below int_limit rs
    → count + length rs < max
    → low ≤ x
    → covers (gaps_from rs low total count max) x
      ≡ (not (covers rs x) && in_question (end_from low rs) total x)
unfolding gaps_from covers
covers-gaps_from [] low total count max x a b h l = ground arith
covers-gaps_from (r ∷ rs) low total count max x a b h l = elim (Bool-cases (ltb r.last x)) [
  | inl behind ↦
      let next : after r ≡ r.last + 1 = omega (arith, b.0) in
      ground (
        arith,
        next,
        covers-gaps_from rs (after r) total (counted low count r) max x (after-Above low r rs a b.0)
            b.1,
      )
  | inr before ↦ ground (
    arith,
    gaps_from_below rs (after r) total (counted low count r) max x (after-Above low r rs a b.0) b.1,
    covers_below (r.last + 2) x rs a.2,
    end_from-ge (r.last + 1) rs (Above-mono (r.last + 2) (r.last + 1) rs (omega arith) a.2),
  )
]

-- However little room there is, no more is written than fits.
pub length-missing_ranges-le :
    (rs : List Range) (total max : ℕ) → length (missing_ranges rs total max) ≤ max
unfolding missing_ranges
length-missing_ranges-le rs total max = ground (arith, length-gaps_from-le rs 0 total 0 max)

-- For ranges in order, `_missing_ranges` called with room for one gap more than there are ranges
-- finds exactly the numbers that are not covered and are before the end of the last range or, if
-- that end is below the total size, from there up to the total size, which is found as well.
pub covers-missing_ranges :
    (rs : List Range) (total max x : ℕ)
    → IsRanges rs
    → length rs < max
    → covers (missing_ranges rs total max) x
      ≡ (not (covers rs x) && in_question (end_from 0 rs) total x)
unfolding missing_ranges
covers-missing_ranges rs total max x v room =
    ground (arith, covers-gaps_from rs 0 total 0 max x v.ordered v.small)

-- The conversion to offsets and lengths, as the loop makes it: right for one gap.
pub missing_offsets_one :
    (rs : List Range) (total max : ℕ) (g : Range)
    → missing_ranges rs total max ≡ g ∷ []
    → missing_offsets rs total max ≡ g.first ∷ sub_size g.last g.first ∷ []
unfolding missing_offsets
missing_offsets_one rs total max g e = rw (e, missing_offsets)

-- From two gaps on it is not: the second gap's offset is overwritten by a difference with the
-- first gap's length, and its end stays an end.
pub missing_offsets_two :
    (rs : List Range) (total max : ℕ) (g h : Range)
    → missing_ranges rs total max ≡ g ∷ h ∷ []
    → missing_offsets rs total max
      ≡ g.first ∷ sub_size g.last g.first ∷ sub_size h.first (sub_size g.last g.first) ∷ h.last ∷ []
unfolding missing_offsets
missing_offsets_two rs total max g h e = rw (e, missing_offsets)
