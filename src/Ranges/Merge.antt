-- ===== src/Ranges/Merge.antt =====
-- `_merge_range` as a whole, and the set of numbers that the ranges cover.
use allonet.Common.{
  ap, sym, ◌∙◌, ℕ, ◌+◌, ◌≤◌, ◌<◌, ◌≡◌, List, [], ◌∷◌, ◌++◌, some, arith, ◌||◌, take, drop,
  take-append-drop,
}
use allonet.Common.Size.{int_limit}
use allonet.Ranges.{Range, merge_range, merge_at, Absorbed, absorb, insert_range, int_range}
use allonet.Ranges.View.{
  IsRanges, Above, Below, Below-take, Below-drop, Above-append, covers-append, covers, within,
}
use allonet.Ranges.Search.{
  rank, insertion_index-rank, take-rank-StartBy, drop-rank-Above, length-take-rank,
}
use allonet.Ranges.Absorb.{
  absorb-start, end-le-absorb, absorb-lt, absorb-Below, absorb-Above, absorb_gap, covers-absorb,
}
use allonet.Ranges.Place.{
  range, int_range-small, place, place-Below, insert_range-place, place-Above, covers-place,
}

pub record Adds (rs : List Range) (s e : ℕ) (rs' : List Range) : Type 0 where
  pub ranges : IsRanges rs'
  pub adds : (x : ℕ) → covers rs' x ≡ (covers rs x || within s e x)

module _ (rs : List Range) (s e : ℕ) (v : IsRanges rs) (le : s ≤ e) (small : e < int_limit) where
  -- The two halves of the list at the insertion index.
  abbrev pre : List Range
  pre = take (rank s rs) rs

  abbrev suf : List Range
  suf = drop (rank s rs) rs

  abbrev taken : Absorbed
  taken = absorb suf s e

  suf-Above : Above (s + 1) suf
  suf-Above = drop-rank-Above s 0 rs v.ordered

  whole : pre ++ suf ≡ rs
  whole = take-append-drop (rank s rs) rs

  reached : taken.end < int_limit
  reached = absorb-lt int_limit suf s e (Below-drop int_limit (rank s rs) rs v.small) small

  pre-Below : Below int_limit pre
  pre-Below = Below-take int_limit (rank s rs) rs v.small

  suf-Below : Below int_limit suf
  suf-Below = Below-drop int_limit (rank s rs) rs v.small

  merge_at-place : merge_at rs (rank s rs) s e ≡ place pre taken.rest s taken.end
  unfolding merge_at
  merge_at-place = rw (absorb-start suf s e suf-Above) (
      ap (λ k. insert_range (pre ++ taken.rest) k s taken.end) (sym (length-take-rank s rs))
      ∙ insert_range-place pre taken.rest s taken.end pre-Below (take-rank-StartBy s rs)
          (omega arith) reached)

  merged-Above : Above 0 (place pre taken.rest s taken.end)
  merged-Above =
      place-Above taken.rest s taken.end (omega (arith, end-le-absorb suf s e))
        (absorb_gap suf s e suf-Above suf-Below le small) 0 pre
        (Above-append 0 pre suf taken.rest (λ lo a. absorb-Above suf lo s e a) (rw whole v.ordered))
        (take-rank-StartBy s rs) (omega arith)

  merged-covers :
      (x : ℕ) → covers (place pre taken.rest s taken.end) x ≡ (covers rs x || within s e x)
  merged-covers x = ground (
    arith,
    covers-place taken.rest s taken.end (omega (arith, end-le-absorb suf s e))
        (absorb_gap suf s e suf-Above suf-Below le small) x pre (take-rank-StartBy s rs),
    covers-absorb suf s e x suf-Above suf-Below le small,
    covers-append x pre suf,
    ap (λ l. covers l x) whole,
  )

  merged-Adds : Adds rs s e (place pre taken.rest s taken.end)
  merged-Adds = record {
    ranges = record {
      ordered = merged-Above;
      small =
          place-Below int_limit pre taken.rest s taken.end pre-Below
            (absorb-Below int_limit suf s e suf-Below) reached;
    };
    adds = merged-covers;
  }

int_range-Adds : (s e : ℕ) → s ≤ e → e < int_limit → Adds [] s e (int_range s e ∷ [])
unfolding covers
int_range-Adds s e le h = rw (int_range-small s e (omega arith) h) (record {
  ranges = record { ordered = omega arith; small = omega arith };
  adds = λ x. ground arith;
})

-- `_merge_range` succeeds for every interval below INT_MAX whose ends are in order, and then the
-- ranges are in order again, with gaps between them, below INT_MAX, and cover exactly what they
-- covered before and the interval.
pub merge_range-Adds :
    (rs : List Range) (s e : ℕ)
    → IsRanges rs
    → s ≤ e
    → e < int_limit
    → (rs' : List Range) × (merge_range rs s e ≡ some rs') × Adds rs s e rs'
unfolding merge_range
merge_range-Adds [] s e v le h = (int_range s e ∷ [], ground arith, int_range-Adds s e le h)
merge_range-Adds (r ∷ rs) s e v le h = (
  _,
  ground (
    arith,
    insertion_index-rank s 0 (r ∷ rs) v.ordered (omega arith),
    merge_at-place (r ∷ rs) s e v le h,
  ),
  merged-Adds (r ∷ rs) s e v le h,
)

-- The two steps of a download in order: the first range, and one that carries on from it.
pub merge_range_first : (e : ℕ) → e < int_limit → merge_range [] 0 e ≡ some (range 0 e ∷ [])
unfolding merge_range
merge_range_first e h = ground (arith, int_range-small 0 e)

pub merge_range_extend :
    (k s e : ℕ)
    → 0 < s
    → s ≤ k + 1
    → k ≤ e
    → s ≤ e
    → e < int_limit
    → merge_range (range 0 k ∷ []) s e ≡ some (range 0 e ∷ [])
unfolding merge_range rank place absorb
merge_range_extend k s e h0 hs hk le h = ground (
  arith,
  insertion_index-rank s 0 (range 0 k ∷ []) (omega arith) (omega arith),
  merge_at-place (range 0 k ∷ []) s e (record { ordered = omega arith; small = omega arith }) le h,
)
