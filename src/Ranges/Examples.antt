-- ===== src/Ranges/Examples.antt =====
-- Ranges at concrete values: tests, and the theorems where their hypotheses hold.
use allonet.Common.{◌≡◌, refl, List, [], ◌∷◌, some, not, ◌&&◌, arith}
use allonet.Common.Size.{to_int}
use allonet.Ranges.{Range, merge_range, insertion_index, search, after_probe, merge_at, absorb}
use allonet.Ranges.View.{IsRanges, covers}
use allonet.Ranges.Place.{range}
use allonet.Ranges.Merge.{Adds, merge_range-Adds}
use allonet.Ranges.Search.{rank, insertion_index-rank}
use allonet.Ranges.Gaps.{
  missing_ranges, in_question, missing_offsets, covers-missing_ranges, missing_offsets_one,
}

abbrev three : List Range
three = range 0 9 ∷ range 20 29 ∷ range 40 49 ∷ []

three-IsRanges : IsRanges three
three-IsRanges = record { ordered = omega arith; small = omega arith }

-- A range that fills one gap and reaches into the next.
merges_two : merge_range three 10 35 ≡ some (range 0 35 ∷ range 40 49 ∷ [])
unfolding merge_range to_int search after_probe allonet.Ranges.int_range
merges_two = refl

gaps_of_three : missing_ranges three 60 8 ≡ range 10 19 ∷ range 30 39 ∷ range 50 60 ∷ []
unfolding missing_ranges
gaps_of_three = refl

insertion_index-rank_example : insertion_index three 25 ≡ some (rank 25 three)
insertion_index-rank_example = insertion_index-rank 25 0 three (omega arith) (omega arith)

merge_range-Adds_example :
    (rs : List Range) × (merge_range three 10 35 ≡ some rs) × Adds three 10 35 rs
merge_range-Adds_example = merge_range-Adds three 10 35 three-IsRanges (omega arith) (omega arith)

-- The total size is found as well.
covers-missing_ranges_example :
    covers (missing_ranges three 60 8) 60 ≡ (not (covers three 60) && in_question 50 60 60)
covers-missing_ranges_example = covers-missing_ranges three 60 8 60 three-IsRanges (omega arith)

missing_offsets_one_example : missing_offsets (range 0 9 ∷ []) 60 8 ≡ 10 ∷ 50 ∷ []
unfolding missing_ranges
missing_offsets_one_example = missing_offsets_one (range 0 9 ∷ []) 60 8 (range 10 60) refl
