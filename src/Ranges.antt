-- ===== src/Ranges.antt =====
-- The sets of byte ranges of src/assetstore.c: `_merge_range` and `_missing_ranges`.
-- A cJSON array of two-number arrays is a list of ranges; both ends of a range are inclusive.
pub mod View
pub mod Search
pub mod Absorb
pub mod Place
pub mod Merge
pub mod Gaps
mod Examples
use mathlib.Core.Option
use allonet.Common.{
  ℕ, zero, suc, ◌+◌, ◌-◌, ◌/◌, List, [], ◌∷◌, ◌++◌, Option, none, some, Bool, true, false, ◌&&◌,
  length, get_elem?, take, drop, min, max, ltb, leb, if◌then◌else◌,
}
use allonet.Common.Size.{add_size, sub_size, to_int}

pub record Range : Type 0 where
  pub first : ℕ
  pub last : ℕ

-- `cJSON_CreateIntArray(numbers, 2)` with both numbers cast to `int`.
pub int_range : ℕ → ℕ → Range
int_range start end = record { first = to_int start; last = to_int end }

-- The last probe of the binary search: its index, and the start of the range that it read.
pub record Probe : Type 0 where
  pub index : ℕ
  pub value : ℕ

abbrev pub read_probe : ℕ → Range → Probe
read_probe i r = record { index = i; value = r.first }

-- The `while (low <= high)` loop. `high` is kept as the C variable plus one, since that can be -1.
-- `none` stands for a failed `assert(range)`, and for want of fuel.
pub search : ℕ → List Range → ℕ → ℕ → ℕ → Probe → Option Probe
search zero ranges start low high p = none
search (suc fuel) ranges start low high p =
    let i = (low + high - 1) / 2 in
    elim (ltb low high) [
      | false ↦ some p
      | true ↦ elim (get_elem? ranges i) [
        | none ↦ none
        | some r ↦ elim (ltb r.first start) [
          | true ↦ search fuel ranges start (i + 1) high (read_probe i r)
          | false ↦ elim (ltb start r.first) [
            | true ↦ search fuel ranges start low i (read_probe i r)
            | false ↦ some (read_probe i r)
          ]
        ]
      ]
    ]

-- "We want to end at the range that is bigger, or at end of list".
pub after_probe : ℕ → Probe → ℕ
after_probe start p = if leb p.value start then p.index + 1 else p.index

pub insertion_index : List Range → ℕ → Option ℕ
insertion_index ranges start =
    Option.map (after_probe start)
      (search (length ranges + 1) ranges start 0 (length ranges) (record { index = 0; value = 0 }))

-- The loop that merges to the right: it takes ranges off at the insertion index, so over the
-- ranges from there on.
pub record Absorbed : Type 0 where
  pub rest : List Range
  pub start : ℕ
  pub end : ℕ

abbrev pub touches_right : Range → ℕ → ℕ → Bool
touches_right r start end = leb (sub_size r.first 1) end && leb start (add_size r.last 1)

pub absorb : List Range → ℕ → ℕ → Absorbed
absorb [] start end = record { rest = []; start = start; end = end }
absorb (r ∷ rs) start end =
    let wider = absorb rs (min start r.first) (max end r.last) in
    if touches_right r start end then wider else record { rest = r ∷ rs; start = start; end = end }

-- `cJSON_DeleteItemFromArray` and `cJSON_InsertItemInArray`, which appends past the end.
pub delete_at : List Range → ℕ → List Range
delete_at rs i = take i rs ++ drop (i + 1) rs

pub insert_at : List Range → ℕ → Range → List Range
insert_at rs i r = take i rs ++ (r ∷ drop i rs)

abbrev pub item_before : List Range → ℕ → Option Range
item_before rs zero = none
item_before rs (suc i) = get_elem? rs i

-- The one merge to the left, and the insertion.
pub insert_range : List Range → ℕ → ℕ → ℕ → List Range
unfolding delete_at insert_at
insert_range rs i start end = elim (item_before rs i) [
  | none ↦ insert_at rs i (int_range start end)
  | some r ↦
      if leb start (add_size r.last 1)
      then insert_at (delete_at rs (i - 1)) (i - 1) (int_range (min start r.first) (max end r.last))
      else insert_at rs i (int_range start end)
]

pub merge_at : List Range → ℕ → ℕ → ℕ → List Range
unfolding insert_range absorb
merge_at rs i start end =
    let a = absorb (drop i rs) start end in insert_range (take i rs ++ a.rest) i a.start a.end

-- `_merge_range`. `none` stands for a failed assertion.
pub merge_range : List Range → ℕ → ℕ → Option (List Range)
unfolding insertion_index merge_at
merge_range [] start end = if leb start end then some (int_range start end ∷ []) else none
merge_range (r ∷ rs) start end =
    if leb start end
    then Option.map (λ i. merge_at (r ∷ rs) i start end) (insertion_index (r ∷ rs) start)
    else none
