-- ===== src/Jobs/Grow.antt =====
-- The loop of `__arr_reserve`, src/arr.c.
use allonet.Common.{
  ℕ, zero, suc, ◌*◌, ◌%◌, ◌^◌, ◌<◌, ◌≤◌, ◌≡◌, refl, ◌∙◌, ◌⊎◌, inl, inr, Bool-cases, true, false,
  arith, ltb, ◌==◌, Bool, if◌then◌else◌,
}
use allonet.Common.Outcome.{ok}
use allonet.Jobs.{double_until, reserve}

-- Enough, and not more than twice as much, unless it was there before.
abbrev pub Grown : ℕ → ℕ → ℕ → Type 0
Grown capacity n c = (n ≤ c) × ((c ≡ capacity) ⊎ (c < 2 * n))

abbrev doubled : ℕ → ℕ → ℕ
doubled zero capacity = capacity
doubled (suc k) capacity = doubled k (capacity * 2)

double_until_enough :
    (fuel capacity n : ℕ)
    → ltb capacity n ≡ false
    → double_until (suc fuel) capacity n ≡ ok capacity
unfolding double_until
double_until_enough fuel capacity n enough = rw (double_until, enough) refl

double_until_more :
    (fuel capacity n d : ℕ)
    → ltb capacity n ≡ true
    → (capacity * 2) % 2 ^ 64 ≡ d
    → ltb 0 d ≡ true
    → double_until (suc fuel) capacity n ≡ double_until fuel d n
unfolding double_until
double_until_more fuel capacity n d more next positive = ground (arith, more, next, positive)

double_until-Grown :
    (fuel capacity n : ℕ)
    → 0 < capacity
    → n ≤ 2 ^ 63
    → n ≤ doubled fuel capacity
    → (c : ℕ) × (double_until (suc fuel) capacity n ≡ ok c) × Grown capacity n c
double_until-Grown zero capacity n pos small h =
    (capacity, double_until_enough 0 capacity n (ground arith), (h, inl refl))
double_until-Grown (suc fuel) capacity n pos small h = elim (Bool-cases (ltb capacity n)) [
  | inl more ↦
      let no_wrap : (capacity * 2) % 2 ^ 64 ≡ capacity * 2 = ground arith in
      let (c, e, g) = double_until-Grown fuel (capacity * 2) n (omega arith) small h in
      (
        c,
        double_until_more (suc fuel) capacity n (capacity * 2) more no_wrap (ground arith) ∙ e,
        (g.0, ground (arith, g.1)),
      )
  | inr enough ↦
      (capacity, double_until_enough (suc fuel) capacity n enough, (ground arith, inl refl))
]

times_le : (a b s : ℕ) → a ≤ b → a * s ≤ b * s
times_le a b s h = grind arith

-- `realloc` is asked for all the entries, and gives the memory.
reserve-reallocates :
    (reallocates : ℕ → Bool) (most first capacity n stride c : ℕ)
    → (if capacity == 0 then 1 else capacity) ≡ first
    → most < 2 ^ 64
    → ((b : ℕ) → b ≤ most → reallocates b ≡ true)
    → first * stride ≤ most
    → 2 * n * stride ≤ most
    → double_until 64 first n ≡ ok c
    → Grown first n c
    → reserve reallocates 64 capacity n stride ≡ ok (c, c * stride)
unfolding reserve
reserve-reallocates reallocates most first capacity n stride c is fits memory now later e g =
    let bytes : c * stride ≤ most = elim g.1 [
      | inl same ↦ rw (same) now
      | inr less ↦
          let more = times_le c (2 * n) stride (omega (arith, less)) in omega (arith, more, later)
    ] in
    let no_wrap : (c * stride) % 2 ^ 64 ≡ c * stride = omega (arith, bytes, fits) in
    rw (is, e, no_wrap, memory (c * stride) bytes) refl

-- For up to 2^63 entries `__arr_reserve` ends within 64 rounds, without a failed assertion. The
-- capacity is then enough, and the memory is for that many entries: it is the capacity before, or 1
-- if that was 0, or less than twice what was asked for. This holds if `realloc` gives every size up
-- to a limit, below 2^64, within which the capacity before and twice what was asked for are.
pub reserve-Grown :
    (reallocates : ℕ → Bool) (most capacity n stride : ℕ)
    → n ≤ 2 ^ 63
    → most < 2 ^ 64
    → ((b : ℕ) → b ≤ most → reallocates b ≡ true)
    → (if capacity == 0 then 1 else capacity) * stride ≤ most
    → 2 * n * stride ≤ most
    → (c : ℕ) × (reserve reallocates 64 capacity n stride ≡ ok (c, c * stride))
      × Grown (if capacity == 0 then 1 else capacity) n c
reserve-Grown reallocates most capacity n stride small fits memory now later =
    let first : ℕ = if capacity == 0 then 1 else capacity in
    let pos : 0 < first = ground arith in
    let (c, e, g) = double_until-Grown 63 first n pos small (omega arith) in
    (
      c,
      reserve-reallocates reallocates most first capacity n stride c refl fits memory now later e g,
      g,
    )
