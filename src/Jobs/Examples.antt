-- ===== src/Jobs/Examples.antt =====
-- The scheduler at concrete values: tests, and the theorems where their hypotheses hold.
use allonet.Common.{ℕ, ◌+◌, ◌≡◌, refl, List, [], ◌∷◌, ◌==◌, not, arith}
use allonet.Common.Outcome.{ok}
use allonet.Common.{leb, ◌*◌, Bool}
use allonet.Common.Outcome.{assertion_failed}
use allonet.Jobs.{Job, Worked, tick, reserve, stop_from}
use allonet.Jobs.Tick.{work_all, tick-work_all}
use allonet.Jobs.Grow.{Grown, reserve-Grown}

abbrev job : ℕ → Job
job n = record { work = 0; data' = n }

-- Counts the calls; job 2 ends.
abbrev count : Job → List Job → ℕ → Worked ℕ
count j jobs w = record { continues = not (j.data' == 2); jobs = jobs; world = w + 1 }

ticks : tick count 4 0 (job 1 ∷ job 2 ∷ job 3 ∷ []) 0 ≡ ok (job 1 ∷ job 3 ∷ [], 3)
unfolding tick
ticks = refl

stops : stop_from 3 0 (job 2) (job 1 ∷ job 2 ∷ job 2 ∷ []) ≡ job 1 ∷ job 2 ∷ []
unfolding stop_from
stops = refl

tick-work_all_example :
    tick count 4 0 (job 1 ∷ job 2 ∷ job 3 ∷ []) 0
    ≡ ok (work_all count [] (job 1 ∷ job 2 ∷ job 3 ∷ []) 0)
tick-work_all_example =
    tick-work_all count (λ j jobs w. refl) 4 (job 1 ∷ job 2 ∷ job 3 ∷ []) 0 (omega arith)

-- `realloc` gives up to 1000 bytes.
abbrev up_to_1000 : ℕ → Bool
up_to_1000 b = leb b 1000

grows : reserve up_to_1000 64 3 20 8 ≡ ok (24, 192)
unfolding reserve
grows = refl

no_memory : reserve up_to_1000 64 3 200 8 ≡ assertion_failed
unfolding reserve
no_memory = refl

reserve-Grown_example : (c : ℕ) × (reserve up_to_1000 64 3 20 8 ≡ ok (c, c * 8)) × Grown 3 20 c
reserve-Grown_example =
    reserve-Grown up_to_1000 1000 3 20 8 (omega arith) (omega arith) (λ b h. ground arith)
      (omega arith) (omega arith)
