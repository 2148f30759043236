-- ===== src/Jobs.antt =====
-- The scheduler, src/jobs.c, and the growing arrays it keeps its jobs in, src/arr.c and
-- include/allonet/arr.h.
pub mod Tick
pub mod Grow
mod Examples
use allonet.Common.{
  ℕ, zero, suc, ◌+◌, ◌*◌, ◌%◌, ◌^◌, ◌≡◌, List, [], ◌∷◌, ◌++◌, Option, some, none, Bool, true, false,
  ◌&&◌, take, drop, get_elem?, ltb, ◌==◌, if◌then◌else◌,
}
use allonet.Common.Outcome.{Outcome, ok, assertion_failed, out_of_fuel, assert, ◌>>=◌, ◌>>◌}

-- A job: its `work` and its `data`, by their addresses.
pub record Job : Type 0 where
  pub work : ℕ
  pub data' : ℕ

abbrev pub same_job : Job → Job → Bool
same_job i j = i.data' == j.data' && i.work == j.work

-- `arr_push` and `arr_splice(a, i, 1)`.
unfoldable pub push : List Job → Job → List Job
push jobs j = jobs ++ (j ∷ [])

unfoldable pub splice : List Job → ℕ → List Job
splice jobs i = take i jobs ++ drop (i + 1) jobs

-- `scheduler_add`, and `scheduler_stop`, which takes out the first job with that work and data.
unfoldable pub add : List Job → Job → List Job
unfolding push
add jobs j = push jobs j

unfoldable pub stop_from : ℕ → ℕ → Job → List Job → List Job
unfolding splice
stop_from zero i j jobs = jobs
stop_from (suc fuel) i j jobs =
    let rest = stop_from fuel (i + 1) j jobs in
    elim (get_elem? jobs i) [ none ↦ jobs | some k ↦ if same_job k j then splice jobs i else rest ]

-- What a call of `work` does: whether the job goes on, and what it leaves of the scheduler, to which
-- it may add jobs, and of the rest of the world.
pub record Worked (W : Type 0) : Type 0 where
  pub continues : Bool
  pub jobs : List Job
  pub world : W

-- `scheduler_tick`, the jobs' functions being a parameter.
unfoldable pub tick :
    {W : Type 0} → (Job → List Job → W → Worked W) → ℕ → ℕ → List Job → W → Outcome (List Job × W)
unfolding splice
tick work zero i jobs w = out_of_fuel
tick work (suc fuel) i jobs w = elim (get_elem? jobs i) [
  | none ↦ ok (jobs, w)
  | some j ↦
      let r = work j jobs w in
      elim r.continues [
        | true ↦ tick work fuel (i + 1) r.jobs r.world
        | false ↦ tick work fuel i (splice r.jobs i) r.world
      ]
]

-- The loop of `__arr_reserve`, which doubles the capacity until it is enough.
unfoldable pub double_until : ℕ → ℕ → ℕ → Outcome ℕ
double_until zero capacity n = out_of_fuel
double_until (suc fuel) capacity n = elim (ltb capacity n) [
  | false ↦ ok capacity
  | true ↦ assert (ltb 0 ((capacity * 2) % 2 ^ 64)) >> double_until fuel ((capacity * 2) % 2 ^ 64) n
]

-- `__arr_reserve`: the capacity, and for how many bytes `realloc` has then been asked.
-- `reallocates` says for which sizes it does not give NULL.
unfoldable pub reserve : (ℕ → Bool) → ℕ → ℕ → ℕ → ℕ → Outcome (ℕ × ℕ)
unfolding double_until
reserve reallocates fuel capacity n stride =
    double_until fuel (if capacity == 0 then 1 else capacity) n >>= λ c.
    assert (reallocates ((c * stride) % 2 ^ 64)) >> ok (c, (c * stride) % 2 ^ 64)
