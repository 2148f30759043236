-- ===== src/Jobs/Tick.antt =====
-- `scheduler_tick`, src/jobs.c.
use mathlib.Core.List.{append-nil, append_assoc}
use allonet.Common.{
  ℕ, zero, suc, ◌+◌, ◌<◌, ◌≡◌, refl, ap, List, [], ◌∷◌, ◌++◌, some, none, true, false, length,
  get_elem?, if◌then◌else◌, arith, Bool-cases, inl, inr, length-append,
}
use allonet.Common.Outcome.{ok}
use allonet.Jobs.{Job, splice, Worked, tick}

module _ {W : Type 0} (work : Job → List Job → W → Worked W) where
  -- Each job worked once, in order: the jobs that go on, and the world after all of them.
  pub work_all : List Job → List Job → W → List Job × W
  work_all before [] w = (before, w)
  work_all before (j ∷ js) w =
      let r = work j (before ++ (j ∷ js)) w in
      let on = work_all (before ++ (j ∷ [])) js r.world in
      let off = work_all before js r.world in if r.continues then on else off

get_elem?-append :
    (xs : List Job) (y : Job) (ys : List Job) → get_elem? (xs ++ (y ∷ ys)) (length xs) ≡ some y
get_elem?-append [] y ys = refl
get_elem?-append (x ∷ xs) y ys = get_elem?-append xs y ys

get_elem?-length : (xs : List Job) → get_elem? (xs ++ []) (length xs) ≡ none
get_elem?-length [] = refl
get_elem?-length (x ∷ xs) = get_elem?-length xs

splice-append :
    (xs : List Job) (y : Job) (ys : List Job) → splice (xs ++ (y ∷ ys)) (length xs) ≡ xs ++ ys
unfolding splice
splice-append [] y ys = refl
splice-append (x ∷ xs) y ys =
    let e : suc (length xs) + 1 ≡ suc (length xs + 1) = omega arith in
    rw e (ap (λ l. x ∷ l) (splice-append xs y ys))

module _ {W : Type 0} (work : Job → List Job → W → Worked W)
    (quiet : (j : Job) (jobs : List Job) (w : W) → (work j jobs w).jobs ≡ jobs) where
  tick_end :
      (fuel : ℕ) (before : List Job) (w : W)
      → tick work (suc fuel) (length before) (before ++ []) w ≡ ok (before, w)
  unfolding tick
  tick_end fuel before w = rw (tick, get_elem?-length before, append-nil before) refl

  tick_on :
      (fuel : ℕ) (before : List Job) (j : Job) (js : List Job) (w : W)
      → (work j (before ++ (j ∷ js)) w).continues ≡ true
      → tick work (suc fuel) (length before) (before ++ (j ∷ js)) w
        ≡ tick work fuel
            (length before + 1)
            (before ++ (j ∷ js))
            (work j (before ++ (j ∷ js)) w).world
  unfolding tick
  tick_on fuel before j js w on =
      ground (arith, get_elem?-append before j js, on, quiet j (before ++ (j ∷ js)) w)

  tick_off :
      (fuel : ℕ) (before : List Job) (j : Job) (js : List Job) (w : W)
      → (work j (before ++ (j ∷ js)) w).continues ≡ false
      → tick work (suc fuel) (length before) (before ++ (j ∷ js)) w
        ≡ tick work fuel (length before) (before ++ js) (work j (before ++ (j ∷ js)) w).world
  unfolding tick
  tick_off fuel before j js w off = ground (
    arith,
    get_elem?-append before j js,
    off,
    quiet j (before ++ (j ∷ js)) w,
    splice-append before j js,
  )

  tick-work_all_from :
      (fuel : ℕ) (before js : List Job) (w : W)
      → length js < fuel
      → tick work fuel (length before) (before ++ js) w ≡ ok (work_all work before js w)
  unfolding work_all
  tick-work_all_from zero before js w h = absurd (omega arith)
  tick-work_all_from (suc fuel) before [] w h = tick_end fuel before w
  tick-work_all_from (suc fuel) before (j ∷ js) w h =
      let jobs = before ++ (j ∷ js) in
      let r = work j jobs w in
      elim (Bool-cases r.continues) [
        | inl on ↦
            let len : length (before ++ (j ∷ [])) ≡ length before + 1 =
              omega (arith, length-append before (j ∷ [])) in
            let go = tick-work_all_from fuel (before ++ (j ∷ [])) js r.world (omega arith) in
            ground
              (arith, tick_on fuel before j js w on, on, len, go, append_assoc before (j ∷ []) js)
        | inr off ↦
            let go = tick-work_all_from fuel before js r.world (omega arith) in
            ground (arith, tick_off fuel before j js w off, off, go)
      ]

  -- A tick ends within one round more than there are jobs, if no job's work touches the scheduler:
  -- each job is worked once, in order, and those whose work said so stay, in order.
  pub tick-work_all :
      (fuel : ℕ) (jobs : List Job) (w : W)
      → length jobs < fuel
      → tick work fuel 0 jobs w ≡ ok (work_all work [] jobs w)
  tick-work_all fuel jobs w h = tick-work_all_from fuel [] jobs w h
