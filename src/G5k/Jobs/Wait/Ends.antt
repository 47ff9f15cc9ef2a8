-- ===== src/G5k/Jobs/Wait/Ends.antt =====
-- The wait ends soon after the jobs run, and tells the truth.
use enoslib.Base.{
  ℕ, zero, suc, ◌+◌, ◌≤◌, ◌<◌, ◌≡◌, ◌≢◌, refl, ◌∙◌, sym, true, false, List, [], ◌∷◌, All, ltb,
  arith, Bool-cases, inl, inr, ltb→lt, ◌⊎◌,
}
use enoslib.G5k.Jobs.{JobState, waiting, launching, running, terminated, error}
use enoslib.G5k.Jobs.Wait.{
  Checked, checked, in_error, Waited, all_running, job_error, out_of_fuel, and_then, check_job,
  next_interval, check_jobs, after_check, wait_loop, wait_for_jobs,
}

next_interval-bounds : (w : ℕ) → w ≤ 150 → (1 ≤ next_interval w) × (next_interval w ≤ 150)
unfolding next_interval
next_interval-bounds w h = (ground arith, ground (arith, h))

-- The job of the uid is one of those.
abbrev pub IsOneOf : ℕ → List ℕ → Type 0
IsOneOf uid [] = ⊥
IsOneOf uid (j ∷ jobs) = (uid ≡ j) ⊎ IsOneOf uid jobs

module _ (refresh : ℕ → ℕ → JobState) where
  -- What a round found.
  abbrev Tells : ℕ → List ℕ → Checked → Type 0
  Tells t jobs (checked true) = All (λ uid. refresh t uid ≡ running) jobs
  Tells t jobs (checked false) = All (λ uid. refresh t uid ≡ running) jobs → ⊥
  Tells t jobs (in_error uid) = IsOneOf uid jobs × (refresh t uid ≡ error)

  not_running :
      (t uid : ℕ) (jobs : List ℕ) (s : JobState)
      → refresh t uid ≡ s
      → (s ≡ running → ⊥)
      → All (λ j. refresh t j ≡ running) (uid ∷ jobs)
      → ⊥
  not_running t uid jobs s h ne all = ne (sym h ∙ all.0)

  check_job-Tells :
      (t uid : ℕ) (jobs : List ℕ) (s : JobState) (rest : Checked)
      → refresh t uid ≡ s
      → Tells t jobs rest
      → Tells t (uid ∷ jobs) (check_job s uid rest)
  unfolding check_job and_then
  check_job-Tells t uid jobs error rest h tells = (inl refl, h)
  check_job-Tells t uid jobs running (checked true) h tells = (h, tells)
  check_job-Tells t uid jobs running (checked false) h tells = λ all. tells all.1
  check_job-Tells t uid jobs running (in_error j) h tells = (inr tells.0, tells.1)
  check_job-Tells t uid jobs waiting (checked b) h tells =
      not_running t uid jobs waiting h (λ e. cc)
  check_job-Tells t uid jobs waiting (in_error j) h tells = (inr tells.0, tells.1)
  check_job-Tells t uid jobs launching (checked b) h tells =
      not_running t uid jobs launching h (λ e. cc)
  check_job-Tells t uid jobs launching (in_error j) h tells = (inr tells.0, tells.1)
  check_job-Tells t uid jobs terminated (checked b) h tells =
      not_running t uid jobs terminated h (λ e. cc)
  check_job-Tells t uid jobs terminated (in_error j) h tells = (inr tells.0, tells.1)

  check_jobs-Tells : (t : ℕ) (jobs : List ℕ) → Tells t jobs (check_jobs refresh t jobs)
  unfolding check_jobs
  check_jobs-Tells t [] = tt
  check_jobs-Tells t (uid ∷ jobs) =
      check_job-Tells t uid jobs (refresh t uid) (check_jobs refresh t jobs) refl
        (check_jobs-Tells t jobs)

  -- What the result says is so.
  abbrev pub IsTrue : List ℕ → Waited → Type 0
  IsTrue jobs (all_running t) = All (λ uid. refresh t uid ≡ running) jobs
  IsTrue jobs (job_error uid t) = IsOneOf uid jobs × (refresh t uid ≡ error)
  IsTrue jobs out_of_fuel = Unit

  after_check-IsTrue :
      (t : ℕ) (jobs : List ℕ) (out : Checked) (more : Waited)
      → Tells t jobs out
      → IsTrue jobs more
      → IsTrue jobs (after_check out t more)
  unfolding after_check
  after_check-IsTrue t jobs (checked true) more tells h = tells
  after_check-IsTrue t jobs (checked false) more tells h = h
  after_check-IsTrue t jobs (in_error uid) more tells h = tells

  wait_loop-IsTrue : (fuel t w : ℕ) (jobs : List ℕ) → IsTrue jobs (wait_loop refresh fuel t w jobs)
  unfolding wait_loop
  wait_loop-IsTrue zero t w jobs = tt
  wait_loop-IsTrue (suc fuel) t w jobs =
      let t' = t + next_interval w in
      after_check-IsTrue t' jobs (check_jobs refresh t' jobs)
        (wait_loop refresh fuel t' (next_interval w) jobs) (check_jobs-Tells t' jobs)
        (wait_loop-IsTrue fuel t' (next_interval w) jobs)

  module _ (jobs : List ℕ) (T : ℕ)
      (run : (t : ℕ) → T ≤ t → All (λ uid. refresh t uid ≡ running) jobs)
      (no_error : (t uid : ℕ) → IsOneOf uid jobs → refresh t uid ≢ error) where
    abbrev Ends : Waited → Type 0
    Ends out =
        (second : ℕ) × (out ≡ all_running second)
        × (second ≤ T + 150)
        × All (λ uid. refresh second uid ≡ running) jobs

    after_check-Ends :
        (t : ℕ) (out : Checked) (more : Waited)
        → t ≤ T + 150
        → Tells t jobs out
        → (t < T → Ends more)
        → Ends (after_check out t more)
    unfolding after_check
    after_check-Ends t (checked true) more le tells h = (t, refl, le, tells)
    after_check-Ends t (checked false) more le tells h = elim (Bool-cases (ltb t T)) [
      | inl early ↦ h (ltb→lt t T early)
      | inr late ↦ absurd (tells (run t (ground (arith, late))))
    ]
    after_check-Ends t (in_error uid) more le tells h = absurd (no_error t uid tells.0 tells.1)

    wait_loop-Ends :
        (fuel t w : ℕ) → w ≤ 150 → t ≤ T → T < t + fuel → Ends (wait_loop refresh fuel t w jobs)
    unfolding wait_loop
    wait_loop-Ends zero t w small le enough = absurd (omega (arith, le, enough))
    wait_loop-Ends (suc fuel) t w small le enough =
        let (least, most) = next_interval-bounds w small in
        let t' = t + next_interval w in
        after_check-Ends t' (check_jobs refresh t' jobs)
          (wait_loop refresh fuel t' (next_interval w) jobs) (omega (arith, le, most))
          (check_jobs-Tells t' jobs)
          (λ early.
            wait_loop-Ends fuel t' (next_interval w) most (omega (arith, early))
              (omega (arith, enough, least)))

    -- The wait ends: if all the jobs run from second `T` on and none is ever in error, `wait_for_jobs`
    -- returns, after `T + 1` rounds at most and 150 seconds after `T` at most, at a second at which
    -- all the jobs run.
    pub wait_for_jobs-Ends :
        (second : ℕ) × (wait_for_jobs refresh (suc T) jobs ≡ all_running second)
        × (second ≤ T + 150)
        × All (λ uid. refresh second uid ≡ running) jobs
    unfolding wait_for_jobs
    wait_for_jobs-Ends = wait_loop-Ends (suc T) 0 0 (omega arith) (omega arith) (omega arith)

  -- What `wait_for_jobs` tells is so at the second that it tells: that all the jobs run, or that one of
  -- them is in error.
  wait_for_jobs-IsTrue : (fuel : ℕ) (jobs : List ℕ) → IsTrue jobs (wait_for_jobs refresh fuel jobs)
  unfolding wait_for_jobs
  wait_for_jobs-IsTrue fuel jobs = wait_loop-IsTrue fuel 0 0 jobs
