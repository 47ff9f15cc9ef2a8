-- ===== src/G5k/Jobs/Wait.antt =====
-- `wait_for_jobs` (enoslib/infra/enos_g5k/g5k_api_utils.py). `refresh` is the API's answer: the state of
-- a job, by its uid, at a second from the start; checks take no time.
pub mod Ends
use enoslib.Base.{ℕ, zero, suc, ◌+◌, Bool, true, false, ◌&&◌, List, [], ◌∷◌, ltb, if◌then◌else◌}
use enoslib.G5k.Jobs.{JobState, waiting, launching, running, terminated, error}

-- One round over the jobs: whether all are running, or the job that is in error.
pub data Checked : Type 0 where
  checked : (all_running : Bool) → Checked
  in_error : (uid : ℕ) → Checked

-- All the jobs run at a second, or one is in error, or the loop needs more rounds than there is fuel.
pub data Waited : Type 0 where
  all_running : (second : ℕ) → Waited
  job_error : (uid second : ℕ) → Waited
  out_of_fuel : Waited

and_then : Bool → Checked → Checked
and_then b (checked rest) = checked (b && rest)
and_then b (in_error uid) = in_error uid

check_job : JobState → ℕ → Checked → Checked
unfolding and_then
check_job error uid rest = in_error uid
check_job running uid rest = and_then true rest
check_job _ uid rest = and_then false rest

unfoldable pub next_interval : ℕ → ℕ
next_interval waiting_interval = if ltb waiting_interval 45 then waiting_interval + 5 else 150

after_check : Checked → ℕ → Waited → Waited
after_check (checked true) t more = all_running t
after_check (checked false) t more = more
after_check (in_error uid) t more = job_error uid t

module _ (refresh : ℕ → ℕ → JobState) where
  unfoldable pub check_jobs : ℕ → List ℕ → Checked
  unfolding check_job
  check_jobs t [] = checked true
  check_jobs t (uid ∷ jobs) = check_job (refresh t uid) uid (check_jobs t jobs)

  -- The loop from second `t` on, with the interval of the round before.
  unfoldable pub wait_loop : ℕ → ℕ → ℕ → List ℕ → Waited
  unfolding next_interval check_jobs after_check
  wait_loop zero t waiting_interval jobs = out_of_fuel
  wait_loop (suc fuel) t waiting_interval jobs =
      let interval = next_interval waiting_interval in
      let more = wait_loop fuel (t + interval) interval jobs in
      after_check (check_jobs (t + interval) jobs) (t + interval) more

  unfoldable pub wait_for_jobs : ℕ → List ℕ → Waited
  unfolding wait_loop
  wait_for_jobs fuel jobs = wait_loop fuel 0 0 jobs
