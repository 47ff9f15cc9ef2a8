-- ===== src/G5k/Jobs/Kill.antt =====
-- `job_delete` and `grid_destroy_from_name` (enoslib/infra/enos_g5k/g5k_api_utils.py). `delete` is the
-- API's call: a state after it and how it answered; `refresh` tells the state of a job, by its uid, at
-- a second from the call.
use enoslib.Base.{
  ℕ, zero, suc, ◌+◌, ◌≡◌, refl, ap, ◌∙◌, String, Bool, true, false, Option, none, some, List, [],
  ◌∷◌, All, arith, if◌then◌else◌, Bool-cases, inl, inr,
}
use enoslib.G5k.Jobs.Listing.{Tells, has_duplicates, current_jobs, grid_reload_jobs_from_name-Tells}
use enoslib.G5k.Jobs.{Job, JobState, is_live, Site, grid_reload_jobs_from_name}

-- The API's answers: the one for a job that was killed already is known by its text.
pub data Deletion : Type 0 where
  deleted already_killed delete_error : Deletion

-- What killing jobs ends with.
pub data Killed (S : Type 0) : Type 0 where
  killed : S → Killed S
  not_killed : S → Killed S
  duplicate_jobs : S → Killed S
  out_of_fuel : Killed S

after_wait : {S : Type 0} → Option ℕ → S → Killed S
after_wait none s = out_of_fuel
after_wait (some t) s = killed s

-- An exception ends the loop over the jobs.
and_then : {S : Type 0} → Killed S → (S → Killed S) → Killed S
and_then (killed s) next = next s
and_then (not_killed s) next = not_killed s
and_then (duplicate_jobs s) next = duplicate_jobs s
and_then out_of_fuel next = out_of_fuel

plus_zero : (t : ℕ) → t ≡ t + 0
plus_zero t = omega arith

plus_suc : (t n : ℕ) → suc t + n ≡ t + suc n
plus_suc t n = omega arith

module _ (refresh : ℕ → ℕ → JobState) where
  -- The waiting loop: the second at which the job is no longer alive; none if the fuel is spent.
  unfoldable pub wait_killed : ℕ → ℕ → ℕ → Option ℕ
  unfolding is_live
  wait_killed zero t uid = none
  wait_killed (suc fuel) t uid =
      let more = wait_killed fuel (suc t) uid in if is_live (refresh t uid) then more else some t

  after_delete : {S : Type 0} → ℕ → Bool → Job → S × Deletion → Killed S
  unfolding wait_killed after_wait
  after_delete fuel wait job (s, delete_error) = not_killed s
  after_delete fuel wait job (s, answer) =
      if wait then after_wait (wait_killed fuel 0 job.uid) s else killed s

  module _ {S : Type 0} (delete : S → Job → S × Deletion) where
    unfoldable pub job_delete : ℕ → Bool → S → Job → Killed S
    unfolding after_delete
    job_delete fuel wait s job = after_delete fuel wait job (delete s job)

    unfoldable pub delete_all : ℕ → Bool → S → List Job → Killed S
    unfolding job_delete and_then
    delete_all fuel wait s [] = killed s
    delete_all fuel wait s (job ∷ jobs) =
        and_then (job_delete fuel wait s job) (λ s'. delete_all fuel wait s' jobs)

    destroy_found : ℕ → Bool → S → Option (List Job) → Killed S
    unfolding delete_all
    destroy_found fuel wait s none = duplicate_jobs s
    destroy_found fuel wait s (some jobs) = delete_all fuel wait s jobs

    unfoldable pub grid_destroy_from_name :
        ℕ → (S → List Site) → List String → String → Bool → Option (List String) → S → Killed S
    unfolding destroy_found grid_reload_jobs_from_name
    grid_destroy_from_name fuel sites excluded job_name wait restrict_to s =
        destroy_found fuel wait s
          (grid_reload_jobs_from_name (sites s) excluded job_name restrict_to)

  -- A job that is no longer alive at a second is waited for no longer than that.
  wait_killed-ends :
      (n t uid : ℕ)
      → is_live (refresh (t + n) uid) ≡ false
      → (t' : ℕ) × (wait_killed (suc n) t uid ≡ some t') × (is_live (refresh t' uid) ≡ false)
  unfolding wait_killed
  wait_killed-ends zero t uid h =
      let dead : is_live (refresh t uid) ≡ false =
        ap (λ x. is_live (refresh x uid)) (plus_zero t) ∙ h in
      (t, rw dead refl, dead)
  wait_killed-ends (suc n) t uid h = elim (Bool-cases (is_live (refresh t uid))) [
    | inr dead ↦ (t, rw dead refl, dead)
    | inl live ↦
        let (t', e, dead) =
          wait_killed-ends n (suc t) uid (ap (λ x. is_live (refresh x uid)) (plus_suc t n) ∙ h) in
        (t', rw live e, dead)
  ]

  module _ {S : Type 0} (delete : S → Job → S × Deletion) (alive : S → ℕ → Bool) where
    -- What the API documents of deleting jobs: it is not refused; the job is then no longer alive, and
    -- no other comes to life.
    abbrev pub Deletes : Type 0
    Deletes =
        (s : S) (job : Job)
        → (◌≡◌ {A = Deletion} (delete s job).1 delete_error → ⊥)
          × (alive (delete s job).0 job.uid ≡ false)
          × ((uid : ℕ) → alive s uid ≡ false → alive (delete s job).0 uid ≡ false)

    -- None of the jobs is alive in the end.
    abbrev pub AreKilled : List Job → Killed S → Type 0
    AreKilled jobs out = (s' : S) × (out ≡ killed s') × All (λ j. alive s' j.uid ≡ false) jobs

    after_delete-killed :
        (n : ℕ) (wait : Bool) (job : Job) (s : S) (answer : Deletion)
        → (◌≡◌ {A = Deletion} answer delete_error → ⊥)
        → is_live (refresh n job.uid) ≡ false
        → after_delete (suc n) wait job (s, answer) ≡ killed s
    unfolding after_delete after_wait
    after_delete-killed n wait job s delete_error h dead = absurd (h refl)
    after_delete-killed n true job s deleted h dead =
        rw
          (wait_killed-ends n 0 job.uid
            (ap (λ x. is_live (refresh x job.uid)) (omega arith) ∙ dead)).1
          refl
    after_delete-killed n false job s deleted h dead = refl
    after_delete-killed n true job s already_killed h dead =
        rw
          (wait_killed-ends n 0 job.uid
            (ap (λ x. is_live (refresh x job.uid)) (omega arith) ∙ dead)).1
          refl
    after_delete-killed n false job s already_killed h dead = refl

    delete_all-AreKilled :
        (n : ℕ) (wait : Bool) (s : S) (jobs : List Job)
        → Deletes
        → ((uid : ℕ) → is_live (refresh n uid) ≡ false)
        → (s' : S) × (delete_all delete (suc n) wait s jobs ≡ killed s')
          × All (λ j. alive s' j.uid ≡ false) jobs
          × ((uid : ℕ) → alive s uid ≡ false → alive s' uid ≡ false)
    unfolding delete_all job_delete and_then
    delete_all-AreKilled n wait s [] laws dead = (s, refl, tt, λ uid h. h)
    delete_all-AreKilled n wait s (job ∷ jobs) laws dead =
        let (not_refused, gone, still) = laws s job in
        let (s', e, later, kept) = delete_all-AreKilled n wait (delete s job).0 jobs laws dead in
        let here =
          after_delete-killed n wait job (delete s job).0 (delete s job).1 not_refused
            (dead job.uid) in
        (s', rw here e, (kept job.uid gone, later), λ uid h. kept uid (still uid h))

    -- The end: an error without a change if there are duplicates, or no job is alive of those that
    -- there were.
    abbrev pub IsDestroyed : S → Bool → List Job → Killed S → Type 0
    IsDestroyed s duplicates there out =
        if duplicates then out ≡ duplicate_jobs s else AreKilled there out

    destroy_found-IsDestroyed :
        (n : ℕ) (wait duplicates : Bool) (there : List Job) (s : S) (found : Option (List Job))
        → Deletes
        → ((uid : ℕ) → is_live (refresh n uid) ≡ false)
        → Tells duplicates there found
        → IsDestroyed s duplicates there (destroy_found delete (suc n) wait s found)
    unfolding destroy_found
    destroy_found-IsDestroyed n wait duplicates there s none laws dead h = rw h refl
    destroy_found-IsDestroyed n wait duplicates there s (some jobs) laws dead (h, same) =
        let (s', e, killed_all, kept) = delete_all-AreKilled n wait s there laws dead in
        rw (h, same) (s', e, killed_all)

    -- Destroying by name: if a site that may be asked has two current jobs of the name, it raises and
    -- the state is as it was, nothing being deleted. Otherwise, if the API deletes jobs and those
    -- deleted have left the states that are waited for after `n` seconds, it ends, waiting or not, and
    -- of all the current jobs of the name on the sites that may be asked none is alive.
    pub grid_destroy_from_name-IsDestroyed :
        (n : ℕ) (sites : S → List Site) (excluded : List String) (job_name : String) (wait : Bool)
        (restrict_to : Option (List String)) (s : S)
        → Deletes
        → ((uid : ℕ) → is_live (refresh n uid) ≡ false)
        → IsDestroyed s
            (has_duplicates excluded restrict_to job_name (sites s))
            (current_jobs excluded restrict_to job_name (sites s))
            (grid_destroy_from_name delete (suc n) sites excluded job_name wait restrict_to s)
    unfolding grid_destroy_from_name
    grid_destroy_from_name-IsDestroyed n sites excluded job_name wait restrict_to s laws dead =
        destroy_found-IsDestroyed n wait (has_duplicates excluded restrict_to job_name (sites s))
          (current_jobs excluded restrict_to job_name (sites s)) s
          (grid_reload_jobs_from_name (sites s) excluded job_name restrict_to) laws dead
          (grid_reload_jobs_from_name-Tells (sites s) excluded job_name restrict_to)
