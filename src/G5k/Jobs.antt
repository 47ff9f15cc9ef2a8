-- ===== src/G5k/Jobs.antt =====
-- The jobs of enoslib/infra/enos_g5k/g5k_api_utils.py. The Grid'5000 API is a parameter: a state, and the
-- calls that create and delete a job.
pub mod Submit
pub mod Wait
pub mod Resources
pub mod Kill
pub mod Listing
use enoslib.Base.{
  ℕ, ◌+◌, String, Bool, true, false, ◌&&◌, ◌||◌, Option, none, some, List, [], ◌∷◌, ◌++◌, map,
  filterb, any, not, length, ltb, if◌then◌else◌,
}
use enoslib.Base.Eq.{Eq, String_eq, ℕ_eq, ◌==◌}
use enoslib.Collections.ResourcesSet.{contains}

pub data JobState : Type 0 where
  waiting launching running terminated error : JobState

pub record Job : Type 0 where
  pub uid : ℕ
  pub site : String
  pub name : String
  pub state : JobState

-- The calls: a job or an error for `create`, and whether `delete` raised.
pub record JobApi (S Spec : Type 0) : Type 0 where
  pub create : S → String → Spec → Option Job × S
  pub delete : S → Job → Bool × S

module _ {S Spec : Type 0} (api : JobApi S Spec) where
  -- `for job in jobs: job.delete()`: it ends with the first that raises.
  unfoldable pub clean : S → List Job → Bool × S
  clean s [] = (true, s)
  clean s (job ∷ jobs) =
      let (deleted, s') = api.delete s job in
      let rest = clean s' jobs in if deleted then rest else (false, s')

  -- The exception of the submission is raised again after the cleaning, or the one of the cleaning is.
  unfoldable pub raise_after : Bool × S → Option (List Job) × S
  raise_after (_, s) = (none, s)

  unfoldable pub submit_next :
      List Job → Option Job → S → (Job → Option (List Job) × S) → Option (List Job) × S
  unfolding clean raise_after
  submit_next jobs none s next = raise_after (clean s jobs)
  submit_next jobs (some job) s next = next job

  -- `submit_jobs`, with the jobs created so far: the jobs, or none if it raises.
  unfoldable pub submit_from : List Job → S → List (String × Spec) → Option (List Job) × S
  unfolding submit_next
  submit_from jobs s [] = (some jobs, s)
  submit_from jobs s ((site, spec) ∷ job_specs) =
      let (made, s') = api.create s site spec in
      submit_next jobs made s' (λ job. submit_from (jobs ++ job ∷ []) s' job_specs)

  unfoldable pub submit_jobs : S → List (String × Spec) → Option (List Job) × S
  unfolding submit_from
  submit_jobs s job_specs = submit_from [] s job_specs

-- The states that a listing asks for.
unfoldable pub is_live : JobState → Bool
is_live waiting = true
is_live launching = true
is_live running = true
is_live terminated = false
is_live error = false

-- A site with the jobs of the user.
pub record Site : Type 0 where
  pub uid : String
  pub jobs : List Job

-- `site.jobs.list(name=..., state="waiting,launching,running", ...)`
unfoldable pub list_jobs : String → Site → List Job
unfolding is_live
list_jobs job_name site = filterb (λ j. j.name == job_name && is_live j.state) site.jobs

-- `s.uid not in gk.excluded_sites and s.uid in restrict_to`; none restricts to the sites there are.
unfoldable pub is_searched : List String → Option (List String) → Site → Bool
unfolding contains
is_searched excluded none s = not (contains excluded s.uid)
is_searched excluded (some restrict_to) s =
    not (contains excluded s.uid) && contains restrict_to s.uid

-- The job of a site, if there is one, in front of the others; two are an `EnosG5kDuplicateJobsError`.
unfoldable pub add_unique : List Job → Option (List Job) → Option (List Job)
add_unique [] rest = rest
add_unique (job ∷ []) none = none
add_unique (job ∷ []) (some jobs) = some (job ∷ jobs)
add_unique (job ∷ other ∷ more) rest = none

unfoldable pub reload_sites : String → List Site → Option (List Job)
unfolding add_unique list_jobs
reload_sites job_name [] = some []
reload_sites job_name (site ∷ sites) =
    add_unique (list_jobs job_name site) (reload_sites job_name sites)

unfoldable pub grid_reload_jobs_from_name :
    List Site → List String → String → Option (List String) → Option (List Job)
unfolding reload_sites is_searched
grid_reload_jobs_from_name sites excluded job_name restrict_to =
    reload_sites job_name (filterb (is_searched excluded restrict_to) sites)
