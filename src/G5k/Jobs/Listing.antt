-- ===== src/G5k/Jobs/Listing.antt =====
-- What a listing by name finds.
use enoslib.Base.{
  ◌≡◌, refl, ap, String, Bool, true, false, ◌&&◌, ◌||◌, not, Option, none, some, List, [], ◌∷◌,
  ◌++◌, filterb, length, ltb, any, if◌then◌else◌, Bool-cases, inl, inr, arith,
}
use enoslib.Base.Eq.{String_eq, ◌==◌}
use enoslib.Collections.ResourcesSet.{contains}
use enoslib.G5k.Jobs.{
  Job, JobState, waiting, launching, running, terminated, error, is_live, Site, list_jobs,
  is_searched, add_unique, reload_sites, grid_reload_jobs_from_name,
}

-- A job that waits, is launched or runs.
abbrev pub is_current : JobState → Bool
is_current waiting = true
is_current launching = true
is_current running = true
is_current terminated = false
is_current error = false

-- The site may be asked.
abbrev pub is_asked : List String → Option (List String) → String → Bool
is_asked excluded none uid = not (any (λ s. s == uid) excluded)
is_asked excluded (some restrict_to) uid =
    not (any (λ s. s == uid) excluded) && any (λ s. s == uid) restrict_to

-- The current jobs of a name on a site.
abbrev pub jobs_on : String → Site → List Job
jobs_on job_name site = filterb (λ j. j.name == job_name && is_current j.state) site.jobs

-- Some site that may be asked has two of them.
abbrev pub has_duplicates : List String → Option (List String) → String → List Site → Bool
has_duplicates excluded restrict_to job_name [] = false
has_duplicates excluded restrict_to job_name (site ∷ sites) =
    (is_asked excluded restrict_to site.uid && ltb 1 (length (jobs_on job_name site)))
    || has_duplicates excluded restrict_to job_name sites

-- Those of all the sites that may be asked.
abbrev pub current_jobs : List String → Option (List String) → String → List Site → List Job
current_jobs excluded restrict_to job_name [] = []
current_jobs excluded restrict_to job_name (site ∷ sites) =
    if is_asked excluded restrict_to site.uid
    then jobs_on job_name site ++ current_jobs excluded restrict_to job_name sites
    else current_jobs excluded restrict_to job_name sites

-- An exception for duplicates, or the jobs that are there.
abbrev pub Tells : Bool → List Job → Option (List Job) → Type 0
Tells duplicates there none = duplicates ≡ true
Tells duplicates there (some jobs) = (duplicates ≡ false) × (jobs ≡ there)

contains-any : (xs : List String) (x : String) → contains xs x ≡ any (λ s. s == x) xs
unfolding contains
contains-any [] x = refl
contains-any (y ∷ xs) x = ground (arith, contains-any xs x)

is_searched-is_asked :
    (excluded : List String) (restrict_to : Option (List String)) (s : Site)
    → is_searched excluded restrict_to s ≡ is_asked excluded restrict_to s.uid
unfolding is_searched
is_searched-is_asked excluded none s = ground (arith, contains-any excluded s.uid)
is_searched-is_asked excluded (some restrict_to) s =
    ground (arith, contains-any excluded s.uid, contains-any restrict_to s.uid)

is_live-is_current : (s : JobState) → is_live s ≡ is_current s
unfolding is_live
is_live-is_current waiting = refl
is_live-is_current launching = refl
is_live-is_current running = refl
is_live-is_current terminated = refl
is_live-is_current error = refl

filterb-jobs_on :
    (job_name : String) (jobs : List Job)
    → filterb (λ j. j.name == job_name && is_live j.state) jobs
      ≡ filterb (λ j. j.name == job_name && is_current j.state) jobs
filterb-jobs_on job_name [] = refl
filterb-jobs_on job_name (j ∷ jobs) =
    rw (is_live-is_current j.state, filterb-jobs_on job_name jobs) refl

-- One more site that may be asked.
add_unique-Tells :
    (here there : List Job) (duplicates : Bool) (rest : Option (List Job))
    → Tells duplicates there rest
    → Tells (ltb 1 (length here) || duplicates) (here ++ there) (add_unique here rest)
unfolding add_unique
add_unique-Tells [] there duplicates none h = h
add_unique-Tells [] there duplicates (some jobs) h = h
add_unique-Tells (job ∷ []) there duplicates none h = h
add_unique-Tells (job ∷ []) there duplicates (some jobs) h = (h.0, ap (λ l. job ∷ l) h.1)
add_unique-Tells (job ∷ other ∷ more) there duplicates rest h = ground arith

-- The listing raises exactly if a site that may be asked has two current jobs of the name, and finds
-- all the current ones otherwise.
pub grid_reload_jobs_from_name-Tells :
    (sites : List Site) (excluded : List String) (job_name : String)
    (restrict_to : Option (List String))
    → Tells
        (has_duplicates excluded restrict_to job_name sites)
        (current_jobs excluded restrict_to job_name sites)
        (grid_reload_jobs_from_name sites excluded job_name restrict_to)
unfolding grid_reload_jobs_from_name reload_sites list_jobs
grid_reload_jobs_from_name-Tells [] excluded job_name restrict_to = (refl, refl)
grid_reload_jobs_from_name-Tells (site ∷ sites) excluded job_name restrict_to =
    let rest = grid_reload_jobs_from_name-Tells sites excluded job_name restrict_to in
    rw (is_searched-is_asked excluded restrict_to site)
      (elim (Bool-cases (is_asked excluded restrict_to site.uid)) [
        | inl asked ↦
            rw (asked, filterb-jobs_on job_name site.jobs)
              (add_unique-Tells (jobs_on job_name site)
                (current_jobs excluded restrict_to job_name sites)
                (has_duplicates excluded restrict_to job_name sites)
                (reload_sites job_name (filterb (is_searched excluded restrict_to) sites)) rest)
        | inr not_asked ↦ rw not_asked rest
      ])
