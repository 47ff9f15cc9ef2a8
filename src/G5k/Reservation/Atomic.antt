-- ===== src/G5k/Reservation/Atomic.antt =====
-- A reservation finds the jobs that there are, or makes all of its jobs or none.
use enoslib.Base.{
  ℕ, Bool, ◌≡◌, refl, sym, String, Option, none, some, List, [], ◌∷◌, ◌++◌, length, if◌then◌else◌,
}
use mathlib.Core.Path.{subst}
use mathlib.Core.List.{append_assoc, append-nil}
use enoslib.G5k.Configuration.{GroupConfiguration, NetworkConfiguration}
use enoslib.G5k.Jobs.{
  Job, JobApi, Site, raise_after, submit_next, submit_from, submit_jobs, grid_reload_jobs_from_name,
}
use enoslib.G5k.Jobs.Listing.{Tells, has_duplicates, current_jobs, grid_reload_jobs_from_name-Tells}
use enoslib.G5k.Jobs.Submit.{JobLaws, IsAtomic, submit_jobs-IsAtomic}
use enoslib.G5k.Reservation.{
  build_reservation_criteria, Demand, JobType, JobSpec, job_specs, job_types, Reserved,
  grid_make_reservation, found_or_made, grid_get_or_create_job,
}

module _ {S Spec : Type 0} (api : JobApi S Spec) where
  -- Each job is the one that the API created for the site and the specification at its place.
  abbrev pub AreMade : List (String × Spec) → List Job → Type 0
  AreMade [] [] = Unit
  AreMade ((site, spec) ∷ specs) (job ∷ jobs) =
      ((s : S) × (s' : S) × (api.create s site spec ≡ (some job, s'))) × AreMade specs jobs
  AreMade _ _ = ⊥

  -- So are the jobs that are returned.
  abbrev pub Makes : List (String × Spec) → Option (List Job) × S → Type 0
  Makes specs (none, s) = Unit
  Makes specs (some jobs, s) = AreMade specs jobs

  AreMade-snoc :
      (specs : List (String × Spec)) (jobs : List Job) (site : String) (spec : Spec) (job : Job)
      (s s' : S)
      → api.create s site spec ≡ (some job, s')
      → AreMade specs jobs
      → AreMade (specs ++ (site, spec) ∷ []) (jobs ++ job ∷ [])
  AreMade-snoc [] [] site spec job s s' e h = ((s, s', e), tt)
  AreMade-snoc [] (j ∷ jobs) site spec job s s' e h = absurd h
  AreMade-snoc (c ∷ specs) [] site spec job s s' e h = absurd h
  AreMade-snoc ((site', spec') ∷ specs) (j ∷ jobs) site spec job s s' e h =
      (h.0, AreMade-snoc specs jobs site spec job s s' e h.1)

  submit_next-Makes :
      (specs : List (String × Spec)) (jobs : List Job) (made : Option Job) (s : S)
      (next : Job → Option (List Job) × S)
      → ((job : Job) → made ≡ some job → Makes specs (next job))
      → Makes specs (submit_next api jobs made s next)
  unfolding submit_next raise_after
  submit_next-Makes specs jobs none s next h = tt
  submit_next-Makes specs jobs (some job) s next h = h job refl

  submit_from-Makes :
      (before : List (String × Spec)) (jobs : List Job) (s : S) (specs : List (String × Spec))
      → AreMade before jobs
      → Makes (before ++ specs) (submit_from api jobs s specs)
  unfolding submit_from
  submit_from-Makes before jobs s [] h = subst (λ l. AreMade l jobs) (sym (append-nil before)) h
  submit_from-Makes before jobs s ((site, spec) ∷ specs) h =
      let out = api.create s site spec in
      submit_next-Makes (before ++ (site, spec) ∷ specs) jobs out.0 out.1
        (λ job. submit_from api (jobs ++ job ∷ []) out.1 specs)
        (λ job e.
          subst (λ l. Makes l (submit_from api (jobs ++ job ∷ []) out.1 specs))
            (append_assoc before ((site, spec) ∷ []) specs)
            (submit_from-Makes (before ++ (site, spec) ∷ []) (jobs ++ job ∷ []) out.1 specs
              (AreMade-snoc before jobs site spec job s out.1 (rw e refl) h)))

module _ {S : Type 0} (api : JobApi S JobSpec) (alive : S → List ℕ) (laws : JobLaws api alive)
    (str : ℕ → String) where
  -- If there is no job yet, all or none of the new jobs; otherwise the jobs that there are, and
  -- nothing new.
  abbrev pub IsFresh : S → JobType → List (String × JobSpec) → List Job → Reserved S → Type 0
  IsFresh s job_type specs [] out =
      IsAtomic alive (alive s) (length specs) (out.0, out.1.0) × Makes api specs (out.0, out.1.0)
  IsFresh s job_type specs (job ∷ jobs) out = out ≡ (some (job ∷ jobs), (s, job_type))

  -- An exception for duplicates, which changes nothing.
  abbrev pub IsGotten :
      S → JobType → List (String × JobSpec) → Bool → List Job → Reserved S → Type 0
  IsGotten s job_type specs duplicates there out =
      if duplicates then out ≡ (none, (s, job_type)) else IsFresh s job_type specs there out

  found_or_made-IsGotten :
      (s : S) (job_type : JobType) (specs : List (String × JobSpec)) (duplicates : Bool)
      (there : List Job) (found : Option (List Job)) (made : Reserved S)
      → IsAtomic alive (alive s) (length specs) (made.0, made.1.0)
      → Makes api specs (made.0, made.1.0)
      → Tells duplicates there found
      → IsGotten s job_type specs duplicates there (found_or_made api str found job_type s made)
  unfolding found_or_made
  found_or_made-IsGotten s job_type specs duplicates there none made h k tells = rw tells refl
  found_or_made-IsGotten s job_type specs duplicates there (some []) made h k (single, same) =
      rw single (subst (λ l. IsFresh s job_type specs l made) same (h, k))
  found_or_made-IsGotten s job_type specs duplicates there (some (job ∷ jobs)) made h k
        (single, same) =
      rw single
        (subst (λ l. IsFresh s job_type specs l (some (job ∷ jobs), (s, job_type))) same refl)

  -- Getting jobs by name: if a site that may be asked has two current jobs of the name, it raises and
  -- nothing changes; if the sites have current jobs of the name, these are returned and nothing
  -- changes; if they have none, one job is created and alive for each site of which something is asked,
  -- by the API's creation on that site of the job that asks for it, or it raises and no job is alive
  -- that was not.
  pub grid_get_or_create_job-IsGotten :
      (sites : S → List Site) (excluded : List String) (d : Demand) (job_type : JobType)
      (machines : List GroupConfiguration) (networks : List NetworkConfiguration)
      (restrict_to : Option (List String)) (s : S)
      → IsGotten s job_type
          (job_specs d
            (job_types job_type d.monitor).0
            (build_reservation_criteria str machines networks))
          (has_duplicates excluded restrict_to d.job_name (sites s))
          (current_jobs excluded restrict_to d.job_name (sites s))
          (grid_get_or_create_job api str sites excluded d job_type machines networks restrict_to s)
  unfolding grid_get_or_create_job grid_make_reservation
  grid_get_or_create_job-IsGotten sites excluded d job_type machines networks restrict_to s =
      let specs =
        job_specs d (job_types job_type d.monitor).0
          (build_reservation_criteria str machines networks) in
      found_or_made-IsGotten s job_type specs
        (has_duplicates excluded restrict_to d.job_name (sites s))
        (current_jobs excluded restrict_to d.job_name (sites s))
        (grid_reload_jobs_from_name (sites s) excluded d.job_name restrict_to)
        (grid_make_reservation api str d job_type machines networks s)
        (submit_jobs-IsAtomic api alive laws s specs)
        (unfold submit_jobs in submit_from-Makes api [] [] s specs tt)
        (grid_reload_jobs_from_name-Tells (sites s) excluded d.job_name restrict_to)
