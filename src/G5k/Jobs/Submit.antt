-- ===== src/G5k/Jobs/Submit.antt =====
-- A submission creates all of its jobs or none.
use enoslib.Base.{
  ℕ, ◌+◌, ◌≡◌, refl, ap, ◌∙◌, sym, String, true, false, ◌||◌, Option, none, some, List, [], ◌∷◌,
  ◌++◌, map, length, All, All-append, arith, Bool-cases, inl, inr, length-append,
}
use mathlib.Core.List.{append_assoc, append-nil}
use enoslib.Base.Eq.{ℕ_eq, ◌==◌, ==_refl}
use enoslib.Collections.ResourcesSet.{contains, remove}
use enoslib.G5k.Jobs.{Job, JobApi, clean, raise_after, submit_next, submit_from, submit_jobs}

-- What the API documents of the jobs that are alive in a state: a created job is a new one; a refused
-- one changes nothing; a job that is alive can be deleted.
pub record JobLaws {S Spec : Type 0} (api : JobApi S Spec) (alive : S → List ℕ) : Type 0 where
  pub created :
      (s : S) (site : String) (spec : Spec) (job : Job) (s' : S)
      → api.create s site spec ≡ (some job, s')
      → (contains (alive s) job.uid ≡ false) × (alive s' ≡ alive s ++ job.uid ∷ [])
  pub refused :
      (s : S) (site : String) (spec : Spec) (s' : S)
      → api.create s site spec ≡ (none, s')
      → alive s' ≡ alive s
  pub deleted :
      (s : S) (job : Job)
      → contains (alive s) job.uid ≡ true
      → ((api.delete s job).0 ≡ true) × (alive (api.delete s job).1 ≡ remove (alive s) job.uid)

-- `n` jobs were created and are alive, or no job is alive that was not.
abbrev pub IsAtomic : {S : Type 0} → (S → List ℕ) → List ℕ → ℕ → Option (List Job) × S → Type 0
IsAtomic alive before n (some jobs, s) =
    (alive s ≡ before ++ map (λ j. j.uid) jobs) × (length jobs ≡ n)
IsAtomic alive before n (none, s) = alive s ≡ before

contains-append :
    (xs ys : List ℕ) (x : ℕ) → contains (xs ++ ys) x ≡ (contains xs x || contains ys x)
unfolding contains
contains-append [] ys x = refl
contains-append (z ∷ xs) ys x = ground (arith, contains-append xs ys x)

contains-middle : (xs ys : List ℕ) (x : ℕ) → contains (xs ++ x ∷ ys) x ≡ true
unfolding contains
contains-middle [] ys x = ground (arith, ==_refl x)
contains-middle (z ∷ xs) ys x = ground (arith, contains-middle xs ys x)

remove-middle :
    (xs ys : List ℕ) (x : ℕ) → contains xs x ≡ false → remove (xs ++ x ∷ ys) x ≡ xs ++ ys
unfolding contains remove
remove-middle [] ys x h = rw (==_refl x) refl
remove-middle (z ∷ xs) ys x h = elim (Bool-cases (z == x)) [
  | inl same ↦ absurd (ground (arith, h, same))
  | inr other ↦ rw other (ap (λ l. z ∷ l) (remove-middle xs ys x (ground (arith, h, other))))
]

abbrev uids : List Job → List ℕ
uids jobs = map (λ j. j.uid) jobs

uids-append : (xs ys : List Job) → uids (xs ++ ys) ≡ uids xs ++ uids ys
uids-append [] ys = refl
uids-append (x ∷ xs) ys = ap (λ l. x.uid ∷ l) (uids-append xs ys)

module _ {S Spec : Type 0} (api : JobApi S Spec) (alive : S → List ℕ)
    (laws : JobLaws api alive) where
  clean-alive :
      (before : List ℕ) (s : S) (jobs : List Job)
      → alive s ≡ before ++ uids jobs
      → All (λ j. contains before j.uid ≡ false) jobs
      → alive (clean api s jobs).1 ≡ before
  unfolding clean
  clean-alive before s [] h new = h ∙ append-nil before
  clean-alive before s (job ∷ jobs) h new =
      let there : contains (alive s) job.uid ≡ true =
        rw h (contains-middle before (uids jobs) job.uid) in
      let (ok, left) = laws.deleted s job there in
      rw ok (
        clean-alive before (api.delete s job).1 jobs
          (left ∙ ap (λ l. remove l job.uid) h ∙ remove-middle before (uids jobs) job.uid new.0)
          new.1)

  submit_next-IsAtomic :
      (before : List ℕ) (n : ℕ) (jobs : List Job) (made : Option Job) (s s' : S) (site : String)
      (spec : Spec) (next : Job → Option (List Job) × S)
      → alive s ≡ before ++ uids jobs
      → All (λ j. contains before j.uid ≡ false) jobs
      → api.create s site spec ≡ (made, s')
      → ((job : Job)
          → alive s' ≡ before ++ uids (jobs ++ job ∷ [])
          → All (λ j. contains before j.uid ≡ false) (jobs ++ job ∷ [])
          → IsAtomic alive before n (next job))
      → IsAtomic alive before n (submit_next api jobs made s' next)
  unfolding submit_next raise_after
  submit_next-IsAtomic before n jobs none s s' site spec next h new call after =
      clean-alive before s' jobs (laws.refused s site spec s' call ∙ h) new
  submit_next-IsAtomic before n jobs (some job) s s' site spec next h new call after =
      let (fresh, grown) = laws.created s site spec job s' call in
      let fresh_before : contains before job.uid ≡ false = ground (
        arith,
        fresh,
        ap (λ l. contains l job.uid) h,
        contains-append before (uids jobs) job.uid,
      ) in
      after job
        (grown
          ∙ ap (λ l. l ++ job.uid ∷ []) h
          ∙ append_assoc before (uids jobs) (job.uid ∷ [])
          ∙ ap (λ l. before ++ l) (sym (uids-append jobs (job ∷ []))))
        (All-append (λ j. contains before j.uid ≡ false) jobs (job ∷ []) new (fresh_before, tt))

  submit_from-IsAtomic :
      (before : List ℕ) (n : ℕ) (jobs : List Job) (s : S) (specs : List (String × Spec))
      → length jobs + length specs ≡ n
      → alive s ≡ before ++ uids jobs
      → All (λ j. contains before j.uid ≡ false) jobs
      → IsAtomic alive before n (submit_from api jobs s specs)
  unfolding submit_from
  submit_from-IsAtomic before n jobs s [] count h new = (h, omega (arith, count))
  submit_from-IsAtomic before n jobs s ((site, spec) ∷ specs) count h new =
      let out = api.create s site spec in
      submit_next-IsAtomic before n jobs out.0 s out.1 site spec
        (λ job. submit_from api (jobs ++ job ∷ []) out.1 specs) h new refl
        (λ job.
          submit_from-IsAtomic before n (jobs ++ job ∷ []) out.1 specs
            (omega (arith, count, length-append jobs (job ∷ []))))

  -- `submit_jobs` is atomic. If the API creates new jobs only, changes nothing when it refuses one, and
  -- can delete what is alive, then either a job is alive for each specification, behind those that were,
  -- or it raises and the jobs that are alive are those that were.
  pub submit_jobs-IsAtomic :
      (s : S) (specs : List (String × Spec))
      → IsAtomic alive (alive s) (length specs) (submit_jobs api s specs)
  unfolding submit_jobs
  submit_jobs-IsAtomic s specs =
      submit_from-IsAtomic (alive s) (length specs) [] s specs (omega arith)
        (sym (append-nil (alive s))) tt
