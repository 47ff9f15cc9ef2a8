-- ===== src/Examples/Jobs.antt =====
-- The jobs and the deployments of Grid'5000 at concrete inputs.
use enoslib.Base.{All, false}
use enoslib.G5k.Reservation.{job_specs, job_types}
use enoslib.Base.{
  ℕ, suc, ◌+◌, ◌≤◌, ◌≡◌, refl, ap, sym, ◌∙◌, Bool-cases, inl, inr, String, true, false, Option,
  none, some, List, [], ◌∷◌, ◌++◌, arith, if◌then◌else◌, leb,
}
use enoslib.Base.Eq.{String_eq, ℕ_eq, ◌==◌}
use enoslib.Collections.ResourcesSet.{contains, remove}
use enoslib.G5k.Networks.Order.{OarNetwork_eq}
use enoslib.G5k.Jobs.{Job, JobState, waiting, running, JobApi, submit_jobs}
use enoslib.G5k.Configuration.{GroupConfiguration, cluster_nodes}
use enoslib.G5k.Reservation.{Demand, types, build_reservation_criteria, grid_get_or_create_job}
use enoslib.G5k.Reservation.Atomic.{IsGotten, grid_get_or_create_job-IsGotten}
use enoslib.G5k.Jobs.Submit.{JobLaws, IsAtomic, submit_jobs-IsAtomic}
use enoslib.G5k.Jobs.Wait.{wait_for_jobs, all_running}
use enoslib.G5k.Jobs.Wait.Ends.{wait_for_jobs-Ends}
use enoslib.G5k.Deploy.{
  Status, processing, terminated, ok as node_ok, ko as node_ko, Config, grid_deploy, has_ended,
  outcome_of,
}
use enoslib.G5k.Deploy.Ends.{IsEnded, all_nodes, grid_deploy-IsEnded}

abbrev above : List ℕ → ℕ
above [] = 0
above (x ∷ xs) = suc (x + above xs)

above-contains : (xs : List ℕ) (y : ℕ) → above xs ≤ y → contains xs y ≡ false
unfolding contains
above-contains [] y h = refl
above-contains (x ∷ xs) y h = ground (arith, h, above-contains xs y (omega (arith, h)))

-- Sites that create jobs with new numbers, but for the one that is down.
abbrev new_job : String → List ℕ → Job
new_job site alive = record { uid = above alive; site = site; name = "exp"; state = waiting }

abbrev sites : {Spec : Type 0} → JobApi (List ℕ) Spec
sites = record {
  create = λ alive site spec.
      if site == "down"
      then (none, alive)
      else (some (new_job site alive), alive ++ above alive ∷ []);
  delete = λ alive job. (true, remove alive job.uid);
}

some-job : (a b : Job) → ◌≡◌ {A = Option Job} (some a) (some b) → a ≡ b
some-job a b h = cc

none-some : (b : Job) → ◌≡◌ {A = Option Job} none (some b) → ⊥
none-some b h = cc

sites-created :
    {Spec : Type 0} (alive : List ℕ) (site : String) (spec : Spec) (job : Job) (alive' : List ℕ)
    → sites.create alive site spec ≡ (some job, alive')
    → (contains alive job.uid ≡ false) × (alive' ≡ alive ++ job.uid ∷ [])
sites-created alive site spec job alive' h = elim (Bool-cases (site == "down")) [
  | inl down ↦ absurd (none-some job (ap (λ x. x.0) (rw down at h)))
  | inr up ↦
      let made : new_job site alive ≡ job =
        some-job (new_job site alive) job (ap (λ x. x.0) (rw up at h)) in
      (
        ap (λ j. contains alive j.uid) (sym made)
            ∙ above-contains alive (above alive) (omega arith),
        sym (ap (λ x. x.1) (rw up at h)) ∙ ap (λ j. alive ++ j.uid ∷ []) made,
      )
]

sites-refused :
    {Spec : Type 0} (alive : List ℕ) (site : String) (spec : Spec) (alive' : List ℕ)
    → sites.create alive site spec ≡ (none, alive')
    → alive' ≡ alive
sites-refused alive site spec alive' h = elim (Bool-cases (site == "down")) [
  | inl down ↦ sym (ap (λ x. x.1) (rw down at h))
  | inr up ↦ absurd (none-some (new_job site alive) (sym (ap (λ x. x.0) (rw up at h))))
]

sites-JobLaws : {Spec : Type 0} → JobLaws {Spec = Spec} sites (λ alive. alive)
sites-JobLaws = record {
  created = sites-created;
  refused = sites-refused;
  deleted = λ alive job h. (refl, refl);
}

submit_jobs-IsAtomic_example :
    IsAtomic
      (λ alive. alive)
      (7 ∷ [])
      2
      (submit_jobs {Spec = ℕ} sites (7 ∷ []) (("rennes", 1) ∷ ("down", 2) ∷ []))
submit_jobs-IsAtomic_example =
    submit_jobs-IsAtomic sites (λ alive. alive) sites-JobLaws (7 ∷ [])
      (("rennes", 1) ∷ ("down", 2) ∷ [])

-- Two machines of a cluster, for the first of two reservations.
abbrev demand : Demand
demand = record {
  job_name = "exp";
  walltime = "02:00:00";
  reservation_date = none;
  queue = some "default";
  monitor = some "wattmetre";
  project = none;
}

abbrev two_nodes : GroupConfiguration
two_nodes = record {
  roles = "compute" ∷ [];
  cluster = "paravance";
  site = "rennes";
  min = 0;
  reservable_disks = false;
  primary_network = none;
  secondary_networks = [];
  resources = cluster_nodes 2;
}

grid_get_or_create_job-IsGotten_example :
    IsGotten sites
      (λ alive. alive)
      sites-JobLaws
      (λ n. "2")
      (7 ∷ [])
      (types [])
      (job_specs demand [] (build_reservation_criteria (λ n. "2") (two_nodes ∷ []) []))
      false
      []
      (grid_get_or_create_job sites
        (λ n. "2")
        (λ s. [])
        []
        demand
        (types [])
        (two_nodes ∷ [])
        []
        none
        (7 ∷ []))
unfolding job_types job_specs build_reservation_criteria
grid_get_or_create_job-IsGotten_example =
    grid_get_or_create_job-IsGotten sites (λ alive. alive) sites-JobLaws (λ n. "2") (λ s. []) []
      demand (types []) (two_nodes ∷ []) [] none (7 ∷ [])

abbrev started : ℕ → ℕ → JobState
started t uid = if leb 20 t then running else waiting

wait_for_jobs-Ends_example :
    (second : ℕ) × (wait_for_jobs started 21 (1 ∷ 2 ∷ []) ≡ all_running second)
    × (second ≤ 20 + 150)
    × All (λ uid. started second uid ≡ running) (1 ∷ 2 ∷ [])
wait_for_jobs-Ends_example =
    wait_for_jobs-Ends started (1 ∷ 2 ∷ []) 20 (λ t h. (ground (arith, h), (ground (arith, h), tt)))
      (λ t uid one h. ground (arith, h))

abbrev half : ℕ → ℕ → Status
half t uid = if leb 2 t then terminated (("a-1", node_ok) ∷ ("a-2", node_ko) ∷ []) else processing

abbrev deployment : Config ℕ
deployment = record { site = "rennes"; nodes = "a-1" ∷ "a-2" ∷ []; vlan = none; options = 0 }

grid_deploy-IsEnded_example :
    IsEnded half (all_nodes (deployment ∷ [])) (grid_deploy half (λ t c. 1) 3 0 (deployment ∷ []))
unfolding has_ended outcome_of
grid_deploy-IsEnded_example =
    grid_deploy-IsEnded half (λ t c. 1) 2 0 (deployment ∷ [])
      (
        λ t'. elim (Bool-cases (leb 2 t')) [
          | inl late ↦ rw late ((λ a. refl), (refl, (refl, tt)))
          | inr early ↦ rw early tt
        ],
        tt,
      )
      (λ uid. refl)
