-- ===== src/Examples/Reserve.antt =====
-- What sites are asked for, and the end of jobs, at concrete inputs.
use enoslib.Base.{String}
use enoslib.G5k.Jobs.Listing.{has_duplicates, current_jobs}
use enoslib.Base.{
  ℕ, ◌≡◌, refl, Bool, true, false, not, none, some, List, [], ◌∷◌, leb, arith, if◌then◌else◌,
}
use enoslib.Base.Eq.{String_eq, ℕ_eq, ==_refl}
use enoslib.Base.Dict.{get, IsMapping}
use enoslib.Collections.ResourcesSet.{contains}
use enoslib.G5k.Configuration.{
  GroupConfiguration, NetworkConfiguration, cluster_nodes, servers_nodes, Resources,
}
use enoslib.G5k.Jobs.{Job, JobState, running, terminated, Site, is_live}
use enoslib.G5k.Jobs.Kill.{
  Deletion, deleted, grid_destroy_from_name, IsDestroyed, grid_destroy_from_name-IsDestroyed,
}
use enoslib.G5k.Reservation.{Demand, job_specs, build_reservation_criteria}
use enoslib.G5k.Reservation.Criteria.{asked, requested, job_specs-requested}

abbrev demand : Demand
demand = record {
  job_name = "exp";
  walltime = "02:00:00";
  reservation_date = none;
  queue = some "default";
  monitor = none;
  project = some "";
}

abbrev group : Resources → GroupConfiguration
group resources = record {
  roles = "compute" ∷ [];
  cluster = "paravance";
  site = "rennes";
  min = 0;
  reservable_disks = false;
  primary_network = none;
  secondary_networks = [];
  resources = resources;
}

abbrev machines : List GroupConfiguration
machines =
    group (cluster_nodes 1) ∷ group (servers_nodes ("paravance-1.rennes.grid5000.fr" ∷ []) 1) ∷ []

abbrev kavlan : NetworkConfiguration
kavlan = record { id = "n"; roles = []; type = "kavlan"; site = "rennes" }

job_specs-requested_example :
    IsMapping (
      job_specs demand
        ("deploy" ∷ [])
        (build_reservation_criteria (λ n. "1") machines (kavlan ∷ [])))
    × ((site : String)
        → get site (
            job_specs demand
              ("deploy" ∷ [])
              (build_reservation_criteria (λ n. "1") machines (kavlan ∷ [])))
          ≡ requested demand ("deploy" ∷ []) (asked (λ n. "1") machines (kavlan ∷ []) site))
job_specs-requested_example =
    job_specs-requested (λ n. "1") demand ("deploy" ∷ []) machines (kavlan ∷ [])

-- The killed jobs are the state; each has left the states that are waited for after five seconds.
abbrev kill : List ℕ → Job → List ℕ × Deletion
kill dead job = (job.uid ∷ dead, deleted)

abbrev ending : ℕ → ℕ → JobState
ending t uid = if leb 5 t then terminated else running

abbrev lives : List ℕ → ℕ → Bool
lives dead uid = not (contains dead uid)

abbrev rennes : List ℕ → List Site
rennes dead =
    record {
      uid = "rennes";
      jobs = record { uid = 3; site = "rennes"; name = "exp"; state = running } ∷ [];
    }
    ∷ []

grid_destroy_from_name-IsDestroyed_example :
    IsDestroyed ending kill lives []
      (has_duplicates [] none "exp" (rennes []))
      (current_jobs [] none "exp" (rennes []))
      (grid_destroy_from_name ending kill 6 rennes [] "exp" true none [])
unfolding contains is_live
grid_destroy_from_name-IsDestroyed_example =
    grid_destroy_from_name-IsDestroyed ending kill lives 5 rennes [] "exp" true none []
      (λ dead job. (λ h. cc, ground (arith, ==_refl job.uid), λ uid h. ground (arith, h)))
      (λ uid. refl)
