-- ===== src/G5k/Reservation.antt =====
-- From a configuration to jobs: `oar` and `get_demands` of the classes of
-- enoslib/infra/enos_g5k/configuration.py, and `_build_reservation_criteria`,
-- `_do_grid_make_reservation`, `grid_make_reservation` and `grid_get_or_create_job` of
-- enoslib/infra/enos_g5k/g5k_api_utils.py. `str` prints a number; walltimes and dates are texts.
pub mod Criteria
pub mod Atomic
use Prim.Native.String.{◌++◌ as ◌<>◌}
use enoslib.Base.{
  ℕ, String, Bool, true, false, ◌||◌, not, Option, none, some, List, [], ◌∷◌, ◌++◌, map, length,
  if◌then◌else◌,
}
use enoslib.Base.Eq.{String_eq, ℕ_eq, ◌==◌}
use enoslib.Base.Dict.{Dict, get, put}
use enoslib.Base.Sort.{sorted}
use enoslib.Base.Text.{occurs}
use enoslib.G5k.Configuration.{
  GroupConfiguration, NetworkConfiguration, cluster_nodes, servers_nodes, Resources,
}
use enoslib.G5k.Jobs.{Job, JobApi, submit_jobs, Site, grid_reload_jobs_from_name}

-- `sep.join(parts)`
unfoldable pub join_by : String → List String → String
join_by sep [] = ""
join_by sep (p ∷ []) = p
join_by sep (p ∷ q ∷ parts) = p <> sep <> join_by sep (q ∷ parts)

disks : Bool → String
disks reservable_disks = if reservable_disks then "(type='default' or type='disk') AND " else ""

quoted : String → String
quoted s = "'" <> s <> "'"

-- What OAR is asked for: none for a group without nodes or servers.
unfoldable pub group_criterion : (ℕ → String) → GroupConfiguration → Resources → Option String
unfolding disks quoted join_by
group_criterion str g (cluster_nodes nodes) =
    if nodes == 0
    then none
    else some
        ("{" <> disks g.reservable_disks <> "cluster='" <> g.cluster <> "'}/nodes=" <> str nodes)
group_criterion str g (servers_nodes [] nodes) = none
group_criterion str g (servers_nodes (s ∷ servers) nodes) = some (
    "{"
    <> disks g.reservable_disks
    <> "network_address in ("
    <> join_by ", " (map quoted (s ∷ servers))
    <> ")}/nodes="
    <> str nodes)

-- `get_demands`
unfoldable pub get_demands : Resources → ℕ × List String
get_demands (cluster_nodes nodes) = (nodes, [])
get_demands (servers_nodes servers nodes) = (length servers, servers)

is_vlan : String → Bool
is_vlan type = type == "kavlan" || (type == "kavlan-local" || type == "kavlan-global")

is_subnet : String → Bool
is_subnet type = type == "slash_16" || type == "slash_22"

-- Nothing is asked for the production network.
unfoldable pub network_criterion : String → Option String
unfolding is_vlan is_subnet
network_criterion type =
    if is_subnet type
    then some (type <> "=1")
    else if is_vlan type
    then some ("{type='" <> type <> "'}/vlan=1")
    else none

-- `oar`: a site with a criterion
abbrev pub Oar : Type 0
Oar = String × Option String

abbrev pub Criteria : Type 0
Criteria = Dict String (List String)

unfoldable pub or_empty : Option (List String) → List String
or_empty none = []
or_empty (some criteria) = criteria

-- `criteria.setdefault(site, []).append(criterion)`
unfoldable pub append_criterion : Oar → Criteria → Criteria
unfolding get put or_empty
append_criterion (site, none) criteria = criteria
append_criterion (site, some criterion) criteria =
    put site (or_empty (get site criteria) ++ criterion ∷ []) criteria

unfoldable pub append_criteria : List Oar → Criteria → Criteria
unfolding append_criterion
append_criteria [] criteria = criteria
append_criteria (oar ∷ oars) criteria = append_criteria oars (append_criterion oar criteria)

module _ (str : ℕ → String) where
  unfoldable pub group_oar : GroupConfiguration → Oar
  unfolding group_criterion
  group_oar g = (g.site, group_criterion str g g.resources)

  -- The groups, then the networks.
  unfoldable pub build_reservation_criteria :
      List GroupConfiguration → List NetworkConfiguration → Criteria
  unfolding append_criteria network_criterion group_oar
  build_reservation_criteria machines networks =
      append_criteria (map (λ n. (n.site, network_criterion n.type)) networks)
        (append_criteria (map group_oar machines) [])

-- `job_type`: a text or a list
pub data JobType : Type 0 where
  one_type : String → JobType
  types : List String → JobType

pub record JobSpec : Type 0 where
  pub name : String
  pub types : List String
  pub resources : String
  pub command : String
  pub queue : Option String
  pub project : Option String
  pub reservation : Option String

-- What is reserved beside the machines and networks.
pub record Demand : Type 0 where
  pub job_name : String
  pub walltime : String
  pub reservation_date : Option String
  pub queue : Option String
  pub monitor : Option String
  pub project : Option String

-- The types of the jobs, and what is left in the caller's list, to which they are appended.
unfoldable pub job_types : JobType → Option String → List String × JobType
job_types (one_type t) none = (t ∷ [], one_type t)
job_types (one_type t) (some monitor) = (t ∷ ("monitor=" <> monitor) ∷ [], one_type t)
job_types (types ts) none = (ts, types ts)
job_types (types ts) (some monitor) =
    (ts ++ ("monitor=" <> monitor) ∷ [], types (ts ++ ("monitor=" <> monitor) ∷ []))

-- A text that is not empty
unfoldable pub given : Option String → Option String
given none = none
given (some s) = if s == "" then none else some s

unfoldable pub names_servers : String → Bool
names_servers x = occurs "network_address" x

-- `sorted(criteria, key=..., reverse=True)`, which is stable: True comes first.
unfoldable pub in_order : List String → List String
unfolding sorted names_servers
in_order criteria = sorted (λ x y. names_servers x || not (names_servers y)) criteria

unfoldable pub job_spec : Demand → List String → List String → JobSpec
unfolding in_order join_by given
job_spec d job_type criteria = record {
  name = d.job_name;
  types = job_type;
  resources = join_by "+" (in_order criteria) <> ",walltime=" <> d.walltime;
  command = "sleep 31536000";
  queue = d.queue;
  project = given d.project;
  reservation = given d.reservation_date;
}

unfoldable pub job_specs : Demand → List String → Criteria → List (String × JobSpec)
unfolding job_spec
job_specs d job_type criterias = map (λ e. (e.0, job_spec d job_type e.1)) criterias

-- What a reservation returns or raises, the state it leaves, and the caller's `job_type`.
abbrev pub Reserved : Type 0 → Type 0
Reserved S = Option (List Job) × (S × JobType)

module _ {S : Type 0} (api : JobApi S JobSpec) (str : ℕ → String) where
  unfoldable pub grid_make_reservation :
      Demand → JobType → List GroupConfiguration → List NetworkConfiguration → S → Reserved S
  unfolding build_reservation_criteria job_types job_specs submit_jobs
  grid_make_reservation d job_type machines networks s =
      let (all_types, job_type') = job_types job_type d.monitor in
      let (jobs, s') =
        submit_jobs api s
          (job_specs d all_types (build_reservation_criteria str machines networks)) in
      (jobs, (s', job_type'))

  -- The jobs found, or those that are made if none is found; none is an exception.
  unfoldable pub found_or_made : Option (List Job) → JobType → S → Reserved S → Reserved S
  found_or_made none job_type s made = (none, (s, job_type))
  found_or_made (some []) job_type s made = made
  found_or_made (some (job ∷ jobs)) job_type s made = (some (job ∷ jobs), (s, job_type))

  -- The listing of the sites is the API's, in the state `s`.
  unfoldable pub grid_get_or_create_job :
      (S → List Site)
      → List String
      → Demand
      → JobType
      → List GroupConfiguration
      → List NetworkConfiguration
      → Option (List String)
      → S
      → Reserved S
  unfolding grid_reload_jobs_from_name grid_make_reservation found_or_made
  grid_get_or_create_job sites excluded d job_type machines networks restrict_to s =
      found_or_made (grid_reload_jobs_from_name (sites s) excluded d.job_name restrict_to) job_type
        s (grid_make_reservation d job_type machines networks s)
