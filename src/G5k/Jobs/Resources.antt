-- ===== src/G5k/Jobs/Resources.antt =====
-- `build_resources` (enoslib/infra/enos_g5k/g5k_api_utils.py): what the jobs reserved, as a launch takes it.
use Prim.Native.String.{◌++◌ as ◌<>◌}
use enoslib.Base.{
  ◌≡◌, refl, String, true, ◌||◌, List, [], ◌∷◌, ◌++◌, map, All, arith, if◌then◌else◌, Bool-cases,
  inl, inr,
}
use enoslib.Base.Eq.{String_eq, ==_refl}
use enoslib.Collections.ResourcesSet.{contains}
use enoslib.G5k.Networks.{OarNetwork, kavlan, kind_of}
use enoslib.G5k.Networks.Order.{OarNetwork_eq}

-- A job with what it reserved; a job without subnets or vlans has none.
pub record Reserved : Type 0 where
  pub site : String
  pub assigned_nodes : List String
  pub subnets : List String
  pub vlans : List String

unfoldable pub to_vlan_nature : String → String
unfolding contains
to_vlan_nature vlan_id =
    if contains ("1" ∷ "2" ∷ "3" ∷ []) vlan_id
    then "kavlan-local"
    else if contains ("4" ∷ "5" ∷ "6" ∷ "7" ∷ "8" ∷ "9" ∷ []) vlan_id
    then "kavlan"
    else "kavlan-global"

-- `cidr[-2:]`
last_two : String → String
last_two String.[] = ""
last_two (String.◌∷◌ c String.[]) = String.◌∷◌ c ""
last_two (String.◌∷◌ c (String.◌∷◌ d String.[])) = String.◌∷◌ c (String.◌∷◌ d "")
last_two (String.◌∷◌ c (String.◌∷◌ d (String.◌∷◌ e s))) = last_two (String.◌∷◌ d (String.◌∷◌ e s))

unfoldable pub to_subnet_nature : String → String
unfolding last_two
to_subnet_nature cidr = "slash_" <> last_two cidr

subnet_of : String → String → OarNetwork
unfolding to_subnet_nature
subnet_of site subnet = record {
  site = site;
  nature = to_subnet_nature subnet;
  descriptor = subnet;
}

vlan_of : String → String → OarNetwork
unfolding to_vlan_nature
vlan_of site vlan_id = record { site = site; nature = to_vlan_nature vlan_id; descriptor = vlan_id }

-- The production network of a site, which is always added.
abbrev pub prod_of : String → OarNetwork
prod_of site = record { site = site; nature = "prod"; descriptor = "DEFAULT" }

job_networks : Reserved → List OarNetwork
unfolding subnet_of vlan_of
job_networks job =
    map (subnet_of job.site) job.subnets
    ++ map (vlan_of job.site) job.vlans
    ++ prod_of job.site ∷ []

unfoldable pub build_resources : List Reserved → List String × List OarNetwork
unfolding job_networks
build_resources [] = ([], [])
build_resources (job ∷ jobs) =
    let (nodes, networks) = build_resources jobs in
    (job.assigned_nodes ++ nodes, job_networks job ++ networks)

-- A vlan has a nature that `_concretize_networks` serves as a vlan, whatever its number.
to_vlan_nature-kind_of : (vlan_id : String) → kind_of (to_vlan_nature vlan_id) ≡ kavlan
unfolding to_vlan_nature kind_of
to_vlan_nature-kind_of vlan_id = elim (Bool-cases (contains ("1" ∷ "2" ∷ "3" ∷ []) vlan_id)) [
  | inl is_local ↦ rw is_local refl
  | inr not_local ↦
      rw not_local (elim (Bool-cases (contains ("4" ∷ "5" ∷ "6" ∷ "7" ∷ "8" ∷ "9" ∷ []) vlan_id)) [
        | inl routed ↦ rw routed refl
        | inr not_routed ↦ rw not_routed refl
      ])
]

contains-append :
    (xs ys : List OarNetwork) (n : OarNetwork)
    → contains (xs ++ ys) n ≡ (contains xs n || contains ys n)
unfolding contains
contains-append [] ys n = refl
contains-append (x ∷ xs) ys n = ground (arith, contains-append xs ys n)

job_networks-prod_of : (job : Reserved) → contains (job_networks job) (prod_of job.site) ≡ true
unfolding job_networks contains
job_networks-prod_of job =
    let subnets = map (subnet_of job.site) job.subnets in
    let vlans = map (vlan_of job.site) job.vlans in
    ground (
      arith,
      contains-append (subnets ++ vlans) (prod_of job.site ∷ []) (prod_of job.site),
      ==_refl (prod_of job.site),
    )

-- The production network of each job's site is among the networks.
build_resources-prod_of :
    (jobs : List Reserved)
    → All (λ job. contains (build_resources jobs).1 (prod_of job.site) ≡ true) jobs
unfolding build_resources
build_resources-prod_of [] = tt
build_resources-prod_of (job ∷ jobs) = (
  ground (
    arith,
    contains-append (job_networks job) (build_resources jobs).1 (prod_of job.site),
    job_networks-prod_of job,
  ),
  weaken jobs (build_resources-prod_of jobs),
)
  where
    weaken :
        (js : List Reserved)
        → All (λ j. contains (build_resources jobs).1 (prod_of j.site) ≡ true) js
        → All
            (λ j. contains (job_networks job ++ (build_resources jobs).1) (prod_of j.site) ≡ true)
            js
    weaken [] h = tt
    weaken (j ∷ js) h = (
      ground (
        arith,
        h.0,
        contains-append (job_networks job) (build_resources jobs).1 (prod_of j.site),
      ),
      weaken js h.1,
    )
