-- ===== src/Examples/Grid.antt =====
-- The Grid'5000 provider at concrete inputs.
use enoslib.Base.{
  ℕ, zero, suc, ◌+◌, ◌≤◌, ◌≡◌, ◌≢◌, refl, ap, sym, ◌∙◌, Bool-cases, inl, inr, String, Bool, true,
  false, Option, none, some, List, [], ◌∷◌, ◌++◌, arith, if◌then◌else◌, leb, ltb, length,
}
use enoslib.Base.Eq.{String_eq, ℕ_eq}
use enoslib.Base.Count.{SameItems}
use enoslib.Collections.ResourcesSet.{contains}
use enoslib.G5k.Configuration.{
  NetworkConfiguration, GroupConfiguration, cluster_nodes, servers_nodes, ok,
}
use enoslib.G5k.Configuration.Dictionary.{group_to_dict, group_from_dictionary}
use enoslib.G5k.Configuration.RoundTrip.{without_options, group-RoundTrips}
use enoslib.G5k.Configuration.Finalize.{Configuration, finalize}
use enoslib.G5k.Configuration.Finalize.Complete.{IsOutcomeOf, finalize-IsOutcomeOf}
use enoslib.G5k.Concretize.{concretize_nodes, cluster_of, servers_config}
use enoslib.G5k.Concretize.Partition.{IsPartition, concretize_nodes-IsPartition}
use enoslib.G5k.Concretize.Order.{concretize_nodes-SameItems}
use enoslib.G5k.Concretize.Enough.{Succeeds, demand, concretize_nodes-Succeeds}
use enoslib.Pools.Index.{things_of}
use enoslib.G5k.Networks.{OarNetwork, concretize_networks}
use enoslib.G5k.Networks.Assign.{IsAssigned, concretize_networks-IsAssigned}
use enoslib.G5k.Networks.Order.{OarNetwork_eq}
use enoslib.G5k.Launch.{launch_hosts}
use enoslib.G5k.Launch.Hosts.{IsLaunched, launch_hosts-IsLaunched}

abbrev prod : NetworkConfiguration
prod = record { id = "n1"; roles = "prod" ∷ []; type = "prod"; site = "rennes" }

abbrev vlan : NetworkConfiguration
vlan = record { id = "n2"; roles = "private" ∷ []; type = "kavlan"; site = "rennes" }

abbrev networks : List NetworkConfiguration
networks = prod ∷ vlan ∷ []

abbrev compute : GroupConfiguration
compute = record {
  roles = "compute" ∷ [];
  cluster = "paravance";
  site = "rennes";
  min = 1;
  reservable_disks = false;
  primary_network = some prod;
  secondary_networks = vlan ∷ [];
  resources = cluster_nodes 2;
}

abbrev control : GroupConfiguration
control = record {
  roles = "control" ∷ [];
  cluster = "paravance";
  site = "rennes";
  min = 1;
  reservable_disks = false;
  primary_network = some vlan;
  secondary_networks = [];
  resources = servers_nodes ("paravance-2.rennes.grid5000.fr" ∷ []) 1;
}

abbrev machines : List GroupConfiguration
machines = compute ∷ control ∷ []

abbrev nodes : List String
nodes =
    "paravance-3.rennes.grid5000.fr" ∷ "paravance-2.rennes.grid5000.fr"
    ∷ "paravance-1.rennes.grid5000.fr" ∷ []

abbrev reordered : List String
reordered =
    "paravance-2.rennes.grid5000.fr" ∷ "paravance-3.rennes.grid5000.fr"
    ∷ "paravance-1.rennes.grid5000.fr" ∷ []

abbrev reserved_vlan : OarNetwork
reserved_vlan = record { site = "rennes"; nature = "kavlan"; descriptor = "4" }

abbrev reserved_prod : OarNetwork
reserved_prod = record { site = "rennes"; nature = "prod"; descriptor = "DEFAULT" }

group-RoundTrips_example :
    group_from_dictionary (λ cluster. "rennes") (group_to_dict compute) networks
    ≡ ok (without_options compute)
unfolding contains
group-RoundTrips_example = group-RoundTrips (λ cluster. "rennes") compute networks refl refl refl

abbrev demanded : Configuration
demanded = record {
  env_name = none;
  job_type = "deploy" ∷ [];
  machines = record compute { primary_network = none } ∷ control ∷ [];
  networks = networks;
}

finalize-IsOutcomeOf_example : IsOutcomeOf (λ c. true) demanded (finalize (λ c. true) demanded)
finalize-IsOutcomeOf_example = finalize-IsOutcomeOf (λ c. true) demanded

concretize_nodes-IsPartition_example : IsPartition machines nodes (concretize_nodes machines nodes)
concretize_nodes-IsPartition_example = concretize_nodes-IsPartition machines nodes

nodes-SameItems : SameItems nodes reordered
nodes-SameItems a = ground arith

concretize_nodes-SameItems_example :
    concretize_nodes machines nodes ≡ concretize_nodes machines reordered
concretize_nodes-SameItems_example =
    concretize_nodes-SameItems machines nodes reordered nodes-SameItems

demand-compute : (k : String) → demand k (compute ∷ []) ≤ length (things_of cluster_of k nodes)
unfolding cluster_of enoslib.G5k.Configuration.first_label enoslib.Base.Text.split
demand-compute k = ground arith

concretize_nodes-Succeeds_example : Succeeds (concretize_nodes (compute ∷ []) nodes)
unfolding servers_config
concretize_nodes-Succeeds_example =
    concretize_nodes-Succeeds (compute ∷ []) nodes refl demand-compute

concretize_networks-IsAssigned_example :
    IsAssigned networks
      (reserved_vlan ∷ reserved_prod ∷ [])
      (concretize_networks networks (reserved_vlan ∷ reserved_prod ∷ []))
concretize_networks-IsAssigned_example =
    concretize_networks-IsAssigned networks (reserved_vlan ∷ reserved_prod ∷ [])

launch_hosts-IsLaunched_example :
    IsLaunched machines networks nodes
      (reserved_vlan ∷ reserved_prod ∷ [])
      (launch_hosts machines networks nodes (reserved_vlan ∷ reserved_prod ∷ []))
launch_hosts-IsLaunched_example =
    launch_hosts-IsLaunched machines networks nodes (reserved_vlan ∷ reserved_prod ∷ [])
      ((refl, (refl, tt)), ((refl, tt), tt))
