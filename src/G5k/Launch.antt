-- ===== src/G5k/Launch.antt =====
-- The first half of `G5kBase.launch` (enoslib/infra/enos_g5k/provider.py): from the reserved nodes and
-- networks to the hosts.
pub mod Hosts
use enoslib.Base.{ℕ, String, Option, none, some, List}
use enoslib.G5k.Configuration.{NetworkConfiguration, GroupConfiguration}
use enoslib.G5k.Concretize.{concretize_nodes, ConcreteGroup}
use enoslib.G5k.Concretize as Concretize
use enoslib.G5k.Networks.{OarNetwork, G5kNetwork, G5kHost, concretize_networks, join}
use enoslib.G5k.Networks as Networks

-- `self.networks` and `self.hosts`, or what is raised.
pub data Launched : Type 0 where
  launched : List G5kNetwork → List G5kHost → Launched
  not_enough_nodes : (min : ℕ) (oar_nodes : List String) → Launched
  missing_network : (site n_type : String) → Launched
  unknown_network : Launched

joined : List G5kNetwork → Option (List G5kHost) → Launched
joined networks none = unknown_network
joined networks (some hosts) = launched networks hosts

with_networks : List ConcreteGroup → Networks.Attempt (List G5kNetwork) → Launched
unfolding joined join
with_networks machines (Networks.done networks) = joined networks (join machines networks)
with_networks machines (Networks.missing_network site n_type) = missing_network site n_type

with_machines :
    List NetworkConfiguration → List OarNetwork → Concretize.Attempt (List ConcreteGroup) → Launched
unfolding with_networks concretize_networks
with_machines networks oar_networks (Concretize.done machines) =
    with_networks machines (concretize_networks networks oar_networks)
with_machines networks oar_networks (Concretize.not_enough_nodes m nodes) = not_enough_nodes m nodes

unfoldable pub launch_hosts :
    List GroupConfiguration → List NetworkConfiguration → List String → List OarNetwork → Launched
unfolding with_machines concretize_nodes
launch_hosts machines networks oar_nodes oar_networks =
    with_machines networks oar_networks (concretize_nodes machines oar_nodes)
