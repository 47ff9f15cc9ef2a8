-- ===== src/G5k/Launch/Hosts.antt =====
-- The hosts of a launch.
use enoslib.Base.{
  ◌+◌, ◌≡◌, refl, ap, ◌∙◌, String, Bool, true, not, Option, none, some, List, [], ◌∷◌, ◌++◌, map,
  All, All-append, filterb, any, Bool-cases, inl, inr,
}
use enoslib.Base.Eq.{String_eq, ◌==◌}
use enoslib.Base.Count.{count}
use enoslib.Base.Sort.{All-sorted}
use enoslib.G5k.Configuration.{NetworkConfiguration, GroupConfiguration}
use enoslib.G5k.Concretize as Concretize
use enoslib.G5k.Concretize.{
  ConcreteGroup, concretize_nodes, servers_config, min_machines, min_le, is_servers,
}
use enoslib.G5k.Concretize.Serves.{all_nodes}
use enoslib.G5k.Concretize.Partition.{IsPartition, concretize_nodes-IsPartition}
use enoslib.G5k.Networks as Networks
use enoslib.G5k.Networks.{
  OarNetwork, G5kNetwork, G5kHost, concretize_networks, join, network_id, vlan_network,
  prod_network, subnet_network,
}
use enoslib.G5k.Networks.Assign.{IsAssigned, Realize, Realizes, concretize_networks-IsAssigned}
use enoslib.G5k.Networks.Join.{has_id, HasPrimary, IsConnected, AreHosts, placements, join-AreHosts}
use enoslib.G5k.Launch.{
  Launched, launched, not_enough_nodes, missing_network, unknown_network, joined, with_networks,
  with_machines, launch_hosts,
}

abbrev pub is_listed : String → List NetworkConfiguration → Bool
is_listed id networks = any (λ net. net.id == id) networks

abbrev pub HasListed : List NetworkConfiguration → Option NetworkConfiguration → Type 0
HasListed networks none = ⊥
HasListed networks (some p) = is_listed p.id networks ≡ true

-- The group has a primary network, and its networks are among the configuration's.
abbrev pub IsPlugged : List NetworkConfiguration → GroupConfiguration → Type 0
IsPlugged networks g =
    HasListed networks g.primary_network
    × All (λ s. is_listed s.id networks ≡ true) g.secondary_networks

-- The launch gives hosts on networks; the hosts are those of the groups' nodes, and no reserved node
-- makes two. It fails only for want of nodes or of networks.
abbrev pub IsLaunched :
    List GroupConfiguration
    → List NetworkConfiguration
    → List String
    → List OarNetwork
    → Launched
    → Type 0
IsLaunched gs cs nodes oar_networks (launched networks hosts) =
    IsAssigned cs oar_networks (Networks.done networks)
    × ((machines : List ConcreteGroup) × IsPartition gs nodes (Concretize.done machines)
        × AreHosts (placements machines) hosts)
    × ((left : List String) × ((a : String)
          → count a (map (λ h. h.fqdn) hosts) + count a left ≡ count a nodes))
IsLaunched gs cs nodes oar_networks (not_enough_nodes m found) =
    IsPartition gs nodes (Concretize.not_enough_nodes m found)
IsLaunched gs cs nodes oar_networks (missing_network site n_type) =
    IsAssigned cs oar_networks (Networks.missing_network site n_type)
IsLaunched gs cs nodes oar_networks unknown_network = ⊥

Realizes-network_id :
    (c : NetworkConfiguration) (p : List OarNetwork) (net : G5kNetwork)
    → Realizes c p net
    → network_id net ≡ c.id
Realizes-network_id c p (vlan_network roles id site v) (_, _, same, _, _) = same
Realizes-network_id c p (prod_network roles id site) (_, _, same, _, _) = same
Realizes-network_id c p (subnet_network roles id site subnets) (_, _, same, _, _, _, _) = same

Realize-has_id :
    (id : String) (cs : List NetworkConfiguration) (ps : List (List OarNetwork))
    (nets : List G5kNetwork)
    → Realize cs ps nets
    → has_id id nets ≡ is_listed id cs
Realize-has_id id [] [] [] h = refl
Realize-has_id id (c ∷ cs) (p ∷ ps) (net ∷ nets) (h, _, rest) =
    cc (Realizes-network_id c p net h, Realize-has_id id cs ps nets rest)
Realize-has_id id [] [] (net ∷ nets) h = absurd h
Realize-has_id id [] (p ∷ ps) nets h = absurd h
Realize-has_id id (c ∷ cs) [] nets h = absurd h
Realize-has_id id (c ∷ cs) (p ∷ ps) [] h = absurd h

fqdns :
    (ps : List (GroupConfiguration × String)) (hosts : List G5kHost)
    → AreHosts ps hosts
    → map (λ h. h.fqdn) hosts ≡ map (λ p. p.1) ps
fqdns [] [] h = refl
fqdns ((g, n) ∷ ps) (x ∷ hosts) h = cc (h.0.0, fqdns ps hosts h.1)
fqdns [] (x ∷ hosts) h = absurd h
fqdns ((g, n) ∷ ps) [] h = absurd h

second-append :
    (g : GroupConfiguration) (ns : List String) (ps : List (GroupConfiguration × String))
    → map (λ p. p.1) (map (λ n. (g, n)) ns ++ ps) ≡ ns ++ map (λ p. p.1) ps
second-append g [] ps = refl
second-append g (n ∷ ns) ps = ap (λ l. n ∷ l) (second-append g ns ps)

placements-all_nodes :
    (machines : List ConcreteGroup) → map (λ p. p.1) (placements machines) ≡ all_nodes machines
placements-all_nodes [] = refl
placements-all_nodes (c ∷ machines) =
    second-append c.config c.oar_nodes (placements machines)
    ∙ ap (λ l. c.oar_nodes ++ l) (placements-all_nodes machines)

primary-HasPrimary :
    (cs : List NetworkConfiguration) (nets : List G5kNetwork) (p : Option NetworkConfiguration)
    → ((id : String) → has_id id nets ≡ is_listed id cs)
    → HasListed cs p
    → HasPrimary p nets
primary-HasPrimary cs nets none same h = h
primary-HasPrimary cs nets (some p) same h = same p.id ∙ h

secondary-has_id :
    (cs : List NetworkConfiguration) (nets : List G5kNetwork) (ss : List NetworkConfiguration)
    → ((id : String) → has_id id nets ≡ is_listed id cs)
    → All (λ s. is_listed s.id cs ≡ true) ss
    → All (λ s. has_id s.id nets ≡ true) ss
secondary-has_id cs nets [] same h = tt
secondary-has_id cs nets (s ∷ ss) same h = (same s.id ∙ h.0, secondary-has_id cs nets ss same h.1)

plugged-IsConnected :
    (cs : List NetworkConfiguration) (nets : List G5kNetwork) (gs : List GroupConfiguration)
    → ((id : String) → has_id id nets ≡ is_listed id cs)
    → All (IsPlugged cs) gs
    → All (IsConnected nets) gs
plugged-IsConnected cs nets [] same h = tt
plugged-IsConnected cs nets (g ∷ gs) same ((p, s), h) = (
  (
    primary-HasPrimary cs nets g.primary_network same p,
    secondary-has_id cs nets g.secondary_networks same s,
  ),
  plugged-IsConnected cs nets gs same h,
)

All-filterb :
    (P : GroupConfiguration → Type 0) (p : GroupConfiguration → Bool) (gs : List GroupConfiguration)
    → All P gs
    → All P (filterb p gs)
All-filterb P p [] h = tt
All-filterb P p (g ∷ gs) h = elim (Bool-cases (p g)) [
  | inl kept ↦ rw kept (h.0, All-filterb P p gs h.1)
  | inr cut ↦ rw cut (All-filterb P p gs h.1)
]

All-ordered :
    (P : GroupConfiguration → Type 0) (gs : List GroupConfiguration)
    → All P gs
    → All P (servers_config gs ++ min_machines gs)
unfolding servers_config min_machines
All-ordered P gs h =
    let clusters = filterb (λ g. not (is_servers g.resources)) gs in
    All-append P (servers_config gs) (min_machines gs)
      (All-filterb P (λ g. is_servers g.resources) gs h)
      (All-sorted min_le P clusters (All-filterb P (λ g. not (is_servers g.resources)) gs h))

All-config :
    (P : GroupConfiguration → Type 0) (machines : List ConcreteGroup)
    → All P (map (λ c. c.config) machines)
    → All (λ c. P c.config) machines
All-config P [] h = tt
All-config P (c ∷ machines) h = (h.0, All-config P machines h.1)

joined-IsLaunched :
    (gs : List GroupConfiguration) (cs : List NetworkConfiguration) (nodes : List String)
    (oar_networks : List OarNetwork) (machines : List ConcreteGroup) (nets : List G5kNetwork)
    → All (IsPlugged cs) gs
    → IsPartition gs nodes (Concretize.done machines)
    → IsAssigned cs oar_networks (Networks.done nets)
    → IsLaunched gs cs nodes oar_networks (joined nets (join machines nets))
unfolding joined
joined-IsLaunched gs cs nodes oar_networks machines nets plugged partition assigned =
    let (same, realized, (left, counts)) = partition in
    let (picked, left', realize, counts') = assigned in
    let connected : All (IsConnected nets) (map (λ c. c.config) machines) = rw same (
      All-ordered (IsConnected nets) gs (
        plugged-IsConnected cs nets gs (λ id. Realize-has_id id cs picked nets realize) plugged)) in
    let (hosts, made, are) =
      join-AreHosts machines nets (All-config (IsConnected nets) machines connected) in
    rw made (
      assigned,
      (machines, partition, are),
      (
        left,
        λ a.
            ap (λ l. count a l + count a left)
              (fqdns (placements machines) hosts are ∙ placements-all_nodes machines)
            ∙ counts a,
      ),
    )

with_networks-IsLaunched :
    (gs : List GroupConfiguration) (cs : List NetworkConfiguration) (nodes : List String)
    (oar_networks : List OarNetwork) (machines : List ConcreteGroup)
    (out : Networks.Attempt (List G5kNetwork))
    → All (IsPlugged cs) gs
    → IsPartition gs nodes (Concretize.done machines)
    → IsAssigned cs oar_networks out
    → IsLaunched gs cs nodes oar_networks (with_networks machines out)
unfolding with_networks
with_networks-IsLaunched gs cs nodes oar_networks machines (Networks.done nets) plugged partition
      assigned =
    joined-IsLaunched gs cs nodes oar_networks machines nets plugged partition assigned
with_networks-IsLaunched gs cs nodes oar_networks machines (Networks.missing_network site n_type)
      plugged partition assigned =
    assigned

with_machines-IsLaunched :
    (gs : List GroupConfiguration) (cs : List NetworkConfiguration) (nodes : List String)
    (oar_networks : List OarNetwork) (out : Concretize.Attempt (List ConcreteGroup))
    → All (IsPlugged cs) gs
    → IsPartition gs nodes out
    → IsLaunched gs cs nodes oar_networks (with_machines cs oar_networks out)
unfolding with_machines
with_machines-IsLaunched gs cs nodes oar_networks (Concretize.done machines) plugged partition =
    with_networks-IsLaunched gs cs nodes oar_networks machines (concretize_networks cs oar_networks)
      plugged partition (concretize_networks-IsAssigned cs oar_networks)
with_machines-IsLaunched gs cs nodes oar_networks (Concretize.not_enough_nodes m found) plugged
      partition =
    partition

-- If each group has a primary network and its networks are among those of the configuration, a launch
-- maps the reserved nodes and networks to hosts: each host is a node of a group, with the group's
-- roles, on networks with the ids of the group's networks, and no reserved node makes two hosts;
-- else it raises the error of the groups or of the networks, and never one for an unknown network.
pub launch_hosts-IsLaunched :
    (gs : List GroupConfiguration) (cs : List NetworkConfiguration) (nodes : List String)
    (oar_networks : List OarNetwork)
    → All (IsPlugged cs) gs
    → IsLaunched gs cs nodes oar_networks (launch_hosts gs cs nodes oar_networks)
unfolding launch_hosts
launch_hosts-IsLaunched gs cs nodes oar_networks plugged =
    with_machines-IsLaunched gs cs nodes oar_networks (concretize_nodes gs nodes) plugged
      (concretize_nodes-IsPartition gs nodes)
