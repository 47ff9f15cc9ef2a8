-- ===== src/G5k/Concretize.antt =====
-- `_concretize_nodes` (enoslib/infra/enos_g5k/provider.py) and enoslib/infra/enos_g5k/concrete.py: the
-- nodes that the reservation gave are dispatched to the groups of the configuration.
pub mod Serves
pub mod Servers
pub mod Clusters
pub mod Partition
pub mod Order
pub mod Enough
pub mod Lacks
use enoslib.Base.{
  ℕ, suc, zero, ◌+◌, ◌-◌, String, Bool, true, false, not, List, [], ◌∷◌, ◌++◌, length, filterb, leb,
  if◌then◌else◌,
}
use enoslib.Base.Eq.{Eq, String_eq, ◌==◌}
use enoslib.Base.Dict.{Dict}
use enoslib.Base.Sort.{sorted}
use enoslib.Base.Text.{split, text_le}
use enoslib.Collections.ResourcesSet.{contains, remove}
use enoslib.Pools.{mk_pools, pick_things}
use enoslib.Pools.Pick.{pool}
use enoslib.G5k.Configuration.{
  GroupConfiguration, Resources, cluster_nodes, servers_nodes, first_label,
}

-- `ConcreteGroup`
pub record ConcreteGroup : Type 0 where
  pub oar_nodes : List String
  pub config : GroupConfiguration

-- A result, or `NotEnoughNodesError` with what its message tells.
pub data Attempt {ℓ} (A : Type ℓ) : Type ℓ where
  done : A → Attempt A
  not_enough_nodes : (min : ℕ) (oar_nodes : List String) → Attempt A

abbrev pub is_servers : Resources → Bool
is_servers (cluster_nodes n) = false
is_servers (servers_nodes servers n) = true

abbrev pub nodes_of : Resources → ℕ
nodes_of (cluster_nodes n) = n
nodes_of (servers_nodes servers n) = n

abbrev pub servers_of : Resources → List String
servers_of (cluster_nodes n) = []
servers_of (servers_nodes servers n) = servers

-- `raise_for_min`, in front of what follows
unfoldable pub raise_for_min {ℓ} : {A : Type ℓ} → ConcreteGroup → Attempt A → Attempt A
raise_for_min c next =
    if leb c.config.min (length c.oar_nodes)
    then next
    else not_enough_nodes c.config.min c.oar_nodes

-- `concrete.append(c)`, in front of what the rest of the loop appends
unfoldable pub append_group {ℓ} :
    {A : Type ℓ}
    → ConcreteGroup
    → Attempt (List ConcreteGroup × A)
    → Attempt (List ConcreteGroup × A)
append_group c (done (cs, left)) = done (c ∷ cs, left)
append_group c (not_enough_nodes m nodes) = not_enough_nodes m nodes

-- The loop over the servers of a group: the servers it gets, and the nodes that are left.
unfoldable pub take_servers : ℕ → List String → List String → List String × List String
unfolding contains remove
take_servers left [] nodes = ([], nodes)
take_servers zero (s ∷ servers) nodes = ([], nodes)
take_servers (suc left) (s ∷ servers) nodes =
    let (taken, nodes') = take_servers left servers (remove nodes s) in
    let skipped = take_servers (suc left) servers nodes in
    if contains nodes s then (s ∷ taken, nodes') else skipped

-- The groups of named servers.
unfoldable pub concretize_servers :
    List GroupConfiguration → List String → Attempt (List ConcreteGroup × List String)
unfolding take_servers raise_for_min append_group
concretize_servers [] nodes = done ([], nodes)
concretize_servers (g ∷ gs) nodes =
    let (taken, left) = take_servers (nodes_of g.resources) (servers_of g.resources) nodes in
    let c : ConcreteGroup = record { oar_nodes = taken; config = g } in
    raise_for_min c (append_group c (concretize_servers gs left))

abbrev pub ClusterPools : Type 0
ClusterPools = Dict String (List String)

-- `n.split("-")[0]`
unfoldable pub cluster_of : String → String
unfolding first_label split
cluster_of n = first_label (split b'-' n)

-- The minimum of each group of a cluster.
unfoldable pub fulfill_min :
    List GroupConfiguration → ClusterPools → Attempt (List ConcreteGroup × ClusterPools)
unfolding pick_things raise_for_min append_group
fulfill_min [] pools = done ([], pools)
fulfill_min (g ∷ gs) pools =
    let (picked, left) = pick_things pools g.cluster g.min in
    let c : ConcreteGroup = record { oar_nodes = picked; config = g } in
    raise_for_min c (append_group c (fulfill_min gs left))

-- `cc.nodes - len(_concrete.oar_nodes)`, cut from a pool of `size` things as `pool[:nb]` is: a negative
-- number of things is all but so many.
unfoldable pub nb : ℕ → ℕ → ℕ → ℕ
nb nodes taken size = if leb taken nodes then nodes - taken else size - (taken - nodes)

-- The groups are completed with the remaining nodes.
unfoldable pub fill_remaining :
    List ConcreteGroup → ClusterPools → List ConcreteGroup × ClusterPools
unfolding pick_things nb
fill_remaining [] pools = ([], pools)
fill_remaining (c ∷ cs) pools =
    let cluster = c.config.cluster in
    let missing =
      nb (nodes_of c.config.resources) (length c.oar_nodes) (length (pool pools cluster)) in
    let (c_nodes, left) = pick_things pools cluster missing in
    let (cs', left') = fill_remaining cs left in
    (record c { oar_nodes = c.oar_nodes ++ c_nodes } ∷ cs', left')

-- `operator.attrgetter("min")` as the key of `sorted`
abbrev pub min_le : GroupConfiguration → GroupConfiguration → Bool
min_le g h = leb g.min h.min

unfoldable pub servers_config : List GroupConfiguration → List GroupConfiguration
servers_config = filterb (λ g. is_servers g.resources)

unfoldable pub min_machines : List GroupConfiguration → List GroupConfiguration
unfolding sorted
min_machines group_configs =
    sorted min_le (filterb (λ g. not (is_servers g.resources)) group_configs)

unfoldable pub pools_cluster : List String → ClusterPools
unfolding mk_pools sorted cluster_of text_le
pools_cluster nodes = mk_pools text_le cluster_of (sorted text_le nodes)

fill :
    List ConcreteGroup → Attempt (List ConcreteGroup × ClusterPools) → Attempt (List ConcreteGroup)
unfolding fill_remaining
fill served (done (cs, pools)) = done (served ++ (fill_remaining cs pools).0)
fill served (not_enough_nodes m nodes) = not_enough_nodes m nodes

concretize_clusters :
    List GroupConfiguration
    → Attempt (List ConcreteGroup × List String)
    → Attempt (List ConcreteGroup)
unfolding fill fulfill_min min_machines pools_cluster
concretize_clusters group_configs (done (served, left)) =
    fill served (fulfill_min (min_machines group_configs) (pools_cluster left))
concretize_clusters group_configs (not_enough_nodes m nodes) = not_enough_nodes m nodes

unfoldable pub concretize_nodes :
    List GroupConfiguration → List String → Attempt (List ConcreteGroup)
unfolding concretize_clusters concretize_servers servers_config
concretize_nodes group_configs g5k_nodes =
    concretize_clusters group_configs (concretize_servers (servers_config group_configs) g5k_nodes)
