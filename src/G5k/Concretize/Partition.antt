-- ===== src/G5k/Concretize/Partition.antt =====
-- What each group is given, and that no node is given twice.
use enoslib.Base.{
  ◌+◌, ◌≡◌, refl, ap, ◌∙◌, String, Bool, true, false, not, List, [], ◌∷◌, ◌++◌, length, map,
  filterb, All, All-append, arith, Bool-cases, inl, inr, ◌⊎◌, ℕ,
}
use enoslib.Base.Eq.{String_eq}
use enoslib.Base.Sort.{sorted, All-sorted}
use enoslib.Base.Count.{count, count-append, count-sorted}
use enoslib.Base.Text.{text_le}
use enoslib.Pools.Conserve.{flat, count-flat-mk_pools}
use enoslib.Pools.Pick.{pool}
use enoslib.Pools.Index.{things_of}
use enoslib.G5k.Concretize.Enough.{length-pools_cluster}
use enoslib.G5k.Concretize.Lacks.{
  FailsAtServers, FailsAtCluster, ServersFail, ClustersFail, concretize_servers-ServersFail,
  fulfill_min-ClustersFail,
}
use enoslib.G5k.Configuration.{GroupConfiguration}
use enoslib.G5k.Concretize.{
  ConcreteGroup, Attempt, done, not_enough_nodes, is_servers, concretize_servers, ClusterPools,
  cluster_of, fulfill_min, fill_remaining, min_le, servers_config, min_machines, pools_cluster,
  concretize_nodes, fill, concretize_clusters,
}
use enoslib.G5k.Concretize.Serves.{all_nodes, IsRealized}
use enoslib.G5k.Concretize.Servers.{ServesServers, concretize_servers-Serves}
use enoslib.G5k.Concretize.Clusters.{
  ServesClusters, pools_cluster-AreKeyed, fulfill_min-Serves, fill_remaining-Fills,
}

All-filterb :
    (p : GroupConfiguration → Bool) (gs : List GroupConfiguration)
    → All (λ g. p g ≡ true) (filterb p gs)
All-filterb p [] = tt
All-filterb p (g ∷ gs) = elim (Bool-cases (p g)) [
  | inl h ↦ rw h (h, All-filterb p gs)
  | inr h ↦ rw h (All-filterb p gs)
]

min_machines-clusters :
    (gs : List GroupConfiguration) → All (λ g. is_servers g.resources ≡ false) (min_machines gs)
unfolding min_machines
min_machines-clusters gs =
    All-sorted min_le (λ g. is_servers g.resources ≡ false)
      (filterb (λ g. not (is_servers g.resources)) gs)
      (weaken (filterb (λ g. not (is_servers g.resources)) gs)
        (All-filterb (λ g. not (is_servers g.resources)) gs))
  where
    weaken :
        (hs : List GroupConfiguration)
        → All (λ g. not (is_servers g.resources) ≡ true) hs
        → All (λ g. is_servers g.resources ≡ false) hs
    weaken [] all = tt
    weaken (h ∷ hs) all = (ground (arith, all.0), weaken hs all.1)

servers_config-servers :
    (gs : List GroupConfiguration) → All (λ g. is_servers g.resources ≡ true) (servers_config gs)
unfolding servers_config
servers_config-servers gs = All-filterb (λ g. is_servers g.resources) gs

count-pools_cluster :
    (a : String) (nodes : List String) → count a (flat (pools_cluster nodes)) ≡ count a nodes
unfolding pools_cluster
count-pools_cluster a nodes =
    count-flat-mk_pools a text_le cluster_of (sorted text_le nodes) ∙ count-sorted text_le a nodes

map-append :
    (f : ConcreteGroup → GroupConfiguration) (xs ys : List ConcreteGroup)
    → map f (xs ++ ys) ≡ map f xs ++ map f ys
map-append f [] ys = refl
map-append f (x ∷ xs) ys = ap (λ l. f x ∷ l) (map-append f xs ys)

all_nodes-append :
    (a : String) (cs ds : List ConcreteGroup)
    → count a (all_nodes (cs ++ ds)) ≡ count a (all_nodes cs) + count a (all_nodes ds)
all_nodes-append a [] ds = omega arith
all_nodes-append a (c ∷ cs) ds = omega (
  arith,
  all_nodes-append a cs ds,
  count-append a c.oar_nodes (all_nodes cs),
  count-append a c.oar_nodes (all_nodes (cs ++ ds)),
)

-- The groups of servers are served, and the nodes that are left of a cluster are fewer than the minimum
-- of a group and the minima of the groups of the cluster in front of it.
abbrev pub ClusterLacks : List GroupConfiguration → List String → ℕ → List String → Type 0
ClusterLacks gs nodes m found =
    (served : List ConcreteGroup) × (left : List String) × (map (λ c. c.config) served
      ≡ servers_config gs)
    × All IsRealized served
    × ((a : String) → count a (all_nodes served) + count a left ≡ count a nodes)
    × FailsAtCluster (min_machines gs) (λ k. length (things_of cluster_of k left)) m found

-- The outcomes of `_concretize_nodes`.
abbrev pub IsPartition :
    List GroupConfiguration → List String → Attempt (List ConcreteGroup) → Type 0
IsPartition gs nodes (done cs) =
    (map (λ c. c.config) cs ≡ servers_config gs ++ min_machines gs)
    × All IsRealized cs
    × ((left : List String) × ((a : String)
          → count a (all_nodes cs) + count a left ≡ count a nodes))
IsPartition gs nodes (not_enough_nodes m found) =
    FailsAtServers (servers_config gs) nodes m found ⊎ ClusterLacks gs nodes m found

-- So fails the loop over the groups of clusters, if it does.
Failing :
    List GroupConfiguration → List String → Attempt (List ConcreteGroup × ClusterPools) → Type 0
Failing gs nodes (done _) = Unit
Failing gs nodes (not_enough_nodes m found) = ClusterLacks gs nodes m found

fulfill_min-Failing :
    (gs : List GroupConfiguration) (nodes left : List String) (served : List ConcreteGroup)
    (out : Attempt (List ConcreteGroup × ClusterPools))
    → map (λ c. c.config) served ≡ servers_config gs
    → All IsRealized served
    → ((a : String) → count a (all_nodes served) + count a left ≡ count a nodes)
    → ClustersFail (min_machines gs) (λ k. length (pool (pools_cluster left) k)) out
    → Failing gs nodes out
unfolding Failing
fulfill_min-Failing gs nodes left served (done _) same all counts h = tt
fulfill_min-Failing gs nodes left served (not_enough_nodes m found) same all counts
      (front, g, behind, split, least, less, lacks) =
    (
      served,
      left,
      same,
      all,
      counts,
      (
        front,
        g,
        behind,
        split,
        least,
        less,
        omega (arith, lacks, length-pools_cluster g.cluster left),
      ),
    )

fill-IsPartition :
    (gs : List GroupConfiguration) (nodes left : List String) (served : List ConcreteGroup)
    (out : Attempt (List ConcreteGroup × ClusterPools))
    → map (λ c. c.config) served ≡ servers_config gs
    → All IsRealized served
    → ((a : String) → count a (all_nodes served) + count a left ≡ count a nodes)
    → ServesClusters (min_machines gs) left out
    → Failing gs nodes out
    → IsPartition gs nodes (fill served out)
unfolding fill Failing
fill-IsPartition gs nodes left served (done (cs, pools)) same all counts
      (same', all', keyed, counts') fails =
    let filled = fill_remaining-Fills cs pools all' keyed in
    let more = fill_remaining cs pools in
    (
      map-append (λ c. c.config) served more.0
          ∙ ap (λ l. l ++ map (λ c. c.config) more.0) same
          ∙ ap (λ l. servers_config gs ++ l) (filled.same ∙ same'),
      All-append IsRealized served more.0 all filled.realized,
      (
        flat more.1,
        λ a. omega (arith, counts a, counts' a, filled.counts a, all_nodes-append a served more.0),
      ),
    )
fill-IsPartition gs nodes left served (not_enough_nodes m found) same all counts short fails =
    inr fails

concretize_clusters-IsPartition :
    (gs : List GroupConfiguration) (nodes : List String)
    (out : Attempt (List ConcreteGroup × List String))
    → ServesServers (servers_config gs) nodes out
    → ServersFail (servers_config gs) nodes out
    → IsPartition gs nodes (concretize_clusters gs out)
unfolding concretize_clusters
concretize_clusters-IsPartition gs nodes (done (served, left)) (same, all, _, counts) fails =
    let pools = pools_cluster left in
    fill-IsPartition gs nodes (flat pools) served (fulfill_min (min_machines gs) pools) same all
      (λ a. omega (arith, counts a, count-pools_cluster a left))
      (fulfill_min-Serves (min_machines gs) pools (min_machines-clusters gs)
        (pools_cluster-AreKeyed left))
      (fulfill_min-Failing gs nodes left served (fulfill_min (min_machines gs) (pools_cluster left))
        same all counts (fulfill_min-ClustersFail (min_machines gs) (pools_cluster left)))
concretize_clusters-IsPartition gs nodes (not_enough_nodes m found) short fails = inl fails

-- `_concretize_nodes` gives each group nodes of its cluster, or some of its servers, at least its
-- minimum and, if this is at most what it asks for, at most what it asks for. The groups of servers
-- come first, then those of clusters by their minimum; every node is given as often as it was
-- listed or less, so that no group shares a node with another. It fails only in two ways, with the
-- minimum of a group and fewer nodes. At a group of servers, behind groups that are served: some of
-- its servers were found, as many as it asks for, or all of them that are among the nodes left. Or
-- at a group of a cluster: the nodes of the cluster that the groups of servers, all served, leave
-- are fewer than its minimum and those of the groups of the cluster in front of it.
pub concretize_nodes-IsPartition :
    (gs : List GroupConfiguration) (nodes : List String)
    → IsPartition gs nodes (concretize_nodes gs nodes)
unfolding concretize_nodes
concretize_nodes-IsPartition gs nodes =
    concretize_clusters-IsPartition gs nodes (concretize_servers (servers_config gs) nodes)
      (concretize_servers-Serves (servers_config gs) nodes (servers_config-servers gs))
      (concretize_servers-ServersFail (servers_config gs) nodes (servers_config-servers gs))
