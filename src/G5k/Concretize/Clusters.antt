-- ===== src/G5k/Concretize/Clusters.antt =====
-- What the groups of a cluster are given.
use enoslib.Base.{
  ◌+◌, ◌≡◌, refl, ap, String, false, List, [], ◌∷◌, ◌++◌, length, map, All, All-append,
  length-append, arith,
}
use enoslib.Base.Eq.{String_eq}
use enoslib.Base.Sort.{sorted}
use enoslib.Base.Count.{count, count-append}
use enoslib.Base.Text.{text_le}
use enoslib.Base.Text.Order.{text_le_refl}
use enoslib.Pools.{pick_things}
use enoslib.Pools.Pick.{pool, pick_things-Picks}
use enoslib.Pools.Keyed
use enoslib.Pools.Conserve.{flat, count-pick_things}
use enoslib.G5k.Configuration.{GroupConfiguration, Resources, cluster_nodes, servers_nodes}
use enoslib.G5k.Concretize.{
  ConcreteGroup, Attempt, is_servers, nodes_of, ClusterPools, cluster_of, fulfill_min, nb,
  fill_remaining, pools_cluster,
}
use enoslib.G5k.Concretize.Serves.{all_nodes, AreFor, IsRealized, Serves, raise_for_min-Serves}

abbrev AreOf : String → List String → Type 0
AreOf = Keyed.AreOf cluster_of

abbrev pub AreKeyed : ClusterPools → Type 0
AreKeyed = Keyed.AreKeyed cluster_of

pub pools_cluster-AreKeyed : (nodes : List String) → AreKeyed (pools_cluster nodes)
unfolding pools_cluster
pools_cluster-AreKeyed nodes =
    Keyed.mk_pools-AreKeyed cluster_of text_le text_le_refl (sorted text_le nodes)

-- A group with its minimum.
pub record IsPicked (c : ConcreteGroup) : Type 0 where
  of_cluster : AreOf c.config.cluster c.oar_nodes
  exact : length c.oar_nodes ≡ c.config.min
  clusters : is_servers c.config.resources ≡ false

abbrev pub ServesClusters :
    List GroupConfiguration → List String → Attempt (List ConcreteGroup × ClusterPools) → Type 0
ServesClusters = Serves flat IsPicked AreKeyed

pub fulfill_min-Serves :
    (gs : List GroupConfiguration) (pools : ClusterPools)
    → All (λ g. is_servers g.resources ≡ false) gs
    → AreKeyed pools
    → ServesClusters gs (flat pools) (fulfill_min gs pools)
unfolding fulfill_min
fulfill_min-Serves [] pools h keyed = (refl, tt, keyed, λ a. omega arith)
fulfill_min-Serves (g ∷ gs) pools h keyed =
    let picked = pick_things pools g.cluster g.min in
    let (of_k, left) = Keyed.pick_things-AreKeyed cluster_of g.cluster g.min pools keyed in
    raise_for_min-Serves flat IsPicked AreKeyed (record { oar_nodes = picked.0; config = g }) gs
      (flat picked.1) (flat pools) (fulfill_min gs picked.1)
      (λ enough. record {
        of_cluster = of_k;
        exact = omega (arith, enough, (pick_things-Picks pools g.cluster g.min).count);
        clusters = h.0;
      })
      (λ a. count-pick_things a pools g.cluster g.min) (fulfill_min-Serves gs picked.1 h.1 left)

clusters-AreFor :
    (r : Resources) (cluster : String) (nodes : List String)
    → is_servers r ≡ false
    → AreOf cluster nodes
    → AreFor r cluster nodes
clusters-AreFor (cluster_nodes n) cluster nodes h all = all
clusters-AreFor (servers_nodes servers n) cluster nodes h all = cc

pub record Fills (cs : List ConcreteGroup) (pools : ClusterPools)
    (out : List ConcreteGroup × ClusterPools) : Type 0 where
  pub same : map (λ c. c.config) out.0 ≡ map (λ c. c.config) cs
  pub realized : All IsRealized out.0
  pub counts :
      (a : String)
      → count a (all_nodes out.0) + count a (flat out.1)
        ≡ count a (all_nodes cs) + count a (flat pools)

pub fill_remaining-Fills :
    (cs : List ConcreteGroup) (pools : ClusterPools)
    → All IsPicked cs
    → AreKeyed pools
    → Fills cs pools (fill_remaining cs pools)
unfolding fill_remaining nb
fill_remaining-Fills [] pools h keyed = record { same = refl; realized = tt; counts = λ a. refl }
fill_remaining-Fills (c ∷ cs) pools h keyed =
    let k = c.config.cluster in
    let nodes = nodes_of c.config.resources in
    let missing = nb nodes (length c.oar_nodes) (length (pool pools k)) in
    let out = pick_things pools k missing in
    let picks = pick_things-Picks pools k missing in
    let (of_k, left) = Keyed.pick_things-AreKeyed cluster_of k missing pools keyed in
    let rest = fill_remaining-Fills cs out.1 h.1 left in
    record {
      same = ap (λ gs. c.config ∷ gs) rest.same;
      realized = (
        record {
          fits =
              clusters-AreFor c.config.resources k (c.oar_nodes ++ out.0) h.0.clusters
                (All-append (λ n. cluster_of n ≡ k) c.oar_nodes out.0 h.0.of_cluster of_k);
          enough = omega (arith, length-append c.oar_nodes out.0, h.0.exact);
          few = λ le. ground (arith, le, length-append c.oar_nodes out.0, h.0.exact, picks.count);
        },
        rest.realized,
      );
      counts = λ a.
          let more = fill_remaining cs out.1 in
          omega (
            arith,
            rest.counts a,
            count-pick_things a pools k missing,
            count-append a (c.oar_nodes ++ out.0) (all_nodes more.0),
            count-append a c.oar_nodes out.0,
            count-append a c.oar_nodes (all_nodes cs),
          );
    }
