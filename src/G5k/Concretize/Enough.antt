-- ===== src/G5k/Concretize/Enough.antt =====
-- When the nodes of each cluster are enough for the minima of its groups.
use enoslib.Base.{
  ℕ, ◌+◌, ◌≤◌, ◌≡◌, refl, ap, ◌∙◌, sym, String, not, List, [], ◌∷◌, ◌++◌, length, filterb,
  length-append, arith, Bool-cases, inl, inr, if◌then◌else◌, le→leb,
}
use enoslib.Base.Eq.{String_eq, ◌==◌, ==→≡, ==→≢}
use enoslib.Base.Sort.{insert, sorted}
use enoslib.Base.Text.{text_le}
use enoslib.Base.Text.Order.{text_le_refl}
use enoslib.Pools.{pick_things}
use enoslib.Pools.Pick.{pool, Picks, pick_things-Picks}
use enoslib.Pools.Index.{mk_pools-things_of, things_of}
use enoslib.G5k.Configuration.{GroupConfiguration}
use enoslib.G5k.Concretize.{
  ConcreteGroup, Attempt, done, is_servers, raise_for_min, append_group, ClusterPools, cluster_of,
  fulfill_min, fill_remaining, min_le, servers_config, min_machines, pools_cluster,
  concretize_nodes, concretize_clusters, concretize_servers, fill,
}

-- The minima of the groups of a cluster, summed.
abbrev pub demand : String → List GroupConfiguration → ℕ
demand k [] = 0
demand k (g ∷ gs) = if g.cluster == k then g.min + demand k gs else demand k gs

abbrev pub Succeeds {ℓ} : {A : Type ℓ} → Attempt A → Type ℓ
Succeeds {A = A} out = (a : A) × (out ≡ done a)

append_group-Succeeds :
    (c : ConcreteGroup) (out : Attempt (List ConcreteGroup × ClusterPools))
    → c.config.min ≤ length c.oar_nodes
    → Succeeds out
    → Succeeds (raise_for_min c (append_group c out))
unfolding raise_for_min append_group
append_group-Succeeds c out enough ((cs, left), e) =
    ((c ∷ cs, left), rw (e, le→leb c.config.min (length c.oar_nodes) enough) refl)

pub length-pool :
    (k j : String) (n : ℕ) (pools : ClusterPools) (out : List String × ClusterPools)
    → Picks pools k n out
    → n ≤ length (pool pools k)
    → length (pool out.1 j) + (if k == j then n else 0) ≡ length (pool pools j)
length-pool k j n pools out picks le = elim (Bool-cases (k == j)) [
  | inl same ↦
      rw (same, sym (==→≡ k j same))
        (omega (arith, ap length picks.moved, length-append out.0 (pool out.1 k), picks.count, le))
  | inr other ↦ rw (other, picks.others j (==→≢ k j other)) (omega arith)
]

fulfill_min-Succeeds :
    (gs : List GroupConfiguration) (pools : ClusterPools)
    → ((k : String) → demand k gs ≤ length (pool pools k))
    → Succeeds (fulfill_min gs pools)
unfolding fulfill_min
fulfill_min-Succeeds [] pools h = (([], pools), refl)
fulfill_min-Succeeds (g ∷ gs) pools h =
    let out = pick_things pools g.cluster g.min in
    let picks = pick_things-Picks pools g.cluster g.min in
    let fits : g.min ≤ length (pool pools g.cluster) =
      ground (arith, h g.cluster, String_eq.eqb_iff g.cluster g.cluster) in
    append_group-Succeeds (record { oar_nodes = out.0; config = g }) (fulfill_min gs out.1)
      (omega (arith, picks.count, fits))
      (fulfill_min-Succeeds gs out.1
        (λ k. ground (arith, h k, length-pool g.cluster k g.min pools out picks fits)))

demand-insert :
    (k : String) (g : GroupConfiguration) (gs : List GroupConfiguration)
    → demand k (insert min_le g gs) ≡ demand k (g ∷ gs)
unfolding insert
demand-insert k g [] = refl
demand-insert k g (h ∷ gs) = ground (arith, demand-insert k g gs)

demand-sorted :
    (k : String) (gs : List GroupConfiguration) → demand k (sorted min_le gs) ≡ demand k gs
unfolding sorted
demand-sorted k [] = refl
demand-sorted k (g ∷ gs) = ground (arith, demand-insert k g (sorted min_le gs), demand-sorted k gs)

length-things_of-insert :
    (k n : String) (nodes : List String)
    → length (things_of cluster_of k (insert text_le n nodes))
      ≡ length (things_of cluster_of k (n ∷ nodes))
unfolding insert
length-things_of-insert k n [] = refl
length-things_of-insert k n (m ∷ nodes) = ground (arith, length-things_of-insert k n nodes)

length-things_of-sorted :
    (k : String) (nodes : List String)
    → length (things_of cluster_of k (sorted text_le nodes)) ≡ length (things_of cluster_of k nodes)
unfolding sorted
length-things_of-sorted k [] = refl
length-things_of-sorted k (n ∷ nodes) =
    ground
      (arith, length-things_of-insert k n (sorted text_le nodes), length-things_of-sorted k nodes)

pub length-pools_cluster :
    (k : String) (nodes : List String)
    → length (pool (pools_cluster nodes) k) ≡ length (things_of cluster_of k nodes)
unfolding pools_cluster
length-pools_cluster k nodes =
    ap length (mk_pools-things_of cluster_of text_le text_le_refl k (sorted text_le nodes))
    ∙ length-things_of-sorted k nodes

all_clusters :
    (gs : List GroupConfiguration)
    → servers_config gs ≡ []
    → filterb (λ g. not (is_servers g.resources)) gs ≡ gs
unfolding servers_config
all_clusters [] h = refl
all_clusters (g ∷ gs) h = elim (Bool-cases (is_servers g.resources)) [
  | inl servers ↦ absurd (ground (arith, h, servers))
  | inr clusters ↦ rw clusters (ap (λ l. g ∷ l) (all_clusters gs (rw clusters at h)))
]

fill-Succeeds :
    (served : List ConcreteGroup) (out : Attempt (List ConcreteGroup × ClusterPools))
    → Succeeds out
    → Succeeds (fill served out)
unfolding fill
fill-Succeeds served out ((cs, pools), e) = (served ++ (fill_remaining cs pools).0, rw e refl)

-- Without groups of named servers, `_concretize_nodes` raises nothing if each cluster has as many
-- nodes as the minima of its groups sum up to.
pub concretize_nodes-Succeeds :
    (gs : List GroupConfiguration) (nodes : List String)
    → servers_config gs ≡ []
    → ((k : String) → demand k gs ≤ length (things_of cluster_of k nodes))
    → Succeeds (concretize_nodes gs nodes)
unfolding concretize_nodes concretize_clusters concretize_servers min_machines
concretize_nodes-Succeeds gs nodes none_named h = rw none_named (
    fill-Succeeds [] (fulfill_min (min_machines gs) (pools_cluster nodes)) (
      fulfill_min-Succeeds (min_machines gs) (pools_cluster nodes) (λ k. omega (
        arith,
        h k,
        length-pools_cluster k nodes,
        demand-sorted k (filterb (λ g. not (is_servers g.resources)) gs),
        ap (demand k) (all_clusters gs none_named),
      ))))
