-- ===== src/G5k/Concretize/Lacks.antt =====
-- When `_concretize_nodes` fails.
use enoslib.Base.{
  ℕ, zero, suc, ◌+◌, ◌≤◌, ◌<◌, ◌≡◌, refl, ap, ◌∙◌, sym, String, Bool, true, false, ◌||◌, List, [],
  ◌∷◌, ◌++◌, length, map, All, arith, leb, Bool-cases, inl, inr, ◌⊎◌, if◌then◌else◌,
}
use enoslib.Base.Eq.{String_eq, ◌==◌, ==→≡}
use enoslib.Base.Count.{count, count-append}
use enoslib.Collections.ResourcesSet.{contains, remove}
use enoslib.Pools.{pick_things}
use enoslib.Pools.Pick.{pool, pick_things-Picks}
use enoslib.G5k.Configuration.{GroupConfiguration}
use enoslib.G5k.Concretize.{
  ConcreteGroup, Attempt, done, not_enough_nodes, is_servers, nodes_of, servers_of, raise_for_min,
  append_group, take_servers, ClusterPools, fulfill_min, concretize_servers,
}
use enoslib.G5k.Concretize.Serves.{all_nodes, AreFor, IsRealized}
use enoslib.G5k.Concretize.Servers.{take_servers-Takes, servers-IsRealized}
use enoslib.G5k.Concretize.Enough.{demand, length-pool}

-- A group of servers lacks nodes: it is full, or all of its servers that are there were found.
abbrev pub LacksServers : GroupConfiguration → List String → List String → Type 0
LacksServers g left found =
    (nodes_of g.resources ≤ length found)
    ⊎ ((s : String)
        → contains (servers_of g.resources) s ≡ true
        → contains left s ≡ true
        → contains found s ≡ true)

-- The group of servers at which the loop fails, behind those that it served. Some of its servers
-- were found.
abbrev pub FailsAtServers : List GroupConfiguration → List String → ℕ → List String → Type 0
FailsAtServers gs nodes m found =
    (before : List ConcreteGroup) × (g : GroupConfiguration) × (behind : List GroupConfiguration)
    × (left : List String) × (gs ≡ map (λ c. c.config) before ++ g ∷ behind)
    × (m ≡ g.min)
    × (length found < m)
    × All IsRealized before
    × AreFor g.resources g.cluster found
    × ((a : String) → count a (all_nodes before) + count a left ≡ count a nodes)
    × LacksServers g left found

-- The group of a cluster at which the loop fails: the nodes of its cluster are fewer than its minimum
-- and those of the groups of the cluster in front of it.
abbrev pub FailsAtCluster : List GroupConfiguration → (String → ℕ) → ℕ → List String → Type 0
FailsAtCluster gs size m found =
    (front : List GroupConfiguration) × (g : GroupConfiguration) × (behind : List
      GroupConfiguration)
    × (gs ≡ front ++ g ∷ behind)
    × (m ≡ g.min)
    × (length found < m)
    × (size g.cluster < demand g.cluster front + g.min)

contains-remove_other :
    (s t : String) (xs : List String)
    → contains xs t ≡ true
    → (s == t || contains (remove xs s) t) ≡ true
unfolding contains remove
contains-remove_other s t [] h = cc
contains-remove_other s t (x ∷ xs) h = ground (
  arith,
  h,
  contains-remove_other s t xs,
  String_eq.eqb_iff x s,
  String_eq.eqb_iff s t,
  String_eq.eqb_iff x t,
)

take_servers-lacks :
    (left : ℕ) (servers nodes : List String)
    → (left ≤ length (take_servers left servers nodes).0)
      ⊎ ((s : String)
          → contains servers s ≡ true
          → contains nodes s ≡ true
          → contains (take_servers left servers nodes).0 s ≡ true)
unfolding take_servers contains
take_servers-lacks left [] nodes = inr (λ s h k. cc)
take_servers-lacks zero (s ∷ servers) nodes = inl (omega arith)
take_servers-lacks (suc left) (s ∷ servers) nodes = elim (Bool-cases (contains nodes s)) [
  | inl there ↦ rw there (elim (take_servers-lacks left servers (remove nodes s)) [
    | inl full ↦ inl (omega (arith, full))
    | inr found ↦ inr (λ t h k. ground (arith, found t, h, contains-remove_other s t nodes k))
  ])
  | inr gone ↦ rw gone (elim (take_servers-lacks (suc left) servers nodes) [
    | inl full ↦ inl full
    | inr found ↦ inr (λ t h k. elim (Bool-cases (s == t)) [
      | inl same ↦ absurd (false-true (sym gone ∙ ap (contains nodes) (==→≡ s t same) ∙ k))
      | inr other ↦ found t (ground (arith, h, other)) k
    ])
  ])
]
  where
    false-true : ◌≡◌ {A = Bool} false true → ⊥
    false-true h = cc

-- Where the loop over the groups of servers fails.
abbrev pub ServersFail :
    List GroupConfiguration → List String → Attempt (List ConcreteGroup × List String) → Type 0
ServersFail gs nodes (done _) = Unit
ServersFail gs nodes (not_enough_nodes m found) = FailsAtServers gs nodes m found

append_group-ServersFail :
    (c : ConcreteGroup) (gs : List GroupConfiguration) (left nodes : List String)
    (rest : Attempt (List ConcreteGroup × List String))
    → IsRealized c
    → ((a : String) → count a c.oar_nodes + count a left ≡ count a nodes)
    → ServersFail gs left rest
    → ServersFail (c.config ∷ gs) nodes (append_group c rest)
unfolding append_group
append_group-ServersFail c gs left nodes (done _) good counts h = tt
append_group-ServersFail c gs left nodes (not_enough_nodes m found) good counts
      (before, g, behind, now, split, same, less, all, fits, more, lacks) =
    (
      c ∷ before,
      g,
      behind,
      now,
      ap (λ l. c.config ∷ l) split,
      same,
      less,
      (good, all),
      fits,
      (λ a. omega (arith, counts a, more a, count-append a c.oar_nodes (all_nodes before))),
      lacks,
    )

pub concretize_servers-ServersFail :
    (gs : List GroupConfiguration) (nodes : List String)
    → All (λ g. is_servers g.resources ≡ true) gs
    → ServersFail gs nodes (concretize_servers gs nodes)
unfolding concretize_servers raise_for_min
concretize_servers-ServersFail [] nodes h = tt
concretize_servers-ServersFail (g ∷ gs) nodes h =
    let taken = take_servers (nodes_of g.resources) (servers_of g.resources) nodes in
    let takes = take_servers-Takes (nodes_of g.resources) (servers_of g.resources) nodes in
    let fits = servers-IsRealized g.resources g.cluster nodes h.0 in
    elim (Bool-cases (leb g.min (length taken.0))) [
      | inl enough ↦ rw enough (
          append_group-ServersFail (record { oar_nodes = taken.0; config = g }) gs taken.1 nodes
            (concretize_servers gs taken.1)
            (record { fits = fits; enough = ground (arith, enough); few = λ _. takes.few })
            takes.counts (concretize_servers-ServersFail gs taken.1 h.1))
      | inr short ↦ rw short (
        [],
        g,
        gs,
        nodes,
        refl,
        refl,
        ground (arith, short),
        tt,
        fits,
        (λ a. omega arith),
        take_servers-lacks (nodes_of g.resources) (servers_of g.resources) nodes,
      )
    ]

-- Where the loop over the groups of clusters fails.
abbrev pub ClustersFail :
    List GroupConfiguration → (String → ℕ) → Attempt (List ConcreteGroup × ClusterPools) → Type 0
ClustersFail gs size (done _) = Unit
ClustersFail gs size (not_enough_nodes m found) = FailsAtCluster gs size m found

append_group-ClustersFail :
    (c : ConcreteGroup) (gs : List GroupConfiguration) (before size : String → ℕ)
    (rest : Attempt (List ConcreteGroup × ClusterPools))
    → ((k : String) → size k + (if c.config.cluster == k then c.config.min else 0) ≡ before k)
    → ClustersFail gs size rest
    → ClustersFail (c.config ∷ gs) before (append_group c rest)
unfolding append_group
append_group-ClustersFail c gs before size (done _) sizes h = tt
append_group-ClustersFail c gs before size (not_enough_nodes m found) sizes
      (front, g, behind, split, same, less, lacks) =
    (
      c.config ∷ front,
      g,
      behind,
      ap (λ l. c.config ∷ l) split,
      same,
      less,
      ground (arith, sizes g.cluster, lacks),
    )

pub fulfill_min-ClustersFail :
    (gs : List GroupConfiguration) (pools : ClusterPools)
    → ClustersFail gs (λ k. length (pool pools k)) (fulfill_min gs pools)
unfolding fulfill_min raise_for_min
fulfill_min-ClustersFail [] pools = tt
fulfill_min-ClustersFail (g ∷ gs) pools =
    let out = pick_things pools g.cluster g.min in
    let picks = pick_things-Picks pools g.cluster g.min in
    elim (Bool-cases (leb g.min (length out.0))) [
      | inl enough ↦ rw enough (
          append_group-ClustersFail (record { oar_nodes = out.0; config = g }) gs
            (λ k. length (pool pools k)) (λ k. length (pool out.1 k)) (fulfill_min gs out.1)
            (λ k.
              length-pool g.cluster k g.min pools out picks (ground (arith, enough, picks.count)))
            (fulfill_min-ClustersFail gs out.1))
      | inr short ↦
          rw short
            ([], g, gs, refl, refl, ground (arith, short), ground (arith, short, picks.count))
    ]
