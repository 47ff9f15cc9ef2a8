-- ===== src/G5k/Concretize/Serves.antt =====
-- What a loop over the groups of the configuration makes.
use enoslib.Base.{
  ◌+◌, ◌≤◌, ◌<◌, ◌≡◌, ap, String, true, List, [], ◌∷◌, ◌++◌, length, map, All, leb, arith,
  Bool-cases, inl, inr,
}
use enoslib.Base.Eq.{String_eq}
use enoslib.Base.Count.{count, count-append}
use enoslib.Collections.ResourcesSet.{contains}
use enoslib.G5k.Configuration.{GroupConfiguration, Resources, cluster_nodes, servers_nodes}
use enoslib.G5k.Concretize.{
  ConcreteGroup, Attempt, done, not_enough_nodes, nodes_of, raise_for_min, append_group, cluster_of,
}

-- The nodes of the groups.
abbrev pub all_nodes : List ConcreteGroup → List String
all_nodes [] = []
all_nodes (c ∷ cs) = c.oar_nodes ++ all_nodes cs

-- A node is of the group's cluster, or one of its servers.
abbrev pub AreFor : Resources → String → List String → Type 0
AreFor (cluster_nodes n) cluster nodes = All (λ s. cluster_of s ≡ cluster) nodes
AreFor (servers_nodes servers n) cluster nodes = All (λ s. contains servers s ≡ true) nodes

-- What a group is given: nodes that fit it, its minimum, and, unless this is more than it asked for,
-- no more than it asked for.
pub record IsRealized (c : ConcreteGroup) : Type 0 where
  pub fits : AreFor c.config.resources c.config.cluster c.oar_nodes
  pub enough : c.config.min ≤ length c.oar_nodes
  pub few :
      c.config.min ≤ nodes_of c.config.resources → length c.oar_nodes ≤ nodes_of c.config.resources

-- The groups that a loop over configurations has made: one for each, and the nodes that they have
-- and those that are left are those that were there.
module _ {ℓ} {A : Type ℓ} (items : A → List String) (Good : ConcreteGroup → Type 0)
    (Left : A → Type 0) where
  abbrev pub Serves :
      List GroupConfiguration → List String → Attempt (List ConcreteGroup × A) → Type 0
  Serves gs nodes (done (cs, left)) =
      (map (λ c. c.config) cs ≡ gs)
      × All Good cs
      × Left left
      × ((a : String) → count a (all_nodes cs) + count a (items left) ≡ count a nodes)
  Serves gs nodes (not_enough_nodes m found) = length found < m

  append_group-Serves :
      (c : ConcreteGroup) (gs : List GroupConfiguration) (between nodes : List String)
      (rest : Attempt (List ConcreteGroup × A))
      → Good c
      → ((a : String) → count a c.oar_nodes + count a between ≡ count a nodes)
      → Serves gs between rest
      → Serves (c.config ∷ gs) nodes (append_group c rest)
  unfolding append_group
  append_group-Serves c gs between nodes (done (cs, left)) good counts (same, all, l, rest) = (
    ap (λ hs. c.config ∷ hs) same,
    (good, all),
    l,
    λ a. omega (arith, counts a, rest a, count-append a c.oar_nodes (all_nodes cs)),
  )
  append_group-Serves c gs between nodes (not_enough_nodes m found) good counts shrt = shrt

  pub raise_for_min-Serves :
      (c : ConcreteGroup) (gs : List GroupConfiguration) (between nodes : List String)
      (rest : Attempt (List ConcreteGroup × A))
      → (c.config.min ≤ length c.oar_nodes → Good c)
      → ((a : String) → count a c.oar_nodes + count a between ≡ count a nodes)
      → Serves gs between rest
      → Serves (c.config ∷ gs) nodes (raise_for_min c (append_group c rest))
  unfolding raise_for_min
  raise_for_min-Serves c gs between nodes rest good counts h =
      elim (Bool-cases (leb c.config.min (length c.oar_nodes))) [
        | inl enough ↦
            rw enough
              (append_group-Serves c gs between nodes rest (good (ground (arith, enough))) counts h)
        | inr short ↦ rw short (ground (arith, short))
      ]
