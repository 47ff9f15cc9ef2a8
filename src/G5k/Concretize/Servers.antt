-- ===== src/G5k/Concretize/Servers.antt =====
-- What the groups of named servers are given.
use enoslib.Base.{
  ℕ, suc, zero, ◌+◌, ◌≤◌, ◌≡◌, refl, String, true, List, [], ◌∷◌, length, All, arith, Bool-cases,
  inl, inr,
}
use enoslib.Base.Eq.{String_eq, ==_refl}
use enoslib.Base.Count.{count}
use enoslib.Collections.ResourcesSet.{contains, remove}
use enoslib.G5k.Configuration.{GroupConfiguration, Resources, cluster_nodes, servers_nodes}
use enoslib.G5k.Concretize.{
  ConcreteGroup, Attempt, is_servers, nodes_of, servers_of, take_servers, concretize_servers,
}
use enoslib.G5k.Concretize.Serves.{AreFor, IsRealized, Serves, raise_for_min-Serves}

pub count-remove :
    (a s : String) (nodes : List String)
    → contains nodes s ≡ true
    → count a (s ∷ remove nodes s) ≡ count a nodes
unfolding contains remove
count-remove a s [] h = cc
count-remove a s (n ∷ nodes) h = ground (arith, h, count-remove a s nodes, String_eq.eqb_iff n s)

pub record Takes (left : ℕ) (servers nodes : List String) (out : List String × List String)
    : Type 0 where
  pub listed : All (λ s. contains servers s ≡ true) out.0
  pub few : length out.0 ≤ left
  pub counts : (a : String) → count a out.0 + count a out.1 ≡ count a nodes

All-contains :
    (s : String) (servers taken : List String)
    → All (λ x. contains servers x ≡ true) taken
    → All (λ x. contains (s ∷ servers) x ≡ true) taken
unfolding contains
All-contains s servers [] h = tt
All-contains s servers (x ∷ taken) h = (ground (arith, h.0), All-contains s servers taken h.1)

pub take_servers-Takes :
    (left : ℕ) (servers nodes : List String)
    → Takes left servers nodes (take_servers left servers nodes)
unfolding take_servers contains
take_servers-Takes left [] nodes = record {
  listed = tt;
  few = omega arith;
  counts = λ a. omega arith;
}
take_servers-Takes zero (s ∷ servers) nodes = record {
  listed = tt;
  few = omega arith;
  counts = λ a. omega arith;
}
take_servers-Takes (suc left) (s ∷ servers) nodes = elim (Bool-cases (contains nodes s)) [
  | inl there ↦
      let h = take_servers-Takes left servers (remove nodes s) in
      rw there (record {
        listed = (
          is_first,
          All-contains s servers (take_servers left servers (remove nodes s)).0 h.listed,
        );
        few = omega (arith, h.few);
        counts = λ a. ground (arith, h.counts a, count-remove a s nodes there);
      })
  | inr gone ↦
      let h = take_servers-Takes (suc left) servers nodes in
      rw gone (record {
        listed = All-contains s servers (take_servers (suc left) servers nodes).0 h.listed;
        few = h.few;
        counts = h.counts;
      })
]
  where
    is_first : contains (s ∷ servers) s ≡ true
    is_first = ground (arith, ==_refl s)

pub servers-IsRealized :
    (r : Resources) (cluster : String) (nodes : List String)
    → is_servers r ≡ true
    → AreFor r cluster (take_servers (nodes_of r) (servers_of r) nodes).0
servers-IsRealized (cluster_nodes n) cluster nodes h = cc
servers-IsRealized (servers_nodes servers n) cluster nodes h =
    (take_servers-Takes n servers nodes).listed

abbrev pub ServesServers :
    List GroupConfiguration → List String → Attempt (List ConcreteGroup × List String) → Type 0
ServesServers = Serves (λ nodes. nodes) IsRealized (λ _. Unit)

pub concretize_servers-Serves :
    (gs : List GroupConfiguration) (nodes : List String)
    → All (λ g. is_servers g.resources ≡ true) gs
    → ServesServers gs nodes (concretize_servers gs nodes)
unfolding concretize_servers
concretize_servers-Serves [] nodes h = (refl, tt, tt, λ a. omega arith)
concretize_servers-Serves (g ∷ gs) nodes h =
    let taken = take_servers (nodes_of g.resources) (servers_of g.resources) nodes in
    let takes = take_servers-Takes (nodes_of g.resources) (servers_of g.resources) nodes in
    raise_for_min-Serves (λ nodes. nodes) IsRealized (λ _. Unit)
      (record { oar_nodes = taken.0; config = g }) gs taken.1 nodes (concretize_servers gs taken.1)
      (λ enough. record {
        fits = servers-IsRealized g.resources g.cluster nodes h.0;
        enough = enough;
        few = λ _. takes.few;
      })
      takes.counts (concretize_servers-Serves gs taken.1 h.1)
