-- ===== src/G5k/Networks/Join.antt =====
-- Every node becomes one host, on the networks of its group.
use enoslib.Base.{
  ◌≡◌, refl, String, Bool, true, Option, none, some, List, [], ◌∷◌, ◌++◌, map, All, Bool-cases, inl,
  inr, any,
}
use enoslib.Base.Eq.{String_eq, ◌==◌, ==→≡}
use enoslib.G5k.Configuration.{NetworkConfiguration, GroupConfiguration}
use enoslib.G5k.Concretize.{ConcreteGroup}
use enoslib.G5k.Networks.{
  G5kNetwork, G5kHost, network_id, lookup_networks, lookup_all, primary_of, make_host, join,
}

-- A network has the id.
abbrev pub has_id : String → List G5kNetwork → Bool
has_id id networks = any (λ net. network_id net == id) networks

-- A group's networks are there.
abbrev pub HasPrimary : Option NetworkConfiguration → List G5kNetwork → Type 0
HasPrimary none networks = ⊥
HasPrimary (some p) networks = has_id p.id networks ≡ true

abbrev pub IsConnected : List G5kNetwork → GroupConfiguration → Type 0
IsConnected networks g =
    HasPrimary g.primary_network networks
    × All (λ s. has_id s.id networks ≡ true) g.secondary_networks

abbrev pub HaveIds : List NetworkConfiguration → List G5kNetwork → Type 0
HaveIds [] [] = Unit
HaveIds (s ∷ ss) (net ∷ nets) = (network_id net ≡ s.id) × HaveIds ss nets
HaveIds _ _ = ⊥

abbrev pub IsPrimaryOf : Option NetworkConfiguration → G5kNetwork → Type 0
IsPrimaryOf none net = ⊥
IsPrimaryOf (some p) net = network_id net ≡ p.id

-- The nodes, each with its group.
abbrev pub placements : List ConcreteGroup → List (GroupConfiguration × String)
placements [] = []
placements (c ∷ cs) = map (λ n. (c.config, n)) c.oar_nodes ++ placements cs

-- A host of a node, with the roles and the networks of the node's group.
abbrev pub IsHostOf : GroupConfiguration → String → G5kHost → Type 0
IsHostOf g node h =
    (h.fqdn ≡ node)
    × (h.roles ≡ g.roles)
    × IsPrimaryOf g.primary_network h.primary_network
    × HaveIds g.secondary_networks h.secondary_networks

abbrev pub AreHosts : List (GroupConfiguration × String) → List G5kHost → Type 0
AreHosts [] [] = Unit
AreHosts ((g, n) ∷ ps) (h ∷ hs) = IsHostOf g n h × AreHosts ps hs
AreHosts _ _ = ⊥

AreHosts-append :
    (ps qs : List (GroupConfiguration × String)) (hs is : List G5kHost)
    → AreHosts ps hs
    → AreHosts qs is
    → AreHosts (ps ++ qs) (hs ++ is)
AreHosts-append [] qs [] is h k = k
AreHosts-append [] qs (h' ∷ hs) is h k = absurd h
AreHosts-append (p ∷ ps) qs [] is h k = absurd h
AreHosts-append (p ∷ ps) qs (h' ∷ hs) is h k = (h.0, AreHosts-append ps qs hs is h.1 k)

lookup_networks-has_id :
    (id : String) (networks : List G5kNetwork)
    → has_id id networks ≡ true
    → (net : G5kNetwork) × (lookup_networks id networks ≡ some net) × (network_id net ≡ id)
unfolding lookup_networks
lookup_networks-has_id id [] h = cc
lookup_networks-has_id id (net ∷ networks) h = elim (Bool-cases (network_id net == id)) [
  | inl same ↦ (net, rw same refl, ==→≡ (network_id net) id same)
  | inr other ↦ rw other (lookup_networks-has_id id networks (rw other at h))
]

lookup_all-HaveIds :
    (ss : List NetworkConfiguration) (networks : List G5kNetwork)
    → All (λ s. has_id s.id networks ≡ true) ss
    → (nets : List G5kNetwork) × (lookup_all ss networks ≡ some nets) × HaveIds ss nets
unfolding lookup_all
lookup_all-HaveIds [] networks h = ([], refl, tt)
lookup_all-HaveIds (s ∷ ss) networks h =
    let (net, found, same) = lookup_networks-has_id s.id networks h.0 in
    let (nets, all, have) = lookup_all-HaveIds ss networks h.1 in
    (net ∷ nets, rw (found, all) refl, (same, have))

primary_of-IsPrimaryOf :
    (p : Option NetworkConfiguration) (networks : List G5kNetwork)
    → HasPrimary p networks
    → (net : G5kNetwork) × (primary_of p networks ≡ some net) × IsPrimaryOf p net
unfolding primary_of
primary_of-IsPrimaryOf none networks h = absurd h
primary_of-IsPrimaryOf (some p) networks h = lookup_networks-has_id p.id networks h

make_host-AreHosts :
    (g : GroupConfiguration) (primary : G5kNetwork) (secondary : List G5kNetwork)
    (nodes : List String)
    → IsPrimaryOf g.primary_network primary
    → HaveIds g.secondary_networks secondary
    → AreHosts (map (λ n. (g, n)) nodes) (map (make_host g.roles primary secondary) nodes)
unfolding make_host
make_host-AreHosts g primary secondary [] h k = tt
make_host-AreHosts g primary secondary (n ∷ nodes) h k =
    ((refl, refl, h, k), make_host-AreHosts g primary secondary nodes h k)

-- If the networks of each group are there, `_join` makes one host for each node of the groups, in
-- their order: with the group's roles, on networks with the ids of the group's networks.
pub join-AreHosts :
    (machines : List ConcreteGroup) (networks : List G5kNetwork)
    → All (λ c. IsConnected networks c.config) machines
    → (hosts : List G5kHost) × (join machines networks ≡ some hosts)
      × AreHosts (placements machines) hosts
unfolding join
join-AreHosts [] networks h = ([], refl, tt)
join-AreHosts (c ∷ machines) networks ((has_primary, has_secondary), h) =
    let (primary, found, is_primary) =
      primary_of-IsPrimaryOf c.config.primary_network networks has_primary in
    let (secondary, all, have) =
      lookup_all-HaveIds c.config.secondary_networks networks has_secondary in
    let (hosts, joined, are) = join-AreHosts machines networks h in
    let mine = map (make_host c.config.roles primary secondary) c.oar_nodes in
    (
      mine ++ hosts,
      rw (found, all, joined) refl,
      AreHosts-append (map (λ n. (c.config, n)) c.oar_nodes) (placements machines) mine hosts
          (make_host-AreHosts c.config primary secondary c.oar_nodes is_primary have) are,
    )
