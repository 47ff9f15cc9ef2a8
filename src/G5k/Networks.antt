-- ===== src/G5k/Networks.antt =====
-- `_concretize_networks`, `_lookup_networks` and `_join` (enoslib/infra/enos_g5k/provider.py), on the
-- network classes of enoslib/infra/enos_g5k/objects.py: the networks of the configuration get the
-- reserved ones, and each node becomes a host on its group's networks.
pub mod Order
pub mod Assign
pub mod Join
use enoslib.Base.{
  ℕ, String, Bool, true, false, ◌&&◌, ◌||◌, Option, none, some, List, [], ◌∷◌, ◌++◌, map, ◌≡◌, ◌↔◌,
  ap, arith, if◌then◌else◌,
}
use enoslib.Base.Eq.{Eq, String_eq, ◌==◌, ==→≡, ≡→==}
use enoslib.Base.Options.{◌>>=◌}
use enoslib.Base.Dict.{Dict}
use enoslib.Base.Sort.{sorted}
use enoslib.Base.Text.{text_le}
use enoslib.Pools.{mk_pools, pick_things}
use enoslib.G5k.Configuration.{NetworkConfiguration, GroupConfiguration}
use enoslib.G5k.Concretize.{ConcreteGroup}

-- `OarNetwork`, and the key of the sort: the site, the nature and the descriptor
pub record OarNetwork : Type 0 where
  pub site : String
  pub nature : String
  pub descriptor : String

abbrev pub SiteNature : Type 0
SiteNature = String × String

pub pair_iff : (a b : SiteNature) → ((a.0 == b.0 && a.1 == b.1) ≡ true) ↔ (a ≡ b)
pair_iff a b = (
  λ h.
      let first = ==→≡ a.0 b.0 (ground (arith, h)) in
      let second = ==→≡ a.1 b.1 (ground (arith, h)) in λ i. (first i, second i),
  λ h.
      let first = ≡→== a.0 b.0 (ap (λ x. x.0) h) in
      let second = ≡→== a.1 b.1 (ap (λ x. x.1) h) in ground (arith, first, second),
)

instance abbrev pub SiteNature_eq : Eq SiteNature
SiteNature_eq = record { eqb = λ a b. a.0 == b.0 && a.1 == b.1; eqb_iff = pair_iff }

abbrev pub NetworkPools : Type 0
NetworkPools = Dict SiteNature (List OarNetwork)

-- `(n.site, n.nature) <= (m.site, m.nature)`
abbrev pub site_nature_le : SiteNature → SiteNature → Bool
site_nature_le a b = if a.0 == b.0 then text_le a.1 b.1 else text_le a.0 b.0

abbrev pub site_nature : OarNetwork → SiteNature
site_nature n = (n.site, n.nature)

-- The order of the keys `(n.site, n.nature, n.descriptor)`
abbrev pub oar_le : OarNetwork → OarNetwork → Bool
oar_le n m =
    if site_nature n == site_nature m
    then text_le n.descriptor m.descriptor
    else site_nature_le (site_nature n) (site_nature m)

-- `G5kVlanNetwork`, `G5kProdNetwork` and `G5kSubnetNetwork`
pub data G5kNetwork : Type 0 where
  vlan_network : (roles : List String) (id site vlan_id : String) → G5kNetwork
  prod_network : (roles : List String) (id site : String) → G5kNetwork
  subnet_network : (roles : List String) (id site : String) (subnets : List String) → G5kNetwork

abbrev pub network_id : G5kNetwork → String
network_id (vlan_network roles id site vlan_id) = id
network_id (prod_network roles id site) = id
network_id (subnet_network roles id site subnets) = id

-- `vlan_id`: a production network is a vlan named "DEFAULT".
unfoldable pub vlan_id_of : G5kNetwork → Option String
vlan_id_of (vlan_network roles id site vlan_id) = some vlan_id
vlan_id_of (prod_network roles id site) = some "DEFAULT"
vlan_id_of (subnet_network roles id site subnets) = none

pub data Attempt {ℓ} (A : Type ℓ) : Type ℓ where
  done : A → Attempt A
  missing_network : (site n_type : String) → Attempt A

-- The branches on the type.
pub data NetworkKind : Type 0 where
  slash_16 slash_22 prod kavlan unknown : NetworkKind

is_kavlan : String → Bool
is_kavlan n_type = n_type == "kavlan" || (n_type == "kavlan-local" || n_type == "kavlan-global")

unfoldable pub kind_of : String → NetworkKind
unfolding is_kavlan
kind_of n_type =
    if n_type == "slash_16"
    then slash_16
    else if n_type == "slash_22"
    then slash_22
    else if n_type == "prod"
    then prod
    else if is_kavlan n_type
    then kavlan
    else unknown

-- What is picked: 64 networks /22 for a /16, and one for each other.
unfoldable pub pick_network :
    NetworkKind → NetworkConfiguration → NetworkPools → List OarNetwork × NetworkPools
unfolding pick_things
pick_network slash_16 c pools = pick_things pools (c.site, "slash_22") 64
pick_network unknown c pools = ([], pools)
pick_network _ c pools = pick_things pools (c.site, c.type) 1

-- The network that is made of them; none if there are none.
unfoldable pub make_network :
    NetworkKind → NetworkConfiguration → List OarNetwork → Option G5kNetwork
make_network kind c [] = none
make_network slash_16 c (n ∷ ns) =
    some (subnet_network c.roles c.id c.site (map (λ n. n.descriptor) (n ∷ ns)))
make_network slash_22 c (n ∷ ns) =
    some (subnet_network c.roles c.id c.site (map (λ n. n.descriptor) (n ∷ ns)))
make_network prod c (n ∷ ns) = some (prod_network c.roles c.id c.site)
make_network kavlan c (n ∷ ns) = some (vlan_network c.roles c.id c.site n.descriptor)
make_network unknown c (n ∷ ns) = none

-- `g5k_networks.append(g5k_network)` in front of the rest, or `MissingNetworkError`
unfoldable pub append_network :
    NetworkConfiguration → Option G5kNetwork → Attempt (List G5kNetwork) → Attempt (List G5kNetwork)
append_network c none rest = missing_network c.site c.type
append_network c (some net) (done nets) = done (net ∷ nets)
append_network c (some net) (missing_network site n_type) = missing_network site n_type

unfoldable pub concretize_from :
    List NetworkConfiguration → NetworkPools → Attempt (List G5kNetwork)
unfolding kind_of pick_network make_network append_network
concretize_from [] pools = done []
concretize_from (c ∷ cs) pools =
    let (networks, left) = pick_network (kind_of c.type) c pools in
    append_network c (make_network (kind_of c.type) c networks) (concretize_from cs left)

unfoldable pub network_pools : List OarNetwork → NetworkPools
unfolding mk_pools sorted text_le
network_pools oar_networks = mk_pools site_nature_le site_nature (sorted oar_le oar_networks)

unfoldable pub concretize_networks :
    List NetworkConfiguration → List OarNetwork → Attempt (List G5kNetwork)
unfolding concretize_from network_pools
concretize_networks network_configs oar_networks =
    concretize_from network_configs (network_pools oar_networks)

-- `match[0]`: an IndexError if no network has the id
unfoldable pub lookup_networks : String → List G5kNetwork → Option G5kNetwork
lookup_networks id [] = none
lookup_networks id (net ∷ networks) =
    if network_id net == id then some net else lookup_networks id networks

pub record G5kHost : Type 0 where
  pub fqdn : String
  pub roles : List String
  pub primary_network : G5kNetwork
  pub secondary_networks : List G5kNetwork

-- The loop over the secondary networks of a group.
unfoldable pub lookup_all : List NetworkConfiguration → List G5kNetwork → Option (List G5kNetwork)
unfolding lookup_networks
lookup_all [] networks = some []
lookup_all (s ∷ secondary) networks = do
  net ← lookup_networks s.id networks
  nets ← lookup_all secondary networks
  some (net ∷ nets)

-- A group without a primary network is an AttributeError.
primary_of : Option NetworkConfiguration → List G5kNetwork → Option G5kNetwork
unfolding lookup_networks
primary_of none networks = none
primary_of (some p) networks = lookup_networks p.id networks

make_host : List String → G5kNetwork → List G5kNetwork → String → G5kHost
make_host roles primary secondary apinode = record {
  fqdn = apinode;
  roles = roles;
  primary_network = primary;
  secondary_networks = secondary;
}

-- The hosts; `add_host`, which refers back from the networks to them, is left out.
unfoldable pub join : List ConcreteGroup → List G5kNetwork → Option (List G5kHost)
unfolding lookup_all primary_of make_host
join [] networks = some []
join (c ∷ machines) networks = do
  primary ← primary_of c.config.primary_network networks
  secondary ← lookup_all c.config.secondary_networks networks
  hosts ← join machines networks
  some (map (make_host c.config.roles primary secondary) c.oar_nodes ++ hosts)
