-- ===== src/G5k/Configuration/Dictionary.antt =====
-- The dictionaries of the groups and the networks: `to_dict` and `from_dictionary`
-- (enoslib/infra/enos_g5k/configuration.py). A field is `none` where the key is missing.
use enoslib.Base.{
  ℕ, String, false, Option, none, some, List, [], ◌∷◌, map, length, filterb, ◌==◌ as nat_eq,
  if◌then◌else◌,
}
use enoslib.Base.Eq.{String_eq, ◌==◌}
use enoslib.Collections.ResourcesSet.{contains}
use enoslib.G5k.Configuration.{
  NetworkConfiguration, GroupConfiguration, Resources, cluster_nodes, servers_nodes, value_error,
  key_error, Result, ok, err, ◌>>=◌, cluster_site_of,
}

pub record NetworkDict : Type 0 where
  pub id : Option String
  pub type : Option String
  pub roles : Option (List String)
  pub site : Option String

pub record GroupDict : Type 0 where
  pub roles : Option (List String)
  pub cluster : Option String
  pub servers : Option (List String)
  pub nodes : Option ℕ
  pub primary_network : Option String
  pub secondary_networks : Option (List String)

-- `dictionary[key]`
item {ℓ} : {A : Type ℓ} → Option A → Result A
item none = err key_error
item (some a) = ok a

-- `NetworkConfiguration.to_dict` and `from_dictionary`
unfoldable pub network_to_dict : NetworkConfiguration → NetworkDict
network_to_dict n = record {
  id = some n.id;
  type = some n.type;
  roles = some n.roles;
  site = some n.site;
}

unfoldable pub network_from_dictionary : NetworkDict → Result NetworkConfiguration
unfolding item
network_from_dictionary d = item d.id >>= λ id. item d.type >>= λ type. item d.roles >>= λ roles.
    item d.site >>= λ site. ok (record { id = id; roles = roles; type = type; site = site })

abbrev pub network_id : Option NetworkConfiguration → Option String
network_id none = none
network_id (some n) = some n.id

abbrev pub ids : List NetworkConfiguration → List String
ids networks = map (λ n. n.id) networks

abbrev pub group_dict :
    Option String → Option (List String) → Option ℕ → GroupConfiguration → GroupDict
group_dict cluster servers nodes g = record {
  roles = some g.roles;
  cluster = cluster;
  servers = servers;
  nodes = nodes;
  primary_network = network_id g.primary_network;
  secondary_networks = some (ids g.secondary_networks);
}

-- `ClusterConfiguration.to_dict` and `ServersConfiguration.to_dict`, with that of the base class.
unfoldable pub resources_dict : Resources → GroupConfiguration → GroupDict
resources_dict (cluster_nodes nodes) g = group_dict (some g.cluster) none (some nodes) g
resources_dict (servers_nodes servers nodes) g = group_dict none (some servers) none g

unfoldable pub group_to_dict : GroupConfiguration → GroupDict
unfolding resources_dict
group_to_dict g = resources_dict g.resources g

first : List NetworkConfiguration → Result NetworkConfiguration
first [] = err value_error
first (n ∷ networks) = ok n

-- The network with the id; a ValueError if there is none.
unfoldable pub find_primary :
    Option String → List NetworkConfiguration → Result (Option NetworkConfiguration)
unfolding first
find_primary none networks = ok none
find_primary (some id) networks = first (filterb (λ n. n.id == id) networks) >>= λ n. ok (some n)

-- The networks with one of the ids, in the order of the networks.
unfoldable pub find_secondary :
    List String → List NetworkConfiguration → Result (List NetworkConfiguration)
unfolding contains
find_secondary secondary_ids networks =
    let found = filterb (λ n. contains secondary_ids n.id) networks in
    if nat_eq (length secondary_ids) (length found) then ok found else err value_error

or_default {ℓ} : {A : Type ℓ} → A → Option A → A
or_default a none = a
or_default a (some b) = b

abbrev pub default_number : ℕ
default_number = 1

module _ (site_of : String → String) where
  -- The constructors, on the arguments that `from_dictionary` gives them.
  servers_group :
      List String
      → List String
      → Option NetworkConfiguration
      → List NetworkConfiguration
      → Result GroupConfiguration
  unfolding cluster_site_of
  servers_group roles servers primary secondary = cluster_site_of servers >>= λ cluster_site.
      ok (record {
        roles = roles;
        cluster = cluster_site.0;
        site = cluster_site.1;
        min = 0;
        reservable_disks = false;
        primary_network = primary;
        secondary_networks = secondary;
        resources = servers_nodes servers (length servers);
      })

  cluster_group :
      List String
      → String
      → Option ℕ
      → Option NetworkConfiguration
      → List NetworkConfiguration
      → GroupConfiguration
  unfolding or_default
  cluster_group roles cluster nodes primary secondary = record {
    roles = roles;
    cluster = cluster;
    site = site_of cluster;
    min = 0;
    reservable_disks = false;
    primary_network = primary;
    secondary_networks = secondary;
    resources = cluster_nodes (or_default default_number nodes);
  }

  -- The servers come first; a group with neither is a ValueError.
  build_group :
      Option (List String)
      → Option String
      → Option ℕ
      → List String
      → Option NetworkConfiguration
      → List NetworkConfiguration
      → Result GroupConfiguration
  unfolding servers_group cluster_group
  build_group (some servers) cluster nodes roles primary secondary =
      servers_group roles servers primary secondary
  build_group none (some cluster) nodes roles primary secondary =
      ok (cluster_group roles cluster nodes primary secondary)
  build_group none none nodes roles primary secondary = err value_error

  -- `GroupConfiguration.from_dictionary(dictionary, networks)`
  unfoldable pub group_from_dictionary :
      GroupDict → List NetworkConfiguration → Result GroupConfiguration
  unfolding item find_primary find_secondary build_group or_default
  group_from_dictionary d networks = item d.roles >>= λ roles.
      find_primary d.primary_network networks >>= λ primary.
      find_secondary (or_default [] d.secondary_networks) networks >>= λ secondary.
      build_group d.servers d.cluster d.nodes roles primary secondary
