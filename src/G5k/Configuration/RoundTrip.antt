-- ===== src/G5k/Configuration/RoundTrip.antt =====
-- What a group and a network keep when they are written as dictionaries and read again.
use enoslib.Base.{
  String, ◌≡◌, refl, false, Option, none, some, List, [], ◌∷◌, length, filterb, arith,
}
use enoslib.Base.Eq.{String_eq, ◌==◌}
use enoslib.Collections.ResourcesSet.{contains}
use enoslib.G5k.Configuration.{
  NetworkConfiguration, GroupConfiguration, Resources, cluster_nodes, servers_nodes, ok,
  cluster_site_of,
}
use enoslib.G5k.Configuration.Dictionary.{
  network_to_dict, network_from_dictionary, group_to_dict, group_from_dictionary, find_primary,
  find_secondary, ids, network_id, resources_dict,
}

-- A network is the same after a round trip.
network-RoundTrips : (n : NetworkConfiguration) → network_from_dictionary (network_to_dict n) ≡ ok n
unfolding network_from_dictionary network_to_dict
network-RoundTrips n = refl

-- A group is read from its dictionary with these resources: servers are all demanded.
abbrev pub reread : Resources → Resources
reread (cluster_nodes nodes) = cluster_nodes nodes
reread (servers_nodes servers nodes) = servers_nodes servers (length servers)

-- The group without what its dictionary does not hold.
abbrev pub without_options : GroupConfiguration → GroupConfiguration
without_options g = record g { min = 0; reservable_disks = false; resources = reread g.resources }

module _ (site_of : String → String) where
  -- The cluster and the site are those of the resources.
  abbrev pub IsLocated : Resources → GroupConfiguration → Type 0
  IsLocated (cluster_nodes nodes) g = g.site ≡ site_of g.cluster
  IsLocated (servers_nodes servers nodes) g = cluster_site_of servers ≡ ok (g.cluster, g.site)

  -- The primary network is the one network with its id, if there is a primary network.
  abbrev pub IsPrimary : Option NetworkConfiguration → List NetworkConfiguration → Type 0
  IsPrimary none networks = Unit
  IsPrimary (some p) networks = filterb (λ n. n.id == p.id) networks ≡ p ∷ []

  find_primary-some :
      (p : Option NetworkConfiguration) (networks : List NetworkConfiguration)
      → IsPrimary p networks
      → find_primary (network_id p) networks ≡ ok p
  unfolding find_primary
  find_primary-some none networks h = refl
  find_primary-some (some p) networks h = rw h refl

  -- The secondary networks are the networks with their ids, in the order of the networks.
  abbrev pub AreSecondary : List NetworkConfiguration → List NetworkConfiguration → Type 0
  AreSecondary secondary networks =
      filterb (λ n. contains (ids secondary) n.id) networks ≡ secondary

  length-ids : (networks : List NetworkConfiguration) → length (ids networks) ≡ length networks
  length-ids [] = refl
  length-ids (n ∷ networks) = omega (arith, length-ids networks)

  find_secondary-ok :
      (secondary networks : List NetworkConfiguration)
      → AreSecondary secondary networks
      → find_secondary (ids secondary) networks ≡ ok secondary
  unfolding find_secondary
  find_secondary-ok secondary networks h = rw (h, length-ids) (ground arith)

  resources-RoundTrips :
      (r : Resources) (g : GroupConfiguration) (networks : List NetworkConfiguration)
      → IsLocated r g
      → IsPrimary g.primary_network networks
      → AreSecondary g.secondary_networks networks
      → group_from_dictionary site_of (resources_dict r g) networks
        ≡ ok (record g { min = 0; reservable_disks = false; resources = reread r })
  unfolding group_from_dictionary resources_dict
  resources-RoundTrips (cluster_nodes nodes) g networks located hp hs =
      rw
        (
          find_primary-some g.primary_network networks hp,
          find_secondary-ok g.secondary_networks networks hs,
          located,
        )
        refl
  resources-RoundTrips (servers_nodes servers nodes) g networks located hp hs =
      rw
        (
          find_primary-some g.primary_network networks hp,
          find_secondary-ok g.secondary_networks networks hs,
          located,
        )
        refl

  -- A group of a configuration is read again from its dictionary with its roles, networks, cluster,
  -- site, and resources, but without its minimum and its disks, and with all its servers demanded:
  -- if its site is that of its resources, its primary network is the one with its id, and its
  -- secondary networks stand in the order of the networks.
  pub group-RoundTrips :
      (g : GroupConfiguration) (networks : List NetworkConfiguration)
      → IsLocated g.resources g
      → IsPrimary g.primary_network networks
      → AreSecondary g.secondary_networks networks
      → group_from_dictionary site_of (group_to_dict g) networks ≡ ok (without_options g)
  unfolding group_to_dict
  group-RoundTrips g networks located hp hs =
      resources-RoundTrips g.resources g networks located hp hs
