-- ===== src/G5k/Configuration.antt =====
-- enoslib/infra/enos_g5k/configuration.py: the groups of machines and the networks that are demanded.
-- Networks are values, so that a machine's primary network is a copy of the one in the list. `site_of`
-- is the Grid'5000 API's answer for a cluster.
pub mod Dictionary
pub mod RoundTrip
pub mod Finalize
use enoslib.Base.{
  ℕ, String, Bool, true, false, ◌&&◌, Option, none, some, List, [], ◌∷◌, ◌++◌, map, length, filterb,
  any, all, not, if◌then◌else◌,
}
use enoslib.Base.Eq.{Eq, String_eq, ◌==◌}
use enoslib.Base.Text.{split}

pub record NetworkConfiguration : Type 0 where
  pub id : String
  pub roles : List String
  pub type : String
  pub site : String

-- What makes a group: nodes of a cluster, or the named servers and how many of them.
pub data Resources : Type 0 where
  cluster_nodes : (nodes : ℕ) → Resources
  servers_nodes : (servers : List String) (nodes : ℕ) → Resources

pub record GroupConfiguration : Type 0 where
  pub roles : List String
  pub cluster : String
  pub site : String
  pub min : ℕ
  pub reservable_disks : Bool
  pub primary_network : Option NetworkConfiguration
  pub secondary_networks : List NetworkConfiguration
  pub resources : Resources

pub data Error : Type 0 where
  value_error key_error index_error : Error

pub data Result {ℓ} (A : Type ℓ) : Type ℓ where
  ok : A → Result A
  err : Error → Result A

infixl 5 ◌>>=◌
abbrev pub ◌>>=◌ {ℓ κ} : {A : Type ℓ} {B : Type κ} → Result A → (A → Result B) → Result B
ok a >>= f = f a
err e >>= f = err e

unfoldable pub first_label : List String → String
first_label [] = ""
first_label (s ∷ ss) = s

site_label : String → List String → Result (String × String)
site_label cluster (s ∷ site ∷ ss) = ok (cluster, site)
site_label cluster _ = err index_error

-- `extract_site_cluster`: "paravance-1.rennes.grid5000.fr" gives its cluster and its site.
unfoldable pub extract_site_cluster : String → Result (String × String)
unfolding first_label site_label split
extract_site_cluster s =
    let labels = split b'.' s in site_label (first_label (split b'-' (first_label labels))) labels

-- `cluster_site = {...}` and what follows: the set must have one element.
same_site : String × String → Result (String × String) → Result (String × String)
same_site a (ok b) = if a.0 == b.0 && a.1 == b.1 then ok a else err value_error
same_site a (err e) = err e

-- The names are parsed before the elements are compared: a name without a site is an IndexError, and
-- a set of two a ValueError.
unfoldable pub cluster_site_of : List String → Result (String × String)
unfolding extract_site_cluster same_site
cluster_site_of [] = err key_error
cluster_site_of (s ∷ []) = extract_site_cluster s
cluster_site_of (s ∷ t ∷ servers) =
    extract_site_cluster s >>= λ a. same_site a (cluster_site_of (t ∷ servers))
