-- ===== src/Objects/Network.antt =====
-- `Network` and `DefaultNetwork` of enoslib/objects.py. An address is its version and its number, as in
-- Python's ipaddress; the two pools of a network are of numbers of one version, and a MAC address is
-- its number. A network is its class, by name, its version, its address and the length of its prefix.
pub mod Laws
use enoslib.Base.{
  ℕ, zero, suc, ◌+◌, ◌-◌, ◌/◌, ◌^◌, String, Bool, true, false, ◌&&◌, Option, none, some, List, [],
  ◌∷◌, map, ltb, if◌then◌else◌,
}
use enoslib.Base.Eq.{Eq, String_eq, ℕ_eq, ◌==◌}

pub data Version : Type 0 where
  v4 v6 : Version

abbrev pub number : Version → ℕ
number v4 = 4
number v6 = 6

abbrev pub max_prefixlen : Version → ℕ
max_prefixlen v4 = 32
max_prefixlen v6 = 128

abbrev pub same_version : Version → Version → Bool
same_version v w = number v == number w

pub record Address : Type 0 where
  pub version : Version
  pub value : ℕ

pub record IpNetwork : Type 0 where
  pub version : Version
  pub network_address : ℕ
  pub prefixlen : ℕ

-- `ip in network`
unfoldable pub contains_ip : IpNetwork → Address → Bool
contains_ip n a =
    let size = 2 ^ (max_prefixlen n.version - n.prefixlen) in
    same_version n.version a.version && a.value / size == n.network_address / size

-- `DefaultNetwork`
pub record Network : Type 0 where
  pub class_name : String
  pub network : IpNetwork
  pub pool_start : Option ℕ
  pub pool_end : Option ℕ
  pub pool_mac_start : Option ℕ
  pub pool_mac_end : Option ℕ

same_network : IpNetwork → IpNetwork → Bool
same_network n m =
    same_version n.version m.version
    && (n.network_address == m.network_address && n.prefixlen == m.prefixlen)

-- `Network.__eq__`
unfoldable pub network_eq : Network → Network → Bool
unfolding same_network
network_eq a b = if a.class_name == b.class_name then same_network a.network b.network else false

-- What a comparison gives: Python's ipaddress raises a TypeError for networks of two versions.
pub data Compared : Type 0 where
  compared : Bool → Compared
  type_error : Compared

-- `self.network.__lt__(other.network)`: by the address, then by the netmask.
ip_lt : IpNetwork → IpNetwork → Compared
ip_lt n m =
    if same_version n.version m.version
    then compared (
        if n.network_address == m.network_address
        then ltb n.prefixlen m.prefixlen
        else ltb n.network_address m.network_address)
    else type_error

-- `Network.__lt__`
unfoldable pub network_lt : Network → Network → Compared
unfolding ip_lt
network_lt a b =
    if ltb (number a.network.version) (number b.network.version)
    then ip_lt a.network b.network
    else compared false

-- `range(start, start + n)`
unfoldable pub count_from : ℕ → ℕ → List ℕ
count_from start zero = []
count_from start (suc n) = start ∷ count_from (start + 1) n

-- `start is not None and end is not None and start < end`
unfoldable pub is_pool : Option ℕ → Option ℕ → Bool
is_pool none last = false
is_pool (some start) none = false
is_pool (some start) (some last) = ltb start last

range_of : Option ℕ → Option ℕ → List ℕ
unfolding count_from
range_of none last = []
range_of (some start) none = []
range_of (some start) (some last) = count_from start (last - start)

-- `has_free_ips` and `free_ips`
unfoldable pub has_free_ips : Network → Bool
unfolding is_pool
has_free_ips n = is_pool n.pool_start n.pool_end

-- Python's `ip_address` of a number: an IPv4 address below 2 ** 32, whatever the network is.
unfoldable pub ip_address : ℕ → Address
ip_address i = record { version = if ltb i 4294967296 then v4 else v6; value = i }

unfoldable pub free_ips : Network → List Address
unfolding has_free_ips range_of ip_address
free_ips n = if has_free_ips n then map ip_address (range_of n.pool_start n.pool_end) else []

-- `has_free_macs` and `free_macs`
unfoldable pub has_free_macs : Network → Bool
unfolding is_pool
has_free_macs n = is_pool n.pool_mac_start n.pool_mac_end

unfoldable pub free_macs : Network → List ℕ
unfolding has_free_macs range_of
free_macs n = if has_free_macs n then range_of n.pool_mac_start n.pool_mac_end else []
