-- ===== src/Objects/Host.antt =====
-- The addresses, the devices and the hosts of enoslib/objects.py, and `Roles`. A set of devices or of
-- addresses is a list in the order that Python goes through it.
pub mod Laws
use enoslib.Base.{
  ℕ, String, Bool, true, false, ◌&&◌, ◌||◌, not, Option, none, some, List, [], ◌∷◌, ◌++◌, map,
  filterb, any, if◌then◌else◌,
}
use enoslib.Base.Eq.{Eq, String_eq, ℕ_eq, ◌==◌}
use enoslib.Base.Dict.{Dict, put}
use enoslib.Collections.ResourcesSet.{contains, add}
use enoslib.Objects.Network.{Address, Network, contains_ip, same_version}

-- `IPAddress`: the address of its interface with the length of its prefix, and the network that it is
-- known to be on
pub record IpAddress : Type 0 where
  pub ip : Address
  pub prefixlen : ℕ
  pub network : Option Network

unfoldable pub same_as : IpAddress → Address → Bool
same_as a address = same_version a.ip.version address.version && a.ip.value == address.value

-- `NetDevice`, `BridgeDevice` and `AliasDevice`
pub data DeviceKind : Type 0 where
  ether : DeviceKind
  bridge : (bridged : List String) → DeviceKind
  alias_of : (parent : Option String) → DeviceKind

pub record NetDevice : Type 0 where
  pub name : String
  pub addresses : List IpAddress
  pub kind : DeviceKind

abbrev pub interfaces_of : DeviceKind → String → List String
interfaces_of ether name = name ∷ []
interfaces_of (bridge bridged) name = bridged
interfaces_of (alias_of parent) name = name ∷ []

unfoldable pub interfaces : NetDevice → List String
interfaces d = interfaces_of d.kind d.name

abbrev pub is_none : Option Network → Bool
is_none none = true
is_none (some n) = false

abbrev pub is_known : IpAddress → Bool
is_known a = not (is_none a.network)

-- `[addr for network in networks if addr.ip in network.network]`
matches : IpAddress → List Network → List IpAddress
unfolding contains_ip
matches a [] = []
matches a (n ∷ networks) =
    if contains_ip n.network a.ip then a ∷ matches a networks else matches a networks

-- The addresses, once for each of the networks that they are in.
in_networks : List IpAddress → List Network → List IpAddress
unfolding matches
in_networks [] networks = []
in_networks (a ∷ addresses) networks = matches a networks ++ in_networks addresses networks

-- `NetDevice.filter_addresses`; no networks and the empty list are the same.
filter_of : List IpAddress → List Network → Bool → List IpAddress
unfolding in_networks
filter_of addresses (n ∷ networks) include_unknown = in_networks addresses (n ∷ networks)
filter_of addresses [] true =
    filterb is_known addresses ++ filterb (λ a. is_none a.network) addresses
filter_of addresses [] false = filterb is_known addresses

unfoldable pub device_addresses : NetDevice → List Network → Bool → List IpAddress
unfolding filter_of
device_addresses d networks include_unknown = filter_of d.addresses networks include_unknown

-- `NetDevice.has_address`
unfoldable pub device_has_address : NetDevice → Address → Bool
unfolding device_addresses same_as
device_has_address d address = any (λ a. same_as a address) (device_addresses d [] true)

all_addresses : List NetDevice → List Network → Bool → List IpAddress
unfolding device_addresses
all_addresses [] networks include_unknown = []
all_addresses (d ∷ devices) networks include_unknown =
    device_addresses d networks include_unknown ++ all_addresses devices networks include_unknown

is_empty : List IpAddress → Bool
is_empty [] = true
is_empty (a ∷ addresses) = false

all_interfaces : List NetDevice → List Network → Bool → List String
unfolding device_addresses interfaces is_empty
all_interfaces [] networks include_unknown = []
all_interfaces (d ∷ devices) networks include_unknown =
    if is_empty (device_addresses d networks include_unknown)
    then all_interfaces devices networks include_unknown
    else interfaces d ++ all_interfaces devices networks include_unknown

-- `Host`: what names it, its devices, its extra variables and a copy of those it was made with
pub record Host (V : Type 0) : Type 0 where
  pub address : String
  pub alias : String
  pub user : Option String
  pub port : Option ℕ
  pub extra : Dict String V
  pub net_devices : List NetDevice
  pub original_extra : Dict String V

abbrev pub Roles : Type 0 → Type 0
Roles V = Dict String (List (Host V))

or_address : Option String → String → String
or_address none address = address
or_address (some alias) address = if alias == "" then address else alias

module _ {V : Type 0} where
  -- `Host(...)` and `__post_init__`
  unfoldable pub make_host :
      String → Option String → Option String → Option ℕ → Dict String V → List NetDevice → Host V
  unfolding or_address
  make_host address alias user port extra net_devices = record {
    address = address;
    alias = or_address alias address;
    user = user;
    port = port;
    extra = extra;
    net_devices = net_devices;
    original_extra = extra;
  }

  update : Dict String V → Dict String V → Dict String V
  unfolding put
  update d [] = d
  update d ((k, v) ∷ items) = update (put k v d) items

  unfoldable pub set_extra : Dict String V → Host V → Host V
  unfolding update
  set_extra items h = record h { extra = update h.extra items }

  unfoldable pub reset_extra : Host V → Host V
  reset_extra h = record h { extra = h.original_extra }

  -- `to_host`
  unfoldable pub to_host : Host V → Host V
  unfolding make_host
  to_host h = make_host h.address (some h.alias) h.user h.port h.extra []

  unfoldable pub filter_addresses : Host V → List Network → Bool → List IpAddress
  unfolding all_addresses
  filter_addresses h networks include_unknown = all_addresses h.net_devices networks include_unknown

  unfoldable pub has_address : Host V → Address → Bool
  unfolding device_has_address
  has_address h address = any (λ d. device_has_address d address) h.net_devices

  unfoldable pub filter_interfaces : Host V → List Network → Bool → List String
  unfolding all_interfaces
  filter_interfaces h networks include_unknown =
      all_interfaces h.net_devices networks include_unknown

  -- The roles with a host of which the test holds.
  roles_with : (Host V → Bool) → Roles V → List String
  unfolding add contains
  roles_with p [] = []
  roles_with p ((role, hosts) ∷ items) =
      if any p hosts then add (roles_with p items) role else roles_with p items

  -- `with_alias` and `with_ip`
  unfoldable pub with_alias : Roles V → String → List String
  unfolding roles_with
  with_alias roles alias = roles_with (λ h. h.alias == alias) roles

  unfoldable pub with_ip : Roles V → Address → List String
  unfolding roles_with has_address
  with_ip roles ip = roles_with (λ h. has_address h ip) roles
