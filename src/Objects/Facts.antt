-- ===== src/Objects/Facts.antt =====
-- From Ansible's facts to the devices of a host (enoslib/objects.py): `IPAddress.from_ansible`,
-- `NetDevice.sync_from_ansible`, `_build_devices` and `Host.sync_from_ansible`. `ip_interface` is
-- Python's, a parameter: it reads an address with its prefix or netmask. A dictionary of facts is a
-- record of the keys that the code looks up; a section that is not a list is a list of one.
pub mod Known
pub mod Kept
use Prim.Native.String.{◌++◌ as ◌<>◌}
use enoslib.Base.{
  ℕ, String, Bool, true, false, ◌&&◌, Option, none, some, List, [], ◌∷◌, ◌++◌, all, any,
  if◌then◌else◌,
}
use enoslib.Base.Eq.{String_eq, ℕ_eq, ◌==◌}
use enoslib.Base.Dict.{Dict, get}
use enoslib.Base.Options.{◌>>=◌}
use enoslib.Base.Text.{split, occurs}
use enoslib.Collections.ResourcesSet.{contains}
use enoslib.Objects.Network.{Address, Network, contains_ip, network_eq}
use enoslib.Objects.Host.{IpAddress, same_as, NetDevice, DeviceKind, ether, bridge, alias_of, Host}

-- The facts of an address, of a device and of a host
pub record AddressFacts : Type 0 where
  pub address : Option String
  pub netmask : Option String
  pub prefix : Option String

pub record DeviceFacts : Type 0 where
  pub ipv4 : Option (List AddressFacts)
  pub ipv4_secondaries : Option (List AddressFacts)
  pub ipv6 : Option (List AddressFacts)
  pub device : Option String
  pub type : Option String
  pub interfaces : Option (List String)

pub record HostFacts : Type 0 where
  pub ansible_interfaces : Option (List String)
  pub devices : Dict String DeviceFacts

-- The text that `from_ansible` gives to `ip_interface`; none is a ValueError.
unfoldable pub address_text : AddressFacts → Option String
address_text d = with_keys d.address d.netmask d.prefix
  where
    with_keys : Option String → Option String → Option String → Option String
    with_keys none netmask prefix = none
    with_keys (some address) (some netmask) prefix = some (address <> "/" <> netmask)
    with_keys (some address) none (some prefix) = some (address <> "/" <> prefix)
    with_keys (some address) none none = none

-- The networks of all roles, in the order of the two loops.
unfoldable pub all_networks : Dict String (List Network) → List Network
all_networks [] = []
all_networks ((role, provider_nets) ∷ networks) = provider_nets ++ all_networks networks

-- The last network that an address is in
unfoldable pub network_of : Option Network → Address → List Network → Option Network
unfolding contains_ip
network_of net ip [] = net
network_of net ip (provider_net ∷ networks) =
    network_of (if contains_ip provider_net.network ip then some provider_net else net) ip networks

-- Addresses are equal by their network and by their interface.
same_known : Option Network → Option Network → Bool
unfolding network_eq
same_known none none = true
same_known none (some m) = false
same_known (some n) none = false
same_known (some n) (some m) = network_eq n m

unfoldable pub address_eq : IpAddress → IpAddress → Bool
unfolding same_known same_as
address_eq a b = same_known a.network b.network && (same_as a b.ip && a.prefixlen == b.prefixlen)

-- `add` of a set
unfoldable pub add_by : {A : Type 0} → (A → A → Bool) → List A → A → List A
add_by eq xs x = if any (λ y. eq y x) xs then xs else xs ++ x ∷ []

unfoldable pub or_empty : Option (List AddressFacts) → List AddressFacts
or_empty none = []
or_empty (some ips) = ips

-- Without a hardware name
no_name : Option String → Bool
no_name none = true
no_name (some name) = name == ""

unfoldable pub first_part : List String → String
first_part [] = ""
first_part (part ∷ parts) = part

-- The parent of a device that is probably an alias: the part in front of an underscore, if that is an
-- interface.
unfoldable pub parent_of : Option String → String → List String → Option String
unfolding no_name occurs split first_part contains
parent_of device device_name ansible_interfaces =
    let probable_parent = first_part (split b'_' device_name) in
    if no_name device && occurs "_" device_name
    then (if contains ansible_interfaces probable_parent then some probable_parent else none)
    else none

-- `str` of the name
name_text : Option String → String
name_text none = "None"
name_text (some name) = name

final_name : Option String → String → String
final_name none device_name = device_name
final_name (some name) device_name = if name == "" then device_name else name

-- The name and the kind of a device; none is a KeyError.
unfoldable pub kind_of : Option String → DeviceFacts → String → Option (String × DeviceKind)
unfolding name_text final_name
kind_of (some parent) d device_name = some (device_name, alias_of (some parent))
kind_of none d device_name = do
  type ← d.type
  if type == "bridge"
      then (d.interfaces >>= λ bridged. some (name_text d.device, bridge bridged))
      else some (final_name d.device device_name, ether)

-- Devices of one class are equal by their names and their sets of addresses.
same_class : DeviceKind → DeviceKind → Bool
same_class ether ether = true
same_class (bridge bridged) (bridge bridged') = true
same_class (alias_of parent) (alias_of parent') = true
same_class _ _ = false

unfoldable pub included : List IpAddress → List IpAddress → Bool
unfolding address_eq
included xs ys = all (λ x. any (λ y. address_eq x y) ys) xs

unfoldable pub device_eq : NetDevice → NetDevice → Bool
unfolding same_class included
device_eq d e =
    same_class d.kind e.kind
    && (d.name == e.name && (included d.addresses e.addresses && included e.addresses d.addresses))

-- `if key in d`, with what is done for the value
unfoldable pub if_found : {A B : Type 0} → Option A → B → (A → B) → B
if_found none otherwise next = otherwise
if_found (some a) otherwise next = next a

module _ (ip_interface : String → Option (Address × ℕ))
    (networks : Dict String (List Network)) where
  -- `from_ansible` for the network that the two loops find
  unfoldable pub sync_address : AddressFacts → Option IpAddress
  unfolding address_text network_of all_networks
  sync_address d = do
    text ← address_text d
    (ip, prefixlen) ← ip_interface text
    some record {
      ip = ip;
      prefixlen = prefixlen;
      network = network_of none ip (all_networks networks);
    }

  unfoldable pub sync_addresses : List IpAddress → List AddressFacts → Option (List IpAddress)
  unfolding sync_address add_by
  sync_addresses addresses [] = some addresses
  sync_addresses addresses (ip ∷ ips) = do
    a ← sync_address ip
    sync_addresses (add_by address_eq addresses a) ips

  -- `NetDevice.sync_from_ansible`; none is a ValueError or a KeyError.
  unfoldable pub sync_device : DeviceFacts → String → List String → Option NetDevice
  unfolding sync_addresses or_empty kind_of parent_of
  sync_device d device_name ansible_interfaces = do
    addresses ←
        sync_addresses [] (or_empty d.ipv4 ++ (or_empty d.ipv4_secondaries ++ or_empty d.ipv6))
    (name, kind) ← kind_of (parent_of d.device device_name ansible_interfaces) d device_name
    some record { name = name; addresses = addresses; kind = kind }

  -- The loop of `_build_devices`: an interface without facts is passed over.
  unfoldable pub build_from :
      HostFacts → List String → List NetDevice → List String → Option (List NetDevice)
  unfolding get sync_device add_by if_found
  build_from facts ansible_interfaces devices [] = some devices
  build_from facts ansible_interfaces devices (interface_name ∷ names) =
      if_found (get ("ansible_" <> interface_name) facts.devices)
        (build_from facts ansible_interfaces devices names)
        (λ d. sync_device d interface_name ansible_interfaces >>= λ device.
          build_from facts ansible_interfaces (add_by device_eq devices device) names)

  unfoldable pub build_devices : HostFacts → Option (List NetDevice)
  unfolding build_from
  build_devices facts = do
    ansible_interfaces ← facts.ansible_interfaces
    build_from facts ansible_interfaces [] ansible_interfaces

  -- `Host.sync_from_ansible`
  unfoldable pub sync_from_ansible : {V : Type 0} → HostFacts → Host V → Option (Host V)
  unfolding build_devices
  sync_from_ansible facts h = do
    devices ← build_devices facts
    some (record h { net_devices = devices })
