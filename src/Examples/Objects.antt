-- ===== src/Examples/Objects.antt =====
-- Networks and hosts at concrete inputs.
use enoslib.Base.{ℕ, String, Bool, false, Option, ◌≡◌, refl, none, some, [], ◌∷◌, any}
use enoslib.Base.Eq.{ℕ_eq, String_eq}
use enoslib.Objects.Network.{Address, v4, v6, Network}
use enoslib.Objects.Host.{IpAddress, NetDevice, ether, bridge, Host, filter_addresses}
use enoslib.Objects.Facts.{HostFacts, or_empty, address_text, all_networks, sync_from_ansible}
use enoslib.Objects.Facts.Kept.{AreSynced}
use enoslib.Objects.Facts.Known.{sync_from_ansible-IsSynced}

-- 10.0.0.0/24 with a pool, and 2001:db8::/64 without.
abbrev four : Network
four = record {
  class_name = "DefaultNetwork";
  network = record { version = v4; network_address = 167772160; prefixlen = 24 };
  pool_start = some 167772170;
  pool_end = some 167772180;
  pool_mac_start = some 1;
  pool_mac_end = none;
}

abbrev six : Network
six = record {
  class_name = "DefaultNetwork";
  network = record {
    version = v6;
    network_address = 42540766411282592856903984951653826560;
    prefixlen = 64;
  };
  pool_start = none;
  pool_end = none;
  pool_mac_start = none;
  pool_mac_end = none;
}

abbrev ten_two : Address
ten_two = record { version = v4; value = 167772162 }

abbrev eth0 : NetDevice
eth0 = record {
  name = "eth0";
  addresses = record { ip = ten_two; prefixlen = 24; network = some four } ∷ [];
  kind = ether;
}

abbrev br0 : NetDevice
br0 = record {
  name = "br0";
  addresses =
      record { ip = record { version = v4; value = 1 }; prefixlen = 8; network = none } ∷ [];
  kind = bridge ("eth1" ∷ "eth2" ∷ []);
}

abbrev host : Host ℕ
host = record {
  address = "a-1";
  alias = "a-1";
  user = none;
  port = none;
  extra = [];
  net_devices = eth0 ∷ br0 ∷ [];
  original_extra = [];
}

-- Every text reads as the address 10.0.0.2 with a prefix of 24.
abbrev ten_two_of : String → Option (Address × ℕ)
ten_two_of text = some (ten_two, 24)

abbrev facts : HostFacts
facts = record {
  ansible_interfaces = some ("eth0" ∷ "lo" ∷ []);
  devices =
      (
        "ansible_eth0",
        record {
          ipv4 = some (
              record { address = some "10.0.0.2"; netmask = some "255.255.255.0"; prefix = none }
              ∷ []);
          ipv4_secondaries = none;
          ipv6 = none;
          device = some "eth0";
          type = some "ether";
          interfaces = none;
        },
      )
      ∷ [];
}

sync_from_ansible-IsSynced_example :
    (h' : Host ℕ) × (sync_from_ansible ten_two_of (("my_network", four ∷ six ∷ []) ∷ []) facts host
      ≡ some h')
    × AreSynced ten_two_of
        (("my_network", four ∷ six ∷ []) ∷ [])
        facts
        ("eth0" ∷ "lo" ∷ [])
        h'.net_devices
    × ((p : IpAddress → Bool)
        → any p (filter_addresses h' [] false)
          ≡ any p (filter_addresses h' (all_networks (("my_network", four ∷ six ∷ []) ∷ [])) false))
unfolding or_empty address_text
sync_from_ansible-IsSynced_example =
    sync_from_ansible-IsSynced ten_two_of (("my_network", four ∷ six ∷ []) ∷ []) facts
      ("eth0" ∷ "lo" ∷ []) host refl
      (((("10.0.0.2/255.255.255.0", refl, ((ten_two, 24), refl)), tt), refl), tt)
