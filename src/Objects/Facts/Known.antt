-- ===== src/Objects/Facts/Known.antt =====
-- What is known of the addresses of a host after its facts are read.
use Prim.Native.String.{◌++◌ as ◌<>◌}
use enoslib.Base.{
  ℕ, String, ◌≡◌, refl, ◌∙◌, sym, Bool, true, false, ◌||◌, not, Option, none, some, List, [], ◌∷◌,
  ◌++◌, All, any, arith, inl, inr, Option-cases, Bool-cases, ◌&&◌,
}
use enoslib.Base.Eq.{String_eq, ◌==◌}
use enoslib.Base.Dict.{Dict, get, All-get}
use enoslib.Base.Options.{Returns, Returns-bind}
use enoslib.Objects.Network.{Address, Network, contains_ip}
use enoslib.Objects.Host.{IpAddress, is_none, is_known, NetDevice, alias_of, Host, filter_addresses}
use enoslib.Objects.Host.Laws.{is_selected, filter_addresses-is_selected}
use enoslib.Objects.Facts.Kept.{AreSynced, build_from-AreSynced}
use enoslib.Objects.Facts.{
  AddressFacts, DeviceFacts, HostFacts, address_text, all_networks, network_of, address_eq, add_by,
  or_empty, parent_of, kind_of, device_eq, sync_address, sync_addresses, sync_device, build_from,
  build_devices, sync_from_ansible,
}

All-add_by :
    {A : Type 0} (P : A → Type 0) (eq : A → A → Bool) (xs : List A) (x : A)
    → All P xs
    → P x
    → All P (add_by eq xs x)
unfolding add_by
All-add_by {A} P eq xs x hs h = elim (Bool-cases (any (λ y. eq y x) xs)) [
  | inl found ↦ rw found hs
  | inr fresh ↦ rw fresh (at_end xs hs)
]
  where
    at_end : (ys : List A) → All P ys → All P (ys ++ x ∷ [])
    at_end [] hs = (h, tt)
    at_end (y ∷ ys) hs = (hs.0, at_end ys hs.1)

network_of-is_none :
    (net : Option Network) (ip : Address) (networks : List Network)
    → not (is_none (network_of net ip networks))
      ≡ (not (is_none net) || any (λ m. contains_ip m.network ip) networks)
unfolding network_of
network_of-is_none net ip [] = ground arith
network_of-is_none net ip (n ∷ networks) = elim (Bool-cases (contains_ip n.network ip)) [
  | inl inside ↦ rw inside (network_of-is_none (some n) ip networks ∙ ground arith)
  | inr outside ↦ rw outside (network_of-is_none net ip networks)
]

any-contained :
    (p : IpAddress → Bool) (networks : List Network) (addresses : List IpAddress)
    → All (λ a. is_known a ≡ any (λ m. contains_ip m.network a.ip) networks) addresses
    → any (λ a. p a && is_selected [] false a) addresses
      ≡ any (λ a. p a && is_selected networks false a) addresses
any-contained p [] addresses told = refl
any-contained p (n ∷ networks) [] told = refl
any-contained p (n ∷ networks) (a ∷ addresses) told =
    ground (arith, told.0, any-contained p (n ∷ networks) addresses told.1)

abbrev pub has_interfaces : Option String → Option (List String) → Bool
has_interfaces none interfaces = false
has_interfaces (some type) none = not (type == "bridge")
has_interfaces (some type) (some interfaces) = true

module _ (ip_interface : String → Option (Address × ℕ)) where
  -- The text of an address is there and can be read.
  abbrev pub IsAddress : AddressFacts → Type 0
  IsAddress d =
      (text : String) × (address_text d ≡ some text)
      × ((read : Address × ℕ) × (ip_interface text ≡ some read))

  -- The facts of a device can be read: its addresses, its type and, of a bridge, its interfaces.
  abbrev pub IsReadable : DeviceFacts → Type 0
  IsReadable d =
      All IsAddress (or_empty d.ipv4 ++ (or_empty d.ipv4_secondaries ++ or_empty d.ipv6))
      × (has_interfaces d.type d.interfaces ≡ true)

  module _ (networks : Dict String (List Network)) where
    -- The network of an address is known exactly if one of the networks contains it.
    abbrev IsTold : IpAddress → Type 0
    IsTold a = is_known a ≡ any (λ m. contains_ip m.network a.ip) (all_networks networks)

    sync_address-IsTold :
        (d : AddressFacts) → IsAddress d → Returns IsTold (sync_address ip_interface networks d)
    unfolding sync_address
    sync_address-IsTold d (text, e, ((ip, prefixlen), e')) = rw e (
        rw e' (
          record {
            ip = ip;
            prefixlen = prefixlen;
            network = network_of none ip (all_networks networks);
          },
          refl,
          network_of-is_none none ip (all_networks networks),
        ))

    sync_addresses-IsTold :
        (addresses : List IpAddress) (ips : List AddressFacts)
        → All IsTold addresses
        → All IsAddress ips
        → Returns (All IsTold) (sync_addresses ip_interface networks addresses ips)
    unfolding sync_addresses
    sync_addresses-IsTold addresses [] told h = (addresses, refl, told)
    sync_addresses-IsTold addresses (ip ∷ ips) told h =
        Returns-bind IsTold (All IsTold) (sync_address ip_interface networks ip)
          (λ a. sync_addresses ip_interface networks (add_by address_eq addresses a) ips)
          (sync_address-IsTold ip h.0)
          (λ a t.
            sync_addresses-IsTold (add_by address_eq addresses a) ips
              (All-add_by IsTold address_eq addresses a told t) h.1)

    kind_of-Returns :
        (parent : Option String) (d : DeviceFacts) (device_name : String)
        → has_interfaces d.type d.interfaces ≡ true
        → Returns {0, 0} (λ k. Unit) (kind_of parent d device_name)
    unfolding kind_of
    kind_of-Returns (some parent) d device_name h =
        ((device_name, alias_of (some parent)), refl, tt)
    kind_of-Returns none d device_name h = elim (Option-cases d.type) [
      | inl e ↦ absurd (ground (arith, h, e))
      | inr (type, e) ↦ rw e (elim (Bool-cases (type == "bridge")) [
        | inl is_bridge ↦ elim (Option-cases d.interfaces) [
          | inl e' ↦ absurd (ground (arith, h, e, e', is_bridge))
          | inr (bridged, e') ↦ rw is_bridge (rw e' (_, refl, tt))
        ]
        | inr regular ↦ rw regular (_, refl, tt)
      ])
    ]

    abbrev AreTold : NetDevice → Type 0
    AreTold d = All IsTold d.addresses

    sync_device-AreTold :
        (d : DeviceFacts) (device_name : String) (ansible_interfaces : List String)
        → IsReadable d
        → Returns AreTold (sync_device ip_interface networks d device_name ansible_interfaces)
    unfolding sync_device
    sync_device-AreTold d device_name ansible_interfaces h =
        let (addresses, e, told) =
          sync_addresses-IsTold []
            (or_empty d.ipv4 ++ (or_empty d.ipv4_secondaries ++ or_empty d.ipv6)) tt h.0 in
        let ((name, kind), e', u) =
          kind_of-Returns (parent_of d.device device_name ansible_interfaces) d device_name h.1 in
        rw e (rw e' (record { name = name; addresses = addresses; kind = kind }, refl, told))

    build_from-AreTold :
        (facts : HostFacts) (ansible_interfaces : List String) (devices : List NetDevice)
        (names : List String)
        → All (λ e. IsReadable e.1) facts.devices
        → All AreTold devices
        → Returns
            (All AreTold)
            (build_from ip_interface networks facts ansible_interfaces devices names)
    unfolding build_from
    build_from-AreTold facts ansible_interfaces devices [] readable told = (devices, refl, told)
    build_from-AreTold facts ansible_interfaces devices (name ∷ names) readable told =
        elim (Option-cases (get ("ansible_" <> name) facts.devices)) [
          | inl e ↦ rw e (build_from-AreTold facts ansible_interfaces devices names readable told)
          | inr (d, e) ↦ rw e (
              Returns-bind AreTold (All AreTold)
                (sync_device ip_interface networks d name ansible_interfaces)
                (λ device.
                  build_from ip_interface networks facts ansible_interfaces
                    (add_by device_eq devices device) names)
                (sync_device-AreTold d name ansible_interfaces
                  (All-get IsReadable ("ansible_" <> name) facts.devices d readable e))
                (λ device t.
                  build_from-AreTold facts ansible_interfaces (add_by device_eq devices device)
                    names readable (All-add_by AreTold device_eq devices device told t)))
        ]

    any-known :
        (p : IpAddress → Bool) (addresses : List IpAddress)
        → All IsTold addresses
        → any (λ a. p a && is_selected [] false a) addresses
          ≡ any (λ a. p a && is_selected (all_networks networks) false a) addresses
    any-known p addresses told = any-contained p (all_networks networks) addresses told

    any-devices :
        (p : IpAddress → Bool) (devices : List NetDevice)
        → All AreTold devices
        → any (λ d. any (λ a. p a && is_selected [] false a) d.addresses) devices
          ≡ any
              (λ d. any (λ a. p a && is_selected (all_networks networks) false a) d.addresses)
              devices
    any-devices p [] told = refl
    any-devices p (d ∷ devices) told =
        cc (any-known p d.addresses told.0, any-devices p devices told.1)

    -- A host whose facts can be read is synced. Each address of the three sections of each interface
    -- that has facts is then an address of one of its devices. Of its addresses, those on a known network
    -- are the ones that are in any of the networks: filtering without networks and by all of them return
    -- addresses that satisfy the same tests.
    pub sync_from_ansible-IsSynced :
        {V : Type 0} (facts : HostFacts) (names : List String) (h : Host V)
        → facts.ansible_interfaces ≡ some names
        → All (λ e. IsReadable e.1) facts.devices
        → (h' : Host V) × (sync_from_ansible ip_interface networks facts h ≡ some h')
          × AreSynced ip_interface networks facts names h'.net_devices
          × ((p : IpAddress → Bool)
              → any p (filter_addresses h' [] false)
                ≡ any p (filter_addresses h' (all_networks networks) false))
    unfolding sync_from_ansible build_devices
    sync_from_ansible-IsSynced {V} facts names h e readable =
        let (devices, e', told) = build_from-AreTold facts names [] names readable tt in
        (
          record h { net_devices = devices },
          simp (e, e'),
          build_from-AreSynced ip_interface networks facts names names devices e',
          λ p.
              filter_addresses-is_selected p (record h { net_devices = devices }) [] false
              ∙ (any-devices p devices told
                  ∙ sym (
                      filter_addresses-is_selected p (record h { net_devices = devices })
                        (all_networks networks) false)),
        )
