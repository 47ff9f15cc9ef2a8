-- ===== src/Objects/Host/Laws.antt =====
-- What the filters of a host return.
use enoslib.Base.{
  String, ◌≡◌, refl, ◌∙◌, Bool, true, false, ◌&&◌, ◌||◌, not, List, [], ◌∷◌, ◌++◌, filterb, any,
  arith,
}
use enoslib.Base.Eq.{String_eq, ◌==◌}
use enoslib.Collections.ResourcesSet.{contains}
use enoslib.Collections.ResourcesSet.Laws.{contains-add}
use enoslib.Objects.Network.{Address, Network, contains_ip}
use enoslib.Objects.Host.{
  IpAddress, same_as, NetDevice, interfaces, is_none, is_known, matches, in_networks, filter_of,
  device_addresses, device_has_address, Host, all_addresses, filter_addresses, has_address,
  is_empty, all_interfaces, filter_interfaces, Roles, roles_with, with_ip,
}

-- The addresses that a filter selects: those in one of the networks; without networks, those on a
-- known network, or all.
abbrev pub is_selected : List Network → Bool → IpAddress → Bool
is_selected (n ∷ networks) include_unknown a = any (λ m. contains_ip m.network a.ip) (n ∷ networks)
is_selected [] include_unknown a = include_unknown || is_known a

any-append :
    {A : Type 0} (p : A → Bool) (xs ys : List A) → any p (xs ++ ys) ≡ (any p xs || any p ys)
any-append p [] ys = refl
any-append p (x ∷ xs) ys = ground (arith, any-append p xs ys)

any-matches :
    (p : IpAddress → Bool) (a : IpAddress) (networks : List Network)
    → any p (matches a networks) ≡ (p a && any (λ m. contains_ip m.network a.ip) networks)
unfolding matches
any-matches p a [] = ground arith
any-matches p a (n ∷ networks) = ground (arith, any-matches p a networks)

any-in_networks :
    (p : IpAddress → Bool) (addresses : List IpAddress) (networks : List Network)
    → any p (in_networks addresses networks)
      ≡ any (λ a. p a && any (λ m. contains_ip m.network a.ip) networks) addresses
unfolding in_networks
any-in_networks p [] networks = refl
any-in_networks p (a ∷ addresses) networks = ground (
  arith,
  any-append p (matches a networks) (in_networks addresses networks),
  any-matches p a networks,
  any-in_networks p addresses networks,
)

any-filterb :
    (p q : IpAddress → Bool) (addresses : List IpAddress)
    → any p (filterb q addresses) ≡ any (λ a. p a && q a) addresses
any-filterb p q [] = refl
any-filterb p q (a ∷ addresses) = ground (arith, any-filterb p q addresses)

any-both :
    (p : IpAddress → Bool) (addresses : List IpAddress)
    → any p (filterb is_known addresses ++ filterb (λ a. is_none a.network) addresses)
      ≡ any (λ a. p a && true) addresses
any-both p addresses =
    any-append p (filterb is_known addresses) (filterb (λ a. is_none a.network) addresses)
    ∙ both addresses
  where
    both :
        (rest : List IpAddress)
        → (any p (filterb is_known rest) || any p (filterb (λ a. is_none a.network) rest))
          ≡ any (λ a. p a && true) rest
    both [] = refl
    both (a ∷ rest) = ground (arith, both rest)

any-filter_of :
    (p : IpAddress → Bool) (addresses : List IpAddress) (networks : List Network)
    (include_unknown : Bool)
    → any p (filter_of addresses networks include_unknown)
      ≡ any (λ a. p a && is_selected networks include_unknown a) addresses
unfolding filter_of
any-filter_of p addresses (n ∷ networks) include_unknown =
    any-in_networks p addresses (n ∷ networks)
any-filter_of p addresses [] true = any-both p addresses
any-filter_of p addresses [] false = any-filterb p is_known addresses

-- What `filter_addresses` returns of a host satisfies a test exactly if an address of one of its
-- devices does that the filter selects.
pub filter_addresses-is_selected :
    {V : Type 0} (p : IpAddress → Bool) (h : Host V) (networks : List Network)
    (include_unknown : Bool)
    → any p (filter_addresses h networks include_unknown)
      ≡ any
          (λ d. any (λ a. p a && is_selected networks include_unknown a) d.addresses)
          h.net_devices
unfolding filter_addresses all_addresses device_addresses
filter_addresses-is_selected p h networks include_unknown = devices h.net_devices
  where
    devices :
        (ds : List NetDevice)
        → any p (all_addresses ds networks include_unknown)
          ≡ any (λ d. any (λ a. p a && is_selected networks include_unknown a) d.addresses) ds
    devices [] = refl
    devices (d ∷ ds) =
        any-append p (filter_of d.addresses networks include_unknown)
          (all_addresses ds networks include_unknown)
        ∙ cc (any-filter_of p d.addresses networks include_unknown, devices ds)

contains-append :
    (xs ys : List String) (key : String)
    → contains (xs ++ ys) key ≡ (contains xs key || contains ys key)
unfolding contains
contains-append [] ys key = refl
contains-append (x ∷ xs) ys key = ground (arith, contains-append xs ys key)

is_empty-any : (addresses : List IpAddress) → not (is_empty addresses) ≡ any (λ a. true) addresses
unfolding is_empty
is_empty-any [] = refl
is_empty-any (a ∷ addresses) = refl

-- An interface is among those that `filter_interfaces` returns exactly if a device has it, by its name
-- or as one that it bridges, and an address of the device is one that the filter selects.
filter_interfaces-is_selected :
    {V : Type 0} (h : Host V) (networks : List Network) (include_unknown : Bool)
    (interface : String)
    → contains (filter_interfaces h networks include_unknown) interface
      ≡ any
          (λ d.
            contains (interfaces d) interface
            && any (is_selected networks include_unknown) d.addresses)
          h.net_devices
unfolding filter_interfaces all_interfaces device_addresses contains
filter_interfaces-is_selected h networks include_unknown interface = devices h.net_devices
  where
    devices :
        (ds : List NetDevice)
        → contains (all_interfaces ds networks include_unknown) interface
          ≡ any
              (λ d.
                contains (interfaces d) interface
                && any (is_selected networks include_unknown) d.addresses)
              ds
    devices [] = refl
    devices (d ∷ ds) =
        let mine = filter_of d.addresses networks include_unknown in
        let others = all_interfaces ds networks include_unknown in
        ground (
          arith,
          devices ds,
          contains-append (interfaces d) others interface,
          is_empty-any mine,
          any-filter_of (λ a. true) d.addresses networks include_unknown,
        )

contains-roles_with :
    {V : Type 0} (p : Host V → Bool) (roles : Roles V) (role : String)
    → contains (roles_with p roles) role ≡ any (λ e. e.0 == role && any p e.1) roles
unfolding roles_with contains
contains-roles_with p [] role = refl
contains-roles_with p ((r, hosts) ∷ roles) role =
    ground (arith, contains-roles_with p roles role, contains-add (roles_with p roles) r role)

has_address-any :
    {V : Type 0} (h : Host V) (ip : Address)
    → has_address h ip ≡ any (λ d. any (λ a. same_as a ip) d.addresses) h.net_devices
unfolding has_address device_has_address device_addresses
has_address-any h ip = devices h.net_devices
  where
    plain :
        (addresses : List IpAddress)
        → any (λ a. same_as a ip && true) addresses ≡ any (λ a. same_as a ip) addresses
    plain [] = refl
    plain (a ∷ addresses) = ground (arith, plain addresses)

    devices :
        (ds : List NetDevice)
        → any (λ d. any (λ a. same_as a ip) (filter_of d.addresses [] true)) ds
          ≡ any (λ d. any (λ a. same_as a ip) d.addresses) ds
    devices [] = refl
    devices (d ∷ ds) = ground (
      arith,
      devices ds,
      any-filter_of (λ a. same_as a ip) d.addresses [] true,
      plain d.addresses,
    )

any-hosts :
    {V : Type 0} (ip : Address) (hosts : List (Host V))
    → any (λ h. has_address h ip) hosts
      ≡ any (λ h. any (λ d. any (λ a. same_as a ip) d.addresses) h.net_devices) hosts
any-hosts ip [] = refl
any-hosts ip (h ∷ hosts) = cc (has_address-any h ip, any-hosts ip hosts)

-- `with_ip` returns the roles of the hosts that have the address on a device, whether its network is
-- known or not.
with_ip-has_address :
    {V : Type 0} (roles : Roles V) (ip : Address) (role : String)
    → contains (with_ip roles ip) role
      ≡ any
          (λ e.
            e.0 == role
            && any (λ h. any (λ d. any (λ a. same_as a ip) d.addresses) h.net_devices) e.1)
          roles
unfolding with_ip
with_ip-has_address {V} roles ip role =
    contains-roles_with (λ h. has_address h ip) roles role ∙ each roles
  where
    each :
        (rs : Roles V)
        → any (λ e. e.0 == role && any (λ h. has_address h ip) e.1) rs
          ≡ any
              (λ e.
                e.0 == role
                && any (λ h. any (λ d. any (λ a. same_as a ip) d.addresses) h.net_devices) e.1)
              rs
    each [] = refl
    each ((r, hosts) ∷ rs) = cc (any-hosts ip hosts, each rs)
