-- ===== src/Objects/Facts/Kept.antt =====
-- The addresses of the facts are kept.
use Prim.Native.String.{◌++◌ as ◌<>◌}
use mathlib.Core.Path.{subst}
use enoslib.Base.{
  ℕ, String, ◌≡◌, refl, ◌∙◌, sym, Bool, true, ◌&&◌, ◌||◌, Option, none, some, List, [], ◌∷◌, ◌++◌,
  All, all, any, arith, inl, inr, ◌⊎◌, Option-cases, Bool-cases,
}
use enoslib.Base.Eq.{String_eq, ℕ_eq, ◌==◌}
use enoslib.Base.Dict.{Dict, get}
use enoslib.Base.Options.{◌>>=◌, from_some}
use enoslib.Objects.Network.{Address, Network, number}
use enoslib.Objects.Host.{IpAddress, same_as, NetDevice}
use enoslib.Objects.Facts.{
  AddressFacts, DeviceFacts, HostFacts, address_text, all_networks, network_of, address_eq, add_by,
  or_empty, parent_of, kind_of, included, device_eq, if_found, sync_address, sync_addresses,
  sync_device, build_from,
}

-- What holds of a result, if there is one.
abbrev IfReturns : {A : Type 0} → (A → Type 0) → Option A → Type 0
IfReturns P none = Unit
IfReturns P (some a) = P a

IfReturns-bind :
    {A B : Type 0} (P : B → Type 0) (o : Option A) (f : A → Option B)
    → ((a : A) → o ≡ some a → IfReturns P (f a))
    → IfReturns P (o >>= f)
IfReturns-bind P none f h = tt
IfReturns-bind P (some a) f h = h a refl

pub returned :
    {A : Type 0} (P : A → Type 0) (o : Option A) (a : A) → IfReturns P o → o ≡ some a → P a
returned P o a h e = subst (IfReturns P) e h

-- The address and the length of the prefix.
abbrev pub is_at : Address → ℕ → IpAddress → Bool
is_at ip n a =
    (number a.ip.version == number ip.version && a.ip.value == ip.value) && a.prefixlen == n

abbrev pub has_at : Address → ℕ → NetDevice → Bool
has_at ip n d = any (is_at ip n) d.addresses

any-append_last :
    {A : Type 0} (p : A → Bool) (xs : List A) (x : A) → any p (xs ++ x ∷ []) ≡ (any p xs || p x)
any-append_last p [] x = ground arith
any-append_last p (y ∷ xs) x = ground (arith, any-append_last p xs x)

add_by-old :
    {A : Type 0} (eq : A → A → Bool) (p : A → Bool) (xs : List A) (x : A)
    → any p xs ≡ true
    → any p (add_by eq xs x) ≡ true
unfolding add_by
add_by-old eq p xs x h = elim (Bool-cases (any (λ y. eq y x) xs)) [
  | inl found ↦ rw found h
  | inr fresh ↦ rw fresh (ground (arith, h, any-append_last p xs x))
]

any-equal :
    {A : Type 0} (q p : A → Bool) (xs : List A)
    → ((y : A) → q y ≡ true → p y ≡ true)
    → any q xs ≡ true
    → any p xs ≡ true
any-equal q p [] h e = cc
any-equal q p (x ∷ xs) h e = elim (Bool-cases (q x)) [
  | inl here ↦ ground (arith, h x here)
  | inr there ↦ ground (arith, any-equal q p xs h (ground (arith, e, there)))
]

add_by-new :
    {A : Type 0} (eq : A → A → Bool) (p : A → Bool) (xs : List A) (x : A)
    → ((y : A) → eq y x ≡ true → p y ≡ true)
    → p x ≡ true
    → any p (add_by eq xs x) ≡ true
unfolding add_by
add_by-new eq p xs x same h = elim (Bool-cases (any (λ y. eq y x) xs)) [
  | inl found ↦ rw found (any-equal (λ y. eq y x) p xs same found)
  | inr fresh ↦ rw fresh (ground (arith, h, any-append_last p xs x))
]

address_eq-is_at :
    (ip : Address) (n : ℕ) (a b : IpAddress) → address_eq a b ≡ true → (is_at ip n a ≡ is_at ip n b)
unfolding address_eq same_as
address_eq-is_at ip n a b h = ground (
  arith,
  h,
  ℕ_eq.eqb_iff (number a.ip.version) (number b.ip.version),
  ℕ_eq.eqb_iff (number a.ip.version) (number ip.version),
  ℕ_eq.eqb_iff (number b.ip.version) (number ip.version),
  ℕ_eq.eqb_iff a.ip.value b.ip.value,
  ℕ_eq.eqb_iff a.ip.value ip.value,
  ℕ_eq.eqb_iff b.ip.value ip.value,
  ℕ_eq.eqb_iff a.prefixlen b.prefixlen,
  ℕ_eq.eqb_iff a.prefixlen n,
  ℕ_eq.eqb_iff b.prefixlen n,
)

included-is_at :
    (ip : Address) (n : ℕ) (xs ys : List IpAddress)
    → included xs ys ≡ true
    → any (is_at ip n) xs ≡ true
    → any (is_at ip n) ys ≡ true
unfolding included
included-is_at ip n [] ys h e = cc
included-is_at ip n (x ∷ xs) ys h e = elim (Bool-cases (is_at ip n x)) [
  | inl here ↦
      any-equal (λ y. address_eq x y) (is_at ip n) ys
        (λ y same. sym (address_eq-is_at ip n x y same) ∙ here) (ground (arith, h))
  | inr there ↦ included-is_at ip n xs ys (ground (arith, h)) (ground (arith, e, there))
]

device_eq-has_at :
    (ip : Address) (n : ℕ) (d e : NetDevice)
    → device_eq e d ≡ true
    → has_at ip n d ≡ true
    → has_at ip n e ≡ true
unfolding device_eq
device_eq-has_at ip n d e same h =
    included-is_at ip n d.addresses e.addresses (ground (arith, same)) h

All-split : {A : Type 0} (P : A → Type 0) (xs ys : List A) → All P (xs ++ ys) → All P xs × All P ys
All-split P [] ys h = (tt, h)
All-split P (x ∷ xs) ys h = let (l, r) = All-split P xs ys h.1 in ((h.0, l), r)

none-some : {A : Type 0} (a : A) → ◌≡◌ {A = Option A} none (some a) → ⊥
none-some a h = cc

module _ (ip_interface : String → Option (Address × ℕ)) where
  -- What is read of the facts of an address is among the addresses.
  abbrev pub IsAmong : List IpAddress → AddressFacts → Type 0
  IsAmong addresses x =
      (text : String) (ip : Address) (n : ℕ)
      → address_text x ≡ some text
      → ip_interface text ≡ some (ip, n)
      → any (is_at ip n) addresses ≡ true

  -- It is an address of one of the devices.
  abbrev pub IsKept : List NetDevice → AddressFacts → Type 0
  IsKept devices x =
      (text : String) (ip : Address) (n : ℕ)
      → address_text x ≡ some text
      → ip_interface text ≡ some (ip, n)
      → any (has_at ip n) devices ≡ true

  -- All the addresses of the three sections of a device are kept.
  abbrev pub AreKept : List NetDevice → DeviceFacts → Type 0
  AreKept devices d =
      (xs : List AddressFacts)
      → ((d.ipv4 ≡ some xs) ⊎ ((d.ipv4_secondaries ≡ some xs) ⊎ (d.ipv6 ≡ some xs)))
      → All (IsKept devices) xs

  module _ (networks : Dict String (List Network)) where
    sync_address-is_at :
        (x : AddressFacts) (a : IpAddress)
        → sync_address ip_interface networks x ≡ some a
        → (text : String) (ip : Address) (n : ℕ) → address_text x ≡ some text
        → ip_interface text ≡ some (ip, n)
        → is_at ip n a ≡ true
    unfolding sync_address
    sync_address-is_at x a e text ip n h k =
        let made : ◌≡◌ {A = Option IpAddress} (sync_address ip_interface networks x) (
            some record {
              ip = ip;
              prefixlen = n;
              network = network_of none ip (all_networks networks);
            }) =
          rw h (rw k refl) in
        let same = from_some _ a (sym made ∙ e) in
        subst (λ b. is_at ip n b ≡ true) same
          (ground (
            arith,
            ℕ_eq.eqb_iff (number ip.version) (number ip.version),
            ℕ_eq.eqb_iff ip.value ip.value,
            ℕ_eq.eqb_iff n n,
          ))

    -- What was there is kept, and what is read is there.
    abbrev Grows : List IpAddress → List AddressFacts → List IpAddress → Type 0
    Grows before ips after =
        ((p : IpAddress → Bool) → any p before ≡ true → any p after ≡ true)
        × All (IsAmong after) ips

    sync_addresses-Grows :
        (addresses : List IpAddress) (ips : List AddressFacts)
        → IfReturns (Grows addresses ips) (sync_addresses ip_interface networks addresses ips)
    unfolding sync_addresses
    sync_addresses-Grows addresses [] = ((λ p h. h), tt)
    sync_addresses-Grows addresses (x ∷ ips) =
        IfReturns-bind (Grows addresses (x ∷ ips)) (sync_address ip_interface networks x)
          (λ a. sync_addresses ip_interface networks (add_by address_eq addresses a) ips)
          (λ a e.
            grow (sync_addresses ip_interface networks (add_by address_eq addresses a) ips) a e
              (sync_addresses-Grows (add_by address_eq addresses a) ips))
      where
        grow :
            (o : Option (List IpAddress)) (a : IpAddress)
            → sync_address ip_interface networks x ≡ some a
            → IfReturns (Grows (add_by address_eq addresses a) ips) o
            → IfReturns (Grows addresses (x ∷ ips)) o
        grow none a e h = tt
        grow (some after) a e (old, new) = (
          λ p h. old p (add_by-old address_eq p addresses a h),
          (
            λ text ip n h k. old (is_at ip n) (
                add_by-new address_eq (is_at ip n) addresses a
                  (λ y same.
                    address_eq-is_at ip n y a same ∙ sync_address-is_at x a e text ip n h k)
                  (sync_address-is_at x a e text ip n h k)),
            new,
          ),
        )

    sync_device-IsAmong :
        (d : DeviceFacts) (name : String) (interfaces : List String)
        → IfReturns
            (λ device.
              All
                (IsAmong device.addresses)
                (or_empty d.ipv4 ++ (or_empty d.ipv4_secondaries ++ or_empty d.ipv6)))
            (sync_device ip_interface networks d name interfaces)
    unfolding sync_device
    sync_device-IsAmong d name interfaces =
        let ips = or_empty d.ipv4 ++ (or_empty d.ipv4_secondaries ++ or_empty d.ipv6) in
        IfReturns-bind (λ device. All (IsAmong device.addresses) ips)
          (sync_addresses ip_interface networks [] ips)
          (λ addresses. kind_of (parent_of d.device name interfaces) d name >>= λ named.
            some record { name = named.0; addresses = addresses; kind = named.1 })
          (λ addresses e.
            IfReturns-bind (λ device. All (IsAmong device.addresses) ips)
              (kind_of (parent_of d.device name interfaces) d name)
              (λ named. some record { name = named.0; addresses = addresses; kind = named.1 })
              (λ named e'.
                (returned (Grows [] ips) (sync_addresses ip_interface networks [] ips) addresses
                  (sync_addresses-Grows [] ips) e).1))

    All-IsKept :
        (devices : List NetDevice) (device : NetDevice) (xs : List AddressFacts)
        → ((ip : Address) (n : ℕ) → has_at ip n device ≡ true → any (has_at ip n) devices ≡ true)
        → All (IsAmong device.addresses) xs
        → All (IsKept devices) xs
    All-IsKept devices device [] there h = tt
    All-IsKept devices device (x ∷ xs) there h =
        (λ text ip n e k. there ip n (h.0 text ip n e k), All-IsKept devices device xs there h.1)

    sections-AreKept :
        (devices : List NetDevice) (d : DeviceFacts)
        → All (IsKept devices) (or_empty d.ipv4 ++ (or_empty d.ipv4_secondaries ++ or_empty d.ipv6))
        → AreKept devices d
    unfolding or_empty
    sections-AreKept devices d h xs which =
        let (first, more) =
          All-split (IsKept devices) (or_empty d.ipv4)
            (or_empty d.ipv4_secondaries ++ or_empty d.ipv6) h in
        let (second, third) =
          All-split (IsKept devices) (or_empty d.ipv4_secondaries) (or_empty d.ipv6) more in
        elim which [
          | inl e ↦ section d.ipv4 e first
          | inr (inl e) ↦ section d.ipv4_secondaries e second
          | inr (inr e) ↦ section d.ipv6 e third
        ]
      where
        section :
            (o : Option (List AddressFacts))
            → o ≡ some xs
            → All (IsKept devices) (or_empty o)
            → All (IsKept devices) xs
        section o e all = subst (λ p. All (IsKept devices) (or_empty p)) e all

    -- The facts of the interfaces are kept.
    abbrev pub AreSynced : HostFacts → List String → List NetDevice → Type 0
    AreSynced facts names devices =
        All
          (λ name.
            (d : DeviceFacts) → get ("ansible_" <> name) facts.devices ≡ some d → AreKept devices d)
          names

    abbrev Collects : HostFacts → List NetDevice → List String → List NetDevice → Type 0
    Collects facts before names after =
        ((p : NetDevice → Bool) → any p before ≡ true → any p after ≡ true)
        × AreSynced facts names after

    build_from-Collects :
        (facts : HostFacts) (interfaces : List String) (devices : List NetDevice)
        (names : List String)
        → IfReturns
            (Collects facts devices names)
            (build_from ip_interface networks facts interfaces devices names)
    unfolding build_from
    build_from-Collects facts interfaces devices [] = ((λ p h. h), tt)
    build_from-Collects facts interfaces devices (name ∷ names) =
        elim (Option-cases (get ("ansible_" <> name) facts.devices)) [
          | inl e ↦
              rw (if_found, e)
                (without (build_from ip_interface networks facts interfaces devices names) e
                  (build_from-Collects facts interfaces devices names))
          | inr (d, e) ↦
              rw (if_found, e)
                (IfReturns-bind (Collects facts devices (name ∷ names))
                  (sync_device ip_interface networks d name interfaces)
                  (λ device.
                    build_from ip_interface networks facts interfaces
                      (add_by device_eq devices device) names)
                  (λ device e'.
                    with_device
                      (build_from ip_interface networks facts interfaces
                        (add_by device_eq devices device) names)
                      d device e
                      (returned
                        (λ device.
                          All (IsAmong device.addresses)
                            (or_empty d.ipv4 ++ (or_empty d.ipv4_secondaries ++ or_empty d.ipv6)))
                        (sync_device ip_interface networks d name interfaces) device
                        (sync_device-IsAmong d name interfaces) e')
                      (build_from-Collects facts interfaces (add_by device_eq devices device)
                        names)))
        ]
      where
        without :
            (o : Option (List NetDevice))
            → get ("ansible_" <> name) facts.devices ≡ none
            → IfReturns (Collects facts devices names) o
            → IfReturns (Collects facts devices (name ∷ names)) o
        without none e h = tt
        without (some after) e (old, new) =
            (old, ((λ d found. absurd (none-some d (sym e ∙ found))), new))

        with_device :
            (o : Option (List NetDevice)) (d : DeviceFacts) (device : NetDevice)
            → get ("ansible_" <> name) facts.devices ≡ some d
            → All
                (IsAmong device.addresses)
                (or_empty d.ipv4 ++ (or_empty d.ipv4_secondaries ++ or_empty d.ipv6))
            → IfReturns (Collects facts (add_by device_eq devices device) names) o
            → IfReturns (Collects facts devices (name ∷ names)) o
        with_device none d device e h k = tt
        with_device (some after) d device e h (old, new) = (
          λ p there. old p (add_by-old device_eq p devices device there),
          (
            λ d' found. subst (AreKept after) (from_some d d' (sym e ∙ found)) (
                sections-AreKept after d (
                  All-IsKept after device
                    (or_empty d.ipv4 ++ (or_empty d.ipv4_secondaries ++ or_empty d.ipv6))
                    (λ ip n there. old (has_at ip n) (
                      add_by-new device_eq (has_at ip n) devices device
                        (λ y same. device_eq-has_at ip n device y same there) there))
                    h)),
            new,
          ),
        )

    pub build_from-AreSynced :
        (facts : HostFacts) (interfaces names : List String) (devices : List NetDevice)
        → build_from ip_interface networks facts interfaces [] names ≡ some devices
        → AreSynced facts names devices
    build_from-AreSynced facts interfaces names devices e =
        (returned (Collects facts [] names)
          (build_from ip_interface networks facts interfaces [] names) devices
          (build_from-Collects facts interfaces [] names) e).1
