-- ===== src/Objects/Network/Laws.antt =====
-- The pools and the order of networks.
use enoslib.Base.{
  ℕ, zero, suc, ◌+◌, ◌-◌, ◌≡◌, ◌≢◌, refl, ap, ◌∙◌, List, ◌∷◌, map, ◌||◌, Bool, true, false, ◌&&◌,
  Option, none, some, [], any, ltb, leb, arith, if◌then◌else◌, Bool-cases, inl, inr,
}
use enoslib.Base.Eq.{String_eq, ℕ_eq, ◌==◌}
use enoslib.Objects.Network.{
  Version, number, Address, ip_address, Network, network_lt, compared, ip_lt, count_from, is_pool,
  range_of, has_free_ips, free_ips, has_free_macs, free_macs,
}

-- An address is in a pool: from its start on, and before its end.
abbrev pub in_pool : Option ℕ → Option ℕ → ℕ → Bool
in_pool none last a = false
in_pool (some start) none a = false
in_pool (some start) (some last) a = leb start a && ltb a last

any-count_from :
    (start n a : ℕ) → any (λ x. x == a) (count_from start n) ≡ (leb start a && ltb a (start + n))
unfolding count_from
any-count_from start zero a = ground arith
any-count_from start (suc n) a = ground (arith, any-count_from (start + 1) n a)

range_of-in_pool :
    (start last : Option ℕ) (a : ℕ)
    → any (λ x. x == a) (if is_pool start last then range_of start last else [])
      ≡ in_pool start last a
unfolding range_of is_pool
range_of-in_pool none last a = refl
range_of-in_pool (some start) none a = refl
range_of-in_pool (some start) (some last) a = ground (arith, any-count_from start (last - start) a)

any-map :
    (p : Address → Bool) (f : ℕ → Address) (xs : List ℕ) → any p (map f xs) ≡ any (λ x. p (f x)) xs
any-map p f [] = refl
any-map p f (x ∷ xs) = ap (λ b. p (f x) || b) (any-map p f xs)

if_map :
    (b : Bool) (xs : List ℕ)
    → (if b then map ip_address xs else []) ≡ map ip_address (if b then xs else [])
if_map true xs = refl
if_map false xs = refl

-- The number of an address is among the free ones exactly if it is at least the start of the pool and
-- less than its end, for the addresses and for the MAC addresses; a network without both bounds has
-- none.
free_ips-in_pool :
    (n : Network) (a : ℕ)
    → (any (λ x. x.value == a) (free_ips n) ≡ in_pool n.pool_start n.pool_end a)
      × (any (λ x. x == a) (free_macs n) ≡ in_pool n.pool_mac_start n.pool_mac_end a)
unfolding free_ips free_macs has_free_ips has_free_macs ip_address
free_ips-in_pool n a = (
  ap (any (λ x. x.value == a))
        (if_map (is_pool n.pool_start n.pool_end) (range_of n.pool_start n.pool_end))
      ∙ any-map (λ x. x.value == a) ip_address
          (if is_pool n.pool_start n.pool_end then range_of n.pool_start n.pool_end else [])
      ∙ range_of-in_pool n.pool_start n.pool_end a,
  range_of-in_pool n.pool_mac_start n.pool_mac_end a,
)

version-lt : (v w : Version) → ltb (number v) (number w) ≡ true → (number v == number w) ≡ false
version-lt v w h = ground (arith, h)

-- No network is less than another: the comparison of two networks is false or a TypeError. So of two
-- networks that differ neither is less, unless it raises.
network_lt-compared : (a b : Network) → network_lt a b ≢ compared true
unfolding network_lt ip_lt
network_lt-compared a b h =
    elim (Bool-cases (ltb (number a.network.version) (number b.network.version))) [
      | inl less ↦
          absurd (ground (arith, h, less, version-lt a.network.version b.network.version less))
      | inr not_less ↦ absurd (ground (arith, h, not_less))
    ]
