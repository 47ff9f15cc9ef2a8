-- ===== src/G5k/Networks/Assign.antt =====
-- Which reserved networks a network of the configuration gets.
use enoslib.Base.{
  ℕ, ◌+◌, ◌≤◌, ◌≡◌, refl, sym, ap, ◌∙◌, true, Option, none, some, List, [], ◌∷◌, ◌++◌, map, length,
  arith, ◌⊎◌, inl, inr,
}
use enoslib.Base.Eq.{String_eq}
use enoslib.Base.Count.{count, count-append, count-sorted}
use enoslib.Base.Sort.{sorted}
use enoslib.Base.Text.Order.{text_le_refl}
use enoslib.Pools.Pick.{pick_things-Picks}
use enoslib.Pools.Keyed
use enoslib.Pools.Conserve.{flat, count-flat-mk_pools, count-pick_things}
use enoslib.G5k.Configuration.{NetworkConfiguration}
use enoslib.G5k.Networks.{
  OarNetwork, SiteNature, SiteNature_eq, site_nature_le, site_nature, oar_le, NetworkPools,
  network_pools, NetworkKind, slash_16, slash_22, prod, kavlan, unknown, kind_of, pick_network,
  make_network, append_network, Attempt, done, missing_network, G5kNetwork, vlan_network,
  prod_network, subnet_network, concretize_networks, concretize_from,
}
use enoslib.G5k.Networks.Order.{OarNetwork_eq}

-- The site and the nature of what is reserved for a network.
abbrev wanted : NetworkKind → NetworkConfiguration → SiteNature
wanted slash_16 c = (c.site, "slash_22")
wanted _ c = (c.site, c.type)

abbrev AreOf : SiteNature → List OarNetwork → Type 0
AreOf = Keyed.AreOf site_nature

abbrev AreKeyed : NetworkPools → Type 0
AreKeyed = Keyed.AreKeyed site_nature

-- The network is the one of the configuration, on the reserved networks that were picked.
abbrev pub Realizes : NetworkConfiguration → List OarNetwork → G5kNetwork → Type 0
Realizes c picked (vlan_network roles id site vlan_id) =
    (kind_of c.type ≡ kavlan)
    × (roles ≡ c.roles)
    × (id ≡ c.id)
    × (site ≡ c.site)
    × (map (λ n. n.descriptor) picked ≡ vlan_id ∷ [])
Realizes c picked (prod_network roles id site) =
    (kind_of c.type ≡ prod)
    × (roles ≡ c.roles)
    × (id ≡ c.id)
    × (site ≡ c.site)
    × (length picked ≡ 1)
Realizes c picked (subnet_network roles id site subnets) =
    ((kind_of c.type ≡ slash_16) ⊎ ((kind_of c.type ≡ slash_22) × (length picked ≡ 1)))
    × (roles ≡ c.roles)
    × (id ≡ c.id)
    × (site ≡ c.site)
    × (subnets ≡ map (λ n. n.descriptor) picked)
    × (1 ≤ length picked)
    × (length picked ≤ 64)

-- One network for each of the configuration, in its order, on networks of the site and the nature.
abbrev pub Realize : List NetworkConfiguration → List (List OarNetwork) → List G5kNetwork → Type 0
Realize [] [] [] = Unit
Realize (c ∷ cs) (p ∷ ps) (net ∷ nets) =
    Realizes c p net × AreOf (wanted (kind_of c.type) c) p × Realize cs ps nets
Realize _ _ _ = ⊥

abbrev pub all_picked : List (List OarNetwork) → List OarNetwork
all_picked [] = []
all_picked (p ∷ ps) = p ++ all_picked ps

abbrev pub IsAssigned :
    List NetworkConfiguration → List OarNetwork → Attempt (List G5kNetwork) → Type 0
IsAssigned cs oar_networks (done nets) =
    (picked : List (List OarNetwork)) × (left : List OarNetwork) × Realize cs picked nets
    × ((a : OarNetwork) → count a (all_picked picked) + count a left ≡ count a oar_networks)
IsAssigned cs oar_networks (missing_network site n_type) =
    (before : List NetworkConfiguration) × (c : NetworkConfiguration) × (after : List
      NetworkConfiguration)
    × (cs ≡ before ++ c ∷ after)
    × (site ≡ c.site)
    × (n_type ≡ c.type)

pick_network-AreOf :
    (kind : NetworkKind) (c : NetworkConfiguration) (pools : NetworkPools)
    → AreKeyed pools
    → AreOf (wanted kind c) (pick_network kind c pools).0 × AreKeyed (pick_network kind c pools).1
unfolding pick_network
pick_network-AreOf slash_16 c pools keyed =
    Keyed.pick_things-AreKeyed site_nature (c.site, "slash_22") 64 pools keyed
pick_network-AreOf slash_22 c pools keyed =
    Keyed.pick_things-AreKeyed site_nature (c.site, c.type) 1 pools keyed
pick_network-AreOf prod c pools keyed =
    Keyed.pick_things-AreKeyed site_nature (c.site, c.type) 1 pools keyed
pick_network-AreOf kavlan c pools keyed =
    Keyed.pick_things-AreKeyed site_nature (c.site, c.type) 1 pools keyed
pick_network-AreOf unknown c pools keyed = (tt, keyed)

count-pick_network :
    (a : OarNetwork) (kind : NetworkKind) (c : NetworkConfiguration) (pools : NetworkPools)
    → count a (pick_network kind c pools).0 + count a (flat (pick_network kind c pools).1)
      ≡ count a (flat pools)
unfolding pick_network
count-pick_network a slash_16 c pools = count-pick_things a pools (c.site, "slash_22") 64
count-pick_network a slash_22 c pools = count-pick_things a pools (c.site, c.type) 1
count-pick_network a prod c pools = count-pick_things a pools (c.site, c.type) 1
count-pick_network a kavlan c pools = count-pick_things a pools (c.site, c.type) 1
count-pick_network a unknown c pools = omega arith

-- How many networks a kind takes.
abbrev most : NetworkKind → ℕ
most slash_16 = 64
most _ = 1

length-pick_network :
    (kind : NetworkKind) (c : NetworkConfiguration) (pools : NetworkPools)
    → length (pick_network kind c pools).0 ≤ most kind
unfolding pick_network
length-pick_network slash_16 c pools =
    omega (arith, (pick_things-Picks pools (c.site, "slash_22") 64).count)
length-pick_network slash_22 c pools =
    omega (arith, (pick_things-Picks pools (c.site, c.type) 1).count)
length-pick_network prod c pools = omega (arith, (pick_things-Picks pools (c.site, c.type) 1).count)
length-pick_network kavlan c pools =
    omega (arith, (pick_things-Picks pools (c.site, c.type) 1).count)
length-pick_network unknown c pools = omega arith

some-eq : {a b : G5kNetwork} → ◌≡◌ {A = Option G5kNetwork} (some a) (some b) → a ≡ b
some-eq h = cc

make_network-Realizes :
    (kind : NetworkKind) (c : NetworkConfiguration) (p : List OarNetwork) (net : G5kNetwork)
    → kind_of c.type ≡ kind
    → length p ≤ most kind
    → make_network kind c p ≡ some net
    → Realizes c p net
unfolding make_network
make_network-Realizes kind c [] net k le h = cc
make_network-Realizes slash_16 c (n ∷ ns) net k le h =
    rw (sym (some-eq h)) (inl k, refl, refl, refl, refl, omega arith, le)
make_network-Realizes slash_22 c (n ∷ ns) net k le h =
    rw (sym (some-eq h))
      (inr (k, omega (arith, le)), refl, refl, refl, refl, omega arith, omega (arith, le))
make_network-Realizes prod c (n ∷ ns) net k le h =
    rw (sym (some-eq h)) (k, refl, refl, refl, omega (arith, le))
make_network-Realizes kavlan c (n ∷ []) net k le h =
    rw (sym (some-eq h)) (k, refl, refl, refl, refl)
make_network-Realizes kavlan c (n ∷ m ∷ ns) net k le h = absurd (omega (arith, le))
make_network-Realizes unknown c (n ∷ ns) net k le h = cc

append_network-IsAssigned :
    (c : NetworkConfiguration) (cs : List NetworkConfiguration)
    (p between oar_networks : List OarNetwork) (made : Option G5kNetwork)
    (rest : Attempt (List G5kNetwork))
    → ((net : G5kNetwork) → made ≡ some net → Realizes c p net)
    → AreOf (wanted (kind_of c.type) c) p
    → ((a : OarNetwork) → count a p + count a between ≡ count a oar_networks)
    → IsAssigned cs between rest
    → IsAssigned (c ∷ cs) oar_networks (append_network c made rest)
unfolding append_network
append_network-IsAssigned c cs p between oar_networks none rest realizes of_key counts h =
    ([], c, cs, refl, refl, refl)
append_network-IsAssigned c cs p between oar_networks (some net) (done nets) realizes of_key counts
      (picked, left, made, h) =
    (
      p ∷ picked,
      left,
      (realizes net refl, of_key, made),
      λ a. omega (arith, counts a, h a, count-append a p (all_picked picked)),
    )
append_network-IsAssigned c cs p between oar_networks (some net) (missing_network site n_type)
      realizes of_key counts (before, d, after, listed, same_site, same_type) =
    (c ∷ before, d, after, ap (λ l. c ∷ l) listed, same_site, same_type)

concretize_from-IsAssigned :
    (cs : List NetworkConfiguration) (pools : NetworkPools)
    → AreKeyed pools
    → IsAssigned cs (flat pools) (concretize_from cs pools)
unfolding concretize_from
concretize_from-IsAssigned [] pools keyed = ([], flat pools, tt, λ a. omega arith)
concretize_from-IsAssigned (c ∷ cs) pools keyed =
    let kind = kind_of c.type in
    let out = pick_network kind c pools in
    let (of_key, keyed') = pick_network-AreOf kind c pools keyed in
    append_network-IsAssigned c cs out.0 (flat out.1) (flat pools) (make_network kind c out.0)
      (concretize_from cs out.1)
      (λ net. make_network-Realizes kind c out.0 net refl (length-pick_network kind c pools)) of_key
      (λ a. count-pick_network a kind c pools) (concretize_from-IsAssigned cs out.1 keyed')

site_nature_le_refl : (k : SiteNature) → site_nature_le k k ≡ true
site_nature_le_refl k = ground (arith, text_le_refl k.1, String_eq.eqb_iff k.0 k.0)

recount :
    (cs : List NetworkConfiguration) (xs ys : List OarNetwork) (out : Attempt (List G5kNetwork))
    → ((a : OarNetwork) → count a xs ≡ count a ys)
    → IsAssigned cs xs out
    → IsAssigned cs ys out
recount cs xs ys (done nets) same (picked, left, made, h) = (picked, left, made, λ a. h a ∙ same a)
recount cs xs ys (missing_network site n_type) same h = h

-- `_concretize_networks` makes one network for each of the configuration, in its order, with its
-- roles, its id and its site: a vlan with the id of one reserved network, a production network, a
-- subnet of one /22 or, for a /16, of up to 64. The reserved networks that it takes are of the
-- configuration's site and nature, and none is taken twice. Or it fails with the site and the type
-- of a network of the configuration.
pub concretize_networks-IsAssigned :
    (network_configs : List NetworkConfiguration) (oar_networks : List OarNetwork)
    → IsAssigned network_configs oar_networks (concretize_networks network_configs oar_networks)
unfolding concretize_networks network_pools
concretize_networks-IsAssigned network_configs oar_networks =
    let ordered = sorted oar_le oar_networks in
    recount network_configs (flat (network_pools oar_networks)) oar_networks
      (concretize_networks network_configs oar_networks)
      (λ a.
        count-flat-mk_pools a site_nature_le site_nature ordered
        ∙ count-sorted oar_le a oar_networks)
      (concretize_from-IsAssigned network_configs (network_pools oar_networks)
        (Keyed.mk_pools-AreKeyed site_nature site_nature_le site_nature_le_refl ordered))
