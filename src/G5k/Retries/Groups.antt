-- ===== src/G5k/Retries/Groups.antt =====
-- `check_deployments` leaves no host out: it is deployed already or stands in one deployment.
use enoslib.Base.{
  ◌+◌, ◌≤◌, ◌≡◌, refl, ap, ◌∙◌, String, Bool, true, false, some, List, [], ◌∷◌, ◌++◌, map, All,
  All-append, arith,
}
use mathlib.Core.List.{map-append}
use enoslib.Base.Eq.{String_eq}
use enoslib.Base.Sort.{insert, sorted}
use enoslib.Base.Count.{count, count-append}
use enoslib.Pools.Conserve.{flat}
use enoslib.Api.Results.{Event}
use enoslib.G5k.Networks.{G5kHost, G5kNetwork, SiteNature, SiteNature_eq}
use enoslib.G5k.Names.{site_of}
use enoslib.G5k.Deploy.{Config}
use enoslib.G5k.Deploy.Ends.{all_nodes}
use enoslib.G5k.Retries.{Play, fqdns, Partition, located, config_of, to_deploy, check_groups}
use enoslib.G5k.Retries.Check.{
  Splits, AreDistinct, AreNamed, AnswersOnce, IsChecked, check_deployed_nodes-Splits,
  count-fqdns-append,
}

module _ {ℓ} {A : Type ℓ} (le : A → A → Bool) (name : A → String) (a : String) where
  count-map-insert :
      (x : A) (xs : List A) → count a (map name (insert le x xs)) ≡ count a (name x ∷ map name xs)
  unfolding insert
  count-map-insert x [] = refl
  count-map-insert x (y ∷ ys) = ground (arith, count-map-insert x ys)

  pub count-map-sorted : (xs : List A) → count a (map name (sorted le xs)) ≡ count a (map name xs)
  unfolding sorted
  count-map-sorted [] = refl
  count-map-sorted (x ∷ xs) = ground (arith, count-map-insert x (sorted le xs), count-map-sorted xs)

abbrev pub Groups : Type 0
Groups = List (SiteNature × List (String × G5kHost))

-- The names of the hosts of groups.
abbrev pub names_of : List (String × G5kHost) → List String
names_of hosts = map (λ e. e.1.fqdn) hosts

-- The host's name has a site.
abbrev pub HasSite : G5kHost → Type 0
HasSite h = (site : String) × (site_of h.fqdn ≡ some site)

-- The hosts found, with what holds of them.
abbrev pub AreFound : List G5kHost → Type 1
AreFound hosts =
    (found : List (String × G5kHost)) × (located hosts ≡ some found)
    × (names_of found ≡ fqdns hosts)
    × ((P : G5kHost → Type 0) → All P hosts → All (λ e. P e.1) found)

pub located-AreFound : (hosts : List G5kHost) → All HasSite hosts → AreFound hosts
unfolding located fqdns
located-AreFound [] h = ([], refl, refl, λ P all. tt)
located-AreFound (host ∷ hosts) (here, later) =
    let (site, e) = here in
    let (found, made, names, all) = located-AreFound hosts later in
    (
      (site, host) ∷ found,
      rw (e, made) refl,
      ap (λ l. host.fqdn ∷ l) names,
      λ P h. (h.0, all P h.1),
    )

all_nodes-append :
    {O : Type 0} (a : String) (xs ys : List (Config O))
    → count a (all_nodes (xs ++ ys)) ≡ count a (all_nodes xs) + count a (all_nodes ys)
all_nodes-append a [] ys = omega arith
all_nodes-append a (x ∷ xs) ys = omega (
  arith,
  all_nodes-append a xs ys,
  count-append a x.nodes (all_nodes (xs ++ ys)),
  count-append a x.nodes (all_nodes xs),
)

all_nodes-config_of :
    {O : Type 0} (options : O) (a site : String) (net : G5kNetwork) (hosts : List G5kHost)
    → count a (all_nodes (config_of options site net hosts)) ≡ count a (fqdns hosts)
unfolding config_of fqdns
all_nodes-config_of options a site net [] = refl
all_nodes-config_of options a site net (h ∷ hosts) =
    count-append a (fqdns (h ∷ hosts)) [] ∙ omega arith

-- The names of a group lead back through the network of its first host.
abbrev pub GroupIsNamed : List (String × G5kHost) → Type 0
GroupIsNamed [] = Unit
GroupIsNamed (h ∷ hosts) = AreNamed h.1.primary_network (map (λ e. e.1) (h ∷ hosts))

module _ {W V O : Type 0} (execute : W → Play → W × List (Event V)) (options : O) where
  -- What is found of hosts with some names.
  abbrev pub AccountsFor : List String → List G5kHost → List (Config O) → Type 0
  AccountsFor names already_deployed configs =
      (a : String) → count a (fqdns already_deployed) + count a (all_nodes configs) ≡ count a names

  to_deploy-Splits :
      (force_deploy : Bool) (w : W) (net : G5kNetwork) (hosts : List G5kHost)
      → AnswersOnce execute
      → AreDistinct hosts
      → AreNamed net hosts
      → (w' : W) × (sides : Partition) × (to_deploy execute options force_deploy w net hosts
          ≡ some (w', sides))
        × Splits hosts sides
        × All (λ h. IsChecked execute h.fqdn) sides.0
  unfolding to_deploy
  to_deploy-Splits true w net hosts once distinct named_back =
      (w, ([], hosts), refl, (unfold fqdns in λ a. omega arith), tt)
  to_deploy-Splits false w net hosts once distinct named_back =
      check_deployed_nodes-Splits execute w net hosts once distinct named_back

  fqdns-names_of : (hosts : List (String × G5kHost)) → fqdns (map (λ e. e.1) hosts) ≡ names_of hosts
  unfolding fqdns
  fqdns-names_of [] = refl
  fqdns-names_of (h ∷ hosts) = ap (λ l. h.1.fqdn ∷ l) (fqdns-names_of hosts)

  count-names_of :
      (a : String) (xs ys : List (String × G5kHost))
      → count a (names_of (xs ++ ys)) ≡ count a (fqdns (map (λ e. e.1) xs)) + count a (names_of ys)
  count-names_of a xs ys =
      ap (count a) (map-append (λ e. e.1.fqdn) xs ys)
      ∙ rw (fqdns-names_of xs) (count-append a (names_of xs) (names_of ys))

  -- What the loop over some groups comes to.
  abbrev pub AreChecked : Bool → W → Groups → Type 0
  AreChecked force_deploy w groups =
      (w' : W) × (already_deployed : List G5kHost) × (configs : List (Config O)) × (check_groups
          execute options force_deploy w groups
        ≡ some (w', (already_deployed, configs)))
      × AccountsFor (names_of (flat groups)) already_deployed configs
      × All (λ h. IsChecked execute h.fqdn) already_deployed

  pub check_groups-AreChecked :
      (force_deploy : Bool) (w : W) (groups : Groups)
      → AnswersOnce execute
      → ((a : String) → count a (names_of (flat groups)) ≤ 1)
      → All (λ g. GroupIsNamed g.1) groups
      → AreChecked force_deploy w groups
  unfolding check_groups
  check_groups-AreChecked force_deploy w [] once distinct named_back =
      (w, [], [], refl, (unfold fqdns in λ a. omega arith), tt)
  check_groups-AreChecked force_deploy w ((key, []) ∷ groups) once distinct named_back =
      check_groups-AreChecked force_deploy w groups once distinct named_back.1
  check_groups-AreChecked force_deploy w ((key, h ∷ hosts) ∷ groups) once distinct named_back =
      let net = h.1.primary_network in
      let group = map (λ e. e.1) (h ∷ hosts) in
      let parts = λ (a : String). count-names_of a (h ∷ hosts) (flat groups) in
      let (w1, (deployed, undeployed), e1, splits, passed_here) =
        to_deploy-Splits force_deploy w net group once (λ a. omega (arith, distinct a, parts a))
          named_back.0 in
      let (w2, already_deployed, configs, e2, accounts, passed_there) =
        check_groups-AreChecked force_deploy w1 groups once
          (λ a. omega (arith, distinct a, parts a)) named_back.1 in
      (
        w2,
        deployed ++ already_deployed,
        config_of options key.0 net undeployed ++ configs,
        rw (e1, e2) refl,
        (λ a. omega (
          arith,
          splits a,
          accounts a,
          parts a,
          count-fqdns-append a deployed already_deployed,
          all_nodes-append a (config_of options key.0 net undeployed) configs,
          all_nodes-config_of options a key.0 net undeployed,
        )),
        All-append (λ h. IsChecked execute h.fqdn) deployed already_deployed passed_here
            passed_there,
      )
