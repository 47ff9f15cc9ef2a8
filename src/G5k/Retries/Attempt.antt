-- ===== src/G5k/Retries/Attempt.antt =====
-- An attempt to deploy hosts ends, and each host is deployed or not.
use enoslib.Base.{
  ℕ, suc, ◌≡◌, refl, ap, ◌∙◌, String, Bool, true, false, some, List, [], ◌∷◌, ◌++◌, map, All,
  All-append, arith, Bool-cases, inl, inr, ◌⊎◌,
}
use enoslib.Base.Eq.{String_eq, ◌==◌}
use enoslib.Base.Sort.{sorted, All-sorted}
use enoslib.Base.Count.{count, count-append}
use enoslib.Pools.{groupby}
use enoslib.Pools.Groups.{flat-groupby, All-groupby}
use enoslib.Api.Results.{Event}
use enoslib.G5k.Networks.{G5kHost, G5kNetwork, SiteNature, SiteNature_eq, network_id}
use enoslib.G5k.Names.{translate}
use enoslib.G5k.Deploy.{Config, Status, has_ended}
use enoslib.G5k.Deploy.Ends.{IsFull, IsToldOk, AreTold, grid_deploy-IsEnded}
use enoslib.G5k.Retries.{
  Play, copies, with_names, fqdns, Partition, key_le, grouped, check_deployments, deploy_attempt,
}
use enoslib.G5k.Retries.Check.{
  Splits, AreDistinct, AreNamed, AnswersOnce, IsChecked, All-map, All-with_names_of,
  with_names-Splits,
}
use enoslib.G5k.Retries.Groups.{
  HasSite, GroupIsNamed, Groups, names_of, AccountsFor, located-AreFound, count-map-sorted,
  check_groups-AreChecked,
}

-- Hosts with different names, each with a site, whose names lead back through all their networks.
abbrev pub AreReady : List G5kHost → Type 0
AreReady hosts =
    AreDistinct hosts × All HasSite hosts × All (λ h. AreNamed h.primary_network hosts) hosts

-- Each name of the list leads back through a network.
abbrev LeadBack : G5kNetwork → List (String × G5kHost) → Type 0
LeadBack net hosts = All (λ e. translate net true (translate net false e.1.fqdn) ≡ e.1.fqdn) hosts

LeadBack-AreNamed :
    (net : G5kNetwork) (hosts : List (String × G5kHost))
    → LeadBack net hosts
    → AreNamed net (map (λ e. e.1) hosts)
LeadBack-AreNamed net [] h = tt
LeadBack-AreNamed net (e ∷ hosts) h = (h.0, LeadBack-AreNamed net hosts h.1)

module _ (hosts : List G5kHost) where
  groups-GroupIsNamed :
      (groups : Groups)
      → All (λ g. All (λ e. AreNamed e.1.primary_network hosts) g.1) groups
      → ((net : G5kNetwork) → AreNamed net hosts → All (λ g. LeadBack net g.1) groups)
      → All (λ g. GroupIsNamed g.1) groups
  groups-GroupIsNamed [] here back = tt
  groups-GroupIsNamed ((key, []) ∷ groups) here back =
      (tt, groups-GroupIsNamed groups here.1 (λ net h. (back net h).1))
  groups-GroupIsNamed ((key, h ∷ group) ∷ groups) here back = (
    LeadBack-AreNamed h.1.primary_network (h ∷ group) (back h.1.primary_network here.0.0).0,
    groups-GroupIsNamed groups here.1 (λ net r. (back net r).1),
  )

module _ {W V O : Type 0} (execute : W → Play → W × List (Event V)) (options : O) where
  -- The check of hosts returns and accounts for each.
  check_deployments-AreChecked :
      (force_deploy : Bool) (w : W) (hosts : List G5kHost)
      → AnswersOnce execute
      → AreReady hosts
      → (w' : W) × (already_deployed : List G5kHost) × (configs : List (Config O))
        × (check_deployments execute options force_deploy w hosts
            ≡ some (w', (already_deployed, configs)))
        × AccountsFor execute options (fqdns hosts) already_deployed configs
        × All (λ h. IsChecked execute h.fqdn) already_deployed
  unfolding check_deployments grouped
  check_deployments-AreChecked force_deploy w hosts once (distinct, sites, named_back) =
      let (found, made, names, all) = located-AreFound hosts sites in
      let in_order = sorted key_le found in
      let key : (String × G5kHost) → SiteNature = λ h. (h.0, network_id h.1.primary_network) in
      let groups : Groups = groupby key in_order in
      let spread = λ (P : G5kHost → Type 0) (h : All P hosts).
        All-groupby key (λ e. P e.1) in_order (All-sorted key_le (λ e. P e.1) found (all P h)) in
      let same = λ (a : String).
        ap (λ l. count a (names_of l)) (flat-groupby key in_order)
        ∙ count-map-sorted key_le (λ e. e.1.fqdn) a found
        ∙ ap (count a) names in
      let (w', already_deployed, configs, e, accounts, oks) =
        check_groups-AreChecked execute options force_deploy w groups once
          (λ a. omega (arith, same a, distinct a))
          (groups-GroupIsNamed hosts groups
            (spread (λ h. AreNamed h.primary_network hosts) named_back)
            (λ net h. spread (λ n. translate net true (translate net false n.fqdn) ≡ n.fqdn) h)) in
      (w', already_deployed, configs, rw made e, (λ a. accounts a ∙ same a), oks)

-- The check of a host ended well, or the API told of its deployment that it is OK.
abbrev pub IsWarranted :
    {W V : Type 0} → (W → Play → W × List (Event V)) → (ℕ → ℕ → Status) → String → Type 0
IsWarranted execute status a = IsChecked execute a ⊎ IsToldOk status a

All-implied :
    {A : Type 0} (P Q : A → Type 0) (xs : List A) → ((x : A) → P x → Q x) → All P xs → All Q xs
All-implied P Q [] h all = tt
All-implied P Q (x ∷ xs) h all = (h x all.0, All-implied P Q xs h all.1)

-- The API's answers: each deployment has ended after so many polls, and an end tells of every node.
abbrev pub Ends : {O : Type 0} → (ℕ → ℕ → Status) → (ℕ → Config O → ℕ) → ℕ → Type 0
Ends {O = O} status create n =
    ((c : Config O) (t : ℕ) → IsFull c.nodes (status t (create 0 c)))
    × ((uid : ℕ) → has_ended (status n uid) ≡ true)

Ends-AreTold :
    {O : Type 0} (status : ℕ → ℕ → Status) (create : ℕ → Config O → ℕ) (configs : List (Config O))
    → ((c : Config O) (t : ℕ) → IsFull c.nodes (status t (create 0 c)))
    → AreTold status create 0 configs
Ends-AreTold status create [] h = tt
Ends-AreTold status create (c ∷ configs) h = (h c, Ends-AreTold status create configs h)

All-copies :
    (P : G5kHost → Type 0) (n : G5kHost) (names : List String) → P n → All P (copies n names)
unfolding copies
All-copies P n [] h = tt
All-copies P n (fqdn ∷ names) h = elim (Bool-cases (fqdn == n.fqdn)) [
  | inl same ↦ rw same (h, All-copies P n names h)
  | inr other ↦ rw other (All-copies P n names h)
]

All-implies :
    (P Q : G5kHost → Type 0) (nodes : List G5kHost)
    → ((n : G5kHost) → P n → Q n)
    → All P nodes
    → All Q nodes
All-implies P Q [] h all = tt
All-implies P Q (n ∷ nodes) h all = (h n all.0, All-implies P Q nodes h all.1)

All-with_names :
    (P : G5kHost → Type 0) (nodes : List G5kHost) (names : List String)
    → All P nodes
    → All P (with_names nodes names)
unfolding with_names
All-with_names P [] names all = tt
All-with_names P (n ∷ nodes) names all =
    All-append P (copies n names) (with_names nodes names) (All-copies P n names all.0)
      (All-with_names P nodes names all.1)

module _ {W V O : Type 0} (execute : W → Play → W × List (Event V)) (options : O) where
  -- An attempt ends, and each host is either deployed or not; those that are not are ready again.
  abbrev pub IsDeployed :
      (ℕ → ℕ → Status) → (ℕ → Config O → ℕ) → ℕ → Bool → W → List G5kHost → Type 0
  IsDeployed status create n force_deploy w hosts =
      (w' : W) × (sides : Partition) × (deploy_attempt execute options status create (suc n)
          force_deploy w hosts
        ≡ some (w', sides))
      × Splits hosts sides
      × AreReady sides.1
      × All (λ h. IsWarranted execute status h.fqdn) sides.0

  pub deploy_attempt-IsDeployed :
      (status : ℕ → ℕ → Status) (create : ℕ → Config O → ℕ) (n : ℕ) (force_deploy : Bool) (w : W)
      (hosts : List G5kHost)
      → AnswersOnce execute
      → Ends status create n
      → AreReady hosts
      → IsDeployed status create n force_deploy w hosts
  unfolding deploy_attempt
  deploy_attempt-IsDeployed status create n force_deploy w hosts once (told, ended) ready =
      let (w', already_deployed, configs, e, accounts, found) =
        check_deployments-AreChecked execute options force_deploy w hosts once ready in
      let (out, made, covers, oks) =
        grid_deploy-IsEnded status create n 0 configs (Ends-AreTold status create configs told)
          (λ uid. ap (λ t. has_ended (status t uid)) (omega arith) ∙ ended uid) in
      let deployed = out.0 ++ fqdns already_deployed in
      let splits =
        with_names-Splits hosts deployed out.1 ready.0 (λ a.
          omega (arith, covers a, accounts a, count-append a out.0 (fqdns already_deployed))) in
      (
        w',
        (with_names hosts deployed, with_names hosts out.1),
        rw (e, made) refl,
        splits,
        (
          λ a. omega (arith, splits a, ready.0 a),
          All-with_names HasSite hosts out.1 ready.1,
          All-with_names (λ h. AreNamed h.primary_network (with_names hosts out.1)) hosts out.1
              (All-implies (λ h. AreNamed h.primary_network hosts)
                (λ h. AreNamed h.primary_network (with_names hosts out.1)) hosts
                (λ h.
                  All-with_names
                    (λ n.
                      translate h.primary_network true (translate h.primary_network false n.fqdn)
                      ≡ n.fqdn)
                    hosts out.1)
                ready.2),
        ),
        All-with_names_of (IsWarranted execute status) hosts deployed (
            All-append (IsWarranted execute status) out.0 (fqdns already_deployed)
              (All-implied (IsToldOk status) (IsWarranted execute status) out.0 (λ a p. inr p) oks)
              (unfold fqdns in
                All-map (IsWarranted execute status) (λ h. h.fqdn) already_deployed
                  (All-implied (λ h. IsChecked execute h.fqdn)
                    (λ h. IsWarranted execute status h.fqdn) already_deployed (λ h p. inl p)
                    found))),
      )
