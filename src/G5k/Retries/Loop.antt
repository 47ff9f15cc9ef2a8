-- ===== src/G5k/Retries/Loop.antt =====
-- What the retries of a deployment return.
use enoslib.Base.{
  ℕ, zero, suc, ◌+◌, ◌≤◌, ◌≡◌, refl, sym, ◌∙◌, String, Bool, true, false, some, List, [], ◌∷◌, All,
  arith, Bool-cases, inl, inr, ◌⊎◌,
}
use enoslib.Base.Eq.{String_eq}
use enoslib.Base.Count.{count}
use enoslib.Api.Results.{Event}
use enoslib.G5k.Networks.{G5kHost, SiteNature_eq}
use enoslib.G5k.Deploy.{Config, Status}
use enoslib.G5k.Retries.{
  Play, fqdns, Partition, deploy_attempt, has_hosts, attempt_loop, deploy_with_retries,
}
use enoslib.G5k.Deploy.Ends.{IsToldOk}
use enoslib.G5k.Retries.Check.{Splits, AnswersOnce, IsChecked}
use enoslib.G5k.Retries.Attempt.{AreReady, Ends, IsWarranted, deploy_attempt-IsDeployed}

true-false : ◌≡◌ {A = Bool} true false → ⊥
true-false h = cc

module _ {W V O : Type 0} (execute : W → Play → W × List (Event V)) (options : O) where
  module _ (status : ℕ → ℕ → ℕ → Status) (create : ℕ → ℕ → Config O → ℕ) (n : ℕ) where
    -- The check of the host ended well, or in one of the attempts the API told that it is OK.
    abbrev pub IsWell : String → Type 0
    IsWell a = IsChecked execute a ⊎ ((i : ℕ) × IsToldOk (status i) a)

    abbrev pub AreWell : List G5kHost → Type 0
    AreWell hosts = All (λ h. IsWell h.fqdn) hosts

    AreWell-warranted :
        (i : ℕ) (hosts : List G5kHost)
        → All (λ h. IsWarranted execute (status i) h.fqdn) hosts
        → AreWell hosts
    AreWell-warranted i [] h = tt
    AreWell-warranted i (host ∷ hosts) (inl passed, h) = (inl passed, AreWell-warranted i hosts h)
    AreWell-warranted i (host ∷ hosts) (inr told, h) = (inr (i, told), AreWell-warranted i hosts h)

    -- The loop returns what it was given, or no more hosts than were undeployed.
    abbrev LoopEnds : Bool → ℕ → ℕ → W → Partition → Type 0
    LoopEnds force_deploy left attempt w given =
        (w' : W) × (sides : Partition) × (attempt_loop execute options status create (suc n)
            force_deploy left attempt w given
          ≡ some (w', sides))
        × ((sides ≡ given)
            ⊎ ((a : String)
                → count a (fqdns sides.0) + count a (fqdns sides.1) ≤ count a (fqdns given.1)))
        × AreWell sides.0

    -- The loop returns no more hosts than were undeployed.
    abbrev LoopLoses : Bool → ℕ → ℕ → W → Partition → Type 0
    LoopLoses force_deploy left attempt w given =
        (w' : W) × (sides : Partition) × (attempt_loop execute options status create (suc n)
            force_deploy left attempt w given
          ≡ some (w', sides))
        × ((a : String)
            → count a (fqdns sides.0) + count a (fqdns sides.1) ≤ count a (fqdns given.1))
        × AreWell sides.0

    attempt_loop-LoopLoses :
        (force_deploy : Bool) (left attempt : ℕ) (w : W) (given : Partition)
        → AnswersOnce execute
        → Ends (status attempt) (create attempt) n
        → AreReady given.1
        → has_hosts given.1 ≡ true
        → ((w1 : W) (sides : Partition)
            → AreReady sides.1
            → AreWell sides.0
            → LoopEnds force_deploy left (suc attempt) w1 sides)
        → LoopLoses force_deploy (suc left) attempt w given
    unfolding attempt_loop
    attempt_loop-LoopLoses force_deploy left attempt w given once ends ready some_left later =
        let (w1, first, e, splits, again, warranted) =
          deploy_attempt-IsDeployed execute options (status attempt) (create attempt) n force_deploy
            w given.1 once ends ready in
        let (w2, sides, e', h, well) =
          later w1 first again (AreWell-warranted attempt first.0 warranted) in
        (
          w2,
          sides,
          rw (some_left, e) e',
          (λ a. elim h [
            | inl same ↦ rw same (omega (arith, splits a))
            | inr fewer ↦ omega (arith, splits a, fewer a)
          ]),
          well,
        )

    attempt_loop-LoopEnds :
        (force_deploy : Bool) (left attempt : ℕ) (w : W) (given : Partition)
        → AnswersOnce execute
        → ((i : ℕ) → Ends (status i) (create i) n)
        → AreReady given.1
        → AreWell given.0
        → LoopEnds force_deploy left attempt w given
    unfolding attempt_loop
    attempt_loop-LoopEnds force_deploy zero attempt w given once ends ready well =
        (w, given, refl, inl refl, well)
    attempt_loop-LoopEnds force_deploy (suc left) attempt w given once ends ready well =
        elim (Bool-cases (has_hosts given.1)) [
          | inr none_left ↦ (w, given, rw none_left refl, inl refl, well)
          | inl some_left ↦
              let (w', sides, e, h, well') =
                attempt_loop-LoopLoses force_deploy left attempt w given once (ends attempt) ready
                  some_left
                  (λ w1 first again well''.
                    attempt_loop-LoopEnds force_deploy left (suc attempt) w1 first once ends again
                      well'') in
              (w', sides, e, inr h, well')
        ]

    -- Deploying hosts with retries ends. Each host is deployed by the first attempt or not. If that
    -- attempt deploys them all, its hosts are returned. If not, only hosts that it left undeployed are
    -- returned, deployed or not: none that it deployed is among them. Those that are returned as deployed
    -- are hosts of which the check ended well, or of which the API told that they are OK.
    pub deploy_with_retries-IsLast :
        (force_deploy : Bool) (w : W) (host : G5kHost) (hosts : List G5kHost)
        → AnswersOnce execute
        → ((i : ℕ) → Ends (status i) (create i) n)
        → AreReady (host ∷ hosts)
        → (w1 : W) × (first : Partition) × (w' : W) × (sides : Partition) × (deploy_attempt execute
              options
              (status 0)
              (create 0)
              (suc n)
              force_deploy
              w
              (host ∷ hosts)
            ≡ some (w1, first))
          × Splits (host ∷ hosts) first
          × (deploy_with_retries execute options status create (suc n) force_deploy w (host ∷ hosts)
              ≡ some (w', sides))
          × (has_hosts first.1 ≡ false → sides ≡ first)
          × (has_hosts first.1 ≡ true
              → (a : String)
              → (count a (fqdns sides.0) + count a (fqdns sides.1) ≤ count a (fqdns first.1))
                × (1 ≤ count a (fqdns first.0)
                    → count a (fqdns sides.0) + count a (fqdns sides.1) ≡ 0))
          × AreWell sides.0
    unfolding deploy_with_retries attempt_loop has_hosts
    deploy_with_retries-IsLast force_deploy w host hosts once ends ready =
        let (w1, first, e, splits, again, warranted) =
          deploy_attempt-IsDeployed execute options (status 0) (create 0) n force_deploy w
            (host ∷ hosts) once (ends 0) ready in
        elim (Bool-cases (has_hosts first.1)) [
          | inr none_left ↦ (
            w1,
            first,
            w1,
            first,
            e,
            splits,
            rw (e, none_left) refl,
            (λ _. refl),
            (λ h. absurd (true-false (sym h ∙ none_left))),
            AreWell-warranted 0 first.0 warranted,
          )
          | inl some_left ↦
              let (w2, sides, e', h, well) =
                attempt_loop-LoopLoses force_deploy 1 1 w1 first once (ends 1) again some_left
                  (λ w2 second again' well'.
                    attempt_loop-LoopEnds force_deploy 1 2 w2 second once ends again' well') in
              (
                w1,
                first,
                w2,
                sides,
                e,
                splits,
                rw e e',
                (λ h. absurd (true-false (sym some_left ∙ h))),
                (λ _ a. (h a, λ one. omega (arith, one, h a, splits a, ready.0 a))),
                well,
              )
        ]
