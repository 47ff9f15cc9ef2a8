-- ===== src/G5k/Deploy/Ends.antt =====
-- The deployments end, and every node is accounted for.
use enoslib.Base.{
  ℕ, zero, suc, ◌+◌, ◌≡◌, refl, sym, ap, ◌∙◌, String, true, false, Option, none, some, List, [],
  ◌∷◌, ◌++◌, All, All-append, Bool, arith, Bool-cases, inl, inr, ◌⊎◌, if◌then◌else◌,
}
use enoslib.Base.Eq.{String_eq}
use enoslib.Base.Count.{count, count-append}
use enoslib.G5k.Deploy.{
  NodeState, ok, ko, other, is_ok, is_ko, nodes_with, Status, processing, terminated, error, Config,
  Deployment, outcome_of, Sorted, refreshed, has_ended, refresh, outcomes, all_ended, poll,
  create_all, grid_deploy,
}

-- Each node is either deployed or not, as often as it is listed.
abbrev pub Covers : List String → Sorted → Type 0
Covers nodes out = (a : String) → count a out.0 + count a out.1 ≡ count a nodes

-- OK or KO
abbrev pub has_verdict : NodeState → Bool
has_verdict ok = true
has_verdict ko = true
has_verdict other = false

abbrev pub names_of : List (String × NodeState) → List String
names_of [] = []
names_of ((node, state) ∷ result) = node ∷ names_of result

-- The result of a deployment that is terminated names its nodes, each as OK or KO.
abbrev pub IsFull : List String → Status → Type 0
IsFull nodes processing = Unit
IsFull nodes (terminated result) =
    ((a : String) → count a (names_of result) ≡ count a nodes)
    × All (λ e. has_verdict e.1 ≡ true) result
IsFull nodes error = Unit

-- The result tells that a node is in a state.
abbrev pub IsListed : String → NodeState → List (String × NodeState) → Type 0
IsListed a s [] = ⊥
IsListed a s ((node, state) ∷ result) = ((node ≡ a) × (state ≡ s)) ⊎ IsListed a s result

-- At some poll the API tells of a deployment that is terminated, the node being OK.
abbrev pub IsToldOk : (ℕ → ℕ → Status) → String → Type 0
IsToldOk status a =
    (t : ℕ) × (uid : ℕ) × (result : List (String × NodeState)) × (status t uid ≡ terminated result)
    × IsListed a ok result

count-nodes_with :
    (a : String) (result : List (String × NodeState))
    → All (λ e. has_verdict e.1 ≡ true) result
    → count a (nodes_with is_ok result) + count a (nodes_with is_ko result)
      ≡ count a (names_of result)
unfolding nodes_with is_ok is_ko
count-nodes_with a [] h = omega arith
count-nodes_with a ((node, ok) ∷ result) h = ground (arith, count-nodes_with a result h.1)
count-nodes_with a ((node, ko) ∷ result) h = ground (arith, count-nodes_with a result h.1)
count-nodes_with a ((node, other) ∷ result) h = cc (h.0)

All-nodes_with :
    (P : String → Type 0) (result : List (String × NodeState))
    → ((a : String) → IsListed a ok result → P a)
    → All P (nodes_with is_ok result)
unfolding nodes_with is_ok
All-nodes_with P [] h = tt
All-nodes_with P ((node, ok) ∷ result) h =
    (h node (inl (refl, refl)), All-nodes_with P result (λ a l. h a (inr l)))
All-nodes_with P ((node, ko) ∷ result) h = All-nodes_with P result (λ a l. h a (inr l))
All-nodes_with P ((node, other) ∷ result) h = All-nodes_with P result (λ a l. h a (inr l))

abbrev pub all_nodes : {O : Type 0} → List (Config O) → List String
all_nodes [] = []
all_nodes (c ∷ configs) = c.nodes ++ all_nodes configs

abbrev deployment_nodes : List Deployment → List String
deployment_nodes [] = []
deployment_nodes (d ∷ ds) = d.nodes ++ deployment_nodes ds

-- The loop ends with every node, and with those as deployed of which the API told that they are OK.
abbrev pub IsEnded : (ℕ → ℕ → Status) → List String → Option Sorted → Type 0
IsEnded status nodes out =
    (sorted : Sorted) × (out ≡ some sorted) × Covers nodes sorted × All (IsToldOk status) sorted.0

outcome_of-Covers :
    (nodes : List String) (s : Status)
    → has_ended s ≡ true
    → IsFull nodes s
    → Covers nodes (outcome_of s nodes)
unfolding has_ended outcome_of
outcome_of-Covers nodes processing h full = cc
outcome_of-Covers nodes (terminated result) h full =
    λ a. count-nodes_with a result full.1 ∙ full.0 a
outcome_of-Covers nodes error h full = λ a. omega arith

outcomes-Covers :
    (ds : List Deployment)
    → all_ended ds ≡ true
    → All (λ d. IsFull d.nodes d.status) ds
    → Covers (deployment_nodes ds) (outcomes ds)
unfolding all_ended outcomes
outcomes-Covers [] h full = λ a. omega arith
outcomes-Covers (d ∷ ds) h full = λ a.
    let out = outcome_of d.status d.nodes in
    let out' = outcomes ds in
    omega (
      arith,
      outcome_of-Covers d.nodes d.status (ground (arith, h)) full.0 a,
      outcomes-Covers ds (ground (arith, h)) full.1 a,
      count-append a out.0 out'.0,
      count-append a out.1 out'.1,
      count-append a d.nodes (deployment_nodes ds),
    )

module _ (status : ℕ → ℕ → Status) where
  -- What the API tells of a deployment, if it tells of its end, covers its nodes.
  abbrev IsTold : Deployment → Type 0
  IsTold d = ((t : ℕ) → IsFull d.nodes (status t d.uid)) × IsFull d.nodes d.status

  -- A status that has ended is one that the API told.
  abbrev IsSeen : ℕ → Status → Type 0
  IsSeen uid processing = Unit
  IsSeen uid (terminated result) = (t : ℕ) × (status t uid ≡ terminated result)
  IsSeen uid error = Unit

  now-IsSeen : (t uid : ℕ) (s : Status) → status t uid ≡ s → IsSeen uid s
  now-IsSeen t uid processing e = tt
  now-IsSeen t uid (terminated result) e = (t, e)
  now-IsSeen t uid error e = tt

  refreshed-IsSeen :
      (uid : ℕ) (s now : Status) → IsSeen uid s → IsSeen uid now → IsSeen uid (refreshed s now)
  unfolding refreshed
  refreshed-IsSeen uid processing now h k = k
  refreshed-IsSeen uid (terminated result) now h k = h
  refreshed-IsSeen uid error now h k = h

  AreSeen : List Deployment → Type 0
  AreSeen ds = All (λ d. IsSeen d.uid d.status) ds

  refresh-AreSeen : (t : ℕ) (ds : List Deployment) → AreSeen ds → AreSeen (refresh status t ds)
  unfolding refresh AreSeen
  refresh-AreSeen t [] h = tt
  refresh-AreSeen t (d ∷ ds) h = (
    refreshed-IsSeen d.uid d.status (status t d.uid) h.0 (now-IsSeen t d.uid (status t d.uid) refl),
    refresh-AreSeen t ds h.1,
  )

  outcome_of-IsToldOk :
      (uid : ℕ) (s : Status) (nodes : List String)
      → IsSeen uid s
      → All (IsToldOk status) (outcome_of s nodes).0
  unfolding outcome_of
  outcome_of-IsToldOk uid processing nodes h = tt
  outcome_of-IsToldOk uid (terminated result) nodes (t, e) =
      All-nodes_with (IsToldOk status) result (λ a l. (t, uid, result, e, l))
  outcome_of-IsToldOk uid error nodes h = tt

  outcomes-IsToldOk : (ds : List Deployment) → AreSeen ds → All (IsToldOk status) (outcomes ds).0
  unfolding outcomes AreSeen
  outcomes-IsToldOk [] h = tt
  outcomes-IsToldOk (d ∷ ds) h =
      All-append (IsToldOk status) (outcome_of d.status d.nodes).0 (outcomes ds).0
        (outcome_of-IsToldOk d.uid d.status d.nodes h.0) (outcomes-IsToldOk ds h.1)

  refreshed-IsFull :
      (nodes : List String) (s now : Status)
      → IsFull nodes s
      → IsFull nodes now
      → IsFull nodes (refreshed s now)
  unfolding refreshed
  refreshed-IsFull nodes processing now h k = k
  refreshed-IsFull nodes (terminated result) now h k = h
  refreshed-IsFull nodes error now h k = h

  refreshed-has_ended : (s now : Status) → has_ended now ≡ true → has_ended (refreshed s now) ≡ true
  unfolding refreshed has_ended
  refreshed-has_ended processing now h = h
  refreshed-has_ended (terminated result) now h = refl
  refreshed-has_ended error now h = refl

  refresh-IsTold : (t : ℕ) (ds : List Deployment) → All IsTold ds → All IsTold (refresh status t ds)
  unfolding refresh
  refresh-IsTold t [] h = tt
  refresh-IsTold t (d ∷ ds) h = (
    (h.0.0, refreshed-IsFull d.nodes d.status (status t d.uid) h.0.1 (h.0.0 t)),
    refresh-IsTold t ds h.1,
  )

  refresh-nodes :
      (t : ℕ) (ds : List Deployment) → deployment_nodes (refresh status t ds) ≡ deployment_nodes ds
  unfolding refresh
  refresh-nodes t [] = refl
  refresh-nodes t (d ∷ ds) = ap (λ l. d.nodes ++ l) (refresh-nodes t ds)

  told-IsFull : (ds : List Deployment) → All IsTold ds → All (λ d. IsFull d.nodes d.status) ds
  told-IsFull [] h = tt
  told-IsFull (d ∷ ds) h = (h.0.1, told-IsFull ds h.1)

  refresh-all_ended :
      (t : ℕ) (ds : List Deployment)
      → ((uid : ℕ) → has_ended (status t uid) ≡ true)
      → all_ended (refresh status t ds) ≡ true
  unfolding refresh all_ended
  refresh-all_ended t [] h = refl
  refresh-all_ended t (d ∷ ds) h =
      ground
        (arith, refreshed-has_ended d.status (status t d.uid) (h d.uid), refresh-all_ended t ds h)

  round-IsEnded :
      (t : ℕ) (ds : List Deployment) (more : Option Sorted)
      → All IsTold ds
      → AreSeen ds
      → (all_ended (refresh status t ds) ≡ false
          → IsEnded status (deployment_nodes (refresh status t ds)) more)
      → IsEnded status
          (deployment_nodes ds)
          (if all_ended (refresh status t ds) then some (outcomes (refresh status t ds)) else more)
  round-IsEnded t ds more told seen later = elim (Bool-cases (all_ended (refresh status t ds))) [
    | inl ended ↦ rw ended (
      outcomes (refresh status t ds),
      refl,
      λ a.
          outcomes-Covers (refresh status t ds) ended
            (told-IsFull (refresh status t ds) (refresh-IsTold t ds told)) a
          ∙ ap (count a) (refresh-nodes t ds),
      outcomes-IsToldOk (refresh status t ds) (refresh-AreSeen t ds seen),
    )
    | inr not_ended ↦
        let (out, made, covers, oks) = later not_ended in
        rw not_ended (out, made, λ a. covers a ∙ ap (count a) (refresh-nodes t ds), oks)
  ]

  poll-IsEnded :
      (n t : ℕ) (ds : List Deployment)
      → ((uid : ℕ) → has_ended (status (t + n) uid) ≡ true)
      → All IsTold ds
      → AreSeen ds
      → IsEnded status (deployment_nodes ds) (poll status (suc n) t ds)
  unfolding poll
  poll-IsEnded zero t ds h told seen =
      let here : t + 0 ≡ t = omega arith in
      round-IsEnded t ds none told seen (λ not_ended. absurd (
        ground (
          arith,
          not_ended,
          refresh-all_ended t ds (λ uid. ap (λ x. has_ended (status x uid)) (sym here) ∙ h uid),
        )))
  poll-IsEnded (suc n) t ds h told seen =
      let next : suc t + n ≡ t + suc n = omega arith in
      round-IsEnded t ds (poll status (suc n) (suc t) (refresh status t ds)) told seen (λ _.
        poll-IsEnded n (suc t) (refresh status t ds)
          (λ uid. ap (λ x. has_ended (status x uid)) next ∙ h uid) (refresh-IsTold t ds told)
          (refresh-AreSeen t ds seen))

  module _ {O : Type 0} (create : ℕ → Config O → ℕ) where
    -- What the API tells of the configurations that are started at a poll.
    abbrev pub AreTold : ℕ → List (Config O) → Type 0
    AreTold t configs = All (λ c. (t' : ℕ) → IsFull c.nodes (status t' (create t c))) configs

    create_all-IsTold :
        (t : ℕ) (configs : List (Config O))
        → AreTold t configs
        → All IsTold (create_all create t configs)
    unfolding create_all
    create_all-IsTold t [] told = tt
    create_all-IsTold t (c ∷ configs) told = ((told.0, tt), create_all-IsTold t configs told.1)

    create_all-AreSeen : (t : ℕ) (configs : List (Config O)) → AreSeen (create_all create t configs)
    unfolding create_all AreSeen
    create_all-AreSeen t [] = tt
    create_all-AreSeen t (c ∷ configs) = (tt, create_all-AreSeen t configs)

    create_all-nodes :
        (t : ℕ) (configs : List (Config O))
        → deployment_nodes (create_all create t configs) ≡ all_nodes configs
    unfolding create_all
    create_all-nodes t [] = refl
    create_all-nodes t (c ∷ configs) = ap (λ l. c.nodes ++ l) (create_all-nodes t configs)

    -- `grid_deploy` ends, and accounts for every node. If all deployments have ended `n` polls after the
    -- start, and the result of one that is terminated names its nodes, each as OK or KO, then `n + 1`
    -- polls are enough, each node that was to be deployed is among the deployed or among the undeployed
    -- ones, as often as it was to be, and the deployed ones are nodes of which the API told that they
    -- are OK.
    pub grid_deploy-IsEnded :
        (n t : ℕ) (configs : List (Config O))
        → AreTold t configs
        → ((uid : ℕ) → has_ended (status (t + n) uid) ≡ true)
        → IsEnded status (all_nodes configs) (grid_deploy status create (suc n) t configs)
    unfolding grid_deploy
    grid_deploy-IsEnded n t [] told h = (([], []), refl, (λ a. omega arith), tt)
    grid_deploy-IsEnded n t (c ∷ configs) told h =
        let ds = create_all create t (c ∷ configs) in
        let (out, made, covers, oks) =
          poll-IsEnded n t ds h (create_all-IsTold t (c ∷ configs) told)
            (create_all-AreSeen t (c ∷ configs)) in
        (out, made, (λ a. covers a ∙ ap (count a) (create_all-nodes t (c ∷ configs))), oks)
