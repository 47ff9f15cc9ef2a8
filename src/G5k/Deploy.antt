-- ===== src/G5k/Deploy.antt =====
-- `grid_deploy` (enoslib/infra/enos_g5k/g5k_api_utils.py). Time is the number of polls; the Grid'5000
-- API, which starts deployments and tells their status at each poll, is a parameter.
pub mod Ends
use enoslib.Base.{
  ℕ, zero, suc, ◌+◌, String, Bool, true, false, ◌&&◌, not, Option, none, some, List, [], ◌∷◌, ◌++◌,
  map, filterb, any, length, if◌then◌else◌,
}
use enoslib.Base.Eq.{Eq, String_eq, ◌==◌}
use enoslib.Collections.ResourcesSet.{contains}

-- The state of a deployment; the result tells of each node whether it is OK, KO or neither.
pub data NodeState : Type 0 where
  ok ko other : NodeState

pub data Status : Type 0 where
  processing : Status
  terminated : (result : List (String × NodeState)) → Status
  error : Status

-- What is sent to the API: the nodes and the site, with the options.
pub record Config (O : Type 0) : Type 0 where
  pub site : String
  pub nodes : List String
  pub vlan : Option String
  pub options : O

pub record Deployment : Type 0 where
  pub uid : ℕ
  pub nodes : List String
  pub status : Status

unfoldable pub is_ok : NodeState → Bool
is_ok ok = true
is_ok ko = false
is_ok other = false

unfoldable pub is_ko : NodeState → Bool
is_ko ok = false
is_ko ko = true
is_ko other = false

unfoldable pub nodes_with : (NodeState → Bool) → List (String × NodeState) → List String
nodes_with p [] = []
nodes_with p ((node, state) ∷ result) =
    if p state then node ∷ nodes_with p result else nodes_with p result

-- The nodes that a deployment deployed, and those that it did not.
abbrev pub Sorted : Type 0
Sorted = List String × List String

unfoldable pub outcome_of : Status → List String → Sorted
unfolding nodes_with is_ok is_ko
outcome_of processing nodes = ([], [])
outcome_of (terminated result) nodes = (nodes_with is_ok result, nodes_with is_ko result)
outcome_of error nodes = ([], nodes)

-- `deployment.refresh()`, unless it has ended
refreshed : Status → Status → Status
refreshed processing now = now
refreshed (terminated result) now = terminated result
refreshed error now = error

unfoldable pub has_ended : Status → Bool
has_ended processing = false
has_ended (terminated result) = true
has_ended error = true

module _ (status : ℕ → ℕ → Status) where
  unfoldable pub refresh : ℕ → List Deployment → List Deployment
  unfolding refreshed
  refresh t [] = []
  refresh t (d ∷ ds) =
      record { uid = d.uid; nodes = d.nodes; status = refreshed d.status (status t d.uid) }
      ∷ refresh t ds

-- The outcomes of the deployments, one behind the other, and whether all have ended.
unfoldable pub outcomes : List Deployment → Sorted
unfolding outcome_of
outcomes [] = ([], [])
outcomes (d ∷ ds) =
    let (deployed, undeployed) = outcome_of d.status d.nodes in
    let (deployed', undeployed') = outcomes ds in (deployed ++ deployed', undeployed ++ undeployed')

unfoldable pub all_ended : List Deployment → Bool
unfolding has_ended
all_ended [] = true
all_ended (d ∷ ds) = has_ended d.status && all_ended ds

module _ {O : Type 0} (create : ℕ → Config O → ℕ) where
  unfoldable pub create_all : ℕ → List (Config O) → List Deployment
  create_all t [] = []
  create_all t (c ∷ configs) =
      record { uid = create t c; nodes = c.nodes; status = processing } ∷ create_all t configs

module _ (status : ℕ → ℕ → Status) where
  -- The loop, from a poll on, with the deployments just refreshed; none if the fuel is spent.
  unfoldable pub poll : ℕ → ℕ → List Deployment → Option Sorted
  unfolding refresh outcomes all_ended
  poll zero t ds = none
  poll (suc fuel) t ds =
      let ds' = refresh status t ds in
      let more = poll fuel (suc t) ds' in if all_ended ds' then some (outcomes ds') else more

  module _ {O : Type 0} (create : ℕ → Config O → ℕ) where
    -- The deployments that are started at a poll. Without any, the loop does not run.
    unfoldable pub grid_deploy : ℕ → ℕ → List (Config O) → Option Sorted
    unfolding create_all poll
    grid_deploy fuel t [] = some ([], [])
    grid_deploy fuel t (c ∷ configs) = poll fuel t (create_all create t (c ∷ configs))
