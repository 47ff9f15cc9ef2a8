-- ===== src/G5k/Retries.antt =====
-- `_check_deployed_nodes`, `check_deployments`, `_deploy_attempt` and `deploy_with_retries`
-- (enoslib/infra/enos_g5k/provider.py). Ansible runs a check, which is a play on addresses; the
-- Grid'5000 API starts the deployments of an attempt and tells their status at each poll. Networks
-- are told apart by their ids.
pub mod Check
pub mod Groups
pub mod Attempt
pub mod Loop
use enoslib.Base.{
  ℕ, zero, suc, String, Bool, true, false, ◌&&◌, not, Option, none, some, List, [], ◌∷◌, ◌++◌, map,
  filterb, if◌then◌else◌,
}
use enoslib.Base.Eq.{Eq, String_eq, ◌==◌}
use enoslib.Base.Options.{◌>>=◌}
use enoslib.Base.Sort.{sorted}
use enoslib.Base.Text.{text_le}
use enoslib.Pools.{groupby}
use enoslib.Api.Results.{Event, CommandResult, is_ok}
use enoslib.Api.Run.{Run, returned, failed_hosts_error, unreachable_hosts_error, run_play}
use enoslib.Api.Tasks.{Task, CommandOptions, command_task}
use enoslib.G5k.Networks.{G5kHost, G5kNetwork, network_id, vlan_id_of, SiteNature, SiteNature_eq}
use enoslib.G5k.Names.{translate, site_of}
use enoslib.G5k.Deploy.{Config, Sorted, Status, grid_deploy}

-- A play on the hosts with some addresses.
pub record Play : Type 0 where
  pub hosts : List String
  pub task : Task

abbrev pub check_name : String
check_name = "Check deployment"

-- The third partition is mounted at the root.
abbrev pub check_command : String
check_command = "mount | grep -q '^/dev/.*3 on / '"

unfoldable pub check_play : List String → Play
unfolding command_task
check_play addresses = record {
  hosts = addresses;
  task =
      command_task
        (record {
          run_as = none;
          background = false;
          task_name = some check_name;
          raw = true;
          ns = none;
          cgroup = none;
          cgroup_prefix = "/sys/fs/cgroup";
        })
        check_command [];
}

-- `[n for n in nodes for fqdn in names if fqdn == n.fqdn]`
unfoldable pub copies : G5kHost → List String → List G5kHost
copies n [] = []
copies n (fqdn ∷ names) = if fqdn == n.fqdn then n ∷ copies n names else copies n names

unfoldable pub with_names : List G5kHost → List String → List G5kHost
unfolding copies
with_names [] names = []
with_names (n ∷ nodes) names = copies n names ++ with_names nodes names

unfoldable pub fqdns : List G5kHost → List String
fqdns nodes = map (λ n. n.fqdn) nodes

-- Hosts that are deployed and hosts that are not.
abbrev pub Partition : Type 0
Partition = List G5kHost × List G5kHost

module _ {V : Type 0} where
  -- The hosts of the results of the check that are OK, or that are not.
  unfoldable pub checked : Bool → List (CommandResult V) → List String
  unfolding is_ok
  checked b [] = []
  checked b (r ∷ results) =
      let rest = checked b results in
      if r.task == check_name && (if is_ok r then b else not b) then r.host ∷ rest else rest

  -- Which of the nodes are deployed, from the results.
  unfoldable pub sort_nodes : G5kNetwork → List G5kHost → List (CommandResult V) → Partition
  unfolding checked translate with_names
  sort_nodes net nodes results = (
    with_names nodes (map (λ fqdn. translate net true fqdn) (checked true results)),
    with_names nodes (map (λ fqdn. translate net true fqdn) (checked false results)),
  )

  module _ {W : Type 0} where
    -- The results of a run; none if it raised.
    unfoldable pub results_of : Run W V → Option (W × List (CommandResult V))
    results_of (returned w results) = some (w, results)
    results_of (failed_hosts_error w hosts) = none
    results_of (unreachable_hosts_error w hosts) = none

    module _ (execute : W → Play → W × List (Event V)) where
      -- `_check_deployed_nodes`
      unfoldable pub check_deployed_nodes : W → G5kNetwork → List G5kHost → Option (W × Partition)
      unfolding run_play results_of sort_nodes check_play fqdns translate
      check_deployed_nodes w net nodes = do
        let addresses = map (λ fqdn. translate net false fqdn) (fqdns nodes)
        (w', results) ← results_of (run_play execute true (check_play addresses) w)
        some (w', sort_nodes net nodes results)

-- A host with its site; a ValueError for a name without a site.
unfoldable pub located : List G5kHost → Option (List (String × G5kHost))
unfolding site_of
located [] = some []
located (h ∷ hosts) = do site ← site_of h.fqdn; rest ← located hosts; some ((site, h) ∷ rest)

-- `net < other` for the networks of a sort; it is not asked of one network.
lt_vlan : Option String → Option String → Bool
lt_vlan none other = true
lt_vlan (some a) none = false
lt_vlan (some a) (some b) = not (text_le b a)

g5k_network_lt : G5kNetwork → G5kNetwork → Bool
unfolding lt_vlan vlan_id_of
g5k_network_lt net other =
    not (network_id net == network_id other) && lt_vlan (vlan_id_of net) (vlan_id_of other)

-- `_key(b) < _key(a)` is false
unfoldable pub key_le : String × G5kHost → String × G5kHost → Bool
unfolding g5k_network_lt text_le
key_le a b =
    if a.0 == b.0
    then not (g5k_network_lt b.1.primary_network a.1.primary_network)
    else text_le a.0 b.0

-- The hosts of a site and a network.
unfoldable pub grouped : List (String × G5kHost) → List (SiteNature × List (String × G5kHost))
unfolding groupby sorted key_le
grouped hosts = groupby (λ h. (h.0, network_id h.1.primary_network)) (sorted key_le hosts)

module _ {O : Type 0} (options : O) where
  -- `net.vlan_id and net.vlan_id != PROD_VLAN_ID`
  unfoldable pub vlan_to_deploy : Option String → Option String
  vlan_to_deploy none = none
  vlan_to_deploy (some vlan_id) =
      if vlan_id == "" then none else if vlan_id == "DEFAULT" then none else some vlan_id

  -- The deployment of the hosts of a group, if there are some.
  unfoldable pub config_of : String → G5kNetwork → List G5kHost → List (Config O)
  unfolding vlan_to_deploy vlan_id_of fqdns
  config_of site net [] = []
  config_of site net (h ∷ hosts) =
      record {
        site = site;
        nodes = fqdns (h ∷ hosts);
        vlan = vlan_to_deploy (vlan_id_of net);
        options = options;
      }
      ∷ []

-- Python's truth of a list
unfoldable pub has_hosts : List G5kHost → Bool
has_hosts [] = false
has_hosts (h ∷ hosts) = true

module _ {W V O : Type 0} (execute : W → Play → W × List (Event V)) (options : O) where
  -- What is deployed already of a group, and what is to be deployed.
  unfoldable pub to_deploy : Bool → W → G5kNetwork → List G5kHost → Option (W × Partition)
  unfolding check_deployed_nodes
  to_deploy force_deploy w net hosts =
      if force_deploy then some (w, ([], hosts)) else check_deployed_nodes execute w net hosts

  -- The loop over the groups. No group is empty.
  unfoldable pub check_groups :
      Bool
      → W
      → List (SiteNature × List (String × G5kHost))
      → Option (W × (List G5kHost × List (Config O)))
  unfolding to_deploy config_of
  check_groups force_deploy w [] = some (w, ([], []))
  check_groups force_deploy w ((key, []) ∷ groups) = check_groups force_deploy w groups
  check_groups force_deploy w ((key, h ∷ hosts) ∷ groups) = do
    let net = h.1.primary_network
    (w', (deployed, hosts_to_deploy)) ← to_deploy force_deploy w net (map (λ e. e.1) (h ∷ hosts))
    (w'', (already_deployed, configs)) ← check_groups force_deploy w' groups
    some (
      w'',
      (deployed ++ already_deployed, config_of options key.0 net hosts_to_deploy ++ configs),
    )

  -- none: a name without a site
  unfoldable pub check_deployments :
      Bool → W → List G5kHost → Option (W × (List G5kHost × List (Config O)))
  unfolding located grouped check_groups
  check_deployments force_deploy w hosts = do
    found ← located hosts
    check_groups force_deploy w (grouped found)

  module _ (status : ℕ → ℕ → Status) (create : ℕ → Config O → ℕ) (fuel : ℕ) where
    -- none: a name without a site, or the fuel of `grid_deploy` is spent
    unfoldable pub deploy_attempt : Bool → W → List G5kHost → Option (W × Partition)
    unfolding check_deployments grid_deploy with_names fqdns
    deploy_attempt force_deploy w hosts = do
      (w', (already_deployed, configs)) ← check_deployments force_deploy w hosts
      (deployed_fqdns, undeployed_fqdns) ← grid_deploy status create fuel 0 configs
      some (
        w',
        (
          with_names hosts (deployed_fqdns ++ fqdns already_deployed),
          with_names hosts undeployed_fqdns,
        ),
      )

  -- What the API tells of the deployments of each attempt.
  module _ (status : ℕ → ℕ → ℕ → Status) (create : ℕ → ℕ → Config O → ℕ) (fuel : ℕ) where
    -- So many attempts are left; the last one gave these hosts.
    unfoldable pub attempt_loop : Bool → ℕ → ℕ → W → Partition → Option (W × Partition)
    unfolding deploy_attempt has_hosts
    attempt_loop force_deploy zero attempt w (deployed_hosts, undeployed_hosts) =
        some (w, (deployed_hosts, undeployed_hosts))
    attempt_loop force_deploy (suc left) attempt w (deployed_hosts, undeployed_hosts) =
        let next = (do
          (w', hosts) ←
              deploy_attempt (status attempt) (create attempt) fuel force_deploy w undeployed_hosts
          attempt_loop force_deploy left (suc attempt) w' hosts) in
        if has_hosts undeployed_hosts then next else some (w, (deployed_hosts, undeployed_hosts))

    -- MAX_DEPLOY is 3.
    unfoldable pub deploy_with_retries : Bool → W → List G5kHost → Option (W × Partition)
    unfolding attempt_loop
    deploy_with_retries force_deploy w hosts = attempt_loop force_deploy 3 0 w ([], hosts)
