-- ===== src/Api/Run.antt =====
-- `run_ansible`, `run_play` and `wait_for` of enoslib/api.py. Running a playbook is Ansible's: it
-- changes the world and calls the callback. The inventory is part of `execute`; the results that are
-- dumped to a file and the logs are left out.
pub mod Events
pub mod Reported
pub mod Waited
use enoslib.Base.{
  ℕ, zero, suc, Bool, true, false, ◌&&◌, not, List, [], ◌∷◌, ◌++◌, map, filterb, if◌then◌else◌,
}
use enoslib.Base.Eq.{String_eq, ◌==◌}
use enoslib.Api.Results.{
  ExecutionRecord, Event, store, CommandResult, from_ansible, status_failed, status_unreachable,
}

-- The world that a run leaves, with what it returns or raises.
pub data Run (W V : Type 0) : Type 0 where
  returned : W → (results : List (CommandResult V)) → Run W V
  failed_hosts_error : W → (hosts : List (ExecutionRecord V)) → Run W V
  unreachable_hosts_error : W → (hosts : List (ExecutionRecord V)) → Run W V

unfoldable pub is_empty : {A : Type 0} → List A → Bool
is_empty [] = true
is_empty (x ∷ xs) = false

module _ {W V : Type 0} where
  -- The errors of one playbook, in front of what comes next.
  unfoldable pub handle_errors : Bool → W → List (ExecutionRecord V) → Run W V → Run W V
  unfolding is_empty
  handle_errors on_error_continue w records next =
      let failed_hosts = filterb (λ r. r.status == status_failed) records in
      let unreachable_hosts = filterb (λ r. r.status == status_unreachable) records in
      if not (is_empty failed_hosts) && not on_error_continue
      then failed_hosts_error w failed_hosts
      else if not (is_empty unreachable_hosts) && not on_error_continue
      then unreachable_hosts_error w unreachable_hosts
      else next

  module _ {P : Type 0} (execute : W → P → W × List (Event V)) where
    -- The loop over the playbooks, with the records so far.
    unfoldable pub run_from : Bool → List P → W → List (ExecutionRecord V) → Run W V
    unfolding handle_errors from_ansible store
    run_from on_error_continue [] w records = returned w (from_ansible records)
    run_from on_error_continue (path ∷ playbooks) w records =
        let (w', events) = execute w path in
        let new = map store events in
        handle_errors on_error_continue w' new
          (run_from on_error_continue playbooks w' (records ++ new))

    unfoldable pub run_ansible : Bool → List P → W → Run W V
    unfolding run_from
    run_ansible on_error_continue playbooks w = run_from on_error_continue playbooks w []

    -- `run_play`: the play is the only playbook.
    unfoldable pub run_play : Bool → P → W → Run W V
    unfolding run_ansible
    run_play on_error_continue play w = run_ansible on_error_continue (play ∷ []) w

-- What `wait_for` ends with: an error that it does not catch is passed on.
pub data Wait (W V : Type 0) : Type 0 where
  connected : W → Wait W V
  ssh_not_ready : W → Wait W V
  raised : W → (hosts : List (ExecutionRecord V)) → Wait W V

module _ {W V P : Type 0} (execute : W → P → W × List (Event V)) (sleep : W → W)
    (hostname : P) where
  -- One round: only EnosUnreachableHostsError is caught.
  retry : Run W V → (W → Wait W V) → Wait W V
  retry (returned w results) again = connected w
  retry (failed_hosts_error w hosts) again = raised w hosts
  retry (unreachable_hosts_error w hosts) again = again (sleep w)

  unfoldable pub wait_for : ℕ → W → Wait W V
  unfolding run_play retry
  wait_for zero w = ssh_not_ready w
  wait_for (suc retries) w = retry (run_play execute false hostname w) (wait_for retries)
