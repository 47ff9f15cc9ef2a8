-- ===== src/Api/Run/Waited.antt =====
-- When `wait_for` ends, and with what.
use enoslib.Base.{ℕ, zero, suc, ◌<◌, ◌≡◌, refl, false, List, arith}
use enoslib.Api.Results.{ExecutionRecord, Event, CommandResult}
use enoslib.Api.Run.{
  Run, returned, failed_hosts_error, unreachable_hosts_error, run_play, Wait, connected,
  ssh_not_ready, raised, retry, wait_for,
}

module _ {W V P : Type 0} (execute : W → P → W × List (Event V)) (sleep : W → W)
    (hostname : P) where
  -- So many attempts in a row, none of which reached all hosts, with a pause behind each.
  pub data Unreached : ℕ → W → W → Type 0 where
    none_yet : {w : W} → Unreached zero w w
    one_more :
        {n : ℕ} {w w1 w2 : W} {hosts : List (ExecutionRecord V)}
        → run_play execute false hostname w ≡ unreachable_hosts_error w1 hosts
        → Unreached n (sleep w1) w2
        → Unreached (suc n) w w2

  -- The hosts are connected at the first attempt that reaches them; an attempt that fails otherwise
  -- ends the waiting; without one of both, all attempts are made.
  abbrev pub IsWaited : ℕ → W → Wait W V → Type 0
  IsWaited retries w (connected w') =
      (n : ℕ) × (w1 : W) × (results : List (CommandResult V)) × (n < retries)
      × Unreached n w w1
      × (run_play execute false hostname w1 ≡ returned w' results)
  IsWaited retries w (ssh_not_ready w') = Unreached retries w w'
  IsWaited retries w (raised w' hosts) =
      (n : ℕ) × (w1 : W) × (n < retries)
      × Unreached n w w1
      × (run_play execute false hostname w1 ≡ failed_hosts_error w' hosts)

  later :
      (retries : ℕ) (w w1 : W) (hosts : List (ExecutionRecord V)) (out : Wait W V)
      → run_play execute false hostname w ≡ unreachable_hosts_error w1 hosts
      → IsWaited retries (sleep w1) out
      → IsWaited (suc retries) w out
  later retries w w1 hosts (connected w') e (n, w2, results, h, before, last) =
      (suc n, w2, results, omega (arith, h), one_more e before, last)
  later retries w w1 hosts (ssh_not_ready w') e before = one_more e before
  later retries w w1 hosts (raised w' failed) e (n, w2, h, before, last) =
      (suc n, w2, omega (arith, h), one_more e before, last)

  retry-IsWaited :
      (retries : ℕ) (w : W) (attempt : Run W V) (again : W → Wait W V)
      → run_play execute false hostname w ≡ attempt
      → ((w' : W) → IsWaited retries w' (again w'))
      → IsWaited (suc retries) w (retry execute sleep hostname attempt again)
  unfolding retry
  retry-IsWaited retries w (returned w' results) again e h =
      (0, w, results, omega arith, none_yet, e)
  retry-IsWaited retries w (failed_hosts_error w' hosts) again e h =
      (0, w, omega arith, none_yet, e)
  retry-IsWaited retries w (unreachable_hosts_error w' hosts) again e h =
      later retries w w' hosts (again (sleep w')) e (h (sleep w'))

  -- Waiting for hosts makes at most the given number of attempts. It ends at the first attempt that
  -- does not raise EnosUnreachableHostsError: connected if it returned, with EnosFailedHostsError if
  -- it raised that. EnosSSHNotReady means that so many attempts were made and none reached all hosts.
  pub wait_for-IsWaited :
      (retries : ℕ) (w : W) → IsWaited retries w (wait_for execute sleep hostname retries w)
  unfolding wait_for
  wait_for-IsWaited zero w = none_yet
  wait_for-IsWaited (suc retries) w =
      retry-IsWaited retries w (run_play execute false hostname w)
        (wait_for execute sleep hostname retries) refl (wait_for-IsWaited retries)
