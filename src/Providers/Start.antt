-- ===== src/Providers/Start.antt =====
-- `start_provider_within_bounds` of enoslib/infra/providers.py.
pub mod Contract
pub mod Bounds
pub mod Errors
use enoslib.Base.{ℕ, suc, ◌+◌, ◌*◌, ◌^◌, max, List, [], ◌∷◌}
use enoslib.Base.Int.{ℤ, sub_ℕ}
use enoslib.Provider.{
  Error, negative_walltime, invalid_reservation_too_old, no_slot_error, Outcome, Provider, Result,
  ok, err,
}

module _ {P W : Type 0} where
  -- The two `except` clauses of the loop's body; `again` is the next round.
  unfoldable pub except_retry : Outcome P W → (P → W → Outcome P W) → Outcome P W
  except_retry (err negative_walltime, s) again = (err no_slot_error, s)
  except_retry (err invalid_reservation_too_old, (p, w)) again = again p w
  except_retry (r, s) again = (r, s)

  module _ (m : Provider P W) where
    open m use {now, offset_walltime, async_init}

    -- The `try` block behind `offset_walltime`, of which `offset` is the outcome: if it raised, the
    -- assignment of `start_time` and the call of `async_init` are skipped. `again` is the next
    -- round, from its `start_time`.
    unfoldable pub try_start :
        Result (Unit {0}) × P → ℕ → ℕ → W → (ℕ → P → W → Outcome P W) → Outcome P W
    unfolding except_retry
    try_start (ok _, p) candidate start_time w again =
        except_retry (async_init candidate p w) (again candidate)
    try_start (err e, p) candidate start_time w again =
        except_retry (err e, (p, w)) (again start_time)

    -- The loop over the retries that are left.
    unfoldable pub start_loop : List ℕ → ℕ → P → W → Outcome P W
    unfolding try_start
    start_loop [] start_time p w = (err no_slot_error, (p, w))
    start_loop (retry ∷ retries) start_time p w =
        let (time, w') = now w in
        let candidate = max (time + 60 * (retry + 1) ^ 2) start_time in
        try_start (offset_walltime (sub_ℕ start_time candidate) p) candidate start_time w'
          (start_loop retries)

    unfoldable pub start_provider_within_bounds : P → ℕ → W → Outcome P W
    unfolding start_loop
    start_provider_within_bounds p start_time w = start_loop (0 ∷ 1 ∷ 2 ∷ []) start_time p w
