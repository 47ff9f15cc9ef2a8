-- ===== src/Providers/Start/Errors.antt =====
-- Which errors `start_provider_within_bounds` lets out.
use enoslib.Base.{ℕ, ◌≢◌, List, [], ◌∷◌, arith}
use enoslib.Provider.{
  negative_walltime, invalid_reservation_too_old, Outcome, Provider, Result, ok, err,
}
use enoslib.Providers.Start.{except_retry, try_start, start_loop, start_provider_within_bounds}

-- Neither of the two errors that the loop handles.
abbrev pub IsHandled : Result (Unit {0}) → Type 0
IsHandled r = (r ≢ err negative_walltime) × (r ≢ err invalid_reservation_too_old)

module _ {P W : Type 0} where
  except_retry-IsHandled :
      (o : Outcome P W) (again : P → W → Outcome P W)
      → ((p : P) (w : W) → IsHandled (again p w).0)
      → IsHandled (except_retry o again).0
  unfolding except_retry
  except_retry-IsHandled (ok tt, s) again h = ground arith
  except_retry-IsHandled (err invalid_reservation_too_old, (p, w)) again h = h p w
  except_retry-IsHandled (err _, s) again h = ground arith

module _ {P W : Type 0} (m : Provider P W) where
  try_start-IsHandled :
      (offset : Result (Unit {0}) × P) (candidate start_time : ℕ) (w : W)
      → (again : ℕ → P → W → Outcome P W) → ((t : ℕ) (p : P) (w : W) → IsHandled (again t p w).0)
      → IsHandled (try_start m offset candidate start_time w again).0
  unfolding try_start
  try_start-IsHandled (ok _, p) candidate start_time w again h =
      except_retry-IsHandled (m.async_init candidate p w) (again candidate) (h candidate)
  try_start-IsHandled (err e, p) candidate start_time w again h =
      except_retry-IsHandled (err e, (p, w)) (again start_time) (h start_time)

  start_loop-IsHandled :
      (retries : List ℕ) (start_time : ℕ) (p : P) (w : W)
      → IsHandled (start_loop m retries start_time p w).0
  unfolding start_loop
  start_loop-IsHandled [] start_time p w = ground arith
  start_loop-IsHandled (retry ∷ retries) start_time p w =
      try_start-IsHandled _ _ start_time _ (start_loop m retries) (start_loop-IsHandled retries)

  -- Whatever the provider does, `start_provider_within_bounds` raises neither NegativeWalltime nor
  -- InvalidReservationTooOld.
  pub start_provider_within_bounds-IsHandled :
      (p : P) (start_time : ℕ) (w : W) → IsHandled (start_provider_within_bounds m p start_time w).0
  unfolding start_provider_within_bounds
  start_provider_within_bounds-IsHandled p start_time w =
      start_loop-IsHandled (0 ∷ 1 ∷ 2 ∷ []) start_time p w
