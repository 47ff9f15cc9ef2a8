-- ===== src/Providers/Start/Contract.antt =====
-- What `start_provider_within_bounds` relies on: the documented behaviour of a testbed's provider.
use enoslib.Base.{ℕ, ◌+◌, ◌≤◌, ◌≡◌, ◌≢◌, Option, some}
use enoslib.Base.Int.{ℤ, pos, ◌+ℤ◌, ◌≤ℤ◌}
use enoslib.Provider.{invalid_reservation_too_old, Provider, ok, err, Error}

module _ {P W : Type 0} (m : Provider P W) where
  -- `walltime` is the configured walltime, `started` the date of the job that was submitted, and
  -- `time` the clock. A walltime is rounded down to the testbed's unit, which loses so many seconds at
  -- most: none on Grid'5000, 59 on IoT-LAB.
  pub record Contract (rounding : ℕ) (walltime : P → ℕ) (started : P → Option ℕ) (time : W → ℕ)
      : Type 0 where
    pub offsets :
        (d : ℤ) (p p' : P)
        → m.offset_walltime d p ≡ (ok tt, p')
        → (pos (walltime p') ≤ℤ pos (walltime p) +ℤ d)
          × (pos (walltime p) +ℤ d ≤ℤ pos (walltime p' + rounding))
    -- Offsetting a walltime submits nothing, so that no date is too old for it.
    pub refuses :
        (d : ℤ) (p p' : P) (e : Error)
        → m.offset_walltime d p ≡ (err e, p')
        → e ≢ invalid_reservation_too_old
    pub keeps_walltime : (t : ℕ) (p : P) (w : W) → walltime (m.async_init t p w).1.0 ≡ walltime p
    pub starts :
        (t : ℕ) (p p' : P) (w w' : W) → m.async_init t p w ≡ (ok tt, (p', w')) → started p' ≡ some t
    pub reads_clock : (w : W) → (m.now w).0 ≡ time w
    pub clock_runs : (w : W) → time w ≤ time (m.now w).1
    pub submits_later : (t : ℕ) (p : P) (w : W) → time w ≤ time (m.async_init t p w).1.1
