-- ===== src/Providers/Start/Bounds.antt =====
-- The slot in which `start_provider_within_bounds` starts a provider.
use mathlib.Core.Path.{subst}
use native.Mathlib.Nat.{one-le-pow}
use enoslib.Base.{ℕ, ◌+◌, ◌*◌, ◌^◌, ◌≤◌, ◌≡◌, refl, Option, some, List, [], ◌∷◌, arith}
use enoslib.Base.Int.{pos, sub_ℕ, +ℤ_parts}
use enoslib.Provider.{invalid_reservation_too_old, Outcome, Provider, Result, ok, err}
use enoslib.Providers.Start.{except_retry, try_start, start_loop, start_provider_within_bounds}
use enoslib.Providers.Start.Contract.{Contract}

-- Every retry asks for a date at least a minute ahead.
pub minute-le : (retry : ℕ) → 60 ≤ 60 * (retry + 1) ^ 2
minute-le retry = omega (arith, one-le-pow 2 (retry + 1) (omega arith))

module _ {P W : Type 0} (m : Provider P W) {rounding : ℕ} {walltime : P → ℕ}
    {started : P → Option ℕ} {time : W → ℕ}
    (contract : Contract m rounding walltime started time) where
  open contract use {
    offsets, refuses, keeps_walltime, starts, reads_clock, clock_runs, submits_later,
  }

  -- The job starts at some date from `start` and `soon` on, and ends at `end` at the latest, but no
  -- earlier than three roundings before.
  pub record IsWithin (soon start end : ℕ) (p : P) : Type 0 where
    pub date : ℕ
    pub submitted : started p ≡ some date
    pub after_start : start ≤ date
    pub in_future : soon ≤ date
    pub no_later : date + walltime p ≤ end
    pub no_earlier : end ≤ date + walltime p + 3 * rounding

  abbrev pub EndsWithin : ℕ → ℕ → ℕ → Outcome P W → Type 0
  EndsWithin soon start end (ok _, (p, w)) = IsWithin soon start end p
  EndsWithin soon start end (err e, s) = Unit

  -- An offset that moves the start to a later date moves the end back by a rounding at most.
  offset_end :
      (start candidate : ℕ) (p p' : P)
      → start ≤ candidate
      → m.offset_walltime (sub_ℕ start candidate) p ≡ (ok tt, p')
      → (candidate + walltime p' ≤ start + walltime p)
        × (start + walltime p ≤ candidate + walltime p' + rounding)
  offset_end start candidate p p' h e =
      let (below, above) = offsets (sub_ℕ start candidate) p p' e in
      (
        ground (arith, h, below, +ℤ_parts (pos (walltime p)) (sub_ℕ start candidate)),
        ground (arith, h, above, +ℤ_parts (pos (walltime p)) (sub_ℕ start candidate)),
      )

  -- What the retries that are left may lose.
  abbrev budget : List ℕ → ℕ
  budget [] = 0
  budget (retry ∷ retries) = rounding + budget retries

  module _ (soon start end : ℕ) where
    -- What the loop knows before a round from `start_time`.
    record Round (left start_time : ℕ) (p : P) (w : W) : Type 0 where
      begun : start ≤ start_time
      no_later : start_time + walltime p ≤ end
      no_earlier : end + left ≤ start_time + walltime p + 3 * rounding
      late : soon ≤ time w + 60

    submitted-EndsWithin :
        (o : Outcome P W) (left date : ℕ) (p : P) (w : W) (again : P → W → Outcome P W)
        → m.async_init date p w ≡ o
        → soon ≤ date
        → Round left date p w
        → ((q : P) (v : W) → Round left date q v → EndsWithin soon start end (again q v))
        → EndsWithin soon start end (except_retry o again)
    unfolding except_retry
    submitted-EndsWithin (ok tt, (p', w')) left date p w again e late h next = record {
      date = date;
      submitted = starts date p p' w w' e;
      after_start = h.begun;
      in_future = late;
      no_later = ground (arith, keeps_walltime date p w, h.no_later);
      no_earlier = ground (arith, keeps_walltime date p w, h.no_earlier);
    }
    submitted-EndsWithin (err invalid_reservation_too_old, (p', w')) left date p w again e late h
          next =
        next p' w' (record {
          begun = h.begun;
          no_later = ground (arith, keeps_walltime date p w, h.no_later);
          no_earlier = ground (arith, keeps_walltime date p w, h.no_earlier);
          late = ground (arith, submits_later date p w, h.late);
        })
    submitted-EndsWithin (err _, s) left date p w again e late h next = tt

    try_start-EndsWithin :
        (offset : Result (Unit {0}) × P) (left date start_time : ℕ) (p : P) (w : W)
        → (again : ℕ → P → W → Outcome P W) → m.offset_walltime (sub_ℕ start_time date) p ≡ offset
        → soon ≤ date
        → start_time ≤ date
        → Round (rounding + left) start_time p w
        → ((t : ℕ) (q : P) (v : W) → Round left t q v → EndsWithin soon start end (again t q v))
        → EndsWithin soon start end (try_start m offset date start_time w again)
    unfolding try_start except_retry
    try_start-EndsWithin (ok tt, p') left date start_time p w again e late later h next =
        let (below, above) = offset_end start_time date p p' later e in
        submitted-EndsWithin _ left date p' w (again date) refl late
          (record {
            begun = omega (arith, h.begun);
            no_later = omega (arith, below, h.no_later);
            no_earlier = omega (arith, above, h.no_earlier);
            late = h.late;
          })
          (next date)
    try_start-EndsWithin (err invalid_reservation_too_old, p') left date start_time p w again e late
          later h next =
        absurd (refuses (sub_ℕ start_time date) p p' invalid_reservation_too_old e refl)
    try_start-EndsWithin (err x, p') left date start_time p w again e late later h next = tt

    start_loop-EndsWithin :
        (retries : List ℕ) (start_time : ℕ) (p : P) (w : W)
        → Round (budget retries) start_time p w
        → EndsWithin soon start end (start_loop m retries start_time p w)
    unfolding start_loop
    start_loop-EndsWithin [] start_time p w h = tt
    start_loop-EndsWithin (retry ∷ retries) start_time p w h =
        try_start-EndsWithin _ (budget retries) _ start_time p _ (start_loop m retries) refl
          (omega (arith, reads_clock w, h.late, minute-le retry)) (omega arith)
          (record {
            begun = h.begun;
            no_later = h.no_later;
            no_earlier = h.no_earlier;
            late = omega (arith, clock_runs w, h.late);
          })
          (start_loop-EndsWithin retries)

-- If `start_provider_within_bounds` returns, on a provider that keeps the contract, the job was
-- submitted at a date that is not before `start_time` and at least a minute after the call, and the
-- walltime was cut so that the job ends where it would have ended from `start_time` on, or earlier by
-- at most three times what a rounding of the walltime loses.
pub start_provider_within_bounds-IsWithin :
    {P W : Type 0} (m : Provider P W) {rounding : ℕ} {walltime : P → ℕ} {started : P → Option ℕ}
    {time : W → ℕ} (contract : Contract m rounding walltime started time) (p p' : P)
    (start_time : ℕ) (w w' : W)
    → start_provider_within_bounds m p start_time w ≡ (ok tt, (p', w'))
    → IsWithin m contract (time w + 60) start_time (start_time + walltime p) p'
unfolding start_provider_within_bounds
start_provider_within_bounds-IsWithin m {rounding} {walltime} {time = time} contract p p' start_time
      w w' e =
    subst (EndsWithin m contract (time w + 60) start_time (start_time + walltime p)) e (
      start_loop-EndsWithin m contract (time w + 60) start_time (start_time + walltime p)
        (0 ∷ 1 ∷ 2 ∷ []) start_time p w
        (record {
          begun = omega arith;
          no_later = omega arith;
          no_earlier = omega arith;
          late = omega arith;
        }))
