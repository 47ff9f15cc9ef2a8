-- ===== src/Examples/Slots.antt =====
-- Slots and reservations on a testbed that is free from second 600 on.
use enoslib.Base.{
  ℕ, ◌+◌, ◌≤◌, ◌≡◌, refl, Bool, true, false, Option, none, some, List, [], ◌∷◌, leb, arith,
}
use enoslib.Base.Int.{ℤ, pos, ◌+ℤ◌}
use enoslib.Provider.{
  Error, negative_walltime, invalid_reservation_too_old, Outcome, Provider, Result, ok, err,
}
use mathlib.Core.Path.{subst}
use enoslib.Base.{sym, ◌∙◌, ◌≢◌, ap}
use enoslib.Base.Int.{◌≤ℤ◌}
use enoslib.Provider.{other}
use enoslib.Walltime
use enoslib.Walltime.{Clock, seconds, g5k_offset_walltime}
use enoslib.Walltime.Offset.{OffsetsTo, g5k_offset_walltime-OffsetsTo}
use enoslib.Providers.Slot.{find_slot}
use enoslib.Providers.Slot.Earliest.{IsEarliest, find_slot-IsEarliest}
use enoslib.Providers.Start.{start_provider_within_bounds}
use enoslib.Providers.Start.Contract.{Contract}
use enoslib.Providers.Start.Bounds.{IsWithin, start_provider_within_bounds-IsWithin}
use enoslib.Providers.Start.Errors.{IsHandled, start_provider_within_bounds-IsHandled}
use enoslib.Providers.Reserve.{reserve}
use enoslib.Providers.Reserve.Total.{reserve-IsDone}

record Job : Type 0 where
  pub walltime : Clock
  pub started : Option ℕ

-- The walltime is offset as on Grid'5000.
abbrev shift : Walltime.Result Clock → Job → Result (Unit {0}) × Job
shift (Walltime.ok c) p = (ok tt, record p { walltime = c })
shift (Walltime.err Walltime.negative_walltime) p = (err negative_walltime, p)
shift (Walltime.err Walltime.value_error) p = (err (other 0), p)

abbrev is_started : Option ℕ → Bool
is_started none = false
is_started (some t) = true

abbrev submit : Bool → ℕ → Job → ℕ → Outcome Job ℕ
submit true t p w = (ok tt, (record p { started = some t }, w + 1))
submit false t p w = (err invalid_reservation_too_old, (p, w + 1))

abbrev testbed : Provider Job ℕ
testbed = record {
  now = λ w. (w, w + 1);
  is_created = λ p w. is_started p.started;
  test_slot = λ p t end w. (leb 600 t, w);
  offset_walltime = λ d p. shift (g5k_offset_walltime p.walltime d) p;
  async_init = λ t p w. submit (leb w t) t p w;
  destroy = λ p w. (ok tt, (record p { started = none }, w));
}

shift-ok :
    (total : ℤ) (out : Walltime.Result Clock) (p p' : Job)
    → OffsetsTo total out
    → shift out p ≡ (ok tt, p')
    → (pos (seconds p'.walltime) ≤ℤ total) × (total ≤ℤ pos (seconds p'.walltime + 0))
shift-ok total (Walltime.ok c) p p' h e =
    let same : c ≡ p'.walltime = cc in
    let exact : pos (seconds p'.walltime) ≡ total = ap (λ x. pos (seconds x)) (sym same) ∙ h.0 in
    subst (λ t. (pos (seconds p'.walltime) ≤ℤ t) × (t ≤ℤ pos (seconds p'.walltime + 0))) exact
      (omega arith, omega arith)
shift-ok total (Walltime.err Walltime.negative_walltime) p p' h e = cc
shift-ok total (Walltime.err Walltime.value_error) p p' h e = cc

shift-err :
    (out : Walltime.Result Clock) (p p' : Job) (e : Error)
    → shift out p ≡ (err e, p')
    → e ≢ invalid_reservation_too_old
shift-err (Walltime.ok c) p p' e h old = cc
shift-err (Walltime.err Walltime.negative_walltime) p p' e h old = cc
shift-err (Walltime.err Walltime.value_error) p p' e h old = cc

submit-walltime : (b : Bool) (t : ℕ) (p : Job) (w : ℕ) → (submit b t p w).1.0.walltime ≡ p.walltime
submit-walltime true t p w = refl
submit-walltime false t p w = refl

submit-started :
    (b : Bool) (t : ℕ) (p p' : Job) (w w' : ℕ)
    → submit b t p w ≡ (ok tt, (p', w'))
    → p'.started ≡ some t
submit-started true t p p' w w' h = cc
submit-started false t p p' w w' h = cc

submit-time : (b : Bool) (t : ℕ) (p : Job) (w : ℕ) → w ≤ (submit b t p w).1.1
submit-time true t p w = omega arith
submit-time false t p w = omega arith

testbed-Contract : Contract testbed 0 (λ p. seconds p.walltime) (λ p. p.started) (λ w. w)
testbed-Contract = record {
  offsets = λ d p p' h.
      shift-ok (pos (seconds p.walltime) +ℤ d) (g5k_offset_walltime p.walltime d) p p'
        (g5k_offset_walltime-OffsetsTo p.walltime d) h;
  refuses = λ d p p' e h. shift-err (g5k_offset_walltime p.walltime d) p p' e h;
  keeps_walltime = λ t p w. ap seconds (submit-walltime (leb w t) t p w);
  starts = λ t p p' w w' h. submit-started (leb w t) t p p' w w' h;
  reads_clock = λ w. refl;
  clock_runs = λ w. omega arith;
  submits_later = λ t p w. submit-time (leb w t) t p w;
}

abbrev job : Job
job = record { walltime = record { hour = 1; minute = 0; second = 0 }; started = none }

abbrev started_job : Job
started_job = record {
  walltime = record { hour = 0; minute = 59; second = 0 };
  started = some 1060;
}

frozen_testbed : (p : Job) (t : ℕ) (end : ℤ) (w : ℕ) → (testbed.test_slot p t end w).1 ≡ w
frozen_testbed p t end w = refl

find_slot-IsEarliest_example :
    (r : Result ℕ) × (find_slot testbed (job ∷ job ∷ []) (pos 7200) 60 5 ≡ some (r, 5))
    × IsEarliest testbed (job ∷ job ∷ []) (pos 60 +ℤ pos 7200) 5 60 r
find_slot-IsEarliest_example =
    find_slot-IsEarliest testbed frozen_testbed (job ∷ job ∷ []) (pos 7200) 60 5

-- The slot at 1000 is already in the past at 1000: the job starts a minute later.
starts_late : start_provider_within_bounds testbed job 1000 1000 ≡ (ok tt, (started_job, 1002))
unfolding start_provider_within_bounds ◌+ℤ◌ g5k_offset_walltime
starts_late = refl

start_provider_within_bounds-IsWithin_example :
    IsWithin testbed testbed-Contract (1000 + 60) 1000 (1000 + 3600) started_job
start_provider_within_bounds-IsWithin_example =
    start_provider_within_bounds-IsWithin testbed testbed-Contract job started_job 1000 1000 1002
      starts_late

start_provider_within_bounds-IsHandled_example :
    IsHandled (start_provider_within_bounds testbed job 1000 1000).0
start_provider_within_bounds-IsHandled_example =
    start_provider_within_bounds-IsHandled testbed job 1000 1000

reserve-IsDone_example :
    (o : Outcome (List Job) ℕ) × (reserve testbed (some (pos 900)) none (job ∷ []) 100 ≡ some o)
reserve-IsDone_example = reserve-IsDone testbed (some (pos 900)) none (job ∷ []) 100
