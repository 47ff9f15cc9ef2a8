-- ===== src/Api/Run/Events.antt =====
-- What happened in a run, and the records that `_MyCallback` stores of it.
use enoslib.Base.{
  arith, ◌≡◌, refl, Bool, true, false, not, List, [], ◌∷◌, ◌++◌, map, filterb, ap, Bool-cases, inl,
  inr,
}
use enoslib.Base.Eq.{String_eq, ◌==◌}
use enoslib.Api.Results.{
  ExecutionRecord, Ended, failed, passed, skipped, unreachable, Event, status_of, store,
  status_failed, status_unreachable,
}

-- A task that failed, its errors not ignored, and a host that was not reached.
abbrev pub has_failed : Ended → Bool
has_failed (failed ignore_errors) = not ignore_errors
has_failed passed = false
has_failed skipped = false
has_failed unreachable = false

abbrev pub was_unreachable : Ended → Bool
was_unreachable (failed ignore_errors) = false
was_unreachable passed = false
was_unreachable skipped = false
was_unreachable unreachable = true

module _ {V : Type 0} where
  abbrev pub failures : List (Event V) → List (Event V)
  failures events = filterb (λ e. has_failed e.ended) events

  abbrev pub unreached : List (Event V) → List (Event V)
  unreached events = filterb (λ e. was_unreachable e.ended) events

  -- No task failed and all hosts were reached.
  abbrev pub IsClean : List (Event V) → Type 0
  IsClean events = (failures events ≡ []) × (unreached events ≡ [])

pub status_failed_lem : (s : Ended) → (status_of s == status_failed) ≡ has_failed s
unfolding status_of
status_failed_lem (failed true) = refl
status_failed_lem (failed false) = refl
status_failed_lem passed = refl
status_failed_lem skipped = refl
status_failed_lem unreachable = refl

pub status_unreachable_lem : (s : Ended) → (status_of s == status_unreachable) ≡ was_unreachable s
unfolding status_of
status_unreachable_lem (failed true) = refl
status_unreachable_lem (failed false) = refl
status_unreachable_lem passed = refl
status_unreachable_lem skipped = refl
status_unreachable_lem unreachable = refl

pub filterb-store :
    {V : Type 0} (p : ExecutionRecord V → Bool) (q : Event V → Bool)
    → ((e : Event V) → p (store e) ≡ q e)
    → (events : List (Event V)) → filterb p (map store events) ≡ map store (filterb q events)
filterb-store p q h [] = refl
filterb-store p q h (e ∷ events) = elim (Bool-cases (q e)) [
  | inl yes_q ↦ rw (h e, yes_q) (ap (λ rs. store e ∷ rs) (filterb-store p q h events))
  | inr no_q ↦ rw (h e, no_q) (filterb-store p q h events)
]

module _ {V : Type 0} where
  filterb-append :
      (q : Event V → Bool) (xs ys : List (Event V))
      → filterb q xs ≡ []
      → filterb q ys ≡ []
      → filterb q (xs ++ ys) ≡ []
  filterb-append q [] ys hx hy = hy
  filterb-append q (x ∷ xs) ys hx hy = ground (arith, hx, hy, filterb-append q xs ys)

  pub append-IsClean : (xs ys : List (Event V)) → IsClean xs → IsClean ys → IsClean (xs ++ ys)
  append-IsClean xs ys hx hy = (
    filterb-append (λ e. has_failed e.ended) xs ys hx.0 hy.0,
    filterb-append (λ e. was_unreachable e.ended) xs ys hx.1 hy.1,
  )
