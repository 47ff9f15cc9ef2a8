-- ===== src/Providers/Reserve.antt =====
-- `find_slot_and_start` and `Providers._reserve` of enoslib/infra/providers.py.
pub mod Total
use enoslib.Base.{
  ℕ, zero, suc, ◌+◌, Bool, true, false, not, Option, none, some, List, [], ◌∷◌, leb, if◌then◌else◌,
}
use enoslib.Base.Int.{ℤ, pos, pos_part, sub_ℕ, ◌+ℤ◌}
use enoslib.Provider.{
  Error, invalid_reservation_time, invalid_reservation_critical, no_slot_error, Outcome, Provider,
  Result, ok, err,
}
use enoslib.Providers.Slot.{time_increment, find_slot}
use enoslib.Providers.Start.{start_provider_within_bounds}

-- The new `start_time` after a hint: one that does not progress is corrected.
unfoldable pub next_start : ℕ → ℕ → ℕ
next_start start_time hint = if leb hint start_time then start_time + time_increment else hint

-- A missing or negative argument takes its default.
unfoldable pub window_or_default : Option ℤ → ℕ
window_or_default (some (pos n)) = n
window_or_default _ = 7200

module _ {P W : Type 0} (m : Provider P W) where
  open m use {is_created, destroy}

  -- `_providers`: the providers that are not created yet.
  unfoldable pub pending : List P → W → List P
  pending [] w = []
  pending (p ∷ ps) w = if is_created p w then pending ps w else p ∷ pending ps w

  unfoldable pub are_created : List P → W → List Bool
  are_created [] w = []
  are_created (p ∷ ps) w = is_created p w ∷ are_created ps w

  -- `for provider in _providers: start_provider_within_bounds(...)` where the objects stand in the
  -- list of all providers: those that were created before are passed over.
  unfoldable pub start_pending : List Bool → List P → ℕ → W → Outcome (List P) W
  start_pending (true ∷ created) (p ∷ ps) reservation w =
      let (r, (ps', w')) = start_pending created ps reservation w in (r, (p ∷ ps', w'))
  start_pending (false ∷ created) (p ∷ ps) reservation w =
      let (r, (p', w')) = start_provider_within_bounds m p reservation w in
      let (later, (ps', w'')) = start_pending created ps reservation w' in
      elim r [ ok _ ↦ (later, (p' ∷ ps', w'')) | err e ↦ (err e, (p' ∷ ps, w')) ]
  start_pending _ ps reservation w = (ok tt, (ps, w))

  -- `except NoSlotError` of `find_slot_and_start`: the hint is the next increment.
  unfoldable pub hint_next : ℕ → Outcome (List P) W → Outcome (List P) W
  hint_next start_time (err no_slot_error, s) =
      (err (invalid_reservation_time (start_time + time_increment)), s)
  hint_next start_time (r, s) = (r, s)

  -- What follows `find_slot`: its NoSlotError passes through.
  unfoldable pub start_found : List P → ℕ → W → Option (Result ℕ × W) → Option (Outcome (List P) W)
  unfolding are_created start_pending hint_next
  start_found ps start_time w none = none
  start_found ps start_time w (some (err e, w')) = some (err e, (ps, w'))
  start_found ps start_time w (some (ok reservation, w')) =
      some (hint_next start_time (start_pending (are_created ps w) ps reservation w'))

  -- The slot is searched for the pending providers, if there are any.
  unfoldable pub start_slot : List P → List P → ℕ → ℤ → W → Option (Outcome (List P) W)
  unfolding start_found
  start_slot [] ps start_time time_window w = some (ok tt, (ps, w))
  start_slot (p ∷ rest) ps start_time time_window w =
      start_found ps start_time w (find_slot m (p ∷ rest) time_window start_time w)

  unfoldable pub find_slot_and_start : List P → ℕ → ℤ → W → Option (Outcome (List P) W)
  unfolding pending start_slot
  find_slot_and_start ps start_time time_window w =
      start_slot (pending ps w) ps start_time time_window w

  -- `Providers.destroy`
  unfoldable pub destroy_all : List P → W → Outcome (List P) W
  destroy_all [] w = (ok tt, ([], w))
  destroy_all (p ∷ ps) w =
      let (r, (p', w')) = destroy p w in
      let (later, (ps', w'')) = destroy_all ps w' in
      elim r [ ok _ ↦ (later, (p' ∷ ps', w'')) | err e ↦ (err e, (p' ∷ ps, w')) ]

  -- `self.destroy()` in a handler, and what the handler does then.
  unfoldable pub destroy_then :
      List P → W → (List P → W → Option (Outcome (List P) W)) → Option (Outcome (List P) W)
  unfolding destroy_all
  destroy_then ps w next =
      let (r, (ps', w')) = destroy_all ps w in
      elim r [ ok _ ↦ next ps' w' | err e ↦ some (err e, (ps', w')) ]

  -- The `except` clauses of `_reserve`; `ps` is `self.providers`, and `again` the next round. The
  -- copies that `find_slot_and_start` mutated are kept only if it returns.
  unfoldable pub except_reserve :
      (ps : List P) (start_time : ℕ) (time_window : ℤ)
      → Option (Outcome (List P) W)
      → (ℤ → ℕ → List P → W → Option (Outcome (List P) W))
      → Option (Outcome (List P) W)
  unfolding destroy_then next_start
  except_reserve ps start_time time_window none again = none
  except_reserve ps start_time time_window (some (ok _, s)) again = some (ok tt, s)
  except_reserve ps start_time time_window (some (err (invalid_reservation_time hint), (_, w)))
        again =
      let start' = next_start start_time hint in
      destroy_then ps w (again (time_window +ℤ sub_ℕ start_time start') start')
  except_reserve ps start_time time_window (some (err no_slot_error, (_, w))) again =
      destroy_then ps w (λ ps' w'. some (err invalid_reservation_critical, (ps', w')))
  except_reserve ps start_time time_window (some (err e, (_, w))) again = some (err e, (ps, w))

  -- The `while True` loop of `_reserve`, on fuel.
  unfoldable pub reserve_loop : ℕ → ℤ → ℕ → List P → W → Option (Outcome (List P) W)
  unfolding find_slot_and_start except_reserve
  reserve_loop zero time_window start_time ps w = none
  reserve_loop (suc fuel) time_window start_time ps w =
      except_reserve ps start_time time_window (find_slot_and_start ps start_time time_window w)
        (reserve_loop fuel)

  unfoldable pub start_or_soon : Option ℤ → W → ℕ × W
  start_or_soon (some (pos n)) w = (n, w)
  start_or_soon _ w = let (time, w') = m.now w in (time + 60, w')

  -- Each round but the last moves the start forward, and the end of the window is fixed: one round
  -- for each second of the window and two more are enough.
  unfoldable pub reserve : Option ℤ → Option ℤ → List P → W → Option (Outcome (List P) W)
  unfolding reserve_loop window_or_default start_or_soon
  reserve time_window start_time ps w =
      let window = window_or_default time_window in
      let (start, w') = start_or_soon start_time w in
      reserve_loop (suc (window + 1)) (pos window) start ps w'
