-- ===== src/Providers/Slot.antt =====
-- `find_slot` of enoslib/infra/providers.py.
pub mod Search
pub mod Earliest
use enoslib.Base.{
  ℕ, zero, suc, ◌+◌, ◌/◌, Bool, true, false, Option, none, some, List, [], ◌∷◌, if◌then◌else◌,
}
use enoslib.Base.Int.{ℤ, pos, pos_part, leb_ℤ, ◌+ℤ◌}
use enoslib.Provider.{Provider, Result, ok, err, no_slot_error}

abbrev pub time_increment : ℕ
time_increment = 300

module _ {P W : Type 0} (m : Provider P W) where
  open m use {test_slot}

  -- The inner loop over the providers: the value of `ko` after it, `false` if all accept.
  unfoldable pub any_ko : List P → ℕ → ℤ → W → Bool × W
  any_ko [] start_time end w = (false, w)
  any_ko (p ∷ ps) start_time end w =
      let (accepted, w') = test_slot p start_time end w in
      let rest = any_ko ps start_time end w' in if accepted then rest else (true, w')

  -- The `while` loop on fuel, from its variables `ko` and `start_time`. `none` is out of fuel.
  unfoldable pub find_loop : ℕ → List P → ℤ → Bool → ℕ → W → Option (Result ℕ × W)
  unfolding any_ko
  find_loop zero ps end ko start_time w = none
  find_loop (suc fuel) ps end ko start_time w =
      let (ko', w') = any_ko ps start_time end w in
      let later = find_loop fuel ps end true (start_time + time_increment) w' in
      if leb_ℤ (pos start_time) end
      then (if ko' then later else some (ok start_time, w'))
      else some ((if ko then err no_slot_error else ok start_time), w)

  -- A window of `n` seconds holds at most `n / 300 + 1` candidates.
  unfoldable pub find_slot : List P → ℤ → ℕ → W → Option (Result ℕ × W)
  unfolding find_loop
  find_slot ps time_window start_time w =
      find_loop (suc (pos_part time_window / time_increment + 1)) ps (pos start_time +ℤ time_window)
        true start_time w
