-- ===== src/Providers/Combined.antt =====
-- The methods of `Providers` that hand a call on to each provider (enoslib/infra/providers.py).
pub mod Agreement
use enoslib.Base.{ℕ, Bool, true, false, List, [], ◌∷◌, if◌then◌else◌}
use enoslib.Base.Int.{ℤ}
use enoslib.Provider.{Provider, Result, ok, err}

module _ {P W : Type 0} (m : Provider P W) where
  -- `Providers.test_slot`: stops at the first provider that refuses.
  unfoldable pub test_slot : List P → ℕ → ℤ → W → Bool × W
  test_slot [] start_time end_time w = (true, w)
  test_slot (p ∷ ps) start_time end_time w =
      let (accepted, w') = m.test_slot p start_time end_time w in
      let rest = test_slot ps start_time end_time w' in if accepted then rest else (false, w')

  -- `Providers.is_created`
  unfoldable pub is_created : List P → W → Bool
  is_created [] w = true
  is_created (p ∷ ps) w = if m.is_created p w then is_created ps w else false

  -- What follows the offset of one provider: an error leaves the rest as they are.
  unfoldable pub offset_step :
      Result (Unit {0}) × P → List P → Result (Unit {0}) × List P → Result (Unit {0}) × List P
  offset_step (ok _, p) ps (r, ps') = (r, p ∷ ps')
  offset_step (err e, p) ps later = (err e, p ∷ ps)

  -- `Providers.offset_walltime`
  unfoldable pub offset_walltime : ℤ → List P → Result (Unit {0}) × List P
  unfolding offset_step
  offset_walltime offset [] = (ok tt, [])
  offset_walltime offset (p ∷ ps) =
      offset_step (m.offset_walltime offset p) ps (offset_walltime offset ps)
