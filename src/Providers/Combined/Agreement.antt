-- ===== src/Providers/Combined/Agreement.antt =====
-- `Providers` agrees with the functions that look at its providers one by one.
use enoslib.Base.{ℕ, ◌≡◌, refl, Bool, true, false, not, List, [], ◌∷◌, Bool-cases, inl, inr}
use enoslib.Base.Int.{ℤ}
use enoslib.Provider.{Provider}
use enoslib.Providers.Slot.{any_ko}
use enoslib.Providers.Reserve.{pending}
use enoslib.Providers.Combined.{test_slot, is_created}

module _ {P W : Type 0} (m : Provider P W) where
  -- `Providers.test_slot` accepts a slot exactly if the inner loop of `find_slot` does over the same
  -- providers, and asks the same providers.
  test_slot-any_ko :
      (ps : List P) (start_time : ℕ) (end_time : ℤ) (w : W)
      → test_slot m ps start_time end_time w
        ≡ (not (any_ko m ps start_time end_time w).0, (any_ko m ps start_time end_time w).1)
  unfolding test_slot any_ko
  test_slot-any_ko [] start_time end_time w = refl
  test_slot-any_ko (p ∷ ps) start_time end_time w =
      elim (Bool-cases (m.test_slot p start_time end_time w).0) [
        | inl accepts ↦ rw accepts (test_slot-any_ko ps start_time end_time _)
        | inr refuses ↦ rw refuses refl
      ]

  abbrev pub is_nil : List P → Bool
  is_nil [] = true
  is_nil (p ∷ ps) = false

  -- `Providers.is_created` holds exactly if `find_slot_and_start` has no provider left to start.
  is_created-pending : (ps : List P) (w : W) → is_created m ps w ≡ is_nil (pending m ps w)
  unfolding is_created pending
  is_created-pending [] w = refl
  is_created-pending (p ∷ ps) w = elim (Bool-cases (m.is_created p w)) [
    | inl created ↦ rw created (is_created-pending ps w)
    | inr missing ↦ rw missing refl
  ]
