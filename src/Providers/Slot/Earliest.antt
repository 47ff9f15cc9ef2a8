-- ===== src/Providers/Slot/Earliest.antt =====
-- What `find_slot` returns while the testbeds do not change: the earliest common slot.
use enoslib.Base.{
  ℕ, zero, suc, ◌+◌, ◌*◌, ◌<◌, ◌≡◌, refl, Bool, true, false, not, some, List, [], ◌∷◌, all, arith,
  ◌∙◌,
}
use enoslib.Base.Int.{ℤ, pos, ◌≤ℤ◌, ◌+ℤ◌}
use enoslib.Provider.{Provider, Result, ok, err, no_slot_error}
use enoslib.Providers.Slot.{time_increment, any_ko, find_slot}
use enoslib.Providers.Slot.Search.{Search, found, skip, over, find_slot-Search}

module _ {P W : Type 0} (m : Provider P W) (ps : List P) (end : ℤ) (w : W) where
  -- Every provider accepts candidate `t`.
  abbrev pub accepted : ℕ → Bool
  accepted t = all (λ p. (m.test_slot p t end w).0) ps

  -- The slot is in the window, all accept it, and none before it is accepted by all; or there is
  -- no such slot.
  abbrev pub IsEarliest : ℕ → Result ℕ → Type 0
  IsEarliest start (ok t) =
      (k : ℕ) × (t ≡ start + k * time_increment)
      × (pos t ≤ℤ end)
      × (accepted t ≡ true)
      × ((j : ℕ) → j < k → accepted (start + j * time_increment) ≡ false)
  IsEarliest start (err e) =
      (e ≡ no_slot_error)
      × ((j : ℕ)
          → pos (start + j * time_increment) ≤ℤ end
          → accepted (start + j * time_increment) ≡ false)

module _ {P W : Type 0} (m : Provider P W)
    (frozen : (p : P) (t : ℕ) (end : ℤ) (w : W) → (m.test_slot p t end w).1 ≡ w) where
  any_ko_frozen :
      (ps : List P) (t : ℕ) (end : ℤ) (w : W)
      → any_ko m ps t end w ≡ (not (accepted m ps end w t), w)
  unfolding any_ko
  any_ko_frozen [] t end w = refl
  any_ko_frozen (p ∷ ps) t end w = ground (arith, frozen p t end w, any_ko_frozen ps t end w)

  rejected_from :
      (ps : List P) (end : ℤ) (w : W) (t j : ℕ)
      → accepted m ps end w t ≡ false
      → ((i : ℕ)
          → j ≡ suc i
          → accepted m ps end w (t + time_increment + i * time_increment) ≡ false)
      → accepted m ps end w (t + j * time_increment) ≡ false
  rejected_from ps end w t zero h later = let e : t + 0 * 300 ≡ t = omega arith in rw e h
  rejected_from ps end w t (suc i) h later =
      let e : t + suc i * 300 ≡ t + 300 + i * 300 = omega arith in rw e (later i refl)

  skip-IsEarliest :
      (ps : List P) (end : ℤ) (w : W) (t : ℕ) (r : Result ℕ)
      → accepted m ps end w t ≡ false
      → IsEarliest m ps end w (t + time_increment) r
      → IsEarliest m ps end w t r
  skip-IsEarliest ps end w t (ok x) h (k, e, fits, all, before) = (
    suc k,
    omega arith,
    fits,
    all,
    λ j lt. rejected_from ps end w t j h λ i ji. before i (omega arith),
  )
  skip-IsEarliest ps end w t (err x) h (e, none_fits) =
      (e, λ j fits. rejected_from ps end w t j h λ i ji. none_fits i (omega arith))

  Search-IsEarliest :
      {ps : List P} {end : ℤ} {w w' : W} {t : ℕ} {r : Result ℕ}
      → Search m ps end t w r w'
      → IsEarliest m ps end w t r × (w' ≡ w)
  Search-IsEarliest {ps} {end} {w} {t = t} (found fits ko) = (
    (0, omega arith, fits, ground (arith, any_ko_frozen ps t end w), λ j h. absurd (omega arith)),
    ground (arith, any_ko_frozen ps t end w),
  )
  Search-IsEarliest {ps} {end} {w} {w'} {t} {r} (skip {v} fits ko s) =
      let same : v ≡ w = ground (arith, any_ko_frozen ps t end w) in
      let (later, stays) = Search-IsEarliest s in
      (
        skip-IsEarliest ps end w t r (ground (arith, any_ko_frozen ps t end w)) (rw same at later),
        stays ∙ same,
      )
  Search-IsEarliest {ps} {end} {w} {t = t} (over past) =
      ((refl, λ j fits. absurd (omega arith)), refl)

  -- While the answers of `test_slot` leave the testbeds as they are, `find_slot` ends; it returns
  -- the earliest candidate in the window that all providers accept, and raises NoSlotError only if
  -- there is none.
  pub find_slot-IsEarliest :
      (ps : List P) (time_window : ℤ) (start_time : ℕ) (w : W)
      → (r : Result ℕ) × (find_slot m ps time_window start_time w ≡ some (r, w))
        × IsEarliest m ps (pos start_time +ℤ time_window) w start_time r
  find_slot-IsEarliest ps time_window start_time w =
      let (r, w', e, s) = find_slot-Search m ps time_window start_time w in
      let (earliest, same) = Search-IsEarliest s in (r, rw same at e, earliest)
