-- ===== src/Providers/Slot/Search.antt =====
-- The search of `find_slot` as a relation: one candidate after the other, each shown to the
-- providers in the world that the one before left.
use enoslib.Base.{
  ℕ, zero, suc, ◌+◌, ◌*◌, ◌<◌, ◌≡◌, refl, true, false, Bool-cases, ◌⊎◌, inl, inr, Option, some,
  List, arith,
}
use enoslib.Base.Int.{ℤ, pos, pos_part, neg_part, ◌≤ℤ◌, leb_ℤ, ◌+ℤ◌, +ℤ_parts}
use enoslib.Provider.{Provider, Result, ok, err, no_slot_error}
use enoslib.Providers.Slot.{time_increment, any_ko, find_loop, find_slot}

module _ {P W : Type 0} (m : Provider P W) (ps : List P) (end : ℤ) where
  -- `Search t w r w'`: from candidate `t` and world `w` the search ends with `r` in world `w'`.
  pub data Search : ℕ → W → Result ℕ → W → Type 0 where
    found :
        {t : ℕ} {w w' : W} → pos t ≤ℤ end → any_ko m ps t end w ≡ (false, w') → Search t w (ok t) w'
    skip :
        {t : ℕ} {w v w' : W} {r : Result ℕ}
        → pos t ≤ℤ end
        → any_ko m ps t end w ≡ (true, v)
        → Search (t + time_increment) v r w'
        → Search t w r w'
    over : {t : ℕ} {w : W} → ¬ (pos t ≤ℤ end) → Search t w (err no_slot_error) w

  abbrev pub Ends : ℕ → W → Option (Result ℕ × W) → Type 0
  Ends t w out = (r : Result ℕ) × (w' : W) × (out ≡ some (r, w')) × Search t w r w'

  -- The search returns a slot or raises NoSlotError, and this at once past the window.
  pub Search-cases :
      {t : ℕ} {w w' : W} {r : Result ℕ}
      → Search t w r w'
      → ((x : ℕ) × (r ≡ ok x) × (pos t ≤ℤ end)) ⊎ (r ≡ err no_slot_error)
  Search-cases {t} (found fits ko) = inl (t, refl, fits)
  Search-cases (skip fits ko s) = elim (Search-cases s) [
    | inl (x, e, later) ↦ inl (x, e, fits)
    | inr none_left ↦ inr none_left
  ]
  Search-cases (over past) = inr refl

  in_window : (t : ℕ) → leb_ℤ (pos t) end ≡ true → pos t ≤ℤ end
  in_window t h = ground arith

  not_in_window : (t : ℕ) → leb_ℤ (pos t) end ≡ false → ¬ (pos t ≤ℤ end)
  not_in_window t h = ground arith

  -- One round, given that the rounds behind it end.
  round-Ends :
      (fuel t : ℕ) (w : W)
      → (pos t ≤ℤ end
          → (v : W)
          → Ends (t + time_increment) v (find_loop m fuel ps end true (t + time_increment) v))
      → Ends t w (find_loop m (suc fuel) ps end true t w)
  unfolding find_loop
  round-Ends fuel t w later = elim (Bool-cases (leb_ℤ (pos t) end)) [
    | inl fits ↦ elim (Bool-cases (any_ko m ps t end w).0) [
      | inl ko ↦
          let (r, w', e, s) = later (in_window t fits) (any_ko m ps t end w).1 in
          (r, w', cc (fits, ko, e), skip (in_window t fits) (cc ko) s)
      | inr free ↦
          (ok t, (any_ko m ps t end w).1, rw (fits, free), found (in_window t fits) (cc free))
    ]
    | inr past ↦ (err no_slot_error, w, rw past, over (not_in_window t past))
  ]

  find_loop-Ends :
      (fuel t : ℕ) (w : W)
      → pos_part end < t + 300 * fuel + neg_part end
      → Ends t w (find_loop m (suc fuel) ps end true t w)
  find_loop-Ends zero t w h = round-Ends zero t w λ fits _. absurd (omega arith)
  find_loop-Ends (suc fuel) t w h =
      round-Ends (suc fuel) t w λ _ v. find_loop-Ends fuel (t + time_increment) v (omega arith)

-- `find_slot` always ends, and with what the search from `start_time` to the end of the window
-- gives: the candidates go up by 300 seconds, the first that every provider accepts in its world
-- is returned, and NoSlotError is raised once a candidate lies past the window.
pub find_slot-Search :
    {P W : Type 0} (m : Provider P W) (ps : List P) (time_window : ℤ) (start_time : ℕ) (w : W)
    → Ends m ps
        (pos start_time +ℤ time_window)
        start_time
        w
        (find_slot m ps time_window start_time w)
unfolding find_slot
find_slot-Search m ps time_window start_time w =
    find_loop-Ends m ps (pos start_time +ℤ time_window) _ start_time w
      (omega (arith, +ℤ_parts (pos start_time) time_window))
