-- ===== src/Providers/Reserve/Total.antt =====
-- `_reserve` ends, whatever the testbeds answer.
use enoslib.Base.{
  ℕ, zero, suc, ◌+◌, ◌<◌, ◌≡◌, refl, Option, none, some, List, [], ◌∷◌, inl, inr, arith,
}
use enoslib.Base.Int.{ℤ, pos, negsuc, ◌≤ℤ◌, pos_part, neg_part, sub_ℕ, ◌+ℤ◌, +ℤ_parts}
use enoslib.Provider.{
  invalid_reservation_time, invalid_reservation_critical, no_slot_error, Outcome, Provider, Result,
  ok, err,
}
use enoslib.Providers.Slot.Search.{find_slot-Search, Search-cases}
use enoslib.Providers.Reserve.{
  start_slot, find_slot_and_start, destroy_all, destroy_then, next_start, except_reserve,
  reserve_loop, reserve, window_or_default,
}

open_window : (start : ℕ) (z : ℤ) → pos start ≤ℤ (pos start +ℤ z) → neg_part z ≡ 0
open_window start (pos n) h = refl
open_window start (negsuc n) h = absurd (omega (arith, +ℤ_parts (pos start) (negsuc n)))

-- The next window is shorter, or is over.
shrinks :
    (start hint : ℕ) (z : ℤ)
    → neg_part z ≡ 0
    → pos_part (z +ℤ sub_ℕ start (next_start start hint))
      < pos_part z + neg_part (z +ℤ sub_ℕ start (next_start start hint))
unfolding next_start
shrinks start hint z h = ground (arith, +ℤ_parts z (sub_ℕ start (next_start start hint)))

module _ {P W : Type 0} (m : Provider P W) where
  abbrev IsDone : Option (Outcome (List P) W) → Type 0
  IsDone out = (o : Outcome (List P) W) × (out ≡ some o)

  -- A hint for another start is given only inside the window.
  abbrev HintsInside : ℤ → Option (Outcome (List P) W) → Type 0
  HintsInside time_window out =
      (o : Outcome (List P) W) × (out ≡ some o)
      × ((hint : ℕ) → o.0 ≡ err (invalid_reservation_time hint) → neg_part time_window ≡ 0)

  start_slot-HintsInside :
      (rest ps : List P) (start_time : ℕ) (time_window : ℤ) (w : W)
      → HintsInside time_window (start_slot m rest ps start_time time_window w)
  unfolding start_slot
  start_slot-HintsInside [] ps start_time time_window w = (_, refl, λ hint e. cc)
  start_slot-HintsInside (p ∷ rest) ps start_time time_window w =
      let (r, w', e, s) = find_slot-Search m (p ∷ rest) time_window start_time w in
      elim (Search-cases m (p ∷ rest) _ s) [
        | inl (x, found, fits) ↦
            rw (e, found) (_, refl, λ hint h. open_window start_time time_window fits)
        | inr over ↦ rw (e, over) (_, refl, λ hint h. cc)
      ]

  destroy_then-IsDone :
      (ps : List P) (w : W) (next : List P → W → Option (Outcome (List P) W))
      → ((ps : List P) (w : W) → IsDone (next ps w))
      → IsDone (destroy_then m ps w next)
  unfolding destroy_then
  destroy_then-IsDone ps w next h = finish (destroy_all m ps w).0 (destroy_all m ps w).1
    where
      finish :
          (r : Result (Unit {0})) (s : List P × W)
          → IsDone (elim r [ ok _ ↦ next s.0 s.1 | err e ↦ some (err e, s) ])
      finish (ok _) (ps', w') = h ps' w'
      finish (err e) s = (_, refl)

  -- A round ends, if the round behind it does for a hint inside the window.
  except_reserve-IsDone :
      (ps : List P) (start_time : ℕ) (time_window : ℤ) (out : Option (Outcome (List P) W))
      → (again : ℤ → ℕ → List P → W → Option (Outcome (List P) W)) → HintsInside time_window out
      → (neg_part time_window ≡ 0
          → (z : ℤ) (t : ℕ) (ps : List P) (w : W) → pos_part z < pos_part time_window + neg_part z
          → IsDone (again z t ps w))
      → IsDone (except_reserve m ps start_time time_window out again)
  unfolding except_reserve
  except_reserve-IsDone ps start_time time_window none again (o, e, h) next = cc
  except_reserve-IsDone ps start_time time_window (some (ok _, s)) again h next = (_, refl)
  except_reserve-IsDone ps start_time time_window
        (some (err (invalid_reservation_time hint), (_, w))) again (o, e, h) next =
      destroy_then-IsDone ps w _ λ ps' w'.
        let inside : neg_part time_window ≡ 0 = h hint (cc) in
        next inside (time_window +ℤ sub_ℕ start_time (next_start start_time hint))
          (next_start start_time hint) ps' w' (shrinks start_time hint time_window inside)
  except_reserve-IsDone ps start_time time_window (some (err no_slot_error, (_, w))) again h next =
      destroy_then-IsDone ps w _ λ ps' w'. ((err invalid_reservation_critical, (ps', w')), refl)
  except_reserve-IsDone ps start_time time_window (some (err _, (_, w))) again h next = (_, refl)

  reserve_loop-IsDone :
      (fuel : ℕ) (time_window : ℤ) (start_time : ℕ) (ps : List P) (w : W)
      → pos_part time_window < fuel + neg_part time_window
      → IsDone (reserve_loop m (suc fuel) time_window start_time ps w)
  unfolding reserve_loop find_slot_and_start
  reserve_loop-IsDone zero time_window start_time ps w h =
      except_reserve-IsDone ps start_time time_window _ _
        (start_slot-HintsInside _ ps start_time time_window w) λ inside. absurd (omega arith)
  reserve_loop-IsDone (suc fuel) time_window start_time ps w h =
      except_reserve-IsDone ps start_time time_window _ _
        (start_slot-HintsInside _ ps start_time time_window w)
        λ inside z t ps' w' lt. reserve_loop-IsDone fuel z t ps' w' (omega arith)

-- `_reserve` always ends: `window + 2` rounds of its loop are enough.
pub reserve-IsDone :
    {P W : Type 0} (m : Provider P W) (time_window start_time : Option ℤ) (ps : List P) (w : W)
    → (o : Outcome (List P) W) × (reserve m time_window start_time ps w ≡ some o)
unfolding reserve
reserve-IsDone m time_window start_time ps w =
    reserve_loop-IsDone m _ (pos (window_or_default time_window)) _ ps _ (omega arith)
