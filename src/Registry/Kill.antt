-- ===== src/Registry/Kill.antt =====
-- `ProcessRegistry.kill_incr` (enoslib/registry/process.py) and `check_args`
-- (enoslib/registry/utils.py). `random.choice` takes the element at a drawn index, and `draw` gives
-- the draws; the result is the processes whose kill is called, in their order. Durations are seconds.
use enoslib.Base.{
  ℕ, zero, suc, ◌%◌, ◌≤◌, ◌≡◌, refl, min, Bool, true, false, Option, none, some, List, [], ◌∷◌,
  length, any, All, arith, if◌then◌else◌, Bool-cases, inl, inr,
}
use enoslib.Base.Int.{ℤ, pos, negsuc}
use enoslib.Base.Eq.{Eq, String_eq}
use enoslib.Registry.{ProcessGroup, ProcessRegistry, same_process, get_alive_processes}

-- What `check_args` raises on a number and an interval; `true` is that it raises nothing. The tests of
-- types hold for typed arguments, and the dates are not given here.
unfoldable pub check_args : ℤ → ℤ → Bool
check_args (pos (suc n)) (pos interval) = true
check_args number interval = false

module _ {H : Type 0} ⦃host_eq : Eq H⦄ where
  -- `_processes.pop(_processes.index(_p))`
  unfoldable pub pop_first : ProcessGroup H → List (ProcessGroup H) → List (ProcessGroup H)
  pop_first p [] = []
  pop_first p (q ∷ ps) = if same_process q p then ps else q ∷ pop_first p ps

  -- `random.choice(_processes)`
  unfoldable pub choice : ProcessGroup H → List (ProcessGroup H) → ℕ → ProcessGroup H
  choice p [] i = p
  choice p (q ∷ ps) zero = p
  choice p (q ∷ ps) (suc i) = choice q ps i

  -- `for _n in range(_nkill)`; an empty list ends it, for the choice would raise.
  unfoldable pub kill_loop : (ℕ → ℕ) → ℕ → List (ProcessGroup H) → List (ProcessGroup H)
  unfolding pop_first choice
  kill_loop draw zero ps = []
  kill_loop draw (suc n) [] = []
  kill_loop draw (suc n) (p ∷ ps) =
      let chosen = choice p ps (draw n % suc (length ps)) in
      chosen ∷ kill_loop draw n (pop_first chosen (p ∷ ps))

  -- `kill_incr`; `none` is the ValueError of `check_args`.
  unfoldable pub kill_incr : (ℕ → ℕ) → ProcessRegistry H → ℤ → ℤ → Option (List (ProcessGroup H))
  unfolding check_args kill_loop get_alive_processes
  kill_incr draw r (pos number) interval =
      let alive = (get_alive_processes r).processes in
      if check_args (pos number) interval
      then some (kill_loop draw (min number (length alive)) alive)
      else none
  kill_incr draw r (negsuc n) interval = none

  -- `p` equals one of the processes.
  abbrev pub is_in : List (ProcessGroup H) → ProcessGroup H → Bool
  is_in ps p = any (λ q. same_process q p) ps

  same_process_refl : (p : ProcessGroup H) → same_process p p ≡ true
  same_process_refl p =
      ground (arith, String_eq.eqb_iff p.group p.group, host_eq.eqb_iff p.host p.host)

  choice-is_in :
      (p : ProcessGroup H) (ps : List (ProcessGroup H)) (i : ℕ)
      → is_in (p ∷ ps) (choice p ps i) ≡ true
  unfolding choice
  choice-is_in p [] i = ground (arith, same_process_refl p)
  choice-is_in p (q ∷ ps) zero = ground (arith, same_process_refl p)
  choice-is_in p (q ∷ ps) (suc i) = ground (arith, choice-is_in q ps i)

  length-pop_first :
      (p : ProcessGroup H) (ps : List (ProcessGroup H))
      → is_in ps p ≡ true
      → suc (length (pop_first p ps)) ≡ length ps
  unfolding pop_first
  length-pop_first p [] h = ground (arith, h)
  length-pop_first p (q ∷ ps) h = elim (Bool-cases (same_process q p)) [
    | inl here ↦ rw here refl
    | inr later ↦ rw later (omega (arith, length-pop_first p ps (ground (arith, later))))
  ]

  is_in-pop_first :
      (p q : ProcessGroup H) (ps : List (ProcessGroup H))
      → is_in (pop_first p ps) q ≡ true
      → is_in ps q ≡ true
  unfolding pop_first
  is_in-pop_first p q [] h = h
  is_in-pop_first p q (x ∷ ps) h = ground (arith, is_in-pop_first p q ps)

  All-weaken :
      (P Q : ProcessGroup H → Type 0) (ps : List (ProcessGroup H))
      → ((p : ProcessGroup H) → P p → Q p)
      → All P ps
      → All Q ps
  All-weaken P Q [] f all = tt
  All-weaken P Q (p ∷ ps) f all = (f p all.0, All-weaken P Q ps f all.1)

  kill_loop-All :
      (draw : ℕ → ℕ) (n : ℕ) (ps : List (ProcessGroup H))
      → n ≤ length ps
      → (length (kill_loop draw n ps) ≡ n) × All (λ p. is_in ps p ≡ true) (kill_loop draw n ps)
  unfolding kill_loop
  kill_loop-All draw zero ps h = (refl, tt)
  kill_loop-All draw (suc n) [] h = absurd (omega (arith, h))
  kill_loop-All draw (suc n) (p ∷ ps) h =
      let i : ℕ = draw n % suc (length ps) in
      let chosen : ProcessGroup H = choice p ps i in
      let (count, all) =
        kill_loop-All draw n (pop_first chosen (p ∷ ps))
          (omega (arith, h, length-pop_first chosen (p ∷ ps) (choice-is_in p ps i))) in
      (
        omega (arith, count),
        (
          choice-is_in p ps i,
          All-weaken _ _ (kill_loop draw n (pop_first chosen (p ∷ ps)))
              (λ q. is_in-pop_first chosen q (p ∷ ps)) all,
        ),
      )

  -- For a positive number and an interval that is not negative, `kill_incr` kills as many processes
  -- as asked for, or all alive ones if there are fewer, and each is one of the alive ones; whatever
  -- is drawn.
  kill_incr-All :
      (draw : ℕ → ℕ) (r : ProcessRegistry H) (n interval : ℕ)
      → (killed : List (ProcessGroup H)) × (kill_incr draw r (pos (suc n)) (pos interval)
          ≡ some killed)
        × (length killed ≡ min (suc n) (length (get_alive_processes r).processes))
        × All (λ p. is_in (get_alive_processes r).processes p ≡ true) killed
  unfolding kill_incr
  kill_incr-All draw r n interval =
      let alive = (get_alive_processes r).processes in
      let (count, all) = kill_loop-All draw (min (suc n) (length alive)) alive (omega arith) in
      (kill_loop draw (min (suc n) (length alive)) alive, refl, count, all)
