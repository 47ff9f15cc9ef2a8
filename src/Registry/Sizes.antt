-- ===== src/Registry/Sizes.antt =====
-- The size of a registry, and the access by index that depends on it.
use enoslib.Base.{
  ℕ, zero, suc, ◌+◌, ◌<◌, Bool, true, false, ◌≡◌, refl, List, [], ◌∷◌, ◌++◌, arith, length,
  length-append, any, Bool-cases, inl, inr, filterb, ap, if◌then◌else◌,
}
use native.Mathlib.Nat.{mod-lt, zero-lt-suc}
use enoslib.Base.Int.{ℤ, pos, negsuc}
use enoslib.Base.Eq.{Eq, String_eq}
use enoslib.Registry.{
  ProcessGroup, ProcessRegistry, Result, ok, zero_division, index_error, State, dead, alive,
  is_dead, is_alive, append, get_dead_processes, get_alive_processes, lookup, refresh_loop, get, at,
  at_modulo, modulo, same_process, set_state, select, counted,
}

modulo-bound : (index : ℤ) (n : ℕ) → modulo index (suc n) < suc n
unfolding modulo
modulo-bound (pos m) n = mod-lt m (zero-lt-suc n)
modulo-bound (negsuc m) n = omega arith

alive-dead : (s : State) → is_alive s ≡ (if is_dead s then false else true)
alive-dead dead = refl
alive-dead alive = refl

module _ {A : Type 0} where
  -- The outcome of an access is an element of the list.
  abbrev pub Within : List A → Result A → Type 0
  Within xs (ok x) = (before : List A) × (after : List A) × (xs ≡ before ++ x ∷ after)
  Within xs zero_division = length xs ≡ 0
  Within xs index_error = ⊥

  Within-cons :
      (y : A) (xs : List A) (r : Result A) → 0 < length xs → Within xs r → Within (y ∷ xs) r
  Within-cons y xs (ok x) h w = (y ∷ w.0, w.1, ap (λ l. y ∷ l) w.2)
  Within-cons y xs zero_division h w = omega (arith, h, w)
  Within-cons y xs index_error h w = w

  at-Within : (xs : List A) (n : ℕ) → n < length xs → Within xs (at xs n)
  unfolding at
  at-Within [] n h = ground (arith, h)
  at-Within (x ∷ xs) zero h = ([], xs, refl)
  at-Within (x ∷ xs) (suc n) h =
      Within-cons x xs (at xs n) (omega (arith, h)) (at-Within xs n (omega (arith, h)))

  at_modulo-Within :
      (xs : List A) (size : ℕ) (index : ℤ) → size ≡ length xs → Within xs (at_modulo xs size index)
  unfolding at_modulo
  at_modulo-Within [] zero index h = refl
  at_modulo-Within (x ∷ xs) zero index h = omega (arith, h)
  at_modulo-Within xs (suc n) index h =
      at-Within xs (modulo index (suc n)) (omega (arith, h, modulo-bound index n))

module _ {H : Type 0} where
  -- The size is the number of the processes.
  abbrev pub IsSized : ProcessRegistry H → Type 0
  IsSized r = r.size ≡ length r.processes

  -- An access by any index gives a process of the registry where the size is right, and is a
  -- division by zero only where the registry is empty.
  get-Within : (r : ProcessRegistry H) (index : ℤ) → IsSized r → Within r.processes (get r index)
  unfolding get
  get-Within r index h = at_modulo-Within r.processes r.size index h

module _ {H : Type 0} ⦃host_eq : Eq H⦄ where
  -- A sub-registry, of some hosts or of the processes in one state, has the right size, and adding
  -- processes or setting their state keeps it.
  pub lookup-IsSized : (r : ProcessRegistry H) (hs : List H) → IsSized (lookup r hs)
  unfolding lookup counted
  lookup-IsSized r hs = refl

  select-counts :
      (p : ProcessGroup H → Bool) (q : ProcessGroup H → Bool) (ps : List (ProcessGroup H))
      → ((x : ProcessGroup H) → q x ≡ (if p x then false else true))
      → length (filterb p ps) + length (filterb q ps) ≡ length ps
  select-counts p q [] h = omega arith
  select-counts p q (x ∷ ps) h = ground (arith, select-counts p q ps h, h x)

  -- The dead and the alive processes are together as many as the processes.
  get_dead_processes-get_alive_processes :
      (r : ProcessRegistry H)
      → (get_dead_processes r).size + (get_alive_processes r).size ≡ length r.processes
  unfolding get_dead_processes get_alive_processes select
  get_dead_processes-get_alive_processes r =
      select-counts (λ p. is_dead p.state) (λ p. is_alive p.state) r.processes
        (λ x. alive-dead x.state)

  pub refresh_loop-size :
      (ps : List (ProcessGroup H)) (r : ProcessRegistry H)
      → (refresh_loop ps r).size + length r.processes
        ≡ r.size + length (refresh_loop ps r).processes
  unfolding refresh_loop append
  refresh_loop-size [] r = refl
  refresh_loop-size (p ∷ ps) r = elim (Bool-cases (any (same_process p) r.processes)) [
    | inl known ↦ rw known (refresh_loop-size ps r)
    | inr died ↦ rw died (
        omega (
          arith,
          refresh_loop-size ps (append r (set_state dead p)),
          length-append r.processes (set_state dead p ∷ []),
        ))
  ]
