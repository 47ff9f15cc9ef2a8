-- ===== src/VirtualMachines/Placement.antt =====
-- Where the virtual machines are placed.
use enoslib.Base.{
  ℕ, zero, suc, ◌%◌, ◌≤◌, ◌<◌, ◌≡◌, refl, ap, ◌∙◌, some, List, [], ◌∷◌, length, arith,
}
use native.Mathlib.Nat.{mod-lt, zero-lt-suc}
use enoslib.Collections.ResourcesSet.{get_elem?}
use enoslib.VirtualMachines.{cycle_at, cons_vm, place}

module _ {A : Type 0} where
  get_elem-bound : (xs : List A) (i : ℕ) → i < length xs → (x : A) × (get_elem? xs i ≡ some x)
  get_elem-bound [] i h = absurd (omega (arith, h))
  get_elem-bound (x ∷ xs) zero h = (x, refl)
  get_elem-bound (x ∷ xs) (suc i) h = get_elem-bound xs i (omega (arith, h))

  cycle_at-IsSome : (xs : List A) (i : ℕ) → 0 < length xs → (x : A) × (cycle_at xs i ≡ some x)
  unfolding cycle_at
  cycle_at-IsSome [] i h = absurd (omega (arith, h))
  cycle_at-IsSome (x ∷ xs) i h =
      get_elem-bound (x ∷ xs) (i % suc (length xs)) (mod-lt i (zero-lt-suc (length xs)))

module _ {P M V : Type 0} (vm : P → M → V) where
  -- From turn `i` on, each virtual machine has the next MAC and the physical machine of its turn.
  abbrev pub IsPlaced : List P → List M → ℕ → List V → Type 0
  IsPlaced pms macs i [] = Unit
  IsPlaced pms [] i (v ∷ vms) = ⊥
  IsPlaced pms (mac ∷ macs) i (v ∷ vms) =
      ((pm : P) × (cycle_at pms i ≡ some pm) × (v ≡ vm pm mac)) × IsPlaced pms macs (suc i) vms

  -- With a physical machine and enough MACs, the loop of `_distribute` makes as many virtual
  -- machines of a demand as it asks for, each with the next MAC and on the physical machine of its
  -- turn, in a cycle that goes round them.
  pub place-IsPlaced :
      (pms : List P) (number : ℕ) (macs : List M) (i : ℕ)
      → 0 < length pms
      → number ≤ length macs
      → (vms : List V) × (place vm pms number macs i ≡ some vms)
        × (length vms ≡ number)
        × IsPlaced pms macs i vms
  unfolding place
  place-IsPlaced pms zero macs i h enough = ([], refl, refl, tt)
  place-IsPlaced pms (suc n) [] i h enough = absurd (omega (arith, enough))
  place-IsPlaced pms (suc n) (mac ∷ macs) i h enough =
      let (pm, e) = cycle_at-IsSome pms i h in
      let (vms, placed, count, rest) =
        place-IsPlaced pms n macs (suc i) h (omega (arith, enough)) in
      (
        vm pm mac ∷ vms,
        ap (λ o. cons_vm vm o mac (place vm pms n macs (suc i))) e
            ∙ (ap (cons_vm vm (some pm) mac) placed),
        omega (arith, count),
        ((pm, e, refl), rest),
      )
