-- ===== src/Emul/Constraints/Laws.antt =====
-- The last constraint of a kind overwrites the ones before.
use enoslib.Base.{
  Bool, true, false, not, ◌≡◌, refl, ◌∙◌, ap, Option, none, some, List, [], ◌∷◌, filterb, any,
  if◌then◌else◌, Bool-cases, inl, inr, arith,
}
use enoslib.Base.Eq.{Eq, ◌==◌, ==_refl}
use enoslib.Collections.ResourcesSet.{contains, add, remove, discard}
use enoslib.Emul.Constraints.{discard_all, add_constraint, add_constraints}

-- `equal` is an equivalence.
pub record IsEquivalence {ℓ} {C : Type ℓ} (equal : C → C → Bool) : Type ℓ where
  pub reflexive : (a : C) → equal a a ≡ true
  pub symmetric : (a b : C) → equal a b ≡ equal b a
  pub transitive : (a b c : C) → equal a b ≡ true → equal a c ≡ equal b c

module _ {ℓ} {C : Type ℓ} (equal : C → C → Bool) where
  -- The constraint that is equal to `c` in this context.
  abbrev pub find : C → List C → Option C
  find c [] = none
  find c (x ∷ xs) = if equal c x then some x else find c xs

  -- No two constraints are equal in this context.
  abbrev pub IsExclusive : List C → Type 0
  IsExclusive [] = Unit
  IsExclusive (x ∷ xs) = (any (equal x) xs ≡ false) × IsExclusive xs

  abbrev others : C → List C → List C
  others c = filterb (λ x. not (equal c x))

module _ {ℓ} {C : Type ℓ} ⦃e : Eq C⦄ {equal : C → C → Bool}
    (equivalence : IsEquivalence equal) where
  open equivalence use {reflexive, symmetric, transitive}

  contains-filterb :
      (p : C → Bool) (xs : List C) (c : C) → p c ≡ false → contains (filterb p xs) c ≡ false
  unfolding contains
  contains-filterb p [] c h = refl
  contains-filterb p (x ∷ xs) c h = ground (arith, contains-filterb p xs c h, e.eqb_iff x c)

  discard-cons_ne :
      (x c : C) (xs : List C) → (x == c) ≡ false → discard (x ∷ xs) c ≡ x ∷ discard xs c
  unfolding discard contains remove
  discard-cons_ne x c xs h = elim (Bool-cases (contains xs c)) [
    | inl old ↦ rw (h, old)
    | inr new ↦ rw (h, new)
  ]

  discard-cons_self : (x : C) (xs : List C) → discard (x ∷ xs) x ≡ xs
  unfolding discard contains remove
  discard-cons_self x xs = rw ==_refl

  discard_all-cons :
      (x : C) (xs cs : List C)
      → contains cs x ≡ false
      → discard_all (x ∷ xs) cs ≡ x ∷ discard_all xs cs
  unfolding discard_all contains
  discard_all-cons x xs [] h = refl
  discard_all-cons x xs (c ∷ cs) h =
      rw (discard-cons_ne x c xs (ground (arith, e.eqb_iff x c, e.eqb_iff c x)))
        (discard_all-cons x (discard xs c) cs (ground arith))

  discard_all-matched :
      (c : C) (xs : List C) → discard_all xs (filterb (equal c) xs) ≡ others equal c xs
  unfolding discard_all
  discard_all-matched c [] = refl
  discard_all-matched c (x ∷ xs) = elim (Bool-cases (equal c x)) [
    | inl same ↦ rw same (
        ap (λ ys. discard_all ys (filterb (equal c) xs)) (discard-cons_self x xs)
        ∙ discard_all-matched c xs)
    | inr other ↦
        rw (other, discard_all-cons x xs _ (contains-filterb (equal c) xs x other))
          (ap (λ ys. x ∷ ys) (discard_all-matched c xs))
  ]

  add_constraint_lem : (xs : List C) (c : C) → add_constraint equal xs c ≡ c ∷ others equal c xs
  unfolding add_constraint add
  add_constraint_lem xs c =
      rw (discard_all-matched c xs, contains-filterb (λ x. not (equal c x)) xs c (rw reflexive))

  find-others :
      (d c : C) (xs : List C)
      → equal d c ≡ false
      → find equal d (others equal c xs) ≡ find equal d xs
  find-others d c [] h = refl
  find-others d c (x ∷ xs) h =
      ground (arith, find-others d c xs h, transitive d x c, symmetric x c, symmetric c x)

  find-add_constraint :
      (xs : List C) (c d : C)
      → find equal d (add_constraint equal xs c) ≡ (if equal d c then some c else find equal d xs)
  find-add_constraint xs c d = rw add_constraint_lem (ground (arith, find-others d c xs))

  any-others :
      (p : C → Bool) (c : C) (xs : List C) → any p xs ≡ false → any p (others equal c xs) ≡ false
  any-others p c [] h = refl
  any-others p c (x ∷ xs) h = ground (arith, any-others p c xs)

  others-any : (c : C) (xs : List C) → any (equal c) (others equal c xs) ≡ false
  others-any c [] = refl
  others-any c (x ∷ xs) = ground (arith, others-any c xs)

  others-IsExclusive :
      (c : C) (xs : List C) → IsExclusive equal xs → IsExclusive equal (others equal c xs)
  others-IsExclusive c [] h = tt
  others-IsExclusive c (x ∷ xs) h = elim (Bool-cases (equal c x)) [
    | inl same ↦ rw same (others-IsExclusive c xs h.1)
    | inr other ↦ rw other (any-others (equal x) c xs h.0, others-IsExclusive c xs h.1)
  ]

  add_constraint-IsExclusive :
      (xs : List C) (c : C) → IsExclusive equal xs → IsExclusive equal (add_constraint equal xs c)
  add_constraint-IsExclusive xs c h =
      rw add_constraint_lem (others-any c xs, others-IsExclusive c xs h)

  -- What is found last.
  abbrev pub find_last : C → List C → Option C → Option C
  find_last d [] before = before
  find_last d (c ∷ cs) before = find_last d cs (if equal d c then some c else before)

  -- If no two constraints are equal in this context, then after `add_constraints` no two constraints are equal in this context, and the one of each kind
  -- is the last that was added, or the old one where none was.
  pub add_constraints_lem :
      (xs cs : List C)
      → IsExclusive equal xs
      → IsExclusive equal (add_constraints equal xs cs)
        × ((d : C) → find equal d (add_constraints equal xs cs) ≡ find_last d cs (find equal d xs))
  unfolding add_constraints
  add_constraints_lem xs [] h = (h, λ d. refl)
  add_constraints_lem xs (c ∷ cs) h =
      let (exclusive, found) =
        add_constraints_lem (add_constraint equal xs c) cs (add_constraint-IsExclusive xs c h) in
      (exclusive, λ d. found d ∙ ap (find_last d cs) (find-add_constraint xs c d))
