-- ===== src/Base/Count.antt =====
-- How often an element stands in a list.
use Prim.Native.Nat.{ℕ, suc, ◌+◌, ◌≤◌}
use mathlib.Core.Path.{◌≡◌, refl}
use mathlib.Core.Bool.{Bool, true}
use mathlib.Core.List.{List, [], ◌∷◌, ◌++◌, map}
use native.Mathlib.Omega.{arith}
use enoslib.Base.Tests.{if◌then◌else◌, Bool-cases}
use mathlib.Core.Logic.{inl, inr}
use enoslib.Base.Lists.{All}
use enoslib.Base.Eq.{Eq, ◌==◌, ==_refl, ==_comm, ==→≡}
use enoslib.Base.Sort.{insert, sorted, IsSorted}

module _ {ℓ} {A : Type ℓ} ⦃e : Eq A⦄ where
  abbrev pub count : A → List A → ℕ
  count a [] = 0
  count a (x ∷ xs) = if x == a then suc (count a xs) else count a xs

  -- The lists have the same elements, each as often.
  abbrev pub SameItems : List A → List A → Type ℓ
  SameItems xs ys = (a : A) → count a xs ≡ count a ys

  pub count-append : (a : A) (xs ys : List A) → count a (xs ++ ys) ≡ count a xs + count a ys
  count-append a [] ys = omega arith
  count-append a (x ∷ xs) ys = ground (arith, count-append a xs ys)

  module _ (le : A → A → Bool) where
    count-insert : (a x : A) (xs : List A) → count a (insert le x xs) ≡ count a (x ∷ xs)
    unfolding insert
    count-insert a x [] = refl
    count-insert a x (y ∷ ys) = ground (arith, count-insert a x ys)

    pub count-sorted : (a : A) (xs : List A) → count a (sorted le xs) ≡ count a xs
    unfolding sorted
    count-sorted a [] = refl
    count-sorted a (x ∷ xs) = ground (arith, count-insert a x (sorted le xs), count-sorted a xs)

    -- A bound of all the elements bounds one that is there.
    All-count :
        {b : A} (a : A) (xs : List A) → All (λ y. le b y ≡ true) xs → 1 ≤ count a xs → le b a ≡ true
    All-count a [] all h = absurd (omega (arith, h))
    All-count {b} a (x ∷ xs) all h =
        ground (arith, all.0, e.eqb_iff x a, All-count {b = b} a xs all.1)

    module _ (antisym : (a b : A) → le a b ≡ true → le b a ≡ true → a ≡ b) where
      heads_equal :
          (x y : A) (xs ys : List A)
          → IsSorted le (x ∷ xs)
          → IsSorted le (y ∷ ys)
          → SameItems (x ∷ xs) (y ∷ ys)
          → x ≡ y
      heads_equal x y xs ys s t h = elim (Bool-cases (x == y)) [
        | inl same ↦ ==→≡ x y same
        | inr other ↦
            antisym x y (All-count {b = x} y xs s.0 (ground (arith, h y, ==_refl y, other)))
              (All-count {b = y} x ys t.0 (ground (arith, h x, ==_refl x, other, ==_comm x y)))
      ]

      tails_same :
          (x y : A) (xs ys : List A) → x ≡ y → SameItems (x ∷ xs) (y ∷ ys) → SameItems xs ys
      tails_same x y xs ys same h a = ground (arith, h a, same)

      pub sorted_unique :
          (xs ys : List A) → IsSorted le xs → IsSorted le ys → SameItems xs ys → xs ≡ ys
      sorted_unique [] [] s t h = refl
      sorted_unique [] (y ∷ ys) s t h = absurd (ground (arith, h y, ==_refl y))
      sorted_unique (x ∷ xs) [] s t h = absurd (ground (arith, h x, ==_refl x))
      sorted_unique (x ∷ xs) (y ∷ ys) s t h =
          let same = heads_equal x y xs ys s t h in
          cc (same, sorted_unique xs ys s.1 t.1 (tails_same x y xs ys same h))

-- A list without the first of an element.
module _ {ℓ} {A : Type ℓ} ⦃e : Eq A⦄ where
  abbrev take_out : A → List A → List A
  take_out a [] = []
  take_out a (x ∷ xs) = if x == a then xs else x ∷ take_out a xs

  count-take_out :
      (a b : A) (xs : List A)
      → 1 ≤ count a xs
      → count b xs ≡ (if a == b then suc (count b (take_out a xs)) else count b (take_out a xs))
  count-take_out a b [] h = absurd (omega (arith, h))
  count-take_out a b (x ∷ xs) h = elim (Bool-cases (x == a)) [
    | inl same ↦ rw (same, ==→≡ x a same) refl
    | inr other ↦ ground (arith, h, other, count-take_out a b xs)
  ]

  module _ {κ} {B : Type κ} ⦃f : Eq B⦄ (g : A → B) where
    count-map-take_out :
        (a : A) (b : B) (xs : List A)
        → 1 ≤ count a xs
        → count b (map g xs) ≡ (
            if g a == b
            then suc (count b (map g (take_out a xs)))
            else count b (map g (take_out a xs)))
    count-map-take_out a b [] h = absurd (omega (arith, h))
    count-map-take_out a b (x ∷ xs) h = elim (Bool-cases (x == a)) [
      | inl same ↦ rw (same, ==→≡ x a same) refl
      | inr other ↦ ground (arith, h, other, count-map-take_out a b xs)
    ]

    -- Lists of the same elements have the same images.
    pub map-SameItems : (xs ys : List A) → SameItems xs ys → SameItems (map g xs) (map g ys)
    map-SameItems [] [] h b = refl
    map-SameItems [] (y ∷ ys) h b = absurd (ground (arith, h y, ==_refl y))
    map-SameItems (x ∷ xs) ys h b =
        let there : 1 ≤ count x ys = ground (arith, h x, ==_refl x) in
        let same : SameItems xs (take_out x ys) =
          λ a. ground (arith, h a, count-take_out x a ys there) in
        ground (arith, map-SameItems xs (take_out x ys) same b, count-map-take_out x b ys there)
