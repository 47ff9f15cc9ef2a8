-- ===== src/Collections/ResourcesSet/Index.antt =====
-- Indexing goes by the sorted data.
use enoslib.Base.{
  ℕ, zero, suc, ◌+◌, ◌-◌, ◌<◌, ◌≡◌, refl, Bool, Option, some, List, [], ◌∷◌, length, filterb, arith,
  Bool-cases, inl, inr, Option-cases,
}
use enoslib.Base.Int.{ℤ, pos, negsuc}
use enoslib.Base.Eq.{Eq, ◌==◌}
use enoslib.Base.Sort.{sorted}
use enoslib.Collections.ResourcesSet.{get_elem?, list_index, first, item}

module _ {ℓ} {A : Type ℓ} ⦃e : Eq A⦄ where
  first_equal :
      (xs : List A) (i : ℕ) (a : A)
      → get_elem? xs i ≡ some a
      → first (filterb (λ elem. elem == a) xs) ≡ some a
  unfolding first
  first_equal [] i a h = cc
  first_equal (x ∷ xs) zero a h = ground (arith, e.eqb_iff x a)
  first_equal (x ∷ xs) (suc i) a h = elim (Bool-cases (x == a)) [
    | inl same ↦ ground (arith, e.eqb_iff x a)
    | inr other ↦ rw other (first_equal xs i a h)
  ]

  first_equal_index :
      (xs : List A) (i : ℤ) (a : A)
      → list_index xs i ≡ some a
      → first (filterb (λ elem. elem == a) xs) ≡ some a
  unfolding list_index
  first_equal_index xs (pos i) a h = first_equal xs i a h
  first_equal_index xs (negsuc i) a h = first_equal xs (length xs - (i + 1)) a (ground arith)

  -- `self[i]`, at a negative index too, is the element at `i` of the sorted data, and an IndexError
  -- if there is none there.
  item-eq-list_index :
      (le : A → A → Bool) (xs : List A) (i : ℤ) → item le xs i ≡ list_index (sorted le xs) i
  unfolding item
  item-eq-list_index le xs i = elim (Option-cases (list_index (sorted le xs) i)) [
    | inl missing ↦ rw (missing, item)
    | inr (a, found) ↦ rw (found, item) (first_equal_index (sorted le xs) i a found)
  ]

  -- Each index below the length of the data has an item.
  abbrev HasItem : Option A → Type ℓ
  HasItem o = (a : A) × (o ≡ some a)

  get_elem?-HasItem : (xs : List A) (i : ℕ) → i < length xs → HasItem (get_elem? xs i)
  get_elem?-HasItem [] i h = elim h [ ]
  get_elem?-HasItem (x ∷ xs) zero h = (x, refl)
  get_elem?-HasItem (x ∷ xs) (suc i) h = get_elem?-HasItem xs i (omega arith)
