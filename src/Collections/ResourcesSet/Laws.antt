-- ===== src/Collections/ResourcesSet/Laws.antt =====
-- The operations are those of finite sets: membership decides all, and no element stands twice.
use enoslib.Base.{
  ◌≡◌, refl, false, ◌&&◌, ◌||◌, not, Option, some, List, [], ◌∷◌, arith, Bool-cases, inl, inr,
}
use enoslib.Base.Eq.{Eq, ◌==◌}
use enoslib.Collections.ResourcesSet.{
  contains, add, remove, discard, remove_or_raise, resources_discard, union, difference,
}

module _ {ℓ} {A : Type ℓ} ⦃e : Eq A⦄ where
  -- No element stands twice in the data.
  abbrev pub IsSetData : List A → Type 0
  IsSetData [] = Unit
  IsSetData (x ∷ xs) = (contains xs x ≡ false) × IsSetData xs

  pub contains-add :
      (xs : List A) (x key : A) → contains (add xs x) key ≡ (x == key || contains xs key)
  unfolding add contains
  contains-add xs x key = ground (arith, e.eqb_iff x key)

  pub contains-union :
      (xs ys : List A) (key : A) → contains (union xs ys) key ≡ (contains xs key || contains ys key)
  unfolding union contains
  contains-union xs [] key = ground arith
  contains-union xs (y ∷ ys) key =
      ground (arith, contains-union xs ys key, contains-add (union xs ys) y key)

  pub contains-difference :
      (xs ys : List A) (key : A)
      → contains (difference xs ys) key ≡ (contains xs key && not (contains ys key))
  unfolding difference contains
  contains-difference [] ys key = refl
  contains-difference (x ∷ xs) ys key =
      ground (arith, contains-difference xs ys key, e.eqb_iff x key)

  pub contains-remove :
      (xs : List A) (x key : A)
      → IsSetData xs
      → contains (remove xs x) key ≡ (contains xs key && not (x == key))
  unfolding remove contains
  contains-remove [] x key s = refl
  contains-remove (y ∷ ys) x key s =
      ground (arith, contains-remove ys x key s.1, e.eqb_iff y x, e.eqb_iff x key, e.eqb_iff y key)

  pub contains-discard :
      (xs : List A) (x key : A)
      → IsSetData xs
      → contains (discard xs x) key ≡ (contains xs key && not (x == key))
  unfolding discard
  contains-discard xs x key s = ground (arith, contains-remove xs x key s, e.eqb_iff x key)

  pub add-IsSetData : (xs : List A) (x : A) → IsSetData xs → IsSetData (add xs x)
  unfolding add
  add-IsSetData xs x s = elim (Bool-cases (contains xs x)) [
    | inl old ↦ rw old s
    | inr new ↦ rw new (new, s)
  ]

  pub union-IsSetData : (xs ys : List A) → IsSetData xs → IsSetData (union xs ys)
  unfolding union
  union-IsSetData xs [] s = s
  union-IsSetData xs (y ∷ ys) s = add-IsSetData (union xs ys) y (union-IsSetData xs ys s)

  pub difference-IsSetData : (xs ys : List A) → IsSetData xs → IsSetData (difference xs ys)
  unfolding difference
  difference-IsSetData [] ys s = tt
  difference-IsSetData (x ∷ xs) ys s = elim (Bool-cases (contains ys x)) [
    | inl old ↦ rw old (difference-IsSetData xs ys s.1)
    | inr new ↦
        rw new (ground (arith, contains-difference xs ys x, s.0), difference-IsSetData xs ys s.1)
  ]

  pub remove-IsSetData : (xs : List A) (x : A) → IsSetData xs → IsSetData (remove xs x)
  unfolding remove
  remove-IsSetData [] x s = tt
  remove-IsSetData (y ∷ ys) x s = elim (Bool-cases (y == x)) [
    | inl same ↦ rw same s.1
    | inr other ↦
        rw other (ground (arith, contains-remove ys x y s.1, s.0), remove-IsSetData ys x s.1)
  ]

  pub discard-IsSetData : (xs : List A) (x : A) → IsSetData xs → IsSetData (discard xs x)
  unfolding discard
  discard-IsSetData xs x s = elim (Bool-cases (contains xs x)) [
    | inl old ↦ rw old (remove-IsSetData xs x s)
    | inr new ↦ rw new s
  ]

  -- `discard` raises no KeyError: it removes only what is there.
  resources_discard-discard :
      (xs : List A) (x : A)
      → ◌≡◌ {A = Option (List A)} (resources_discard xs x) (some (discard xs x))
  unfolding resources_discard remove_or_raise discard
  resources_discard-discard xs x = elim (Bool-cases (contains xs x)) [
    | inl there ↦ rw there refl
    | inr gone ↦ rw gone refl
  ]

  -- What the operations make of the data: no element stands twice, and membership is that of the
  -- set operation.
  pub record Behaves (xs ys : List A) (x : A) : Type ℓ where
    pub keeps_add : IsSetData (add xs x)
    pub keeps_discard : IsSetData (discard xs x)
    pub keeps_union : IsSetData (union xs ys)
    pub keeps_difference : IsSetData (difference xs ys)
    pub adds : (key : A) → contains (add xs x) key ≡ (x == key || contains xs key)
    -- No KeyError is raised.
    pub returns_discard : resources_discard xs x ≡ some (discard xs x)
    pub discards : (key : A) → contains (discard xs x) key ≡ (contains xs key && not (x == key))
    pub unites : (key : A) → contains (union xs ys) key ≡ (contains xs key || contains ys key)
    pub subtracts :
        (key : A) → contains (difference xs ys) key ≡ (contains xs key && not (contains ys key))

  -- From data that holds no element twice, `add`, `discard`, `+=` and `-=` (and `+` and `-`) give
  -- data that holds none twice, and whose members are those of the set operations.
  data-Behaves : (xs ys : List A) (x : A) → IsSetData xs → Behaves xs ys x
  data-Behaves xs ys x s = record {
    keeps_add = add-IsSetData xs x s;
    keeps_discard = discard-IsSetData xs x s;
    keeps_union = union-IsSetData xs ys s;
    keeps_difference = difference-IsSetData xs ys s;
    adds = contains-add xs x;
    returns_discard = resources_discard-discard xs x;
    discards = λ key. contains-discard xs x key s;
    unites = contains-union xs ys;
    subtracts = contains-difference xs ys;
  }
