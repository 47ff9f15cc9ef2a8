-- ===== src/Collections/ResourcesSet.antt =====
-- `ResourcesSet` of enoslib/collections.py. `self.data` is the list of its elements, each once; the
-- methods return the new value of `self.data`.
pub mod Laws
pub mod Index
use enoslib.Base.{
  ℕ, ◌+◌, ◌-◌, ◌≡◌, Bool, true, false, ◌&&◌, ◌||◌, not, Option, none, some, List, [], ◌∷◌, length,
  take, drop, filterb, ltb, leb, if◌then◌else◌,
}
use enoslib.Base.Int.{ℤ, pos, negsuc}
use enoslib.Base.Eq.{Eq, ◌==◌}
use enoslib.Base.Sort.{sorted}

module _ {ℓ} {A : Type ℓ} ⦃e : Eq A⦄ where
  -- `key in self`
  unfoldable pub contains : List A → A → Bool
  contains [] key = false
  contains (x ∷ xs) key = x == key || contains xs key

  -- `self.add(value)`, and `self.append(value)`
  unfoldable pub add : List A → A → List A
  unfolding contains
  add xs value = if contains xs value then xs else value ∷ xs

  -- The elements without one.
  unfoldable pub remove : List A → A → List A
  remove [] value = []
  remove (x ∷ xs) value = if x == value then xs else x ∷ remove xs value

  -- `self.data.remove(value)`; none is a KeyError.
  unfoldable pub remove_or_raise : List A → A → Option (List A)
  unfolding contains remove
  remove_or_raise xs value = if contains xs value then some (remove xs value) else none

  -- `self.discard(value)`
  unfoldable pub resources_discard : List A → A → Option (List A)
  unfolding contains remove_or_raise
  resources_discard xs value = if contains xs value then remove_or_raise xs value else some xs

  -- `set.discard` of Python
  unfoldable pub discard : List A → A → List A
  unfolding contains remove
  discard xs value = if contains xs value then remove xs value else xs

  -- `set.union` with any iterable: `self += other`, `self + other`, `self.extend(other)`
  unfoldable pub union : List A → List A → List A
  unfolding add
  union xs [] = xs
  union xs (y ∷ ys) = add (union xs ys) y

  -- `set(iterable)`
  unfoldable pub of_iterable : List A → List A
  unfolding union
  of_iterable ys = union [] ys

  -- `set.difference` with any iterable: `self -= other`, `self - other`
  unfoldable pub difference : List A → List A → List A
  unfolding contains
  difference xs ys = filterb (λ x. not (contains ys x)) xs

-- A bound of a slice: from the end if negative, and cut to the list.
unfoldable pub slice_bound : ℕ → ℤ → ℕ
slice_bound n (pos i) = if leb i n then i else n
slice_bound n (negsuc i) = n - (i + 1)

module _ {ℓ} {A : Type ℓ} where
  abbrev pub get_elem? : List A → ℕ → Option A
  get_elem? [] i = none
  get_elem? (x ∷ xs) ℕ.zero = some x
  get_elem? (x ∷ xs) (ℕ.suc i) = get_elem? xs i

  first : List A → Option A
  first [] = none
  first (x ∷ xs) = some x

  -- `xs[i]` of a Python list; `none` is an IndexError.
  unfoldable pub list_index : List A → ℤ → Option A
  list_index xs (pos i) = get_elem? xs i
  list_index xs (negsuc i) = if ltb i (length xs) then get_elem? xs (length xs - (i + 1)) else none

  -- `xs[start:stop]`
  unfoldable pub slice : List A → ℤ → ℤ → List A
  unfolding slice_bound
  slice xs start stop =
      let lo = slice_bound (length xs) start in
      take (slice_bound (length xs) stop - lo) (drop lo xs)

module _ {ℓ} {A : Type ℓ} ⦃e : Eq A⦄ (le : A → A → Bool) where
  -- `self[i]`: the first element that equals the one at `i` in the sorted data.
  unfoldable pub item : List A → ℤ → Option A
  unfolding list_index first
  item xs i = elim (list_index (sorted le xs) i) [
    | none ↦ none
    | some a ↦ first (filterb (λ elem. elem == a) (sorted le xs))
  ]

  -- `self[start:stop]`
  unfoldable pub item_slice : List A → ℤ → ℤ → List A
  unfolding slice of_iterable
  item_slice xs start stop = of_iterable (slice (sorted le xs) start stop)
