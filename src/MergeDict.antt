-- ===== src/MergeDict.antt =====
-- `merge_dict` of enoslib/infra/utils.py: nested dictionaries, the second over the first. `none` is
-- the ValueError for a dictionary against another value; the input is copied, so it is not changed.
pub mod Leaves
use enoslib.Base.{String, Option, none, some, List, [], ◌∷◌, if◌then◌else◌}
use enoslib.Base.Eq.{Eq, String_eq, ◌==◌}

-- A value is a dictionary, or something else.
mutual
  pub data Value (A : Type 0) : Type 0 where
    other : A → Value A
    dict : Items A → Value A

  pub data Items (A : Type 0) : Type 0 where
    end : Items A
    item : String → Value A → Items A → Items A

module _ {A : Type 0} where
  unfoldable pub get : String → Items A → Option (Value A)
  get k end = none
  get k (item j v d) = if j == k then some v else get k d

  unfoldable pub put : String → Value A → Items A → Items A
  put k v end = item k v end
  put k v (item j u d) = if j == k then item j v d else item j u (put k v d)

  infixl 5 ◌>>=◌
  abbrev pub ◌>>=◌ : Option (Items A) → (Items A → Option (Items A)) → Option (Items A)
  none >>= f = none
  some d >>= f = f d

-- `_merge_dict(original, diff)`: the loop over the items of `diff`, and its body for one value
-- against what `original` has under the key.
unfoldable mutual
  unfolding get put

  pub merge_items : {A : Type 0} → Items A → Items A → Option (Items A)
  merge_items end original = some original
  merge_items (item k v diff) original =
      merge_value v k original (get k original) >>= merge_items diff

  pub merge_value : {A : Type 0} → Value A → String → Items A → Option (Value A) → Option (Items A)
  merge_value v k original none = some (put k v original)
  merge_value (dict diff) k original (some (dict old)) =
      merge_items diff old >>= λ merged. some (put k (dict merged) original)
  merge_value (dict diff) k original (some (other a)) = none
  merge_value (other b) k original (some (dict old)) = none
  merge_value (other b) k original (some (other a)) = some (put k (other b) original)

unfoldable pub merge_dict : {A : Type 0} → Items A → Items A → Option (Items A)
unfolding merge_items
merge_dict original diff = merge_items diff original
