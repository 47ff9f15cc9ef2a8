-- ===== src/Pools.antt =====
-- `mk_pools` and `pick_things` of enoslib/infra/utils.py: things indexed by a key, and taken from
-- their pool.
pub mod Index
pub mod Pick
pub mod Conserve
pub mod Keyed
pub mod Groups
use enoslib.Base.{
  ℕ, ◌<◌, Bool, true, false, Option, none, some, List, [], ◌∷◌, ◌++◌, take, drop, if◌then◌else◌,
}
use enoslib.Base.Eq.{Eq, ◌==◌}
use enoslib.Base.Dict.{Dict, get, put}
use enoslib.Base.Sort.{sorted}

module _ {ℓ} {A : Type ℓ} where
  abbrev pub pool_or_empty : Option (List A) → List A
  pool_or_empty none = []
  pool_or_empty (some pool) = pool

module _ {ℓ κ} {A : Type ℓ} {K : Type κ} ⦃e : Eq K⦄ (key : A → K) where
  -- A thing in front of the groups of the things behind it.
  open_group : A → List (K × List A) → List (K × List A)
  open_group x [] = (key x, x ∷ []) ∷ []
  open_group x ((k, group) ∷ groups) =
      if k == key x then (k, x ∷ group) ∷ groups else (key x, x ∷ []) ∷ (k, group) ∷ groups

  -- `itertools.groupby`: the runs of things with equal keys.
  unfoldable pub groupby : List A → List (K × List A)
  unfolding open_group
  groupby [] = []
  groupby (x ∷ xs) = open_group x (groupby xs)

module _ {ℓ κ} {A : Type ℓ} {K : Type κ} ⦃e : Eq K⦄ where
  -- `pools.setdefault(key, []).extend(list(thingz))`, group by group
  unfoldable pub extend_pools : Dict K (List A) → List (K × List A) → Dict K (List A)
  unfolding get put
  extend_pools pools [] = pools
  extend_pools pools ((k, group) ∷ groups) =
      extend_pools (put k (pool_or_empty (get k pools) ++ group) pools) groups

  unfoldable pub mk_pools : (K → K → Bool) → (A → K) → List A → Dict K (List A)
  unfolding groupby extend_pools sorted
  mk_pools le keyfnc things =
      extend_pools [] (groupby keyfnc (sorted (λ a b. le (keyfnc a) (keyfnc b)) things))

  -- The things taken, and the pools that are left: `del pool[:n]` is in place.
  take_from : Option (List A) → Dict K (List A) → K → ℕ → List A × Dict K (List A)
  take_from none pools key n = ([], pools)
  take_from (some []) pools key n = ([], pools)
  take_from (some (x ∷ pool)) pools key n = (take n (x ∷ pool), put key (drop n (x ∷ pool)) pools)

  unfoldable pub pick_things : Dict K (List A) → K → ℕ → List A × Dict K (List A)
  unfolding get put take_from
  pick_things pools key n = take_from (get key pools) pools key n
