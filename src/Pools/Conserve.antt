-- ===== src/Pools/Conserve.antt =====
-- Nothing is lost or made when things are put into pools and taken from them.
use enoslib.Base.{
  ℕ, ◌+◌, ◌≡◌, refl, Bool, Option, none, some, List, [], ◌∷◌, ◌++◌, take, drop, arith,
  take-append-drop, ap,
}
use enoslib.Base.Eq.{Eq}
use enoslib.Base.Dict.{Dict, get, put}
use enoslib.Base.Sort.{sorted}
use enoslib.Base.Count.{count, count-append, count-sorted}
use enoslib.Pools.{
  open_group, groupby, pool_or_empty, extend_pools, mk_pools, take_from, pick_things,
}

-- All that stands in the pools.
abbrev pub flat {ℓ κ} : {A : Type ℓ} {K : Type κ} → Dict K (List A) → List A
flat [] = []
flat ((k, pool) ∷ pools) = pool ++ flat pools

module _ {ℓ κ} {A : Type ℓ} {K : Type κ} ⦃e : Eq K⦄ ⦃f : Eq A⦄ (a : A) where
  count-flat-put :
      (k : K) (new : List A) (pools : Dict K (List A))
      → count a (flat (put k new pools)) + count a (pool_or_empty (get k pools))
        ≡ count a new + count a (flat pools)
  unfolding get put
  count-flat-put k new [] = omega (arith, count-append a new [])
  count-flat-put k new ((j, pool) ∷ pools) = ground (
    arith,
    count-flat-put k new pools,
    count-append a new (flat pools),
    count-append a pool (flat pools),
    count-append a pool (flat (put k new pools)),
  )

  module _ (key : A → K) where
    count-flat-open_group :
        (x : A) (groups : List (K × List A))
        → count a (flat (open_group key x groups)) ≡ count a (x ∷ flat groups)
    unfolding open_group
    count-flat-open_group x [] = refl
    count-flat-open_group x ((k, group) ∷ groups) =
        ground (arith, count-append a group (flat groups))

    count-flat-groupby : (xs : List A) → count a (flat (groupby key xs)) ≡ count a xs
    unfolding groupby
    count-flat-groupby [] = refl
    count-flat-groupby (x ∷ xs) =
        ground (arith, count-flat-open_group x (groupby key xs), count-flat-groupby xs)

  count-flat-extend_pools :
      (pools : Dict K (List A)) (groups : List (K × List A))
      → count a (flat (extend_pools pools groups)) ≡ count a (flat pools) + count a (flat groups)
  unfolding extend_pools
  count-flat-extend_pools pools [] = omega arith
  count-flat-extend_pools pools ((k, group) ∷ groups) =
      let old = pool_or_empty (get k pools) in
      omega (
        arith,
        count-flat-extend_pools (put k (old ++ group) pools) groups,
        count-flat-put k (old ++ group) pools,
        count-append a old group,
        count-append a group (flat groups),
      )

  -- `mk_pools` puts each thing into the pools as often as it was given.
  pub count-flat-mk_pools :
      (le : K → K → Bool) (key : A → K) (things : List A)
      → count a (flat (mk_pools le key things)) ≡ count a things
  unfolding mk_pools
  count-flat-mk_pools le key things =
      let ordered = sorted (λ x y. le (key x) (key y)) things in
      omega (
        arith,
        count-flat-extend_pools [] (groupby key ordered),
        count-flat-groupby key ordered,
        count-sorted (λ x y. le (key x) (key y)) a things,
      )

  count-take_from :
      (found : Option (List A)) (pools : Dict K (List A)) (key : K) (n : ℕ)
      → get key pools ≡ found
      → count a (take_from found pools key n).0 + count a (flat (take_from found pools key n).1)
        ≡ count a (flat pools)
  unfolding take_from
  count-take_from none pools key n h = omega arith
  count-take_from (some []) pools key n h = omega arith
  count-take_from (some (x ∷ xs)) pools key n h = omega (
    arith,
    ap (λ o. count a (pool_or_empty o)) h,
    count-flat-put key (drop n (x ∷ xs)) pools,
    count-append a (take n (x ∷ xs)) (drop n (x ∷ xs)),
    ap (count a) (take-append-drop n (x ∷ xs)),
  )

  -- What `pick_things` takes and what it leaves are what was there.
  pub count-pick_things :
      (pools : Dict K (List A)) (key : K) (n : ℕ)
      → count a (pick_things pools key n).0 + count a (flat (pick_things pools key n).1)
        ≡ count a (flat pools)
  unfolding pick_things
  count-pick_things pools key n = count-take_from (get key pools) pools key n refl
