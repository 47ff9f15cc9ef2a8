-- ===== src/Pools/Index.antt =====
-- What `mk_pools` puts into each pool.
use mathlib.Core.List.{append-nil, append_assoc}
use enoslib.Base.{
  sym, Bool, true, ◌≡◌, refl, ◌∙◌, ap, List, [], ◌∷◌, ◌++◌, filterb, arith, Bool-cases, inl, inr,
  if◌then◌else◌,
}
use enoslib.Base.Eq.{Eq, ◌==◌, ==→≡}
use enoslib.Base.Dict.{Dict, get, put, get-put}
use enoslib.Base.Sort.{insert, sorted}
use enoslib.Pools.{open_group, groupby, pool_or_empty, extend_pools, mk_pools}

module _ {ℓ κ} {A : Type ℓ} {K : Type κ} ⦃e : Eq K⦄ (keyfnc : A → K) where
  -- The things of a key, in the order given.
  abbrev pub things_of : K → List A → List A
  things_of k = filterb (λ x. keyfnc x == k)

  -- The things in the groups of a key.
  abbrev grouped : K → List (K × List A) → List A
  grouped k [] = []
  grouped k ((j, group) ∷ groups) = if j == k then group ++ grouped k groups else grouped k groups

  open_group-grouped :
      (k : K) (x : A) (groups : List (K × List A))
      → grouped k (open_group keyfnc x groups)
        ≡ (if keyfnc x == k then x ∷ grouped k groups else grouped k groups)
  unfolding open_group
  open_group-grouped k x [] = refl
  open_group-grouped k x ((j, group) ∷ groups) =
      ground (arith, e.eqb_iff j (keyfnc x), e.eqb_iff j k, e.eqb_iff (keyfnc x) k)

  groupby-grouped : (k : K) (xs : List A) → grouped k (groupby keyfnc xs) ≡ things_of k xs
  unfolding groupby
  groupby-grouped k [] = refl
  groupby-grouped k (x ∷ xs) =
      open_group-grouped k x (groupby keyfnc xs)
      ∙ ap (λ ys. if keyfnc x == k then x ∷ ys else ys) (groupby-grouped k xs)

  extend_pools-grouped :
      (k : K) (pools : Dict K (List A)) (groups : List (K × List A))
      → pool_or_empty (get k (extend_pools pools groups))
        ≡ pool_or_empty (get k pools) ++ grouped k groups
  unfolding extend_pools
  extend_pools-grouped k pools [] = sym (append-nil _)
  extend_pools-grouped k pools ((j, group) ∷ groups) =
      extend_pools-grouped k (put j (pool_or_empty (get j pools) ++ group) pools) groups ∙ extended
    where
      extended :
          pool_or_empty (get k (put j (pool_or_empty (get j pools) ++ group) pools))
            ++ grouped k groups
          ≡ pool_or_empty (get k pools) ++ grouped k ((j, group) ∷ groups)
      extended = elim (Bool-cases (j == k)) [
        | inl same ↦
            rw (get-put, same)
              (cc (
                ==→≡ j k same,
                append_assoc (pool_or_empty (get j pools)) group (grouped k groups),
              ))
        | inr other ↦ rw (get-put, other)
      ]

  module _ (le : K → K → Bool) (le_refl : (k : K) → le k k ≡ true) where
    insert-things_of :
        (k : K) (x : A) (xs : List A)
        → things_of k (insert (λ a b. le (keyfnc a) (keyfnc b)) x xs) ≡ things_of k (x ∷ xs)
    unfolding insert
    insert-things_of k x [] = refl
    insert-things_of k x (y ∷ ys) =
        ground (
          arith,
          insert-things_of k x ys,
          e.eqb_iff (keyfnc x) k,
          e.eqb_iff (keyfnc y) k,
          le_refl k,
        )

    sorted-things_of :
        (k : K) (xs : List A)
        → things_of k (sorted (λ a b. le (keyfnc a) (keyfnc b)) xs) ≡ things_of k xs
    unfolding sorted
    sorted-things_of k [] = refl
    sorted-things_of k (x ∷ xs) =
        insert-things_of k x (sorted (λ a b. le (keyfnc a) (keyfnc b)) xs)
        ∙ ap (λ ys. if keyfnc x == k then x ∷ ys else ys) (sorted-things_of k xs)

    -- The pool of each key holds the things with that key, each as often as given and in the order
    -- given, for any reflexive test `le` on the keys.
    pub mk_pools-things_of :
        (k : K) (things : List A)
        → pool_or_empty (get k (mk_pools le keyfnc things)) ≡ things_of k things
    unfolding mk_pools get
    mk_pools-things_of k things =
        extend_pools-grouped k [] (groupby keyfnc (sorted (λ a b. le (keyfnc a) (keyfnc b)) things))
        ∙ groupby-grouped k _
        ∙ sorted-things_of k things
