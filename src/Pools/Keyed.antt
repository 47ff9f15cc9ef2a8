-- ===== src/Pools/Keyed.antt =====
-- Pools whose things have the key of their pool.
use enoslib.Base.{ℕ, ◌≡◌, sym, Bool, true, List, [], ◌∷◌, ◌++◌, All, Bool-cases, inl, inr}
use enoslib.Base.Eq.{Eq, ◌==◌, ==→≡, ==→≢}
use enoslib.Base.Dict.{Dict}
use enoslib.Pools.{mk_pools, pick_things}
use enoslib.Pools.Pick.{pool, Picks, pick_things-Picks}
use enoslib.Pools.Index.{things_of, mk_pools-things_of}

module _ {ℓ κ} {A : Type ℓ} {K : Type κ} ⦃e : Eq K⦄ (key : A → K) where
  abbrev pub AreOf : K → List A → Type κ
  AreOf k things = All (λ x. key x ≡ k) things

  abbrev pub AreKeyed : Dict K (List A) → Type κ
  AreKeyed pools = (k : K) → AreOf k (pool pools k)

  pub things_of-AreOf : (k : K) (things : List A) → AreOf k (things_of key k things)
  things_of-AreOf k [] = tt
  things_of-AreOf k (x ∷ things) = elim (Bool-cases (key x == k)) [
    | inl same ↦ rw same (==→≡ (key x) k same, things_of-AreOf k things)
    | inr other ↦ rw other (things_of-AreOf k things)
  ]

  pub mk_pools-AreKeyed :
      (le : K → K → Bool) (le_refl : (k : K) → le k k ≡ true) (things : List A)
      → AreKeyed (mk_pools le key things)
  mk_pools-AreKeyed le le_refl things k =
      rw (mk_pools-things_of key le le_refl k things) (things_of-AreOf k things)

  AreOf-split : (k : K) (xs ys : List A) → AreOf k (xs ++ ys) → AreOf k xs × AreOf k ys
  AreOf-split k [] ys h = (tt, h)
  AreOf-split k (x ∷ xs) ys h = let (l, r) = AreOf-split k xs ys h.1 in ((h.0, l), r)

  Picks-AreKeyed :
      (k : K) (n : ℕ) (pools : Dict K (List A)) (out : List A × Dict K (List A))
      → Picks pools k n out
      → AreKeyed pools
      → AreOf k out.0 × AreKeyed out.1
  Picks-AreKeyed k n pools out picks keyed =
      let of_k : AreOf k (out.0 ++ pool out.1 k) = rw picks.moved (keyed k) in
      let (taken, left) = AreOf-split k out.0 (pool out.1 k) of_k in
      (
        taken,
        λ j. elim (Bool-cases (k == j)) [
          | inl same ↦ rw (sym (==→≡ k j same)) left
          | inr other ↦ rw (picks.others j (==→≢ k j other)) (keyed j)
        ],
      )

  -- What is picked has the key that was asked for, and the pools stay keyed.
  pub pick_things-AreKeyed :
      (k : K) (n : ℕ) (pools : Dict K (List A))
      → AreKeyed pools
      → AreOf k (pick_things pools k n).0 × AreKeyed (pick_things pools k n).1
  pick_things-AreKeyed k n pools keyed =
      Picks-AreKeyed k n pools (pick_things pools k n) (pick_things-Picks pools k n) keyed
