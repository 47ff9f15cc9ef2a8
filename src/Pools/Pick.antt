-- ===== src/Pools/Pick.antt =====
-- Picking moves things from a pool to the caller.
use enoslib.Base.{
  ℕ, ◌≡◌, refl, ◌≢◌, Option, none, some, List, [], ◌∷◌, ◌++◌, drop, length, min, arith,
  take-append-drop, length-take,
}
use enoslib.Base.Eq.{Eq, ==_refl}
use enoslib.Base.Dict.{Dict, get, get-put}
use enoslib.Pools.{pool_or_empty, take_from, pick_things}

module _ {ℓ κ} {A : Type ℓ} {K : Type κ} ⦃e : Eq K⦄ where
  -- The pool of a key; a missing pool is empty.
  abbrev pub pool : Dict K (List A) → K → List A
  pool pools key = pool_or_empty (get key pools)

  pub record Picks (pools : Dict K (List A)) (key : K) (n : ℕ) (out : List A × Dict K (List A))
      : Type (ℓ ⊔ κ) where
    pub count : length out.0 ≡ min n (length (pool pools key))
    pub moved : out.0 ++ pool out.1 key ≡ pool pools key
    pub others : (j : K) → key ≢ j → get j out.1 ≡ get j pools

  take_from-Picks :
      (found : Option (List A)) (pools : Dict K (List A)) (key : K) (n : ℕ)
      → get key pools ≡ found
      → Picks pools key n (take_from found pools key n)
  unfolding take_from
  take_from-Picks none pools key n h = record {
    count = rw h (omega arith);
    moved = refl;
    others = λ j _. refl;
  }
  take_from-Picks (some []) pools key n h = record {
    count = rw h (omega arith);
    moved = refl;
    others = λ j _. refl;
  }
  take_from-Picks (some (x ∷ xs)) pools key n h = record {
    count = rw h (length-take n (x ∷ xs));
    moved = rw (get-put, ==_refl, h) (take-append-drop n (x ∷ xs));
    others = λ j ne. ground (arith, get-put key j (drop n (x ∷ xs)) pools, e.eqb_iff key j);
  }

  -- `pick_things` takes the first `n` things of the key's pool, or all if there are fewer; they and
  -- the rest are the old pool, and no other pool changes.
  pub pick_things-Picks :
      (pools : Dict K (List A)) (key : K) (n : ℕ) → Picks pools key n (pick_things pools key n)
  unfolding pick_things
  pick_things-Picks pools key n = take_from-Picks (get key pools) pools key n refl
