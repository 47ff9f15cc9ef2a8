-- ===== src/VirtualMachines/Macs.antt =====
-- `mac_range` of enoslib/infra/enos_vmong5k/provider.py: the addresses of some subnets, each without its
-- first. `N` is what subnets are sorted by, and `M` an address; a generator that raises is given with
-- the addresses that it has yielded.
use enoslib.Base.{
  ℕ, zero, suc, ◌<◌, ◌≡◌, refl, ap, Bool, List, [], ◌∷◌, ◌++◌, length, All, map, arith,
}
use enoslib.Base.Int.{ℤ, pos, negsuc, ◌-ℤ◌}
use enoslib.Base.Sort.{sorted, All-sorted}

pub record Subnet (N M : Type 0) : Type 0 where
  pub network : N
  pub free_macs : List M

pub data Stop : Type 0 where
  value_error runtime_error : Stop

pub data Macs (M : Type 0) : Type 0 where
  exhausted : List M → Macs M
  stopped : List M → Stop → Macs M

-- `itertools.islice(macs, start, None, step)` for a step of `k + 1`: every step-th, from the start on.
unfoldable pub islice : {M : Type 0} → ℕ → ℕ → List M → List M
islice k start [] = []
islice k zero (mac ∷ macs) = mac ∷ islice k k macs
islice k (suc start) (mac ∷ macs) = islice k start macs

unfoldable pub after : {M : Type 0} → List M → Macs M → Macs M
after macs (exhausted more) = exhausted (macs ++ more)
after macs (stopped more error) = stopped (macs ++ more) error

-- What is still to be skipped behind a subnet: all of its addresses are taken off if none is emitted.
unfoldable pub still_to_skip : {M : Type 0} → List M → ℕ → ℤ → ℤ
still_to_skip [] size to_skip = to_skip -ℤ pos size
still_to_skip (mac ∷ macs) size to_skip = to_skip

-- The loop over the addresses of the subnets. A negative start of `islice` is a ValueError; a subnet
-- without addresses ends the `next` in the generator, which is a RuntimeError.
unfoldable pub range_from : {M : Type 0} → ℕ → List (List M) → ℤ → Macs M
unfolding islice after still_to_skip ◌-ℤ◌
range_from k [] to_skip = exhausted []
range_from k ([] ∷ subnets) to_skip = stopped [] runtime_error
range_from k ((first ∷ macs) ∷ subnets) (negsuc n) = stopped [] value_error
range_from k ((first ∷ macs) ∷ subnets) (pos start) =
    let emitted = islice k start macs in
    after emitted (range_from k subnets (still_to_skip emitted (suc (length macs)) (pos start)))

-- The step is `k + 1`.
unfoldable pub mac_range : {N M : Type 0} → (N → N → Bool) → ℕ → ℕ → List (Subnet N M) → Macs M
unfolding range_from sorted
mac_range le skip k g5k_subnets =
    range_from k (map (λ s. s.free_macs) (sorted (λ s t. le s.network t.network) g5k_subnets))
      (pos skip)

-- The addresses of the subnets without the first of each.
abbrev pub usable : {M : Type 0} → List (List M) → List M
usable [] = []
usable ([] ∷ subnets) = usable subnets
usable ((first ∷ macs) ∷ subnets) = macs ++ usable subnets

islice-all : {M : Type 0} (macs : List M) → islice 0 0 macs ≡ macs
unfolding islice
islice-all [] = refl
islice-all (mac ∷ macs) = ap (λ l. mac ∷ l) (islice-all macs)

islice-none : {M : Type 0} (k : ℕ) (macs : List M) → islice k (length macs) macs ≡ []
unfolding islice
islice-none k [] = refl
islice-none k (mac ∷ macs) = islice-none k macs

range_from-usable :
    {M : Type 0} (subnets : List (List M))
    → All (λ macs. 1 < length macs) subnets
    → range_from 0 subnets (pos 0) ≡ exhausted (usable subnets)
unfolding range_from
range_from-usable [] h = refl
range_from-usable ([] ∷ subnets) h = absurd (omega (arith, h.0))
range_from-usable ((first ∷ []) ∷ subnets) h = absurd (omega (arith, h.0))
range_from-usable ((first ∷ mac ∷ macs) ∷ subnets) h =
    rw (islice-all (mac ∷ macs))
      (unfold after still_to_skip in rw (range_from-usable subnets h.1) refl)

range_from-overrun :
    {M : Type 0} (k : ℕ) (first : M) (macs next : List M) (others : List (List M))
    → 0 < length next
    → range_from k ((first ∷ macs) ∷ next ∷ others) (pos (length macs)) ≡ stopped [] value_error
unfolding range_from
range_from-overrun k first macs [] others h = absurd (omega (arith, h))
range_from-overrun k first macs (n ∷ next) others h =
    let less : pos (length macs) -ℤ pos (suc (length macs)) ≡ negsuc 0 =
      unfold ◌-ℤ◌ in ground arith in
    rw (islice-none k macs) (unfold after still_to_skip in rw less refl)

All-map :
    {A B : Type 0} (P : B → Type 0) (f : A → B) (xs : List A)
    → All (λ x. P (f x)) xs
    → All P (map f xs)
All-map P f [] h = tt
All-map P f (x ∷ xs) h = (h.0, All-map P f xs h.1)

-- What a demand for some addresses of subnets comes to.
module _ {N M : Type 0} (le : N → N → Bool) where
  abbrev pub in_order : List (Subnet N M) → List (List M)
  in_order g5k_subnets = map (λ s. s.free_macs) (sorted (λ s t. le s.network t.network) g5k_subnets)

  -- Without a skip and by steps of one, all addresses but the first of each subnet are yielded, in the
  -- order of the subnets, if each has two or more.
  pub mac_range-usable :
      (g5k_subnets : List (Subnet N M))
      → All (λ s. 1 < length s.free_macs) g5k_subnets
      → mac_range le 0 0 g5k_subnets ≡ exhausted (usable (in_order g5k_subnets))
  unfolding mac_range
  mac_range-usable g5k_subnets h = range_from-usable (in_order g5k_subnets) (
      All-map (λ macs. 1 < length macs) (λ s. s.free_macs)
        (sorted (λ s t. le s.network t.network) g5k_subnets)
        (All-sorted (λ s t. le s.network t.network) (λ s. 1 < length s.free_macs) g5k_subnets h))

  -- If the skip is what the first subnet has beside its first address and there is another subnet, a
  -- ValueError is raised and nothing is yielded.
  pub mac_range-overrun :
      (k : ℕ) (g5k_subnets : List (Subnet N M)) (first : M) (macs next : List M)
      (others : List (List M))
      → in_order g5k_subnets ≡ (first ∷ macs) ∷ next ∷ others
      → 0 < length next
      → mac_range le (length macs) k g5k_subnets ≡ stopped [] value_error
  unfolding mac_range
  mac_range-overrun k g5k_subnets first macs next others e h =
      rw e (range_from-overrun k first macs next others h)
