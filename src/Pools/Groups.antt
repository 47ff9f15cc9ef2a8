-- ===== src/Pools/Groups.antt =====
-- `groupby` keeps all things in their order, with what holds of them.
use enoslib.Base.{◌≡◌, refl, ap, ◌∙◌, List, [], ◌∷◌, All, Bool-cases, inl, inr}
use enoslib.Base.Eq.{Eq, ◌==◌}
use enoslib.Pools.{open_group, groupby}
use enoslib.Pools.Conserve.{flat}

module _ {ℓ κ} {A : Type ℓ} {K : Type κ} ⦃e : Eq K⦄ (key : A → K) where
  flat-open_group :
      (x : A) (groups : List (K × List A)) → flat (open_group key x groups) ≡ x ∷ flat groups
  unfolding open_group
  flat-open_group x [] = refl
  flat-open_group x ((k, group) ∷ groups) = elim (Bool-cases (k == key x)) [
    | inl h ↦ rw h refl
    | inr h ↦ rw h refl
  ]

  pub flat-groupby : (xs : List A) → flat (groupby key xs) ≡ xs
  unfolding groupby
  flat-groupby [] = refl
  flat-groupby (x ∷ xs) = flat-open_group x (groupby key xs) ∙ ap (λ ys. x ∷ ys) (flat-groupby xs)

  All-open_group :
      (P : A → Type 0) (x : A) (groups : List (K × List A))
      → P x
      → All (λ g. All P g.1) groups
      → All (λ g. All P g.1) (open_group key x groups)
  unfolding open_group
  All-open_group P x [] h hs = ((h, tt), tt)
  All-open_group P x ((k, group) ∷ groups) h hs = elim (Bool-cases (k == key x)) [
    | inl same ↦ rw same ((h, hs.0), hs.1)
    | inr other ↦ rw other ((h, tt), hs)
  ]

  pub All-groupby :
      (P : A → Type 0) (xs : List A) → All P xs → All (λ g. All P g.1) (groupby key xs)
  unfolding groupby
  All-groupby P [] h = tt
  All-groupby P (x ∷ xs) h = All-open_group P x (groupby key xs) h.0 (All-groupby P xs h.1)
