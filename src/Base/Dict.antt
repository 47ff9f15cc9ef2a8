-- ===== src/Base/Dict.antt =====
-- Python's `dict`: an association list in the order of insertion.
use enoslib.Base.Eq.{Eq, ◌==◌, ==_comm}
use enoslib.Base.Tests.{if◌then◌else◌, Bool-cases}
use mathlib.Core.Logic.{inl, inr}
use mathlib.Core.Path.{◌≡◌, refl, ◌∙◌, sym, subst}
use enoslib.Base.Lists.{All}
use enoslib.Base.Options.{from_some}
use mathlib.Core.Bool.{Bool, false, ◌||◌}
use mathlib.Core.Option.{Option, none, some}
use mathlib.Core.List.{List, [], ◌∷◌}
use native.Mathlib.Omega.{arith}

abbrev pub Dict {ℓ κ} : Type ℓ → Type κ → Type (ℓ ⊔ κ)
Dict K V = List (K × V)

module _ {ℓ κ} {K : Type ℓ} {V : Type κ} ⦃e : Eq K⦄ where
  -- `d.get(k)`
  unfoldable pub get : K → Dict K V → Option V
  get k [] = none
  get k ((j, v) ∷ d) = if j == k then some v else get k d

  -- `d[k] = v`: an old key keeps its place.
  unfoldable pub put : K → V → Dict K V → Dict K V
  put k v [] = (k, v) ∷ []
  put k v ((j, u) ∷ d) = if j == k then (j, v) ∷ d else (j, u) ∷ put k v d

  pub get-put :
      (k j : K) (v : V) (d : Dict K V) → get j (put k v d) ≡ (if k == j then some v else get j d)
  unfolding get put
  get-put k j v [] = refl
  get-put k j v ((i, u) ∷ d) =
      ground (arith, e.eqb_iff i k, e.eqb_iff i j, e.eqb_iff k j, get-put k j v d)

  -- `k in d`
  abbrev pub has_key : K → Dict K V → Bool
  has_key k [] = false
  has_key k ((j, v) ∷ d) = j == k || has_key k d

  -- Each key stands once.
  abbrev pub IsMapping : Dict K V → Type 0
  IsMapping [] = Unit
  IsMapping ((k, v) ∷ d) = (has_key k d ≡ false) × IsMapping d

  pub has_key-put :
      (k j : K) (v : V) (d : Dict K V) → has_key j (put k v d) ≡ (k == j || has_key j d)
  unfolding put
  has_key-put k j v [] = refl
  has_key-put k j v ((i, u) ∷ d) =
      ground (arith, has_key-put k j v d, e.eqb_iff i k, e.eqb_iff i j, e.eqb_iff k j)

  pub put-IsMapping : (k : K) (v : V) (d : Dict K V) → IsMapping d → IsMapping (put k v d)
  unfolding put
  put-IsMapping k v [] m = (refl, tt)
  put-IsMapping k v ((i, u) ∷ d) m = elim (Bool-cases (i == k)) [
    | inl same ↦ rw same m
    | inr other ↦
        rw other (ground (arith, has_key-put k i v d, ==_comm i k, m.0), put-IsMapping k v d m.1)
  ]

  pub get-absent : (k : K) (d : Dict K V) → has_key k d ≡ false → get k d ≡ none
  unfolding get
  get-absent k [] h = refl
  get-absent k ((j, v) ∷ d) h = ground (arith, get-absent k d)

  -- What holds of all values holds of the one of a key.
  pub All-get {κ'} :
      (P : V → Type κ') (k : K) (d : Dict K V) (v : V) → All (λ e. P e.1) d → get k d ≡ some v → P v
  unfolding get
  All-get P k [] v h e = absurd (ground (arith, e))
  All-get P k ((j, u) ∷ d) v h e = elim (Bool-cases (j == k)) [
    | inl found ↦ subst P (from_some u v (sym (rw found refl) ∙ e)) h.0
    | inr other ↦ All-get P k d v h.1 (sym (rw other refl) ∙ e)
  ]
