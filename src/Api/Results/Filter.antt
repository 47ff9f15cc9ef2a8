-- ===== src/Api/Results/Filter.antt =====
-- What `filter` and `ok` of `Results` select.
use enoslib.Base.{
  ◌≡◌, refl, String, Bool, true, false, Option, none, some, List, [], ◌∷◌, ◌++◌, Bool-cases, inl,
  inr, if◌then◌else◌,
}
use enoslib.Base.Eq.{Eq, String_eq, ◌==◌}
use enoslib.Base.Options.{◌>>=◌, bind_some, bind_none}
use enoslib.Api.Results.{
  CommandResult, Values, status_ok, is_ok, attribute, match, kept, filter, ok_results,
}

both : Option Bool → Option Bool → Option Bool
both none n = none
both (some true) n = n
both (some false) n = some false

both-step :
    {V : Type 0} ⦃eq : Eq V⦄ (a : Option V) (v : V) (m n mn : Option Bool)
    → mn ≡ both m n
    → (a >>= λ x. if x == v then mn else some false)
      ≡ both (a >>= λ x. if x == v then m else some false) n
unfolding both
both-step none v m n mn e = refl
both-step (some x) v m n mn e = elim (Bool-cases (x == v)) [
  | inl same ↦ rw same e
  | inr other ↦ rw other refl
]

module _ {V : Type 0} ⦃eq : Eq V⦄ (values : Values V) where
  match-append :
      (r : CommandResult V) (k1 k2 : List (String × V))
      → match values r (k1 ++ k2) ≡ both (match values r k1) (match values r k2)
  unfolding match
  match-append r [] k2 = unfold both in refl
  match-append r ((k, v) ∷ k1) k2 =
      both-step (attribute values r k) v (match values r k1) (match values r k2)
        (match values r (k1 ++ k2)) (match-append r k1 k2)

  keep :
      CommandResult V
      → Option Bool
      → Option (List (CommandResult V))
      → Option (List (CommandResult V))
  keep r m rest = do matches ← m; results ← rest; some (kept matches r results)

  keep-step :
      (k2 : List (String × V)) (r : CommandResult V) (m1 : Option Bool)
      (f1 f12 : Option (List (CommandResult V)))
      → f12 ≡ (f1 >>= filter values k2)
      → keep r (both m1 (match values r k2)) f12 ≡ (keep r m1 f1 >>= filter values k2)
  unfolding keep both kept filter
  keep-step k2 r none f1 f12 e = refl
  keep-step k2 r (some false) none f12 e = rw e refl
  keep-step k2 r (some false) (some rs) f12 e =
      rw e (unfold kept in bind_some (filter values k2 rs))
  keep-step k2 r (some true) none f12 e = rw e (bind_none (match values r k2))
  keep-step k2 r (some true) (some rs) f12 e = rw e refl

  -- Filtering by two lists of keywords is filtering by one after the other, the AttributeError of a
  -- keyword that a result has not included.
  filter-append :
      (k1 k2 : List (String × V)) (results : List (CommandResult V))
      → filter values (k1 ++ k2) results ≡ (filter values k1 results >>= filter values k2)
  unfolding filter keep
  filter-append k1 k2 [] = refl
  filter-append k1 k2 (r ∷ results) = rw (match-append r k1 k2) (
      keep-step k2 r (match values r k1) (filter values k1 results)
        (filter values (k1 ++ k2) results) (filter-append k1 k2 results))

  -- The results that are OK are those that `filter` selects by their status.
  pub ok_results-filter :
      ((s t : String) → (values.text s == values.text t) ≡ (s == t))
      → (results : List (CommandResult V))
      → filter values (("status", values.text status_ok) ∷ []) results ≡ some (ok_results results)
  unfolding filter ok_results is_ok match attribute kept
  ok_results-filter inj [] = refl
  ok_results-filter inj (r ∷ results) = elim (Bool-cases (r.status == status_ok)) [
    | inl h ↦ rw (inj r.status status_ok, h, ok_results-filter inj results) refl
    | inr h ↦ rw (inj r.status status_ok, h, ok_results-filter inj results) refl
  ]
