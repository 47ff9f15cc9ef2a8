-- ===== src/Planning/Dates.antt =====
-- `Planning.start`, `Planning.end` and `Planning.to_dict`.
use enoslib.Base.{
  ℕ, ◌≤◌, true, false, ◌≡◌, refl, Option, none, some, List, [], ◌∷◌, ◌++◌, arith, All, any, ltb,
  ◌==◌ as nat_eq, filterb, Bool-cases, inl, inr, ◌∙◌, sym, ap,
}
use mathlib.Core.List.{append-nil, append_assoc}
use enoslib.Base.Eq.{Eq, ◌==◌, ==→≡}
use enoslib.Base.Dict.{Dict, get, put, get-put}
use enoslib.Base.Sort.{sorted, any-sorted, IsSorted, sorted-IsSorted}
use enoslib.Planning.{
  Event, by_date, first, last, date_of, appended, start_date, end_date, to_dict, to_dict_from,
}

module _ {H : Type 0} where
  -- `none` is for no event; else an event has the date, and none has an earlier one.
  abbrev pub IsLeast : List (Event H) → Option ℕ → Type 0
  IsLeast events none = any (λ e. true) events ≡ false
  IsLeast events (some d) =
      (any (λ e. nat_eq e.date d) events ≡ true) × (any (λ e. ltb e.date d) events ≡ false)

  -- The same of the latest date.
  abbrev pub IsGreatest : List (Event H) → Option ℕ → Type 0
  IsGreatest events none = any (λ e. true) events ≡ false
  IsGreatest events (some d) =
      (any (λ e. nat_eq e.date d) events ≡ true) × (any (λ e. ltb d e.date) events ≡ false)

  none-below :
      (d : ℕ) (es : List (Event H)) (e : Event H)
      → All (λ f. by_date e f ≡ true) es
      → d ≤ e.date
      → any (λ f. ltb f.date d) es ≡ false
  unfolding by_date
  none-below d [] e all h = refl
  none-below d (f ∷ es) e all h = ground (arith, none-below d es e all.1 h, all.0)

  above :
      (d : ℕ) (es : List (Event H)) (e : Event H)
      → All (λ f. by_date e f ≡ true) es
      → any (λ f. nat_eq f.date d) es ≡ true
      → e.date ≤ d
  unfolding by_date
  above d [] e all h = ground (arith, h)
  above d (f ∷ es) e all h = ground (arith, above d es e all.1, all.0, h)

  first-IsLeast : (es : List (Event H)) → IsSorted by_date es → IsLeast es (date_of (first es))
  unfolding first date_of
  first-IsLeast [] s = refl
  first-IsLeast (e ∷ es) s = (ground arith, ground (arith, none-below e.date es e s.0))

  IsGreatest-cons :
      (e f : Event H) (es : List (Event H)) (o : Option ℕ)
      → All (λ g. by_date e g ≡ true) (f ∷ es)
      → IsGreatest (f ∷ es) o
      → IsGreatest (e ∷ f ∷ es) o
  IsGreatest-cons e f es none all g = ground (arith, g)
  IsGreatest-cons e f es (some d) all g =
      (ground (arith, g.0), ground (arith, g.1, above d (f ∷ es) e all g.0))

  last-IsGreatest :
      (e : Event H) (es : List (Event H))
      → IsSorted by_date (e ∷ es)
      → IsGreatest (e ∷ es) (date_of (last (e ∷ es)))
  unfolding last date_of
  last-IsGreatest e [] s = (ground arith, ground arith)
  last-IsGreatest e (f ∷ es) s =
      IsGreatest-cons e f es (date_of (last (f ∷ es))) s.0 (last-IsGreatest f es s.1)

  events-IsSorted : (events : List (Event H)) → IsSorted by_date (sorted by_date events)
  unfolding by_date
  events-IsSorted = sorted-IsSorted by_date (λ a b h. ground arith) (λ a b c g h. ground arith)

  IsLeast-sorted :
      (events : List (Event H)) (o : Option ℕ)
      → IsLeast (sorted by_date events) o
      → IsLeast events o
  IsLeast-sorted events none h = sym (any-sorted by_date (λ e. true) events) ∙ h
  IsLeast-sorted events (some d) h =
      (sym (any-sorted by_date _ events) ∙ h.0, sym (any-sorted by_date _ events) ∙ h.1)

  IsGreatest-sorted :
      (events : List (Event H)) (o : Option ℕ)
      → IsGreatest (sorted by_date events) o
      → IsGreatest events o
  IsGreatest-sorted events none h = sym (any-sorted by_date (λ e. true) events) ∙ h
  IsGreatest-sorted events (some d) h =
      (sym (any-sorted by_date _ events) ∙ h.0, sym (any-sorted by_date _ events) ∙ h.1)

  last_date-IsGreatest :
      (es : List (Event H)) → IsSorted by_date es → IsGreatest es (date_of (last es))
  unfolding last date_of
  last_date-IsGreatest [] s = refl
  last_date-IsGreatest (e ∷ es) s = last-IsGreatest e es s

  -- The start of a planning is the earliest date of its events and its end the latest; both are an
  -- IndexError exactly when it has no event.
  start_date-IsSpan :
      (events : List (Event H))
      → IsLeast events (start_date events) × IsGreatest events (end_date events)
  unfolding start_date end_date
  start_date-IsSpan events =
      let sorted_events : IsSorted by_date (sorted by_date events) = events-IsSorted events in
      (
        IsLeast-sorted events _ (first-IsLeast (sorted by_date events) sorted_events),
        IsGreatest-sorted events _ (last_date-IsGreatest (sorted by_date events) sorted_events),
      )

module _ {ℓ} {A : Type ℓ} where
  -- A list, or nothing where it is empty.
  abbrev pub nonempty : List A → Option (List A)
  nonempty [] = none
  nonempty (x ∷ xs) = some (x ∷ xs)

  joined : Option (List A) → List A → Option (List A)
  joined none xs = nonempty xs
  joined (some ys) xs = some (ys ++ xs)

  joined-nil : (o : Option (List A)) → o ≡ joined o []
  unfolding joined
  joined-nil none = refl
  joined-nil (some ys) = ap some (sym (append-nil ys))

module _ {H : Type 0} where
  joined-appended :
      (o : Option (List (Event H))) (e : Event H) (es : List (Event H))
      → joined (some (appended o e)) es ≡ joined o (e ∷ es)
  unfolding joined appended
  joined-appended none e es = refl
  joined-appended (some ys) e es = ap some (append_assoc ys (e ∷ []) es)

module _ {H : Type 0} ⦃host_eq : Eq H⦄ where
  to_dict_from-filterb :
      (h : H) (d : Dict H (List (Event H))) (es : List (Event H))
      → get h (to_dict_from d es) ≡ joined (get h d) (filterb (λ e. e.host == h) es)
  unfolding to_dict_from joined
  to_dict_from-filterb h d [] = joined-nil (get h d)
  to_dict_from-filterb h d (e ∷ es) =
      let rest : List (Event H) = filterb (λ f. f.host == h) es in
      let after = to_dict_from-filterb h (put e.host (appended (get e.host d) e) d) es in
      let found = get-put e.host h (appended (get e.host d) e) d in
      elim (Bool-cases (e.host == h)) [
        | inl same ↦
            let here : get e.host d ≡ get h d = ap (λ k. get k d) (==→≡ e.host h same) in
            rw (after, found, same, here) (joined-appended (get h d) e rest)
        | inr other ↦ rw (after, found, other) refl
      ]

  -- Under a host stand its events, in their order; a host without events is no key.
  to_dict-filterb :
      (h : H) (events : List (Event H))
      → get h (to_dict events) ≡ nonempty (filterb (λ e. e.host == h) events)
  unfolding to_dict get joined
  to_dict-filterb h events = to_dict_from-filterb h [] events
