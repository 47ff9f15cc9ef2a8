-- ===== src/Planning/Check.antt =====
-- `Planning.check` over all the namespaces and hosts.
use enoslib.Base.{
  Bool, true, false, ◌≡◌, refl, List, [], ◌∷◌, arith, String, ◌&&◌, ◌||◌, ◌++◌, Bool-cases, inl,
  inr, all, if◌then◌else◌, sym, filterb, leb,
}
use enoslib.Base.Eq.{Eq, String_eq, ◌==◌}
use mathlib.Core.Path.{subst}
use mathlib.Core.List.{Perm}
use enoslib.Base.Sort.{sorted, IsSorted, sorted-perm, sorted-IsSorted}
use enoslib.Planning.{
  by_date, is_of, Event, Result, ok, err, verify, and_then, ns_list, is_checked, check_loop, check,
}
use enoslib.Planning.Timeline.{is_ok, alternates, verify-alternates}

and_then-ok : (r next : Result) → is_ok (and_then r next) ≡ is_ok r && is_ok next
unfolding and_then
and_then-ok ok next = refl
and_then-ok (err e) next = refl

loop-step :
    (skipping good rest : Bool) (skipped r next : Result)
    → (skipping ≡ true → good ≡ true)
    → is_ok skipped ≡ rest
    → is_ok r ≡ good
    → (good ≡ true → is_ok next ≡ rest)
    → is_ok (if skipping then skipped else and_then r next) ≡ good && rest
loop-step true good rest skipped r next pass hs hr hn = ground (arith, pass refl)
loop-step false true rest skipped r next pass hs hr hn = ground (arith, and_then-ok r next, hn refl)
loop-step false false rest skipped r next pass hs hr hn = ground (arith, and_then-ok r next)

module _ {H : Type 0} ⦃host_eq : Eq H⦄ where
  is_checked-snoc :
      (qs ps : String × H) (checked : List (String × H))
      → is_checked qs (checked ++ ps ∷ []) ≡ is_checked qs checked || (ps.0 == qs.0 && ps.1 == qs.1)
  unfolding is_checked
  is_checked-snoc qs ps [] = ground arith
  is_checked-snoc qs ps (rs ∷ checked) = ground (arith, is_checked-snoc qs ps checked)

  -- The events of the namespace and the host `ps` alternate.
  passes : List (Event H) → String × H → Bool
  passes events ps = alternates (ns_list events ps)

  AllPass : List (Event H) → List (String × H) → Type 0
  AllPass events checked =
      (ps : String × H) → is_checked ps checked ≡ true → passes events ps ≡ true

  AllPass-nil : (events : List (Event H)) → AllPass events []
  unfolding AllPass is_checked
  AllPass-nil events ps h = cc

  passes-same :
      (events : List (Event H)) (ps qs : String × H)
      → (ps.0 == qs.0 && ps.1 == qs.1) ≡ true
      → passes events ps ≡ true
      → passes events qs ≡ true
  passes-same events ps qs h pass =
      let name : ps.0 ≡ qs.0 = ground (arith, String_eq.eqb_iff ps.0 qs.0) in
      let host : ps.1 ≡ qs.1 = ground (arith, host_eq.eqb_iff ps.1 qs.1) in
      let here : passes events (ps.0, ps.1) ≡ true = pass in
      let there : passes events (qs.0, qs.1) ≡ true = rw (sym name, sym host, here) in there

  AllPass-snoc :
      (events : List (Event H)) (checked : List (String × H)) (ps : String × H)
      → AllPass events checked
      → passes events ps ≡ true
      → AllPass events (checked ++ ps ∷ [])
  unfolding AllPass
  AllPass-snoc events checked ps pass h qs at = elim (Bool-cases (is_checked qs checked)) [
    | inl earlier ↦ pass qs earlier
    | inr later ↦ passes-same events ps qs (ground (arith, is_checked-snoc qs ps checked)) h
  ]

  check_loop-passes :
      (events : List (Event H)) (checked : List (String × H)) (es : List (Event H))
      → AllPass events checked
      → is_ok (check_loop events checked es)
        ≡ all (λ e. alternates (ns_list events (e.name, e.host))) es
  unfolding check_loop passes AllPass
  check_loop-passes events checked [] pass = refl
  check_loop-passes events checked (e ∷ es) pass =
      let ps : String × H = (e.name, e.host) in
      loop-step (is_checked ps checked) (passes events ps)
        (all (λ e. alternates (ns_list events (e.name, e.host))) es) (check_loop events checked es)
        (verify (ns_list events ps)) (check_loop events (checked ++ ps ∷ []) es) (pass ps)
        (check_loop-passes events checked es pass) (verify-alternates (ns_list events ps))
        (λ good.
          check_loop-passes events (checked ++ ps ∷ []) es
            (AllPass-snoc events checked ps pass good))

-- The dates go up.
abbrev dates_le : {H : Type 0} → Event H → Event H → Bool
dates_le a b = leb a.date b.date

dates_le-total : {H : Type 0} (a b : Event H) → dates_le a b ≡ false → dates_le b a ≡ true
dates_le-total a b h = ground (arith, h)

dates_le_trans :
    {H : Type 0} (a b c : Event H) → dates_le a b ≡ true → dates_le b c ≡ true → dates_le a c ≡ true
dates_le_trans a b c h k = ground (arith, h, k)

module _ {H : Type 0} ⦃host_eq : Eq H⦄ where
  -- The events of a name on a host, in the order of the planning.
  abbrev pub events_of : String → H → List (Event H) → List (Event H)
  events_of name host [] = []
  events_of name host (e ∷ es) =
      if e.name == name && e.host == host
      then e ∷ events_of name host es
      else events_of name host es

  -- The events of a name on a host, by date.
  abbrev pub IsTimeline : List (Event H) → String → H → List (Event H) → Type 0
  IsTimeline events name host es =
      Perm es (events_of name host events) × IsSorted (λ a b. leb a.date b.date) es

  filterb-events_of :
      (ps : String × H) (events : List (Event H))
      → filterb (is_of ps) events ≡ events_of ps.0 ps.1 events
  filterb-events_of ps [] = refl
  filterb-events_of ps (e ∷ es) = rw (filterb-events_of ps es) refl

  ns_list-IsTimeline :
      (events : List (Event H)) (name : String) (host : H)
      → IsTimeline events name host (ns_list events (name, host))
  unfolding ns_list by_date
  ns_list-IsTimeline events name host =
      let own = filterb (is_of (name, host)) events in
      (
        subst (λ es. Perm (sorted by_date own) es) (filterb-events_of (name, host) events)
            (sorted-perm by_date own),
        sorted-IsSorted dates_le dates_le-total dates_le_trans own,
      )

  -- A planning is accepted exactly when, for the name and the host of each of its events, the
  -- events of that name on that host, by date, begin with a start and alternate.
  pub check-alternates :
      (events : List (Event H))
      → (timeline : String → H → List (Event H)) × ((name : String) (host : H)
          → IsTimeline events name host (timeline name host))
        × (is_ok (check events) ≡ all (λ e. alternates (timeline e.name e.host)) events)
  unfolding check
  check-alternates events = (
    λ name host. ns_list events (name, host),
    ns_list-IsTimeline events,
    check_loop-passes events [] events (AllPass-nil events),
  )
