-- ===== src/Planning/Timeline.antt =====
-- What `check` accepts of one namespace on one host.
use enoslib.Base.{Bool, true, false, ◌≡◌, refl, ap, List, [], ◌∷◌, ◌&&◌, some, none, ◌∙◌}
use enoslib.Planning.{
  Kind, event, kill, start, cgroup, Event, Result, ok, err, step, transition, verify, verify_rest,
  allowed_in, same_kind, order_not_allowed, first_not_allowed,
}

abbrev pub is_ok : Result → Bool
is_ok ok = true
is_ok (err e) = false

-- `opposes k j`: an event of class `k` may follow one of class `j`.
abbrev pub opposes : Kind → Kind → Bool
opposes start kill = true
opposes kill start = true
opposes _ _ = false

abbrev pub begins : Kind → Bool
begins start = true
begins _ = false

module _ {H : Type 0} where
  abbrev pub alternates_after : Kind → List (Event H) → Bool
  alternates_after k [] = true
  alternates_after k (e ∷ es) = opposes e.kind k && alternates_after e.kind es

  -- The events begin with a start, and starts and kills alternate.
  abbrev pub alternates : List (Event H) → Bool
  alternates [] = false
  alternates (e ∷ es) = begins e.kind && alternates_after e.kind es

step-opposes :
    (k j : Kind) (next : Result)
    → is_ok (step order_not_allowed (some j) (transition k) next) ≡ opposes k j && is_ok next
unfolding step transition allowed_in same_kind
step-opposes start start next = refl
step-opposes start kill next = refl
step-opposes start event next = refl
step-opposes start cgroup next = refl
step-opposes kill start next = refl
step-opposes kill kill next = refl
step-opposes kill event next = refl
step-opposes kill cgroup next = refl
step-opposes event j next = refl
step-opposes cgroup j next = refl

step-begins :
    (k : Kind) (next : Result)
    → is_ok (step first_not_allowed none (transition k) next) ≡ begins k && is_ok next
unfolding step transition allowed_in same_kind
step-begins start next = refl
step-begins kill next = refl
step-begins event next = refl
step-begins cgroup next = refl

module _ {H : Type 0} where
  verify_rest-alternates :
      (k : Kind) (es : List (Event H)) → is_ok (verify_rest k es) ≡ alternates_after k es
  unfolding verify_rest
  verify_rest-alternates k [] = refl
  verify_rest-alternates k (e ∷ es) =
      step-opposes e.kind k (verify_rest e.kind es)
      ∙ ap (λ b. opposes e.kind k && b) (verify_rest-alternates e.kind es)

  -- The check of one namespace accepts exactly the events that begin with a start and alternate.
  pub verify-alternates : (es : List (Event H)) → is_ok (verify es) ≡ alternates es
  unfolding verify
  verify-alternates [] = refl
  verify-alternates (e ∷ es) =
      step-begins e.kind (verify_rest e.kind es)
      ∙ ap (λ b. begins e.kind && b) (verify_rest-alternates e.kind es)
