-- ===== src/Api/Run/Reported.antt =====
-- What a run of playbooks returns, and when it raises which error.
use enoslib.Base.{
  ◌≡◌, ◌≢◌, refl, Bool, true, false, ◌&&◌, not, List, [], ◌∷◌, ◌++◌, map, ap, sym, ◌∙◌,
  if◌then◌else◌, inl, inr, ◌⊎◌,
}
use mathlib.Core.List.{append_assoc, map-append, append-nil}
use enoslib.Base.Eq.{String_eq, ◌==◌}
use enoslib.Api.Results.{
  ExecutionRecord, Event, store, from_ansible, status_failed, status_unreachable,
}
use enoslib.Api.Run.{
  Run, returned, failed_hosts_error, unreachable_hosts_error, is_empty, handle_errors, run_from,
  run_ansible,
}
use enoslib.Api.Run.Events.{
  has_failed, was_unreachable, failures, unreached, IsClean, append-IsClean, filterb-store,
  status_failed_lem, status_unreachable_lem,
}

map-store-nil : {V : Type 0} (events : List (Event V)) → map store events ≡ [] → events ≡ []
map-store-nil [] h = refl
map-store-nil (e ∷ events) h = cc

module _ {W V : Type 0} where
  -- The choice that `handle_errors` makes from the failed and the unreachable hosts.
  handled : Bool → W → (f u : List (ExecutionRecord V)) → Run W V → Run W V
  unfolding is_empty
  handled c w f u next =
      if not (is_empty f) && not c
      then failed_hosts_error w f
      else if not (is_empty u) && not c
      then unreachable_hosts_error w u
      else next

  handled-cases :
      (c : Bool) (w : W) (f u : List (ExecutionRecord V)) (next : Run W V)
      → ((handled c w f u next ≡ failed_hosts_error w f) × (c ≡ false) × (f ≢ []))
        ⊎ (((handled c w f u next ≡ unreachable_hosts_error w u)
              × (c ≡ false)
              × (f ≡ [])
              × (u ≢ []))
            ⊎ ((handled c w f u next ≡ next) × (c ≡ false → (f ≡ []) × (u ≡ []))))
  unfolding handled
  handled-cases true w [] [] next = inr (inr (refl, λ h. cc))
  handled-cases true w [] (y ∷ u) next = inr (inr (refl, λ h. cc))
  handled-cases true w (x ∷ f) [] next = inr (inr (refl, λ h. cc))
  handled-cases true w (x ∷ f) (y ∷ u) next = inr (inr (refl, λ h. cc))
  handled-cases false w [] [] next = inr (inr (refl, λ h. (refl, refl)))
  handled-cases false w [] (y ∷ u) next = inr (inl (refl, refl, refl, λ h. cc))
  handled-cases false w (x ∷ f) u next = inl (refl, refl, λ h. cc)

module _ {W V P : Type 0} (execute : W → P → W × List (Event V)) where
  -- All playbooks, one after the other, with all that happened.
  abbrev pub execute_all : List P → W → W × List (Event V)
  execute_all [] w = (w, [])
  execute_all (path ∷ playbooks) w =
      let (w', events) = execute w path in
      let (w'', events') = execute_all playbooks w' in (w'', events ++ events')

  -- The playbooks ran without errors up to one, which leaves the world and the events.
  abbrev pub StoppedAt : List P → W → W → List (Event V) → Type 0
  StoppedAt playbooks w w' last =
      (before : List P) × (path : P) × (after : List P) × (w1 : W) × (earlier : List (Event V))
      × (playbooks ≡ before ++ path ∷ after)
      × (execute_all before w ≡ (w1, earlier))
      × IsClean earlier
      × (execute w1 path ≡ (w', last))

  -- The errors of the last playbook that ran, or the results of all.
  abbrev IsReportedFrom : Bool → List P → W → List (ExecutionRecord V) → Run W V → Type 0
  IsReportedFrom c playbooks w records (returned w' results) =
      (events : List (Event V)) × (execute_all playbooks w ≡ (w', events))
      × (results ≡ from_ansible (records ++ map store events))
      × (c ≡ false → IsClean events)
  IsReportedFrom c playbooks w records (failed_hosts_error w' hosts) =
      (c ≡ false)
      × ((last : List (Event V)) × StoppedAt playbooks w w' last
          × (hosts ≡ map store (failures last))
          × (hosts ≢ []))
  IsReportedFrom c playbooks w records (unreachable_hosts_error w' hosts) =
      (c ≡ false)
      × ((last : List (Event V)) × StoppedAt playbooks w w' last
          × (failures last ≡ [])
          × (hosts ≡ map store (unreached last))
          × (hosts ≢ []))

  abbrev pub IsReported : Bool → List P → W → Run W V → Type 0
  IsReported c playbooks w out = IsReportedFrom c playbooks w [] out

  stopped-later :
      (path : P) (playbooks : List P) (w w' : W) (last : List (Event V))
      → IsClean (execute w path).1
      → StoppedAt playbooks (execute w path).0 w' last
      → StoppedAt (path ∷ playbooks) w w' last
  stopped-later path playbooks w w' last clean (before, p, after, w1, earlier, e, run, h, stop) = (
    path ∷ before,
    p,
    after,
    w1,
    (execute w path).1 ++ earlier,
    ap (λ ps. path ∷ ps) e,
    ap (λ r. (r.0, (execute w path).1 ++ r.1)) run,
    append-IsClean (execute w path).1 earlier clean h,
    stop,
  )

  extend :
      (c : Bool) (path : P) (playbooks : List P) (w : W) (records : List (ExecutionRecord V))
      (out : Run W V)
      → (c ≡ false → IsClean (execute w path).1)
      → IsReportedFrom c playbooks (execute w path).0 (records ++ map store (execute w path).1) out
      → IsReportedFrom c (path ∷ playbooks) w records out
  extend c path playbooks w records (returned w' results) clean (events, run, e, h) = (
    (execute w path).1 ++ events,
    ap (λ r. (r.0, (execute w path).1 ++ r.1)) run,
    e
        ∙ ap from_ansible (
            append_assoc records (map store (execute w path).1) (map store events)
            ∙ ap (λ rs. records ++ rs) (sym (map-append store (execute w path).1 events))),
    λ t. append-IsClean (execute w path).1 events (clean t) (h t),
  )
  extend c path playbooks w records (failed_hosts_error w' hosts) clean (t, (last, stop, e, h)) =
      (t, (last, stopped-later path playbooks w w' last (clean t) stop, e, h))
  extend c path playbooks w records (unreachable_hosts_error w' hosts) clean
        (t, (last, stop, none_failed, e, h)) =
      (t, (last, stopped-later path playbooks w w' last (clean t) stop, none_failed, e, h))

  handle_errors-handled :
      (c : Bool) (w : W) (events : List (Event V)) (next : Run W V)
      → handle_errors c w (map store events) next
        ≡ handled c w (map store (failures events)) (map store (unreached events)) next
  unfolding handle_errors handled store
  handle_errors-handled c w events next =
      let f =
        filterb-store (λ r. r.status == status_failed) (λ e. has_failed e.ended)
          (λ e. status_failed_lem e.ended) events in
      let u =
        filterb-store (λ r. r.status == status_unreachable) (λ e. was_unreachable e.ended)
          (λ e. status_unreachable_lem e.ended) events in
      rw (f, u) refl

  handled-IsReported :
      (c : Bool) (path : P) (playbooks : List P) (w : W) (records : List (ExecutionRecord V))
      (next : Run W V)
      → IsReportedFrom c playbooks (execute w path).0 (records ++ map store (execute w path).1) next
      → IsReportedFrom c (path ∷ playbooks) w records (
          handled c
            (execute w path).0
            (map store (failures (execute w path).1))
            (map store (unreached (execute w path).1))
            next)
  handled-IsReported c path playbooks w records next later =
      let events = (execute w path).1 in
      let here : StoppedAt (path ∷ playbooks) w (execute w path).0 events =
        ([], path, playbooks, w, [], refl, refl, (refl, refl), refl) in
      elim (handled-cases c (execute w path).0 (map store (failures events))
        (map store (unreached events)) next) [
          | inl (e, t, some_failed) ↦ rw e (t, (events, here, refl, some_failed))
          | inr (inl (e, t, none_failed, some_unreached)) ↦
              rw e (
                t,
                (events, here, map-store-nil (failures events) none_failed, refl, some_unreached),
              )
          | inr (inr (e, h)) ↦ rw e (
              extend c path playbooks w records next
                (λ t. (
                  map-store-nil (failures events) (h t).0,
                  map-store-nil (unreached events) (h t).1,
                ))
                later)
        ]

  run_from-IsReported :
      (c : Bool) (playbooks : List P) (w : W) (records : List (ExecutionRecord V))
      → IsReportedFrom c playbooks w records (run_from execute c playbooks w records)
  unfolding run_from
  run_from-IsReported c [] w records =
      ([], refl, ap from_ansible (sym (append-nil records)), λ h. (refl, refl))
  run_from-IsReported c (path ∷ playbooks) w records =
      let events = (execute w path).1 in
      let next = run_from execute c playbooks (execute w path).0 (records ++ map store events) in
      let later =
        run_from-IsReported c playbooks (execute w path).0 (records ++ map store events) in
      rw (handle_errors-handled c (execute w path).0 events next)
        (handled-IsReported c path playbooks w records next later)

  -- Running playbooks gives the results of all that happened, and errors are there only if they are
  -- to be ignored; or it stops behind the first playbook with errors that are not to be ignored and
  -- raises them: the failed tasks of that playbook or, if none failed, its unreachable hosts.
  pub run_ansible-IsReported :
      (c : Bool) (playbooks : List P) (w : W)
      → IsReported c playbooks w (run_ansible execute c playbooks w)
  unfolding run_ansible
  run_ansible-IsReported c playbooks w = run_from-IsReported c playbooks w []
