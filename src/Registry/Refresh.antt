-- ===== src/Registry/Refresh.antt =====
-- What `refresh` makes of the processes that are listed and of the ones that were known.
use enoslib.Base.{
  ◌+◌, Bool, true, false, ◌≡◌, refl, List, [], ◌∷◌, ◌++◌, arith, length, any, some, none, Option,
  ◌||◌, if◌then◌else◌, String, Bool-cases, inl, inr, ◌∙◌, ap,
}
use enoslib.Base.Eq.{Eq, String_eq}
use enoslib.Registry.{
  ProcessGroup, ProcessRegistry, RolesLike, State, dead, append, refresh, refresh_on, refresh_loop,
  build, init, same_process, set_state,
}
use enoslib.Registry.Sizes.{refresh_loop-size}

is_some : Option State → Bool
is_some none = false
is_some (some s) = true

or_else : Option State → Option State → Option State
or_else none o = o
or_else (some s) o = some s

-- The state after a refresh: the listed one, or dead for a process that was known before.
abbrev pub refreshed : Option State → Bool → Option State
refreshed (some s) known = some s
refreshed none true = some dead
refreshed none false = none

refreshed-known :
    (o : Option State) (b c : Bool)
    → (b ≡ true → is_some o ≡ true)
    → refreshed o c ≡ refreshed o (b || c)
unfolding is_some
refreshed-known (some s) b c h = refl
refreshed-known none true c h = ground (arith, h refl)
refreshed-known none false c h = refl

refreshed-died :
    (o : Option State) (b c : Bool)
    → refreshed (or_else o (if b then some dead else none)) c ≡ refreshed o (b || c)
unfolding or_else
refreshed-died (some s) b c = refl
refreshed-died none true c = refl
refreshed-died none false c = refl

refreshed-nil : (o : Option State) → o ≡ refreshed o false
refreshed-nil (some s) = refl
refreshed-nil none = refl

module _ {H : Type 0} ⦃host_eq : Eq H⦄ where
  -- The state of the first process that equals `q`.
  abbrev pub state_of : ProcessGroup H → List (ProcessGroup H) → Option State
  state_of q [] = none
  state_of q (p ∷ ps) = if same_process p q then some p.state else state_of q ps

  state_of-append :
      (q : ProcessGroup H) (ps qs : List (ProcessGroup H))
      → state_of q (ps ++ qs) ≡ or_else (state_of q ps) (state_of q qs)
  unfolding or_else
  state_of-append q [] qs = refl
  state_of-append q (p ∷ ps) qs = ground (arith, state_of-append q ps qs)

  is_some-state_of :
      (p q : ProcessGroup H) (ps : List (ProcessGroup H))
      → any (same_process p) ps ≡ true
      → same_process p q ≡ true
      → is_some (state_of q ps) ≡ true
  unfolding is_some
  is_some-state_of p q [] here same = ground (arith, here)
  is_some-state_of p q (x ∷ ps) here same = elim (Bool-cases (same_process x q)) [
    | inl found ↦ rw found refl
    | inr other ↦ rw other (
        is_some-state_of p q ps
          (ground (
            arith,
            String_eq.eqb_iff p.group q.group,
            String_eq.eqb_iff p.group x.group,
            String_eq.eqb_iff x.group q.group,
            host_eq.eqb_iff p.host q.host,
            host_eq.eqb_iff p.host x.host,
            host_eq.eqb_iff x.host q.host,
          ))
          same)
  ]

  refresh_loop-refreshed :
      (q : ProcessGroup H) (ps : List (ProcessGroup H)) (r : ProcessRegistry H)
      → state_of q (refresh_loop ps r).processes
        ≡ refreshed (state_of q r.processes) (any (λ p. same_process p q) ps)
  unfolding refresh_loop append
  refresh_loop-refreshed q [] r = refreshed-nil (state_of q r.processes)
  refresh_loop-refreshed q (p ∷ ps) r = elim (Bool-cases (any (same_process p) r.processes)) [
    | inl known ↦ rw known (
        refresh_loop-refreshed q ps r
        ∙ refreshed-known (state_of q r.processes) (same_process p q) _
            (is_some-state_of p q r.processes known))
    | inr died ↦ rw died (
        refresh_loop-refreshed q ps (append r (set_state dead p))
        ∙ ap (λ o. refreshed o (any (λ x. same_process x q) ps))
            (state_of-append q r.processes (set_state dead p ∷ []))
        ∙ refreshed-died (state_of q r.processes) (same_process p q) _)
  ]

  module _ (list_processes : String → RolesLike H → List (ProcessGroup H)) where
    -- After a refresh of a registry that has roles, a process has the state it is listed with; one
    -- that is not listed is dead where the registry had it, and unknown otherwise.
    refresh-refreshed :
        (r : ProcessRegistry H) (rs : RolesLike H) (q : ProcessGroup H)
        → r.roles ≡ some rs
        → state_of q (refresh list_processes r).processes
          ≡ refreshed
              (state_of q (list_processes r.glob rs))
              (any (λ p. same_process p q) r.processes)
    unfolding refresh refresh_on build init
    refresh-refreshed r rs q h =
        ap (λ o. state_of q (refresh_on list_processes o r).processes) h
        ∙ refresh_loop-refreshed q r.processes (build list_processes r.glob rs)

    -- The size of a refreshed registry that has roles counts the processes that were appended, and leaves out the
    -- ones that are listed.
    refresh-size :
        (r : ProcessRegistry H) (rs : RolesLike H)
        → r.roles ≡ some rs
        → (refresh list_processes r).size + length (list_processes r.glob rs)
          ≡ length (refresh list_processes r).processes
    unfolding refresh refresh_on build init
    refresh-size r rs h =
        let on_roles = refresh_loop-size r.processes (build list_processes r.glob rs) in
        simp h (omega (arith, on_roles))
