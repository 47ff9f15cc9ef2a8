-- ===== src/Planning/Cron.antt =====
-- `Event.to_dict` and `PlanningService._build_hosts_cmds` (enoslib/service/planning/planning.py), with
-- `check_cron_cmd` (enoslib/registry/utils.py). The commands of each host stand under it, in place of
-- `extra["cmds"]`; `len` is Python's on a text.
use enoslib.Base.{
  ℕ, String, Bool, true, false, not, ◌≡◌, refl, ap, sym, ◌∙◌, Option, none, some, List, [], ◌∷◌,
  ◌++◌, map, ltb, filterb, all, if◌then◌else◌, Bool-cases, inl, inr, arith,
}
use mathlib.Core.List.{append_assoc, append-nil}
use enoslib.Base.Eq.{Eq, ◌==◌, ==→≡}
use enoslib.Base.Dict.{Dict, get, put, get-put}
use enoslib.Planning.{Event}
use enoslib.Planning.Dates.{nonempty}

pub record EventDict : Type 0 where
  pub date : ℕ
  pub name : String
  pub cmd : String

abbrev pub max_cronjob_length : ℕ
max_cronjob_length = 998

-- The commands of a host with one more; a host that is new gets its first.
appended_cmd : Option (List EventDict) → EventDict → List EventDict
appended_cmd none e = e ∷ []
appended_cmd (some cmds) e = cmds ++ e ∷ []

-- The commands that are there, and then the rest.
abbrev pub with_cmds : Option (List EventDict) → List EventDict → Option (List EventDict)
with_cmds none cmds = nonempty cmds
with_cmds (some old) cmds = some (old ++ cmds)

with_cmds-nil : (o : Option (List EventDict)) → o ≡ with_cmds o []
with_cmds-nil none = refl
with_cmds-nil (some old) = ap some (sym (append-nil old))

with_cmds-appended :
    (o : Option (List EventDict)) (e : EventDict) (cmds : List EventDict)
    → with_cmds (some (appended_cmd o e)) cmds ≡ with_cmds o (e ∷ cmds)
unfolding appended_cmd
with_cmds-appended none e cmds = refl
with_cmds-appended (some old) e cmds = ap some (append_assoc old (e ∷ []) cmds)

module _ {H : Type 0} where
  -- `Event.to_dict`; the fields of the date are those of its datetime.
  unfoldable pub event_dict : Event H → EventDict
  event_dict e = record { date = e.date; name = e.name; cmd = e.cmd }

-- `check_cron_cmd`; `false` is its ValueError.
unfoldable pub check_cron_cmd : (String → ℕ) → String → Bool
check_cron_cmd len cmd = not (ltb max_cronjob_length (len cmd))

module _ {H : Type 0} ⦃host_eq : Eq H⦄ (len : String → ℕ) where
  -- The loop over the events; `none` is the ValueError of a command that is too long.
  build_from : Dict H (List EventDict) → List (Event H) → Option (Dict H (List EventDict))
  unfolding get put appended_cmd event_dict check_cron_cmd
  build_from hosts [] = some hosts
  build_from hosts (e ∷ es) =
      let rest =
        build_from (put e.host (appended_cmd (get e.host hosts) (event_dict e)) hosts) es in
      if check_cron_cmd len e.cmd then rest else none

  unfoldable pub build_hosts_cmds : List (Event H) → Option (Dict H (List EventDict))
  unfolding build_from
  build_hosts_cmds events = build_from [] events

  -- What is built: nothing if a command is too long, else the commands of each host.
  abbrev pub IsBuilt :
      Dict H (List EventDict) → List (Event H) → Option (Dict H (List EventDict)) → Type 0
  IsBuilt hosts events none = all (λ e. check_cron_cmd len e.cmd) events ≡ false
  IsBuilt hosts events (some built) =
      (all (λ e. check_cron_cmd len e.cmd) events ≡ true)
      × ((h : H)
          → get h built
            ≡ with_cmds (get h hosts) (map event_dict (filterb (λ e. e.host == h) events)))

  get-added :
      (hosts : Dict H (List EventDict)) (e : Event H) (es : List (Event H)) (h : H)
      → with_cmds
          (get h (put e.host (appended_cmd (get e.host hosts) (event_dict e)) hosts))
          (map event_dict (filterb (λ f. f.host == h) es))
        ≡ with_cmds (get h hosts) (map event_dict (filterb (λ f. f.host == h) (e ∷ es)))
  get-added hosts e es h =
      let found = get-put e.host h (appended_cmd (get e.host hosts) (event_dict e)) hosts in
      elim (Bool-cases (e.host == h)) [
        | inl same ↦
            let here : get e.host hosts ≡ get h hosts =
              ap (λ k. get k hosts) (==→≡ e.host h same) in
            rw (found, same, here) (with_cmds-appended (get h hosts) (event_dict e) _)
        | inr other ↦ rw (found, other) refl
      ]

  IsBuilt-cons :
      (hosts : Dict H (List EventDict)) (e : Event H) (es : List (Event H))
      (o : Option (Dict H (List EventDict)))
      → check_cron_cmd len e.cmd ≡ true
      → IsBuilt (put e.host (appended_cmd (get e.host hosts) (event_dict e)) hosts) es o
      → IsBuilt hosts (e ∷ es) o
  IsBuilt-cons hosts e es none h b = ground (arith, h, b)
  IsBuilt-cons hosts e es (some built) h b =
      (ground (arith, h, b.0), λ k. b.1 k ∙ get-added hosts e es k)

  build_from-IsBuilt :
      (hosts : Dict H (List EventDict)) (es : List (Event H))
      → IsBuilt hosts es (build_from hosts es)
  unfolding build_from
  build_from-IsBuilt hosts [] = (refl, λ h. with_cmds-nil (get h hosts))
  build_from-IsBuilt hosts (e ∷ es) = elim (Bool-cases (check_cron_cmd len e.cmd)) [
    | inl short ↦ rw short (
        IsBuilt-cons hosts e es _ short (
          build_from-IsBuilt (put e.host (appended_cmd (get e.host hosts) (event_dict e)) hosts)
            es))
    | inr long ↦ rw long (ground (arith, long))
  ]

  -- `_build_hosts_cmds` raises exactly if the command of an event is too long for a cron job; else
  -- the commands of a host are those of its events, in their order.
  build_hosts_cmds-IsBuilt : (events : List (Event H)) → IsBuilt [] events (build_hosts_cmds events)
  unfolding build_hosts_cmds
  build_hosts_cmds-IsBuilt events = build_from-IsBuilt [] events
