-- ===== src/Planning.antt =====
-- `Event` and `Planning` of enoslib/service/planning/planning.py. A date is its timestamp; `H` is the
-- type of the hosts.
pub mod Timeline
pub mod Check
pub mod Dates
pub mod Cron
use enoslib.Base.{
  ℕ, ◌-◌, String, Bool, true, false, ◌&&◌, ◌||◌, Option, none, some, List, [], ◌∷◌, ◌++◌, filterb,
  leb, if◌then◌else◌,
}
use enoslib.Base.Eq.{Eq, String_eq, ◌==◌}
use enoslib.Base.Dict.{Dict, get, put}
use enoslib.Base.Sort.{sorted}

-- The classes of events.
pub data Kind : Type 0 where
  event kill start cgroup : Kind

pub record Event (H : Type 0) : Type 0 where
  pub kind : Kind
  pub date : ℕ
  pub host : H
  pub name : String
  pub cmd : String

pub data CheckError : Type 0 where
  first_not_allowed order_not_allowed key_error index_error : CheckError

pub data Result : Type 0 where
  ok : Result
  err : CheckError → Result

-- What may come right before an event of a class; `none` inside is nothing at all. A class that is
-- no key of the table is a KeyError.
transition : Kind → Option (List (Option Kind))
transition start = some (none ∷ some kill ∷ [])
transition kill = some (some start ∷ [])
transition _ = none

same_kind : Option Kind → Option Kind → Bool
same_kind none none = true
same_kind (some start) (some start) = true
same_kind (some kill) (some kill) = true
same_kind (some event) (some event) = true
same_kind (some cgroup) (some cgroup) = true
same_kind _ _ = false

allowed_in : Option Kind → List (Option Kind) → Bool
unfolding same_kind
allowed_in k [] = false
allowed_in k (j ∷ js) = same_kind j k || allowed_in k js

-- One event behind `previous`: its error, or `next`.
step : CheckError → Option Kind → Option (List (Option Kind)) → Result → Result
unfolding allowed_in
step error previous none next = err key_error
step error previous (some before) next = if allowed_in previous before then next else err error

and_then : Result → Result → Result
and_then ok next = next
and_then (err e) next = err e

module _ {H : Type 0} where
  appended : Option (List (Event H)) → Event H → List (Event H)
  appended none e = e ∷ []
  appended (some events) e = events ++ e ∷ []

  by_date : Event H → Event H → Bool
  by_date a b = leb a.date b.date

  -- `for n, event in enumerate(ns_list[1:], start=1)`
  verify_rest : Kind → List (Event H) → Result
  unfolding step transition
  verify_rest previous [] = ok
  verify_rest previous (e ∷ es) =
      step order_not_allowed (some previous) (transition e.kind) (verify_rest e.kind es)

  unfoldable pub verify : List (Event H) → Result
  unfolding verify_rest
  verify [] = err index_error
  verify (e ∷ es) = step first_not_allowed none (transition e.kind) (verify_rest e.kind es)

module _ {H : Type 0} ⦃host_eq : Eq H⦄ where
  -- `(event.name, event.host) == ps`
  abbrev pub is_of : String × H → Event H → Bool
  is_of ps e = e.name == ps.0 && e.host == ps.1

  -- The events of a namespace and a host, by date.
  unfoldable pub ns_list : List (Event H) → String × H → List (Event H)
  unfolding sorted by_date
  ns_list events ps = sorted by_date (filterb (is_of ps) events)

  is_checked : String × H → List (String × H) → Bool
  is_checked ps [] = false
  is_checked ps (qs ∷ checked) = qs.0 == ps.0 && qs.1 == ps.1 || is_checked ps checked

  -- The loop of `check` over the events that are left, with `checked_ps`.
  check_loop : List (Event H) → List (String × H) → List (Event H) → Result
  unfolding is_checked verify ns_list and_then
  check_loop events checked [] = ok
  check_loop events checked (e ∷ es) =
      let ps : String × H = (e.name, e.host) in
      let skipped = check_loop events checked es in
      let verified =
        and_then (verify (ns_list events ps)) (check_loop events (checked ++ ps ∷ []) es) in
      if is_checked ps checked then skipped else verified

  -- `Planning.check`
  unfoldable pub check : List (Event H) → Result
  unfolding check_loop
  check events = check_loop events [] events

  -- `Planning.to_dict`: the event joins the list of its host, or begins it.
  unfoldable pub to_dict_from : Dict H (List (Event H)) → List (Event H) → Dict H (List (Event H))
  unfolding get put appended
  to_dict_from d [] = d
  to_dict_from d (e ∷ es) = to_dict_from (put e.host (appended (get e.host d) e) d) es

  unfoldable pub to_dict : List (Event H) → Dict H (List (Event H))
  unfolding to_dict_from
  to_dict events = to_dict_from [] events

module _ {H : Type 0} where
  first : List (Event H) → Option (Event H)
  first [] = none
  first (e ∷ es) = some e

  last : List (Event H) → Option (Event H)
  last [] = none
  last (e ∷ []) = some e
  last (e ∷ f ∷ es) = last (f ∷ es)

  date_of : Option (Event H) → Option ℕ
  date_of none = none
  date_of (some e) = some e.date

  -- `Planning.start` and `Planning.end`; `none` is the IndexError of an empty planning.
  unfoldable pub start_date : List (Event H) → Option ℕ
  unfolding date_of first sorted by_date
  start_date events = date_of (first (sorted by_date events))

  unfoldable pub end_date : List (Event H) → Option ℕ
  unfolding date_of last sorted by_date
  end_date events = date_of (last (sorted by_date events))
