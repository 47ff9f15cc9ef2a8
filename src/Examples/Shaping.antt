-- ===== src/Examples/Shaping.antt =====
-- Network constraints and the lines of their commands at concrete inputs.
use enoslib.Base.{String, ◌≡◌, refl, Bool, true, none, some, List, [], ◌∷◌, All}
use enoslib.Base.Eq.{String_eq}
use enoslib.Base.Dict.{Dict}
use enoslib.Emul.Constraints
use enoslib.Emul.Constraints.Laws.{IsExclusive, find, find_last, add_constraints_lem}
use enoslib.Emul.Htb.{HtbConstraint, HtbConstraint_eq, equal, equal-IsEquivalence, source_commands}
use enoslib.Emul.Htb.Route.{IsRouted, source_commands-IsRouted}
use enoslib.Emul.Netem
use enoslib.Emul.Netem.{NetemConstraint}
use enoslib.Base.Dict.{Dict}
use enoslib.Base.{some}
use enoslib.Emul.Netem.Exclusive.{AreExclusive, add_constraints-AreExclusive}
use enoslib.Emul.Batch.{combine, list_of}
use enoslib.Emul.Batch.Lines.{Fits, concat}
use enoslib.Emul.Batch.Combined.{all_items, combine-Fits}

abbrev slow : HtbConstraint
slow = record { device = "eth0"; delay = "100ms"; target = "10.0.0.1"; rate = "1mbit"; loss = none }

abbrev slower : HtbConstraint
slower = record {
  device = "eth0";
  delay = "300ms";
  target = "10.0.0.1";
  rate = "1mbit";
  loss = some "5%";
}

abbrev fast : HtbConstraint
fast = record { device = "eth0"; delay = "1ms"; target = "10.0.0.2"; rate = "1gbit"; loss = none }

add_constraints_lem_example :
    IsExclusive equal (Constraints.add_constraints equal (slow ∷ []) (fast ∷ slower ∷ []))
    × ((d : HtbConstraint)
        → find equal d (Constraints.add_constraints equal (slow ∷ []) (fast ∷ slower ∷ []))
          ≡ find_last equal-IsEquivalence d (fast ∷ slower ∷ []) (find equal d (slow ∷ [])))
add_constraints_lem_example =
    add_constraints_lem equal-IsEquivalence (slow ∷ []) (fast ∷ slower ∷ []) (refl, tt)

abbrev is_v4 : String → Bool
is_v4 target = true

source_commands-IsRouted_example : IsRouted is_v4 (source_commands is_v4 0 (slow ∷ fast ∷ [])) fast
source_commands-IsRouted_example = source_commands-IsRouted is_v4 (slow ∷ fast ∷ []) fast refl

abbrev removals : Dict String (List String)
removals = ("host-1", "del" ∷ []) ∷ []

abbrev additions : Dict String (List String)
additions = ("host-2", "add" ∷ []) ∷ ("host-1", "add" ∷ "limit" ∷ []) ∷ []

combine-Fits_example :
    (commands : Dict String (List (List String))) × (combine (removals ∷ additions ∷ []) 2
      ≡ some commands)
    × ((alias : String)
        → concat (list_of alias commands) ≡ all_items alias (removals ∷ additions ∷ []))
    × ((alias : String) → All (Fits 2) (list_of alias commands))
combine-Fits_example = combine-Fits (removals ∷ additions ∷ []) 1

abbrev interfaces : String → List String
interfaces host = "eth0" ∷ "eth1" ∷ []

add_constraints-AreExclusive_example :
    (new : Dict String (List NetemConstraint)) × (Netem.add_constraints interfaces [] "delay 10ms"
        true
        ("host-1" ∷ "host-2" ∷ "host-1" ∷ [])
      ≡ some new)
    × AreExclusive new
add_constraints-AreExclusive_example =
    add_constraints-AreExclusive interfaces [] "delay 10ms" true
      ("host-1" ∷ "host-2" ∷ "host-1" ∷ []) refl tt
