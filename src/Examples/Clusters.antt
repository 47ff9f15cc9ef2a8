-- ===== src/Examples/Clusters.antt =====
-- Slots on the nodes of a cluster at concrete inputs.
use enoslib.Base.{
  ℕ, length, arith, ◌+◌, ◌*◌, String, ◌≡◌, ◌↔◌, refl, true, none, some, List, [], ◌∷◌,
}
use enoslib.Base.Dict.{Dict}
use enoslib.Cluster.{Reservation, NodeStatus, Nodes, Machine, overlapping, is_nil, ok, test_slot}
use enoslib.VirtualMachines.{place}
use enoslib.VirtualMachines.Placement.{IsPlaced, place-IsPlaced}
use enoslib.Cluster.Free.{IsFree, overlapping-IsFree}
use enoslib.Cluster.Demands.{CanStart, total, all_exact, test_slot-CanStart}

abbrev booked : Reservation
booked = record {
  queue = "default";
  started_at = some (some 100);
  scheduled_at = none;
  walltime = 50;
}

overlapping-IsFree_example :
    (is_nil (overlapping (booked ∷ []) 150 20) ≡ true) ↔ IsFree (booked ∷ []) 150 20
unfolding enoslib.Cluster.start_of
overlapping-IsFree_example = overlapping-IsFree (booked ∷ []) 150 20 ((λ h. (100, refl)), tt)

abbrev paravance : Dict String Nodes
paravance =
    (
      "paravance",
      ("paravance-1", record { hard = "alive"; reservations = booked ∷ [] })
          ∷ ("paravance-2", record { hard = "alive"; reservations = [] })
          ∷ ("paravance-3", record { hard = "dead"; reservations = [] })
          ∷ [],
    )
    ∷ []

abbrev demanded : List Machine
demanded =
    record { cluster = "paravance"; number = 1; exact = [] }
    ∷ record { cluster = "paravance"; number = 1; exact = "paravance-2" ∷ [] }
    ∷ []

fits : test_slot 150 (0 ∷ 1 ∷ 0 ∷ []) demanded paravance ≡ ok true
unfolding test_slot
fits = refl

test_slot-CanStart_example :
    CanStart paravance "paravance"
      (total "paravance" demanded)
      (all_exact "paravance" demanded)
      150
      (0 * 3600 + 1 * 60 + 0)
test_slot-CanStart_example = test_slot-CanStart 150 0 1 0 demanded paravance fits "paravance" refl

abbrev vm_on : String → ℕ → String × ℕ
vm_on pm mac = (pm, mac)

abbrev pms : List String
pms = "paravance-1" ∷ "paravance-2" ∷ []

place-IsPlaced_example :
    (vms : List (String × ℕ)) × (place vm_on pms 3 (10 ∷ 11 ∷ 12 ∷ 13 ∷ []) 0 ≡ some vms)
    × (length vms ≡ 3)
    × IsPlaced vm_on pms (10 ∷ 11 ∷ 12 ∷ 13 ∷ []) 0 vms
place-IsPlaced_example =
    place-IsPlaced vm_on pms 3 (10 ∷ 11 ∷ 12 ∷ 13 ∷ []) 0 (omega arith) (omega arith)
