-- ===== src/Examples/Machines.antt =====
-- Subnets, virtual machines and the names of nodes at concrete inputs.
use enoslib.Base.{ℕ, ◌≤◌, ◌-◌, ◌≡◌, ◌⊎◌, refl, true, false, leb, List, [], ◌∷◌, ◌++◌, arith}
use enoslib.Base.Sort.{sorted}
use enoslib.VirtualMachines.Macs.{
  Subnet, value_error, exhausted, stopped, mac_range, mac_range-usable, mac_range-overrun,
}
use enoslib.VirtualMachines.Demand.{
  Flavour, capped, find_nodes_number, HasRoom, find_nodes_number-HasRoom,
}
use enoslib.G5k.Names.{translate_one, descriptor}
use enoslib.G5k.Names.Back.{is_apart, translate_one-back}
use enoslib.Base.{some}

abbrev subnets : List (Subnet ℕ ℕ)
subnets =
    record { network = 20; free_macs = 200 ∷ 201 ∷ 202 ∷ [] }
    ∷ record { network = 10; free_macs = 100 ∷ 101 ∷ [] }
    ∷ []

abbrev overrun : Subnet ℕ ℕ
overrun = record { network = 5; free_macs = 50 ∷ 51 ∷ 52 ∷ [] }

mac_range-usable_example : mac_range leb 0 0 subnets ≡ exhausted (101 ∷ 201 ∷ 202 ∷ [])
unfolding mac_range
mac_range-usable_example = mac_range-usable leb subnets (omega arith, omega arith)

mac_range-overrun_example : mac_range leb 2 4 (subnets ++ overrun ∷ []) ≡ stopped [] value_error
unfolding sorted
mac_range-overrun_example =
    mac_range-overrun leb 4 (subnets ++ overrun ∷ []) 50 (51 ∷ 52 ∷ []) (100 ∷ 101 ∷ [])
      ((200 ∷ 201 ∷ 202 ∷ []) ∷ []) refl (omega arith)

abbrev tiny : Flavour
tiny = record { number = 10; core = 1; mem = 512 }

find_nodes_number-HasRoom_example :
    (find_nodes_number 4 8589934592 171798692 tiny ≤ 10)
    × ((find_nodes_number 4 8589934592 171798692 tiny ≡ 10)
        ⊎ HasRoom 4
            (8589934592 - capped 171798692)
            tiny
            (find_nodes_number 4 8589934592 171798692 tiny))
    × ((m : ℕ)
        → HasRoom 4 (8589934592 - capped 171798692) tiny m
        → find_nodes_number 4 8589934592 171798692 tiny ≤ m)
unfolding capped
find_nodes_number-HasRoom_example =
    find_nodes_number-HasRoom 4 8589934592 171798692 tiny (omega arith) (omega arith)

translate_one-back_example :
    translate_one
      (translate_one "paravance-1.rennes.grid5000.fr" (some "4") false true)
      (some "4")
      true
      true
    ≡ "paravance-1.rennes.grid5000.fr"
unfolding descriptor is_apart
translate_one-back_example = translate_one-back "paravance-1.rennes.grid5000.fr" "4" true refl refl
