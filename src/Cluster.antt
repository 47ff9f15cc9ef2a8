-- ===== src/Cluster.antt =====
-- `can_start_on_cluster` and `_test_slot` of enoslib/infra/enos_g5k/g5k_api_utils.py. Dates are
-- timestamps; the answers of the Grid'5000 API are values.
pub mod Free
pub mod Demands
use enoslib.Base.{
  ℕ, ◌+◌, ◌*◌, String, Bool, true, false, ◌&&◌, ◌||◌, not, min, max, Option, none, some, List, [],
  ◌∷◌, ◌++◌, length, ltb, leb, all, if◌then◌else◌,
}
use enoslib.Base.Eq.{Eq, String_eq, ◌==◌}
use enoslib.Base.Dict.{Dict, get, put}
use enoslib.Collections.ResourcesSet.{contains}

-- `reservation.get("started_at", …)`: the key may be missing, or there with no value.
pub record Reservation : Type 0 where
  pub queue : String
  pub started_at : Option (Option ℕ)
  pub scheduled_at : Option ℕ
  pub walltime : ℕ

pub record NodeStatus : Type 0 where
  pub hard : String
  pub reservations : List Reservation

abbrev pub Nodes : Type 0
Nodes = List (String × NodeStatus)

started_or : Option (Option ℕ) → Option ℕ → Option ℕ
started_or none scheduled = scheduled
started_or (some started) scheduled = started

-- `r_start`
unfoldable pub start_of : Reservation → Option ℕ
unfolding started_or
start_of r = started_or r.started_at r.scheduled_at

-- `_intersect > 0`
unfoldable pub intersects : ℕ → ℕ → ℕ → ℕ → Bool
intersects r_start r_walltime start walltime =
    ltb (max r_start start) (min (r_start + r_walltime) (start + walltime))

-- One reservation in front of what the loop finds behind it: whether it is best effort, and its
-- start; without a start, the loop breaks.
unfoldable pub add_overlap :
    Bool → Option ℕ → Reservation → ℕ → ℕ → List Reservation → List Reservation
unfolding intersects
add_overlap true r_start r start walltime rest = rest
add_overlap false none r start walltime rest = []
add_overlap false (some r_start) r start walltime rest =
    if intersects r_start r.walltime start walltime then r ∷ rest else rest

-- `overlapping_reservations` from the reservations that are left
unfoldable pub overlapping : List Reservation → ℕ → ℕ → List Reservation
unfolding start_of add_overlap
overlapping [] start walltime = []
overlapping (r ∷ rs) start walltime =
    add_overlap (r.queue == "besteffort") (start_of r) r start walltime
      (overlapping rs start walltime)

abbrev pub is_nil : List Reservation → Bool
is_nil [] = true
is_nil (r ∷ rs) = false

-- `hardware_state in ("dead", "suspected")`
is_down : NodeStatus → Bool
is_down status = status.hard == "dead" || status.hard == "suspected"

unfoldable pub is_candidate : NodeStatus → ℕ → ℕ → Bool
unfolding is_down overlapping
is_candidate status start walltime =
    not (is_down status) && is_nil (overlapping status.reservations start walltime)

unfoldable pub candidates : Nodes → ℕ → ℕ → List String
unfolding is_candidate
candidates [] start walltime = []
candidates ((node, status) ∷ nodes) start walltime =
    let rest = candidates nodes start walltime in
    if is_candidate status start walltime then node ∷ rest else rest

unfoldable pub can_start_on_cluster : Nodes → ℕ → List String → ℕ → ℕ → Bool
unfolding candidates contains
can_start_on_cluster nodes number exact_nodes start walltime =
    let found = candidates nodes start walltime in
    leb number (length found) && all (contains found) exact_nodes

-- `machine.cluster` and `machine.get_demands()`
pub record Machine : Type 0 where
  pub cluster : String
  pub number : ℕ
  pub exact : List String

or_zero : Option ℕ → ℕ
or_zero none = 0
or_zero (some n) = n

or_no_nodes : Option (List String) → List String
or_no_nodes none = []
or_no_nodes (some nodes) = nodes

-- `demands[cluster]` and `exact_nodes[cluster]`
unfoldable pub demand_of : Dict String ℕ → String → ℕ
unfolding get or_zero
demand_of demands cluster = or_zero (get cluster demands)

unfoldable pub exact_of : Dict String (List String) → String → List String
unfolding get or_no_nodes
exact_of exact_nodes cluster = or_no_nodes (get cluster exact_nodes)

-- `demands[cluster] += number`
unfoldable pub sum_demands : Dict String ℕ → List Machine → Dict String ℕ
unfolding put demand_of
sum_demands demands [] = demands
sum_demands demands (m ∷ machines) =
    sum_demands (put m.cluster (demand_of demands m.cluster + m.number) demands) machines

-- `exact_nodes[cluster].extend(exact)`
unfoldable pub collect_exact : Dict String (List String) → List Machine → Dict String (List String)
unfolding put exact_of
collect_exact exact_nodes [] = exact_nodes
collect_exact exact_nodes (m ∷ machines) =
    collect_exact (put m.cluster (exact_of exact_nodes m.cluster ++ m.exact) exact_nodes) machines

pub data SlotError : Type 0 where
  walltime_format_error key_error : SlotError

pub data Result : Type 0 where
  ok : Bool → Result
  err : SlotError → Result

-- One demand, against `clusters_status[cluster].nodes`, which may be a KeyError; `rest` is what the
-- demands behind it give.
unfoldable pub demand_step : Option Nodes → ℕ → List String → ℕ → ℕ → Result → Result
unfolding can_start_on_cluster
demand_step none number exact start walltime rest = err key_error
demand_step (some nodes) number exact start walltime rest =
    if can_start_on_cluster nodes number exact start walltime then rest else ok false

-- The loop over the demands.
unfoldable pub demand_loop :
    Dict String Nodes → Dict String (List String) → ℕ → ℕ → Dict String ℕ → Result
unfolding get exact_of demand_step
demand_loop clusters_status exact_nodes start walltime [] = ok true
demand_loop clusters_status exact_nodes start walltime ((cluster, number) ∷ demands) =
    demand_step (get cluster clusters_status) number (exact_of exact_nodes cluster) start walltime
      (demand_loop clusters_status exact_nodes start walltime demands)

-- The parts of the walltime, and what follows them.
unfoldable pub test_slot : ℕ → List ℕ → List Machine → Dict String Nodes → Result
unfolding demand_loop sum_demands collect_exact
test_slot start (h ∷ m ∷ s ∷ []) machines clusters_status =
    demand_loop clusters_status (collect_exact [] machines) start (h * 3600 + m * 60 + s)
      (sum_demands [] machines)
test_slot start walltime machines clusters_status = err walltime_format_error
