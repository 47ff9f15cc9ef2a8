-- ===== src/Cluster/Demands.antt =====
-- What a positive answer of `_test_slot` says of each cluster.
use enoslib.Base.{
  ℕ, ◌+◌, ◌*◌, ◌≡◌, refl, ap, sym, String, Bool, true, false, Option, none, some, List, [], ◌∷◌,
  ◌++◌, any, arith, if◌then◌else◌, Bool-cases, inl, inr,
}
use mathlib.Core.List.{append_assoc, append-nil}
use enoslib.Base.Eq.{String_eq, ◌==◌, ==→≡}
use enoslib.Base.Dict.{Dict, get, put, get-put}
use enoslib.Cluster.{
  Machine, Nodes, Result, ok, or_zero, or_no_nodes, demand_of, exact_of, sum_demands, collect_exact,
  demand_step, demand_loop, can_start_on_cluster, test_slot,
}

abbrev pub is_on : String → Machine → Bool
is_on cluster m = m.cluster == cluster

-- The nodes that the machines of a cluster demand in all.
abbrev pub total : String → List Machine → ℕ
total cluster [] = 0
total cluster (m ∷ machines) =
    if m.cluster == cluster then m.number + total cluster machines else total cluster machines

abbrev pub all_exact : String → List Machine → List String
all_exact cluster [] = []
all_exact cluster (m ∷ machines) =
    if m.cluster == cluster
    then m.exact ++ all_exact cluster machines
    else all_exact cluster machines

-- A demand after the machines, from the one before.
summed : Option ℕ → Bool → ℕ → Option ℕ
unfolding or_zero
summed before false n = before
summed before true n = some (or_zero before + n)

summed-step :
    (o : Option ℕ) (n : ℕ) (more : Bool) (t : ℕ)
    → (more ≡ false → t ≡ 0)
    → summed (some (or_zero o + n)) more t ≡ summed o true (n + t)
unfolding summed or_zero
summed-step o n false t h = ap some (omega (arith, h refl))
summed-step o n true t h = ap some (omega arith)

total-none :
    (cluster : String) (machines : List Machine)
    → any (is_on cluster) machines ≡ false
    → total cluster machines ≡ 0
total-none cluster [] h = refl
total-none cluster (m ∷ machines) h = ground (arith, total-none cluster machines)

sum_demands-summed :
    (cluster : String) (demands : Dict String ℕ) (machines : List Machine)
    → get cluster (sum_demands demands machines)
      ≡ summed (get cluster demands) (any (is_on cluster) machines) (total cluster machines)
unfolding sum_demands demand_of summed
sum_demands-summed cluster demands [] = refl
sum_demands-summed cluster demands (m ∷ machines) =
    let added = or_zero (get m.cluster demands) + m.number in
    let rest = sum_demands-summed cluster (put m.cluster added demands) machines in
    let found = get-put m.cluster cluster added demands in
    elim (Bool-cases (m.cluster == cluster)) [
      | inl same ↦
          let here : get m.cluster demands ≡ get cluster demands =
            ap (λ k. get k demands) (==→≡ m.cluster cluster same) in
          rw (rest, found, same, here)
            (summed-step (get cluster demands) m.number (any (is_on cluster) machines)
              (total cluster machines) (total-none cluster machines))
      | inr other ↦ rw (rest, found, other) refl
    ]

collect_exact-all_exact :
    (cluster : String) (exact_nodes : Dict String (List String)) (machines : List Machine)
    → exact_of (collect_exact exact_nodes machines) cluster
      ≡ exact_of exact_nodes cluster ++ all_exact cluster machines
unfolding collect_exact exact_of or_no_nodes
collect_exact-all_exact cluster exact_nodes [] = sym (append-nil _)
collect_exact-all_exact cluster exact_nodes (m ∷ machines) =
    let added = or_no_nodes (get m.cluster exact_nodes) ++ m.exact in
    let rest = collect_exact-all_exact cluster (put m.cluster added exact_nodes) machines in
    let found = get-put m.cluster cluster added exact_nodes in
    elim (Bool-cases (m.cluster == cluster)) [
      | inl same ↦
          let here : get m.cluster exact_nodes ≡ get cluster exact_nodes =
            ap (λ k. get k exact_nodes) (==→≡ m.cluster cluster same) in
          rw (rest, found, same, here)
            (append_assoc (or_no_nodes (get cluster exact_nodes)) m.exact
              (all_exact cluster machines))
      | inr other ↦ rw (rest, found, other) refl
    ]

-- The cluster has a status, and can start what is demanded of it.
abbrev pub CanStart : Dict String Nodes → String → ℕ → List String → ℕ → ℕ → Type 0
CanStart clusters_status cluster number exact start walltime =
    (nodes : Nodes) × (get cluster clusters_status ≡ some nodes)
    × (can_start_on_cluster nodes number exact start walltime ≡ true)

some-inj : {a b : ℕ} → ◌≡◌ {A = Option ℕ} (some a) (some b) → a ≡ b
some-inj h = cc

demand_step-CanStart :
    (found : Option Nodes) (number : ℕ) (exact : List String) (start walltime : ℕ) (rest : Result)
    → demand_step found number exact start walltime rest ≡ ok true
    → (rest ≡ ok true)
      × (nodes : Nodes) × (found ≡ some nodes)
      × (can_start_on_cluster nodes number exact start walltime ≡ true)
unfolding demand_step
demand_step-CanStart none number exact start walltime rest h = cc
demand_step-CanStart (some nodes) number exact start walltime rest h =
    elim (Bool-cases (can_start_on_cluster nodes number exact start walltime)) [
      | inl can ↦ (rw can at h, nodes, refl, can)
      | inr cannot ↦ absurd (cc)
    ]

demand_loop-CanStart :
    (clusters_status : Dict String Nodes) (exact_nodes : Dict String (List String))
    (start walltime : ℕ) (demands : Dict String ℕ)
    → demand_loop clusters_status exact_nodes start walltime demands ≡ ok true
    → (cluster : String) (number : ℕ) → get cluster demands ≡ some number
    → CanStart clusters_status cluster number (exact_of exact_nodes cluster) start walltime
unfolding demand_loop get
demand_loop-CanStart clusters_status exact_nodes start walltime [] h cluster number e = cc
demand_loop-CanStart clusters_status exact_nodes start walltime ((c, n) ∷ demands) h cluster number
      e =
    let (later, nodes, found, able) =
      demand_step-CanStart (get c clusters_status) n (exact_of exact_nodes c) start walltime
        (demand_loop clusters_status exact_nodes start walltime demands) h in
    elim (Bool-cases (c == cluster)) [
      | inl same ↦
          let here : c ≡ cluster = ==→≡ c cluster same in
          let count : n ≡ number = some-inj (rw same at e) in
          rw (sym here, sym count) (nodes, found, able)
      | inr other ↦
          demand_loop-CanStart clusters_status exact_nodes start walltime demands later cluster
            number (rw other at e)
    ]

demanded_total :
    (cluster : String) (machines : List Machine)
    → any (is_on cluster) machines ≡ true
    → get cluster (sum_demands [] machines) ≡ some (total cluster machines)
unfolding summed or_zero get
demanded_total cluster machines h =
    rw (sum_demands-summed cluster [] machines, h) (ap some (omega arith))

-- If `_test_slot` says that a slot fits, then each cluster that a machine demands has a status, and
-- can start at that time as many nodes as its machines demand together, with all of their exact
-- nodes.
pub test_slot-CanStart :
    (start h m s : ℕ) (machines : List Machine) (clusters_status : Dict String Nodes)
    → test_slot start (h ∷ m ∷ s ∷ []) machines clusters_status ≡ ok true
    → (cluster : String) → any (is_on cluster) machines ≡ true
    → CanStart clusters_status cluster
        (total cluster machines)
        (all_exact cluster machines)
        start
        (h * 3600 + m * 60 + s)
unfolding test_slot
test_slot-CanStart start h m s machines clusters_status e cluster demanded =
    let can =
      demand_loop-CanStart clusters_status (collect_exact [] machines) start (h * 3600 + m * 60 + s)
        (sum_demands [] machines) e cluster (total cluster machines)
        (demanded_total cluster machines demanded) in
    rw⁻¹ (collect_exact-all_exact cluster [] machines) can
