-- ===== src/VirtualMachines.antt =====
-- `_distribute` of enoslib/infra/enos_vmong5k/provider.py: the virtual machines of each demand, on its
-- physical machines in turn, by role. `P` is a physical machine, `M` a MAC address and `V` a virtual
-- machine, which `vm` makes.
pub mod Placement
pub mod Macs
pub mod Demand
use enoslib.Base.{ℕ, zero, suc, ◌+◌, ◌%◌, String, Bool, Option, none, some, List, [], ◌∷◌, length}
use enoslib.Base.Eq.{Eq, String_eq}
use enoslib.Base.Sort.{sorted}
use enoslib.Collections.ResourcesSet.{get_elem?}
use enoslib.Collections.RolesDict.{Roles, add_one}

pub record Machine (P M : Type 0) : Type 0 where
  pub roles : List String
  pub undercloud : List P
  pub macs : List M
  pub number : ℕ

module _ {A : Type 0} where
  -- The element that the `i`-th `next` of `itertools.cycle(xs)` gives; `none` is StopIteration.
  unfoldable pub cycle_at : List A → ℕ → Option A
  cycle_at [] i = none
  cycle_at (x ∷ xs) i = get_elem? (x ∷ xs) (i % suc (length xs))

module _ {P M V : Type 0} (vm : P → M → V) where
  cons_vm : Option P → M → Option (List V) → Option (List V)
  cons_vm none mac vms = none
  cons_vm (some pm) mac none = none
  cons_vm (some pm) mac (some vms) = some (vm pm mac ∷ vms)

  -- `for _ in range(machine.number)`, from the turn `i`; `none` is the StopIteration of an iterator.
  unfoldable pub place : List P → ℕ → List M → ℕ → Option (List V)
  unfolding cycle_at cons_vm
  place pms zero macs i = some []
  place pms (suc n) [] i = none
  place pms (suc n) (mac ∷ macs) i = cons_vm (cycle_at pms i) mac (place pms n macs (suc i))

module _ {V : Type 0} ⦃vm_eq : Eq V⦄ where
  -- `for role in machine.roles: vmong5k_roles[role] += [vm]`, for each of the machines
  unfoldable pub add_vms : Roles V → List V → List String → Roles V
  unfolding add_one
  add_vms vmong5k_roles [] roles = vmong5k_roles
  add_vms vmong5k_roles (v ∷ vms) roles = add_vms (add_one vmong5k_roles v roles) vms roles

module _ {P M V : Type 0} ⦃vm_eq : Eq V⦄ (le : P → P → Bool) (vm : P → M → V) where
  machine_vms : Machine P M → Option (List V)
  unfolding place sorted
  machine_vms machine = place vm (sorted le machine.undercloud) machine.number machine.macs 0

  and_add :
      Option (List V) → List String → Roles V → (Roles V → Option (Roles V)) → Option (Roles V)
  unfolding add_vms
  and_add none roles vmong5k_roles next = none
  and_add (some vms) roles vmong5k_roles next = next (add_vms vmong5k_roles vms roles)

  distribute_from : Roles V → List (Machine P M) → Option (Roles V)
  unfolding machine_vms and_add
  distribute_from vmong5k_roles [] = some vmong5k_roles
  distribute_from vmong5k_roles (machine ∷ machines) =
      and_add (machine_vms machine) machine.roles vmong5k_roles
        λ added. distribute_from added machines

  unfoldable pub distribute : List (Machine P M) → Option (Roles V)
  unfolding distribute_from
  distribute machines = distribute_from [] machines
