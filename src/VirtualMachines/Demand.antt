-- ===== src/VirtualMachines/Demand.antt =====
-- `_find_nodes_number` of enoslib/infra/enos_vmong5k/provider.py: how many physical machines are
-- reserved for some virtual ones. `cores` and `memory` are what the Grid'5000 API tells of a node, and
-- `reserved` the two percents of its memory before the caps; the division of floats is taken as exact.
use native.Mathlib.Decide.{dec_le}
use native.Mathlib.Nat.{le-div_iff_mul-le, suc-mul, mul-le-mul_right}
use enoslib.Base.{
  ℕ, suc, ◌+◌, ◌-◌, ◌*◌, ◌/◌, ◌≤◌, ◌<◌, ◌≡◌, max, arith, ltb, if◌then◌else◌, Bool-cases, inl, inr,
  refl, ◌⊎◌,
}

-- What a group of virtual machines demands: how many, and the cores and the megabytes of each.
pub record Flavour : Type 0 where
  pub number : ℕ
  pub core : ℕ
  pub mem : ℕ

-- `-((-1 * total) // unit)`
unfoldable pub ceil_div : ℕ → ℕ → ℕ
ceil_div total unit = (total + (unit - 1)) / unit

abbrev mega : ℕ
mega = 1024 * 1024

-- The reserved memory, between 256 MB and 4 GB.
unfoldable pub capped : ℕ → ℕ
capped reserved =
    let low = if ltb reserved (256 * mega) then 256 * mega else reserved in
    if ltb (4 * 1024 * mega) low then 4 * 1024 * mega else low

unfoldable pub find_nodes_number : ℕ → ℕ → ℕ → Flavour → ℕ
unfolding ceil_div capped
find_nodes_number cores phys_mem_bytes reserved machine =
    let nodes_number_cores = ceil_div (machine.number * machine.core) cores in
    let nodes_number_memory =
      ceil_div (machine.number * machine.mem * mega) (phys_mem_bytes - capped reserved) in
    let res = max nodes_number_cores nodes_number_memory in
    if ltb machine.number res then machine.number else res

-- Rounding up: enough for the total, and no more than that.
ceil_div-enough : (total unit : ℕ) → 0 < unit → total ≤ ceil_div total unit * unit
unfolding ceil_div
ceil_div-enough total unit h =
    let q = (total + (unit - 1)) / unit in
    elim (dec_le (suc q * unit) (total + (unit - 1))) [
      | yes p ↦
          absurd (
            omega
              (arith, (le-div_iff_mul-le {k = unit} {x = suc q} {y = total + (unit - 1)} h).1 p))
      | no p ↦ omega (arith, p, h, suc-mul q unit)
    ]

ceil_div-least : (total unit m : ℕ) → 0 < unit → total ≤ m * unit → ceil_div total unit ≤ m
unfolding ceil_div
ceil_div-least total unit m h e =
    let q = (total + (unit - 1)) / unit in
    elim (dec_le (suc m) q) [
      | no p ↦ omega (arith, p)
      | yes p ↦ absurd (
          omega (
            arith,
            (le-div_iff_mul-le {k = unit} {x = suc m} {y = total + (unit - 1)} h).0 p,
            h,
            e,
            suc-mul m unit,
          ))
    ]

-- So many nodes have the cores and the memory for the machines.
abbrev pub HasRoom : ℕ → ℕ → Flavour → ℕ → Type 0
HasRoom cores usable machine n =
    (machine.number * machine.core ≤ n * cores) × (machine.number * machine.mem * mega ≤ n * usable)

-- The number of nodes is at most the number of virtual machines. It is that, or the nodes have the
-- cores and the memory for all of them. No smaller number of nodes has both.
pub find_nodes_number-HasRoom :
    (cores phys_mem_bytes reserved : ℕ) (machine : Flavour)
    → 0 < cores
    → capped reserved < phys_mem_bytes
    → (find_nodes_number cores phys_mem_bytes reserved machine ≤ machine.number)
      × ((find_nodes_number cores phys_mem_bytes reserved machine ≡ machine.number)
          ⊎ HasRoom cores
              (phys_mem_bytes - capped reserved)
              machine
              (find_nodes_number cores phys_mem_bytes reserved machine))
      × ((m : ℕ)
          → HasRoom cores (phys_mem_bytes - capped reserved) machine m
          → find_nodes_number cores phys_mem_bytes reserved machine ≤ m)
unfolding find_nodes_number
find_nodes_number-HasRoom cores phys_mem_bytes reserved machine h k =
    let usable = phys_mem_bytes - capped reserved in
    let by_cores = ceil_div (machine.number * machine.core) cores in
    let by_memory = ceil_div (machine.number * machine.mem * mega) usable in
    let some_usable : 0 < usable = omega (arith, k) in
    let enough_cores = ceil_div-enough (machine.number * machine.core) cores h in
    let enough_memory = ceil_div-enough (machine.number * machine.mem * mega) usable some_usable in
    let res = max by_cores by_memory in
    let least : (m : ℕ) → HasRoom cores usable machine m → res ≤ m = λ m room. omega (
      arith,
      ceil_div-least (machine.number * machine.core) cores m h room.0,
      ceil_div-least (machine.number * machine.mem * mega) usable m some_usable room.1,
    ) in
    let more_cores : by_cores * cores ≤ res * cores = mul-le-mul_right cores (omega arith) in
    let more_memory : by_memory * usable ≤ res * usable = mul-le-mul_right usable (omega arith) in
    elim (Bool-cases (ltb machine.number res)) [
      | inl more ↦ rw more (omega arith, inl refl, λ m room. ground (arith, more, least m room))
      | inr enough ↦ rw enough (
        ground (arith, enough),
        inr (omega (arith, enough_cores, more_cores), omega (arith, enough_memory, more_memory)),
        λ m room. least m room,
      )
    ]
