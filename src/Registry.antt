-- ===== src/Registry.antt =====
-- `ProcessRegistry` of enoslib/registry/process.py. A process is a value, its host a value with an
-- equality test; `list_processes` is what `cg_list` on the hosts reports, with the lines parsed.
pub mod Refresh
pub mod Sizes
pub mod Kill
use enoslib.Base.{
  ℕ, zero, suc, ◌+◌, ◌-◌, ◌%◌, String, Bool, true, false, ◌&&◌, ◌||◌, Option, none, some, List, [],
  ◌∷◌, ◌++◌, map, length, filterb, any, if◌then◌else◌,
}
use enoslib.Base.Int.{ℤ, pos, negsuc}
use enoslib.Base.Eq.{Eq, String_eq, ◌==◌}
use enoslib.Collections.RolesDict.{Roles, iterable, set_item}

pub data State : Type 0 where
  dead alive : State

abbrev pub is_alive : State → Bool
is_alive alive = true
is_alive dead = false

abbrev pub is_dead : State → Bool
is_dead alive = false
is_dead dead = true

-- What processes are looked for on: hosts, or roles.
pub data RolesLike (H : Type 0) : Type 0 where
  hosts : List H → RolesLike H
  roles : Roles H → RolesLike H

pub record ProcessGroup (H : Type 0) : Type 0 where
  pub group : String
  pub host : H
  pub state : State

pub record ProcessRegistry (H : Type 0) : Type 0 where
  pub processes : List (ProcessGroup H)
  pub glob : String
  pub roles : Option (RolesLike H)
  pub size : ℕ

pub data Result (A : Type 0) : Type 0 where
  ok : A → Result A
  zero_division : Result A
  index_error : Result A

module _ {H : Type 0} where
  -- `roles if roles else None`
  given : RolesLike H → Option (RolesLike H)
  given (hosts []) = none
  given (roles []) = none
  given r = some r

  given_or_none : Option (RolesLike H) → Option (RolesLike H)
  unfolding given
  given_or_none none = none
  given_or_none (some r) = given r

  -- `ProcessRegistry(processes, glob, roles)`: the size is 0 whatever the processes are.
  unfoldable pub init : List (ProcessGroup H) → String → Option (RolesLike H) → ProcessRegistry H
  unfolding given_or_none
  init ps g rs = record { processes = ps; glob = g; roles = given_or_none rs; size = 0 }

  -- `append` of one process, and of a list.
  unfoldable pub append : ProcessRegistry H → ProcessGroup H → ProcessRegistry H
  append r p = record r { processes = r.processes ++ p ∷ []; size = suc r.size }

  unfoldable pub append_list : ProcessRegistry H → List (ProcessGroup H) → ProcessRegistry H
  append_list r ps = record r { processes = r.processes ++ ps; size = r.size + length ps }

  abbrev pub set_state : State → ProcessGroup H → ProcessGroup H
  set_state s p = record p { state = s }

  -- `ProcessRegistry.set_dead` and `set_alive`
  unfoldable pub set_dead : ProcessRegistry H → ProcessRegistry H
  set_dead r = record r { processes = map (set_state dead) r.processes }

  unfoldable pub set_alive : ProcessRegistry H → ProcessRegistry H
  set_alive r = record r { processes = map (set_state alive) r.processes }

-- `index % size` of Python, for a size other than 0.
modulo : ℤ → ℕ → ℕ
modulo (pos n) size = n % size
modulo (negsuc n) size = size - 1 - n % size

module _ {A : Type 0} where
  at : List A → ℕ → Result A
  at [] n = index_error
  at (x ∷ xs) zero = ok x
  at (x ∷ xs) (suc n) = at xs n

  -- `xs[index % size]`
  at_modulo : List A → ℕ → ℤ → Result A
  unfolding at modulo
  at_modulo xs zero index = zero_division
  at_modulo xs (suc n) index = at xs (modulo index (suc n))

module _ {H : Type 0} where
  -- `ProcessRegistry.get`
  unfoldable pub get : ProcessRegistry H → ℤ → Result (ProcessGroup H)
  unfolding at_modulo
  get r index = at_modulo r.processes r.size index

module _ {H : Type 0} ⦃host_eq : Eq H⦄ where
  -- `ProcessGroup.__eq__`
  abbrev pub same_process : ProcessGroup H → ProcessGroup H → Bool
  same_process p q = p.group == q.group && p.host == q.host

  -- `Roles(all=hosts)`
  all_hosts : List H → RolesLike H
  unfolding set_item
  all_hosts hs = roles (set_item [] "all" (iterable hs))

  -- A registry of the processes that are selected, on their hosts.
  select : (ProcessGroup H → Bool) → ProcessRegistry H → ProcessRegistry H
  unfolding all_hosts
  select p r =
      let selected = filterb p r.processes in
      record {
        processes = selected;
        glob = r.glob;
        roles = some (all_hosts (map (λ q. q.host) selected));
        size = length selected;
      }

  unfoldable pub get_dead_processes : ProcessRegistry H → ProcessRegistry H
  unfolding select
  get_dead_processes r = select (λ p. is_dead p.state) r

  unfoldable pub get_alive_processes : ProcessRegistry H → ProcessRegistry H
  unfolding select
  get_alive_processes r = select (λ p. is_alive p.state) r

  -- The loop of `lookup` over the hosts.
  lookup_loop : ProcessRegistry H → List H → ProcessRegistry H → ProcessRegistry H
  unfolding append_list
  lookup_loop self [] registry = registry
  lookup_loop self (h ∷ hs) registry =
      lookup_loop self hs (append_list registry (filterb (λ p. p.host == h) self.processes))

  counted : ProcessRegistry H → ProcessRegistry H
  counted r = record r { size = length r.processes }

  -- `ProcessRegistry.lookup`
  unfoldable pub lookup : ProcessRegistry H → List H → ProcessRegistry H
  unfolding lookup_loop counted
  lookup self hs = counted (
      lookup_loop self hs
        (record { processes = []; glob = self.glob; roles = some (hosts hs); size = 0 }))

  -- The loop of `refresh` over the old processes. A process that the refreshed registry lacks is
  -- set dead and appended to it, and so it is there for the ones that follow.
  unfoldable pub refresh_loop : List (ProcessGroup H) → ProcessRegistry H → ProcessRegistry H
  unfolding append
  refresh_loop [] registry = registry
  refresh_loop (p ∷ ps) registry =
      let known = refresh_loop ps registry in
      let died = refresh_loop ps (append registry (set_state dead p)) in
      if any (same_process p) registry.processes then known else died

  -- `_hostslike_to_roles`
  to_roles : RolesLike H → RolesLike H
  unfolding all_hosts
  to_roles (hosts hs) = all_hosts hs
  to_roles (roles rs) = roles rs

  module _ (list_processes : String → RolesLike H → List (ProcessGroup H)) where
    -- `ProcessRegistry.build`
    unfoldable pub build : String → RolesLike H → ProcessRegistry H
    unfolding init to_roles
    build g rs = init (list_processes g rs) g (some (to_roles rs))

    -- `ProcessRegistry.refresh` on the roles of the registry
    refresh_on : Option (RolesLike H) → ProcessRegistry H → ProcessRegistry H
    unfolding refresh_loop build init
    refresh_on none self = init [] self.glob none
    refresh_on (some rs) self = refresh_loop self.processes (build self.glob rs)

    unfoldable pub refresh : ProcessRegistry H → ProcessRegistry H
    unfolding refresh_on
    refresh self = refresh_on self.roles self
