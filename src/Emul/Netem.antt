-- ===== src/Emul/Netem.antt =====
-- enoslib/service/emul/netem.py: the constraints on the devices of a host, their commands, and
-- `Netem.add_constraints`. A `tc` or `ip` command is the parts that its text is made of, and the ifb
-- of a constraint is its number; `filter_interfaces` of the hosts is a parameter.
pub mod Exclusive
use enoslib.Base.{
  ℕ, suc, String, ◌≡◌, ◌↔◌, Bool, true, false, ◌&&◌, Option, none, some, List, [], ◌∷◌, ◌++◌,
  if◌then◌else◌, arith, filterb, not,
}
use enoslib.Base.Eq.{Eq, String_eq, ◌==◌}
use enoslib.Base.Dict.{Dict, get, put}
use enoslib.Base.Options.{◌>>=◌}
use enoslib.Emul.Constraints
use enoslib.Emul.Constraints.Laws.{IsEquivalence}

-- `NetemOutConstraint` or `NetemInConstraint`, with its device and options.
pub record NetemConstraint : Type 0 where
  pub inbound : Bool
  pub device : String
  pub options : String

pub data Command : Type 0 where
  -- `tc qdisc add dev … root netem …` and `tc qdisc del dev … root || true`
  root_netem : (device : String) (options : String) → Command
  root_del : (device : String) → Command
  -- `tc qdisc add dev … ingress`, `ip link add …`, `ip link set dev … up`
  ingress_add : (device : String) → Command
  ifb_add ifb_up ifb_del : (ifb : ℕ) → Command
  -- `tc filter add dev … parent ffff: … redirect dev …`, `tc qdisc add dev … root netem …`
  redirect : (device : String) (ifb : ℕ) → Command
  ifb_netem : (ifb : ℕ) (options : String) → Command

unfoldable pub bool_eqb : Bool → Bool → Bool
bool_eqb true b = b
bool_eqb false b = not b

pub bool_eqb_iff : (a b : Bool) → (bool_eqb a b ≡ true) ↔ (a ≡ b)
unfolding bool_eqb
bool_eqb_iff true true = ground arith
bool_eqb_iff true false = ground arith
bool_eqb_iff false true = ground arith
bool_eqb_iff false false = ground arith

-- The `__eq__` of the dataclass, which compares the classes too.
unfoldable pub constraint_eqb : NetemConstraint → NetemConstraint → Bool
unfolding bool_eqb
constraint_eqb a b =
    bool_eqb a.inbound b.inbound && (a.device == b.device && a.options == b.options)

pub constraint_eqb_iff : (a b : NetemConstraint) → (constraint_eqb a b ≡ true) ↔ (a ≡ b)
unfolding constraint_eqb
constraint_eqb_iff a b = ground (
  arith,
  bool_eqb_iff a.inbound b.inbound,
  String_eq.eqb_iff a.device b.device,
  String_eq.eqb_iff a.options b.options,
)

instance abbrev pub NetemConstraint_eq : Eq NetemConstraint
NetemConstraint_eq = record { eqb = constraint_eqb; eqb_iff = constraint_eqb_iff }

-- `NetemInOutSource.equal`
unfoldable pub equal : NetemConstraint → NetemConstraint → Bool
unfolding bool_eqb
equal c1 c2 = bool_eqb c1.inbound c2.inbound && c1.device == c2.device

pub equal-IsEquivalence : IsEquivalence equal
unfolding equal
equal-IsEquivalence = record {
  reflexive =
      λ a. ground (arith, bool_eqb_iff a.inbound a.inbound, String_eq.eqb_iff a.device a.device);
  symmetric = λ a b. ground (
    arith,
    bool_eqb_iff a.inbound b.inbound,
    bool_eqb_iff b.inbound a.inbound,
    String_eq.eqb_iff a.device b.device,
    String_eq.eqb_iff b.device a.device,
  );
  transitive = λ a b c h. ground (
    arith,
    bool_eqb_iff a.inbound b.inbound,
    bool_eqb_iff a.inbound c.inbound,
    bool_eqb_iff b.inbound c.inbound,
    String_eq.eqb_iff a.device b.device,
    String_eq.eqb_iff a.device c.device,
    String_eq.eqb_iff b.device c.device,
  );
}

-- `add_commands`, `remove_commands` and `commands` of a constraint, for the ifb of its index
unfoldable pub add_commands : NetemConstraint → ℕ → List Command
add_commands c ifb =
    if c.inbound
    then ingress_add c.device ∷ ifb_add ifb ∷ ifb_up ifb ∷ []
    else root_netem c.device c.options ∷ []

unfoldable pub remove_commands : NetemConstraint → ℕ → List Command
remove_commands c ifb =
    if c.inbound then root_del c.device ∷ ifb_del ifb ∷ [] else root_del c.device ∷ []

unfoldable pub commands : NetemConstraint → ℕ → List Command
commands c ifb = if c.inbound then redirect c.device ifb ∷ ifb_netem ifb c.options ∷ [] else []

-- `NetemInOutSource._commands`, from the index of the first constraint
unfoldable pub source_commands :
    (NetemConstraint → ℕ → List Command) → ℕ → List NetemConstraint → List Command
source_commands f idx [] = []
source_commands f idx (c ∷ cs) = f c idx ++ source_commands f (suc idx) cs

-- `NetemInOutSource.inbounds` and `outbounds`
unfoldable pub inbounds : List NetemConstraint → List NetemConstraint
inbounds cs = filterb (λ c. c.inbound) cs

unfoldable pub outbounds : List NetemConstraint → List NetemConstraint
outbounds cs = filterb (λ c. not c.inbound) cs

-- `NetemInOutSource.all_commands`: what removes, what adds, and the rest.
unfoldable pub all_commands : List NetemConstraint → List Command × List Command × List Command
unfolding source_commands add_commands remove_commands commands
all_commands cs = (
  source_commands remove_commands 0 cs,
  source_commands add_commands 0 cs,
  source_commands commands 0 cs,
)

-- The constraints of an interface; empty options are the ValueError of `__post_init__`.
unfoldable pub interface_constraints : String → Bool → String → Option (List NetemConstraint)
interface_constraints options symmetric interface =
    if options == ""
    then none
    else some (
        record { inbound = false; device = interface; options = options }
        ∷ (if symmetric
            then record { inbound = true; device = interface; options = options } ∷ []
            else []))

-- `NetemInOutSource.add_constraints` for each interface.
unfoldable pub add_interfaces :
    String → Bool → List NetemConstraint → List String → Option (List NetemConstraint)
unfolding interface_constraints Constraints.add_constraints
add_interfaces options symmetric source [] = some source
add_interfaces options symmetric source (i ∷ interfaces) = do
  constraints ← interface_constraints options symmetric i
  add_interfaces options symmetric (Constraints.add_constraints equal source constraints) interfaces

source_or_new : Option (List NetemConstraint) → List NetemConstraint
source_or_new none = []
source_or_new (some source) = source

-- `Netem.add_constraints`: the constraints of each host stand under it in `self.sources`; none is the
-- ValueError.
module _ {H : Type 0} ⦃host_eq : Eq H⦄ (filter_interfaces : H → List String) where
  unfoldable pub add_constraints :
      Dict H (List NetemConstraint)
      → String
      → Bool
      → List H
      → Option (Dict H (List NetemConstraint))
  unfolding get put source_or_new add_interfaces
  add_constraints sources options symmetric [] = some sources
  add_constraints sources options symmetric (h ∷ hosts) = do
    source ← add_interfaces options symmetric (source_or_new (get h sources)) (filter_interfaces h)
    add_constraints (put h source sources) options symmetric hosts
