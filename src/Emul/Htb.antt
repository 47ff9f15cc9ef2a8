-- ===== src/Emul/Htb.antt =====
-- `HTBConstraint` and `HTBSource` of enoslib/service/emul/htb.py. A `tc` command is the parts that
-- its text is made of; `is_ipv4` is the test of `ipaddress` on a target.
pub mod Route
pub mod Service
use enoslib.Base.{
  ℕ, suc, ◌+◌, String, ◌≡◌, ◌↔◌, Bool, true, false, ◌&&◌, ◌||◌, Option, none, some, List, [], ◌∷◌,
  ◌++◌, if◌then◌else◌, arith,
}
use enoslib.Base.Eq.{Eq, String_eq, ◌==◌}
use enoslib.Collections.ResourcesSet.{union}
use enoslib.Emul.Constraints
use enoslib.Emul.Constraints.Laws.{IsEquivalence}

pub record HtbConstraint : Type 0 where
  pub device : String
  pub delay : String
  pub target : String
  pub rate : String
  pub loss : Option String

pub data Command : Type 0 where
  -- `tc qdisc add dev … root handle 1: htb` and `tc qdisc del dev … root || true`
  root_add root_del : (device : String) → Command
  -- `tc class add dev … parent 1: classid 1:… htb rate …`
  class_add : (device : String) (classid : ℕ) (rate : String) → Command
  -- `tc qdisc add dev … parent 1:… handle …: netem delay … [loss …]`
  netem_add :
      (device : String) (classid handle : ℕ) (delay : String) (loss : Option String) → Command
  -- `tc filter add dev … parent 1: protocol ip[v6] u32 match ip[6] dst … flowid 1:…`
  filter_add : (device : String) (ipv4 : Bool) (target : String) (classid : ℕ) → Command

option_eqb : Option String → Option String → Bool
option_eqb none none = true
option_eqb (some a) (some b) = a == b
option_eqb _ _ = false

option_eqb_iff : (a b : Option String) → (option_eqb a b ≡ true) ↔ (a ≡ b)
unfolding option_eqb
option_eqb_iff none none = ground arith
option_eqb_iff none (some b) = ground arith
option_eqb_iff (some a) none = ground arith
option_eqb_iff (some a) (some b) = ground (arith, String_eq.eqb_iff a b)

-- The `__eq__` of the dataclass.
unfoldable pub constraint_eqb : HtbConstraint → HtbConstraint → Bool
unfolding option_eqb
constraint_eqb a b =
    a.device == b.device
    && (a.delay == b.delay
        && (a.target == b.target && (a.rate == b.rate && option_eqb a.loss b.loss)))

pub constraint_eqb_iff : (a b : HtbConstraint) → (constraint_eqb a b ≡ true) ↔ (a ≡ b)
unfolding constraint_eqb
constraint_eqb_iff a b = ground (
  arith,
  String_eq.eqb_iff a.device b.device,
  String_eq.eqb_iff a.delay b.delay,
  String_eq.eqb_iff a.target b.target,
  String_eq.eqb_iff a.rate b.rate,
  option_eqb_iff a.loss b.loss,
)

instance abbrev pub HtbConstraint_eq : Eq HtbConstraint
HtbConstraint_eq = record { eqb = constraint_eqb; eqb_iff = constraint_eqb_iff }

-- `HTBSource.equal`; the classes are the same, for the dataclass has no subclass.
abbrev pub equal : HtbConstraint → HtbConstraint → Bool
equal c1 c2 = c1.device == c2.device && c1.target == c2.target

-- `not self.loss`: None, and the empty text, add no loss.
unfoldable pub netem_loss : Option String → Option String
netem_loss none = none
netem_loss (some loss) = if loss == "" then none else some loss

module _ (is_ipv4 : String → Bool) where
  -- `HTBConstraint.commands(idx)`
  unfoldable pub commands : HtbConstraint → ℕ → List Command
  unfolding netem_loss
  commands c idx =
      class_add c.device (idx + 1) c.rate
      ∷ netem_add c.device (idx + 1) (idx + 10) c.delay (netem_loss c.loss)
      ∷ filter_add c.device (is_ipv4 c.target) c.target (idx + 1)
      ∷ []

  -- `HTBSource.commands`, from the index of the first constraint
  unfoldable pub source_commands : ℕ → List HtbConstraint → List Command
  unfolding commands
  source_commands idx [] = []
  source_commands idx (c ∷ cs) = commands c idx ++ source_commands (idx + 1) cs

-- `HTBSource.add_commands` and `remove_commands`: one command for each device, gathered in a set.
module _ ⦃e : Eq Command⦄ where
  unfoldable pub add_commands : List Command → List HtbConstraint → List Command
  unfolding union
  add_commands cmds [] = cmds
  add_commands cmds (c ∷ cs) = add_commands (union cmds (root_add c.device ∷ [])) cs

  unfoldable pub remove_commands : List Command → List HtbConstraint → List Command
  unfolding union
  remove_commands cmds [] = cmds
  remove_commands cmds (c ∷ cs) = remove_commands (union cmds (root_del c.device ∷ [])) cs

-- `HTBSource.add_constraints`
unfoldable pub add_constraints : List HtbConstraint → List HtbConstraint → List HtbConstraint
unfolding Constraints.add_constraints
add_constraints = Constraints.add_constraints equal

pub equal-IsEquivalence : IsEquivalence equal
equal-IsEquivalence = record {
  reflexive =
      λ a. ground (arith, String_eq.eqb_iff a.device a.device, String_eq.eqb_iff a.target a.target);
  symmetric = λ a b. ground (
    arith,
    String_eq.eqb_iff a.device b.device,
    String_eq.eqb_iff a.target b.target,
    String_eq.eqb_iff b.device a.device,
    String_eq.eqb_iff b.target a.target,
  );
  transitive = λ a b c h. ground (
    arith,
    String_eq.eqb_iff a.device b.device,
    String_eq.eqb_iff a.target b.target,
    String_eq.eqb_iff a.device c.device,
    String_eq.eqb_iff a.target c.target,
    String_eq.eqb_iff b.device c.device,
    String_eq.eqb_iff b.target c.target,
  );
}
