-- ===== src/Emul/Constraints.antt =====
-- `add_constraints` of `HTBSource` (enoslib/service/emul/htb.py) and of `NetemInOutSource`
-- (enoslib/service/emul/netem.py): the same loop, over the `equal` of each class.
pub mod Laws
use enoslib.Base.{Bool, List, [], ◌∷◌, filterb}
use enoslib.Base.Eq.{Eq}
use enoslib.Collections.ResourcesSet.{add, discard}

module _ {ℓ} {C : Type ℓ} ⦃e : Eq C⦄ where
  -- `for c in matched: self.constraints.discard(c)`
  unfoldable pub discard_all : List C → List C → List C
  unfolding discard
  discard_all constraints [] = constraints
  discard_all constraints (c ∷ matched) = discard_all (discard constraints c) matched

  -- The loop's body: what is equal in this context is replaced.
  unfoldable pub add_constraint : (C → C → Bool) → List C → C → List C
  unfolding discard_all add
  add_constraint equal constraints c =
      add (discard_all constraints (filterb (equal c) constraints)) c

  unfoldable pub add_constraints : (C → C → Bool) → List C → List C → List C
  unfolding add_constraint
  add_constraints equal constraints [] = constraints
  add_constraints equal constraints (c ∷ cs) =
      add_constraints equal (add_constraint equal constraints c) cs
