-- ===== src/Collections/RolesDict.antt =====
-- `RolesDict` of enoslib/collections.py: resources by role. A role's set is the value under its key
-- in `self.data`; no two keys share one set object.
pub mod Laws
use enoslib.Base.{String, Option, none, some, List, [], ◌∷◌}
use enoslib.Base.Eq.{Eq, String_eq}
use enoslib.Base.Dict.{Dict, get, put}
use enoslib.Collections.ResourcesSet.{union, of_iterable}

abbrev pub Roles {ℓ} : Type ℓ → Type ℓ
Roles A = Dict String (List A)

-- What is assigned under a role: a set, which is stored as it is, or another iterable.
pub data Item {ℓ} (A : Type ℓ) : Type ℓ where
  view : List A → Item A
  iterable : List A → Item A

module _ {ℓ} {A : Type ℓ} where
  or_missing : Option (List A) → List A
  or_missing none = []
  or_missing (some hosts) = hosts

  -- `self[role]`, with `__missing__`
  unfoldable pub role : Roles A → String → List A
  unfolding get or_missing
  role self key = or_missing (get key self)

module _ {ℓ} {A : Type ℓ} ⦃e : Eq A⦄ where
  -- `self[role] = item`
  unfoldable pub set_item : Roles A → String → Item A → Roles A
  unfolding put of_iterable
  set_item self key (view hosts) = put key hosts self
  set_item self key (iterable hosts) = put key (of_iterable hosts) self

  -- `self[role] += hosts`: reads the role, unites in place, and stores the set again.
  unfoldable pub add_to : Roles A → String → List A → Roles A
  unfolding set_item role union
  add_to self key hosts = set_item self key (view (union (role self key) hosts))

  all_from : List A → Roles A → List A
  unfolding union
  all_from all_hosts [] = all_hosts
  all_from all_hosts ((key, hosts) ∷ rest) = all_from (union all_hosts hosts) rest

  -- `self.all()`
  unfoldable pub all_hosts : Roles A → List A
  unfolding all_from
  all_hosts self = all_from [] self

  -- `self += other`, and `self.extend(other)`
  unfoldable pub iadd : Roles A → Roles A → Roles A
  unfolding add_to
  iadd self [] = self
  iadd self ((key, hosts) ∷ other) = iadd (add_to self key hosts) other

  -- `self + other`
  unfoldable pub plus : Roles A → Roles A → Roles A
  unfolding iadd
  plus self other = iadd (iadd [] self) other

  -- `self.add_one(elem, keys)`
  unfoldable pub add_one : Roles A → A → List String → Roles A
  unfolding add_to
  add_one self elem [] = self
  add_one self elem (key ∷ keys) = add_one (add_to self key (elem ∷ [])) elem keys
