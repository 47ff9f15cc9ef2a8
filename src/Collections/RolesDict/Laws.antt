-- ===== src/Collections/RolesDict/Laws.antt =====
-- Which resources a role has after each operation.
use enoslib.Base.{
  String, ◌≡◌, refl, Bool, false, ◌&&◌, ◌||◌, List, [], ◌∷◌, any, arith, Bool-cases, inl, inr,
}
use enoslib.Base.Eq.{Eq, String_eq, ◌==◌, ==_comm}
use enoslib.Base.Dict.{get, put, get-put, has_key, has_key-put, IsMapping}
use enoslib.Collections.ResourcesSet.{contains, union}
use enoslib.Collections.ResourcesSet.Laws.{contains-union, IsSetData, union-IsSetData}
use enoslib.Collections.RolesDict.{
  Roles, role, or_missing, set_item, add_to, all_from, all_hosts, iadd, plus, add_one,
}

module _ {ℓ} {A : Type ℓ} ⦃e : Eq A⦄ where
  -- `x in self[key]`
  abbrev pub has : Roles A → String → A → Bool
  has self key x = contains (role self key) x

  -- `x` stands under `key` in one of the items.
  abbrev pub has_item : Roles A → String → A → Bool
  has_item [] key x = false
  has_item ((k, hosts) ∷ rest) key x = k == key && contains hosts x || has_item rest key x

  has-add_to :
      (self : Roles A) (k key : String) (hosts : List A) (x : A)
      → has (add_to self k hosts) key x ≡ (has self key x || k == key && contains hosts x)
  unfolding add_to set_item role or_missing
  has-add_to self k key hosts x =
      rw get-put (ground (arith, contains-union (role self k) hosts x, String_eq.eqb_iff k key))

  pub has-iadd :
      (self other : Roles A) (key : String) (x : A)
      → has (iadd self other) key x ≡ (has self key x || has_item other key x)
  unfolding iadd
  has-iadd self [] key x = ground arith
  has-iadd self ((k, hosts) ∷ other) key x =
      ground (arith, has-iadd (add_to self k hosts) other key x, has-add_to self k key hosts x)

  has_item-absent :
      (d : Roles A) (key : String) (x : A) → has_key key d ≡ false → has_item d key x ≡ false
  has_item-absent [] key x h = refl
  has_item-absent ((k, hosts) ∷ d) key x h = ground (arith, has_item-absent d key x)

  has_item-eq-has :
      (d : Roles A) (key : String) (x : A) → IsMapping d → has_item d key x ≡ has d key x
  unfolding role or_missing get contains
  has_item-eq-has [] key x m = refl
  has_item-eq-has ((k, hosts) ∷ d) key x m =
      ground
        (arith, has_item-eq-has d key x m.1, has_item-absent d k x m.0, String_eq.eqb_iff k key)

  has-nil : (key : String) (x : A) → has [] key x ≡ false
  unfolding role get or_missing contains
  has-nil key x = refl

  plus_lem :
      (self other : Roles A) (key : String) (x : A)
      → IsMapping self
      → IsMapping other
      → has (plus self other) key x ≡ (has self key x || has other key x)
  unfolding plus
  plus_lem self other key x s o = ground (
    arith,
    has-iadd (iadd [] self) other key x,
    has-iadd [] self key x,
    has-nil key x,
    has_item-eq-has self key x s,
    has_item-eq-has other key x o,
  )

  -- If the keys of each of the two stand once, a role of `self + other` has the resources that it has in one of the two, and `other + self`
  -- has the same resources in each role.
  has-plus :
      (self other : Roles A) (key : String) (x : A)
      → IsMapping self
      → IsMapping other
      → (has (plus self other) key x ≡ (has self key x || has other key x))
        × (has (plus other self) key x ≡ has (plus self other) key x)
  has-plus self other key x s o = (
    plus_lem self other key x s o,
    ground (arith, plus_lem self other key x s o, plus_lem other self key x o s),
  )

  contains-all_from :
      (seen : List A) (self : Roles A) (x : A)
      → contains (all_from seen self) x ≡ (contains seen x || any (λ item. contains item.1 x) self)
  unfolding all_from
  contains-all_from seen [] x = ground arith
  contains-all_from seen ((k, hosts) ∷ self) x =
      ground (arith, contains-all_from (union seen hosts) self x, contains-union seen hosts x)

  all_from-IsSetData :
      (seen : List A) (self : Roles A) → IsSetData seen → IsSetData (all_from seen self)
  unfolding all_from
  all_from-IsSetData seen [] s = s
  all_from-IsSetData seen ((k, hosts) ∷ self) s =
      all_from-IsSetData (union seen hosts) self (union-IsSetData seen hosts s)

  -- `all()` holds each resource of a role once, and no other.
  all_hosts_lem :
      (self : Roles A)
      → IsSetData (all_hosts self)
        × ((x : A) → contains (all_hosts self) x ≡ any (λ item. contains item.1 x) self)
  unfolding all_hosts contains
  all_hosts_lem self = (all_from-IsSetData [] self tt, contains-all_from [] self)

  -- The keys stand once, and under each no resource stands twice.
  abbrev pub IsRoles : Roles A → Type ℓ
  IsRoles [] = Unit
  IsRoles ((k, hosts) ∷ rest) = (has_key k rest ≡ false) × IsSetData hosts × IsRoles rest

  put-IsRoles :
      (k : String) (hosts : List A) (self : Roles A)
      → IsSetData hosts
      → IsRoles self
      → IsRoles (put k hosts self)
  unfolding put
  put-IsRoles k hosts [] s r = (refl, s, tt)
  put-IsRoles k hosts ((i, old) ∷ self) s r = elim (Bool-cases (i == k)) [
    | inl same ↦ rw same (r.0, s, r.2)
    | inr other ↦ rw other (
      ground (arith, has_key-put k i hosts self, ==_comm i k, r.0),
      r.1,
      put-IsRoles k hosts self s r.2,
    )
  ]

  role-IsSetData : (k : String) (self : Roles A) → IsRoles self → IsSetData (role self k)
  unfolding role get or_missing
  role-IsSetData k [] r = tt
  role-IsSetData k ((i, old) ∷ self) r = elim (Bool-cases (i == k)) [
    | inl same ↦ rw same r.1
    | inr other ↦ rw other (role-IsSetData k self r.2)
  ]

  add_to-IsRoles :
      (self : Roles A) (k : String) (hosts : List A) → IsRoles self → IsRoles (add_to self k hosts)
  unfolding add_to set_item
  add_to-IsRoles self k hosts r =
      put-IsRoles k _ self (union-IsSetData (role self k) hosts (role-IsSetData k self r)) r

  iadd-IsRoles : (self other : Roles A) → IsRoles self → IsRoles (iadd self other)
  unfolding iadd
  iadd-IsRoles self [] r = r
  iadd-IsRoles self ((k, hosts) ∷ other) r =
      iadd-IsRoles (add_to self k hosts) other (add_to-IsRoles self k hosts r)

  add_one-IsRoles :
      (self : Roles A) (x : A) (keys : List String) → IsRoles self → IsRoles (add_one self x keys)
  unfolding add_one
  add_one-IsRoles self x [] r = r
  add_one-IsRoles self x (k ∷ keys) r =
      add_one-IsRoles (add_to self k (x ∷ [])) x keys (add_to-IsRoles self k (x ∷ []) r)

  -- `+=`, `+` and `add_one` keep the keys distinct and each role's set free of duplicates, whatever
  -- iterables are added.
  updates-IsRoles :
      (self other : Roles A) (x : A) (keys : List String)
      → IsRoles self
      → IsRoles (iadd self other) × IsRoles (plus self other) × IsRoles (add_one self x keys)
  unfolding plus
  updates-IsRoles self other x keys r = (
    iadd-IsRoles self other r,
    iadd-IsRoles (iadd [] self) other (iadd-IsRoles [] self tt),
    add_one-IsRoles self x keys r,
  )

  -- After `add_one` the element stands under each of the keys, and nothing else has changed.
  has-add_one :
      (self : Roles A) (elem : A) (keys : List String) (key : String) (x : A)
      → has (add_one self elem keys) key x
        ≡ (has self key x || any (λ k. k == key) keys && elem == x)
  unfolding add_one contains
  has-add_one self elem [] key x = ground arith
  has-add_one self elem (k ∷ keys) key x = ground (
    arith,
    has-add_one (add_to self k (elem ∷ [])) elem keys key x,
    has-add_to self k key (elem ∷ []) x,
  )
