-- ===== src/Emul/Netem/Exclusive.antt =====
-- Each source of a `Netem` holds at most one constraint of a direction on a device.
use enoslib.Base.{
  ◌≡◌, refl, String, Bool, false, some, List, [], ◌∷◌, Bool-cases, inl, inr, All, any, arith,
}
use enoslib.Base.Eq.{Eq, String_eq, ◌==◌}
use enoslib.Base.Dict.{Dict, get, put}
use enoslib.Base.Options.{Returns, Returns-bind}
use enoslib.Emul.Constraints
use enoslib.Emul.Constraints.Laws.{IsExclusive, add_constraints_lem}
use enoslib.Emul.Netem.{
  NetemConstraint, NetemConstraint_eq, bool_eqb_iff, equal, equal-IsEquivalence,
  interface_constraints, add_interfaces, source_or_new, add_constraints,
}

-- The two constraints are not of one direction on one device.
abbrev pub Differ : NetemConstraint → NetemConstraint → Type 0
Differ a b = a.inbound ≡ b.inbound → a.device ≡ b.device → ⊥

-- No two constraints are of one direction on one device.
abbrev pub AreApart : List NetemConstraint → Type 0
AreApart [] = Unit
AreApart (c ∷ source) = All (Differ c) source × AreApart source

equal-Differ : (a b : NetemConstraint) → equal a b ≡ false → Differ a b
unfolding equal
equal-Differ a b h direction device = ground (
  arith,
  h,
  direction,
  device,
  bool_eqb_iff a.inbound b.inbound,
  String_eq.eqb_iff a.device b.device,
)

Differ-equal : (a b : NetemConstraint) → Differ a b → equal a b ≡ false
unfolding equal
Differ-equal a b h = elim (Bool-cases (equal a b)) [
  | inr apart ↦ apart
  | inl same ↦ absurd (
      h (ground (arith, same, bool_eqb_iff a.inbound b.inbound))
        (ground (arith, same, String_eq.eqb_iff a.device b.device)))
]

any-Differ :
    (c : NetemConstraint) (source : List NetemConstraint)
    → any (equal c) source ≡ false
    → All (Differ c) source
any-Differ c [] h = tt
any-Differ c (d ∷ source) h =
    (equal-Differ c d (ground (arith, h)), any-Differ c source (ground (arith, h)))

Differ-any :
    (c : NetemConstraint) (source : List NetemConstraint)
    → All (Differ c) source
    → any (equal c) source ≡ false
Differ-any c [] h = refl
Differ-any c (d ∷ source) h = ground (arith, Differ-equal c d h.0, Differ-any c source h.1)

IsExclusive-AreApart : (source : List NetemConstraint) → IsExclusive equal source → AreApart source
IsExclusive-AreApart [] h = tt
IsExclusive-AreApart (c ∷ source) h = (any-Differ c source h.0, IsExclusive-AreApart source h.1)

AreApart-IsExclusive : (source : List NetemConstraint) → AreApart source → IsExclusive equal source
AreApart-IsExclusive [] h = tt
AreApart-IsExclusive (c ∷ source) h = (Differ-any c source h.0, AreApart-IsExclusive source h.1)

interface_constraints-Returns :
    (options : String) (symmetric : Bool) (interface : String)
    → (options == "") ≡ false
    → Returns {0, 0} (λ constraints. Unit) (interface_constraints options symmetric interface)
unfolding interface_constraints
interface_constraints-Returns options symmetric interface set = rw set (_, refl, tt)

add_interfaces-AreApart :
    (options : String) (symmetric : Bool) (source : List NetemConstraint) (interfaces : List String)
    → (options == "") ≡ false
    → AreApart source
    → Returns AreApart (add_interfaces options symmetric source interfaces)
unfolding add_interfaces
add_interfaces-AreApart options symmetric source [] set h = (source, refl, h)
add_interfaces-AreApart options symmetric source (i ∷ interfaces) set h =
    Returns-bind (λ constraints. Unit {0}) AreApart (interface_constraints options symmetric i)
      (λ constraints.
        add_interfaces options symmetric (Constraints.add_constraints equal source constraints)
          interfaces)
      (interface_constraints-Returns options symmetric i set)
      (λ constraints _.
        add_interfaces-AreApart options symmetric
          (Constraints.add_constraints equal source constraints) interfaces set
          (IsExclusive-AreApart (Constraints.add_constraints equal source constraints)
            (add_constraints_lem equal-IsEquivalence source constraints
              (AreApart-IsExclusive source h)).0))

module _ {H : Type 0} ⦃host_eq : Eq H⦄ where
  -- In each source no two constraints are of one direction on one device.
  abbrev pub AreExclusive : Dict H (List NetemConstraint) → Type 0
  AreExclusive sources = All (λ item. AreApart item.1) sources

  source-AreApart :
      (h : H) (sources : Dict H (List NetemConstraint))
      → AreExclusive sources
      → AreApart (source_or_new (get h sources))
  unfolding get source_or_new
  source-AreApart h [] ok = tt
  source-AreApart h ((j, source) ∷ sources) ok = elim (Bool-cases (j == h)) [
    | inl same ↦ rw same ok.0
    | inr other ↦ rw other (source-AreApart h sources ok.1)
  ]

  put-AreExclusive :
      (h : H) (source : List NetemConstraint) (sources : Dict H (List NetemConstraint))
      → AreApart source
      → AreExclusive sources
      → AreExclusive (put h source sources)
  unfolding put
  put-AreExclusive h source [] new ok = (new, tt)
  put-AreExclusive h source ((j, old) ∷ sources) new ok = elim (Bool-cases (j == h)) [
    | inl same ↦ rw same (new, ok.1)
    | inr other ↦ rw other (ok.0, put-AreExclusive h source sources new ok.1)
  ]

  module _ (filter_interfaces : H → List String) where
    -- If each source has at most one constraint of each direction on a device and the options are not
    -- empty, `Netem.add_constraints` returns for any hosts, and this is so of the sources that it leaves.
    pub add_constraints-AreExclusive :
        (sources : Dict H (List NetemConstraint)) (options : String) (symmetric : Bool)
        (hosts : List H)
        → (options == "") ≡ false
        → AreExclusive sources
        → (new : Dict H (List NetemConstraint)) × (add_constraints filter_interfaces sources options
              symmetric hosts
            ≡ some new)
          × AreExclusive new
    unfolding add_constraints
    add_constraints-AreExclusive sources options symmetric [] set ok = (sources, refl, ok)
    add_constraints-AreExclusive sources options symmetric (h ∷ hosts) set ok =
        Returns-bind AreApart AreExclusive
          (add_interfaces options symmetric (source_or_new (get h sources)) (filter_interfaces h))
          (λ source.
            add_constraints filter_interfaces (put h source sources) options symmetric hosts)
          (add_interfaces-AreApart options symmetric (source_or_new (get h sources))
            (filter_interfaces h) set (source-AreApart h sources ok))
          (λ source apart.
            add_constraints-AreExclusive (put h source sources) options symmetric hosts set
              (put-AreExclusive h source sources apart ok))
