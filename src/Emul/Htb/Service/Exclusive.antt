-- ===== src/Emul/Htb/Service/Exclusive.antt =====
-- Each source of a `NetemHTB` holds at most one constraint for a device and a target.
use enoslib.Base.{String, Bool, true, false, List, [], ◌∷◌, Bool-cases, inl, inr, All}
use enoslib.Base.Eq.{Eq, ◌==◌}
use enoslib.Base.Dict.{Dict, get, put}
use enoslib.Emul.Constraints.Laws.{IsExclusive, add_constraints_lem}
use enoslib.Emul.Htb
use enoslib.Emul.Htb.{HtbConstraint, HtbConstraint_eq, equal, equal-IsEquivalence}
use enoslib.Emul.Htb.Service.{
  Shape, constraint, add_addresses, add_dests, add_devices, source_or_new, store_dests, add_one_way,
  add_constraints,
}

add_addresses-IsExclusive :
    (s : Shape) (sdevice : String) (source : List HtbConstraint) (addrs : List String)
    → IsExclusive equal source
    → IsExclusive equal (add_addresses s sdevice source addrs)
unfolding add_addresses Htb.add_constraints
add_addresses-IsExclusive s sdevice source [] h = h
add_addresses-IsExclusive s sdevice source (daddr ∷ addrs) h =
    add_addresses-IsExclusive s sdevice
      (Htb.add_constraints source (constraint s sdevice daddr ∷ [])) addrs
      (add_constraints_lem equal-IsEquivalence source (constraint s sdevice daddr ∷ []) h).0

module _ {H : Type 0} (filter_addresses : H → List String) where
  add_dests-IsExclusive :
      (s : Shape) (sdevice : String) (source : List HtbConstraint) (dest : List H)
      → IsExclusive equal source
      → IsExclusive equal (add_dests filter_addresses s sdevice source dest)
  unfolding add_dests
  add_dests-IsExclusive s sdevice source [] h = h
  add_dests-IsExclusive s sdevice source (dest_host ∷ dest) h =
      add_dests-IsExclusive s sdevice (add_addresses s sdevice source (filter_addresses dest_host))
        dest (add_addresses-IsExclusive s sdevice source (filter_addresses dest_host) h)

  add_devices-IsExclusive :
      (s : Shape) (dest : List H) (source : List HtbConstraint) (devices : List String)
      → IsExclusive equal source
      → IsExclusive equal (add_devices filter_addresses s dest source devices)
  unfolding add_devices
  add_devices-IsExclusive s dest source [] h = h
  add_devices-IsExclusive s dest source (sdevice ∷ devices) h =
      add_devices-IsExclusive s dest (add_dests filter_addresses s sdevice source dest) devices
        (add_dests-IsExclusive s sdevice source dest h)

module _ {H : Type 0} ⦃host_eq : Eq H⦄ where
  -- In each source no two constraints have one device and one target.
  abbrev pub AreMerged : Dict H (List HtbConstraint) → Type 0
  AreMerged sources = All (λ item. IsExclusive equal item.1) sources

  source-IsExclusive :
      (h : H) (sources : Dict H (List HtbConstraint))
      → AreMerged sources
      → IsExclusive equal (source_or_new (get h sources))
  unfolding get source_or_new
  source-IsExclusive h [] ok = tt
  source-IsExclusive h ((j, source) ∷ sources) ok = elim (Bool-cases (j == h)) [
    | inl same ↦ rw same ok.0
    | inr other ↦ rw other (source-IsExclusive h sources ok.1)
  ]

  put-AreMerged :
      (h : H) (source : List HtbConstraint) (sources : Dict H (List HtbConstraint))
      → IsExclusive equal source
      → AreMerged sources
      → AreMerged (put h source sources)
  unfolding put
  put-AreMerged h source [] new ok = (new, tt)
  put-AreMerged h source ((j, old) ∷ sources) new ok = elim (Bool-cases (j == h)) [
    | inl same ↦ rw same (new, ok.1)
    | inr other ↦ rw other (ok.0, put-AreMerged h source sources new ok.1)
  ]

  module _ (filter_interfaces filter_addresses : H → List String) where
    add_one_way-AreMerged :
        (sources : Dict H (List HtbConstraint)) (dests src dest : List H) (s : Shape)
        → AreMerged sources
        → AreMerged (add_one_way filter_interfaces filter_addresses (sources, dests) src dest s).0
    unfolding add_one_way
    add_one_way-AreMerged sources dests [] dest s ok = ok
    add_one_way-AreMerged sources dests (h ∷ src) dest s ok =
        let source =
          add_devices filter_addresses s dest (source_or_new (get h sources))
            (filter_interfaces h) in
        add_one_way-AreMerged (put h source sources) (store_dests dests dest (filter_interfaces h))
          src dest s
          (put-AreMerged h source sources
            (add_devices-IsExclusive filter_addresses s dest (source_or_new (get h sources))
              (filter_interfaces h) (source-IsExclusive h sources ok))
            ok)

    -- If each source has at most one constraint for a device and a target, this is so after
    -- `NetemHTB.add_constraints`, in one direction or both.
    add_constraints-AreMerged :
        (sources : Dict H (List HtbConstraint)) (dests src dest : List H) (s : Shape)
        (symmetric : Bool)
        → AreMerged sources
        → AreMerged
            (add_constraints filter_interfaces filter_addresses
              (sources, dests)
              src
              dest
              s
              symmetric).0
    unfolding add_constraints
    add_constraints-AreMerged sources dests src dest s false ok =
        add_one_way-AreMerged sources dests src dest s ok
    add_constraints-AreMerged sources dests src dest s true ok =
        add_one_way-AreMerged _ _ dest src s (add_one_way-AreMerged sources dests src dest s ok)
