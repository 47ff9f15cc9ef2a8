-- ===== src/Emul/Htb/Service.antt =====
-- `NetemHTB.add_constraints` of enoslib/service/emul/htb.py. The interfaces and the addresses of the
-- hosts are parameters; `H` is the type of the hosts.
pub mod Exclusive
use enoslib.Base.{String, Bool, true, false, Option, none, some, List, [], ◌∷◌}
use enoslib.Base.Eq.{Eq, ◌==◌}
use enoslib.Base.Dict.{Dict, get, put}
use enoslib.Collections.ResourcesSet.{union}
use enoslib.Emul.Htb

-- What the call gives to each constraint.
pub record Shape : Type 0 where
  pub delay : String
  pub rate : String
  pub loss : Option String

-- `kwargs`
unfoldable pub constraint : Shape → String → String → Htb.HtbConstraint
constraint s sdevice daddr = record {
  device = sdevice;
  delay = s.delay;
  target = daddr;
  rate = s.rate;
  loss = s.loss;
}

-- `for daddr in dall_addrs: source.add_constraint(**kwargs)`
unfoldable pub add_addresses :
    Shape → String → List Htb.HtbConstraint → List String → List Htb.HtbConstraint
unfolding constraint Htb.add_constraints
add_addresses s sdevice source [] = source
add_addresses s sdevice source (daddr ∷ addrs) =
    add_addresses s sdevice (Htb.add_constraints source (constraint s sdevice daddr ∷ [])) addrs

source_or_new : Option (List Htb.HtbConstraint) → List Htb.HtbConstraint
source_or_new none = []
source_or_new (some source) = source

module _ {H : Type 0} (filter_addresses : H → List String) where
  -- `for dest_host in dest`
  unfoldable pub add_dests :
      Shape → String → List Htb.HtbConstraint → List H → List Htb.HtbConstraint
  unfolding add_addresses
  add_dests s sdevice source [] = source
  add_dests s sdevice source (dest_host ∷ dest) =
      add_dests s sdevice (add_addresses s sdevice source (filter_addresses dest_host)) dest

  -- `for sdevice in local_devices`
  unfoldable pub add_devices :
      Shape → List H → List Htb.HtbConstraint → List String → List Htb.HtbConstraint
  unfolding add_dests
  add_devices s dest source [] = source
  add_devices s dest source (sdevice ∷ devices) =
      add_devices s dest (add_dests s sdevice source dest) devices

-- The hosts that some device is limited to are kept in `self.dests`.
unfoldable pub store_dests {ℓ} : {H : Type ℓ} ⦃e : Eq H⦄ → List H → List H → List String → List H
unfolding union
store_dests dests dest [] = dests
store_dests dests dest (sdevice ∷ devices) = union dests dest

module _ {H : Type 0} ⦃host_eq : Eq H⦄ (filter_interfaces filter_addresses : H → List String) where
  -- `self.sources` and `self.dests` after one direction
  unfoldable pub add_one_way :
      Dict H (List Htb.HtbConstraint) × List H
      → List H
      → List H
      → Shape
      → Dict H (List Htb.HtbConstraint) × List H
  unfolding get put source_or_new add_devices store_dests
  add_one_way (sources, dests) [] dest s = (sources, dests)
  add_one_way (sources, dests) (src_host ∷ src) dest s =
      add_one_way
        (
          put src_host
              (add_devices filter_addresses s dest (source_or_new (get src_host sources))
                (filter_interfaces src_host))
              sources,
          store_dests dests dest (filter_interfaces src_host),
        )
        src dest s

  -- `NetemHTB.add_constraints`, with the call for the other direction if `symmetric`
  unfoldable pub add_constraints :
      Dict H (List Htb.HtbConstraint) × List H
      → List H
      → List H
      → Shape
      → Bool
      → Dict H (List Htb.HtbConstraint) × List H
  unfolding add_one_way
  add_constraints state src dest s false = add_one_way state src dest s
  add_constraints state src dest s true = add_one_way (add_one_way state src dest s) dest src s
