-- ===== src/G5k/Configuration/Finalize/Defaults.antt =====
-- The primary networks that `finalize` fills in.
use enoslib.Base.{
  String, ◌≡◌, refl, ap, sym, ◌∙◌, Bool, true, Option, none, some, List, [], ◌∷◌, ◌++◌, filterb,
  arith, Bool-cases, inl, inr,
}
use mathlib.Core.List.{append_assoc, append-nil}
use enoslib.Base.Eq.{String_eq}
use enoslib.G5k.Configuration.{NetworkConfiguration, GroupConfiguration}
use enoslib.G5k.Configuration.Finalize.{
  Networks, is_prod, default_network, choose_network, default_unless, set_default_primary_network,
  set_defaults,
}

pub record IsProdOf (site : String) (networks : Networks) (net : NetworkConfiguration)
    : Type 0 where
  pub before : Networks
  pub after : Networks
  pub listed : networks ≡ before ++ net ∷ after
  pub of_site : net.site ≡ site
  pub of_type : net.type ≡ "prod"

-- A machine keeps its primary network; without one, it gets a production network of its site.
abbrev pub IsDefaulted :
    Option NetworkConfiguration → Option NetworkConfiguration → String → Networks → Type 0
IsDefaulted (some p) q site networks = q ≡ some p
IsDefaulted none q site networks =
    (net : NetworkConfiguration) × (q ≡ some net) × IsProdOf site networks net

abbrev pub AreDefaulted : List GroupConfiguration → List GroupConfiguration → Networks → Type 0
AreDefaulted [] [] networks = Unit
AreDefaulted (m ∷ ms) (m' ∷ ms') networks =
    IsDefaulted m.primary_network m'.primary_network m.site networks × AreDefaulted ms ms' networks
AreDefaulted _ _ networks = ⊥

IsProdOf-append :
    (site : String) (networks more : Networks) (net : NetworkConfiguration)
    → IsProdOf site networks net
    → IsProdOf site (networks ++ more) net
IsProdOf-append site networks more net h = record {
  before = h.before;
  after = h.after ++ more;
  listed = ap (λ l. l ++ more) h.listed ∙ append_assoc h.before (net ∷ h.after) more;
  of_site = h.of_site;
  of_type = h.of_type;
}

head-eq :
    {a b : NetworkConfiguration} {xs ys : Networks} → ◌≡◌ {A = Networks} (a ∷ xs) (b ∷ ys) → a ≡ b
head-eq h = cc

filterb-first :
    (p : NetworkConfiguration → Bool) (networks : Networks) (net : NetworkConfiguration)
    (rest : Networks)
    → filterb p networks ≡ net ∷ rest
    → (before : Networks) × (after : Networks) × (networks ≡ before ++ net ∷ after) × (p net ≡ true)
filterb-first p [] net rest h = cc
filterb-first p (n ∷ networks) net rest h = elim (Bool-cases (p n)) [
  | inl here ↦
      let same : n ≡ net = head-eq (rw here at h) in
      ([], networks, ap (λ x. x ∷ networks) same, ap p (sym same) ∙ here)
  | inr later ↦
      let (before, after, listed, holds) = filterb-first p networks net rest (rw later at h) in
      (n ∷ before, after, ap (λ l. n ∷ l) listed, holds)
]

IsDefaulted-append :
    (p q : Option NetworkConfiguration) (site : String) (networks more : Networks)
    → IsDefaulted p q site networks
    → IsDefaulted p q site (networks ++ more)
IsDefaulted-append (some p) q site networks more h = h
IsDefaulted-append none q site networks more (net, e, h) =
    (net, e, IsProdOf-append site networks more net h)

choose_network-IsDefaulted :
    (networks prod_nets : Networks) (m : GroupConfiguration)
    → filterb (is_prod m.site) networks ≡ prod_nets
    → IsDefaulted none
        (choose_network prod_nets m).1.primary_network
        m.site
        (networks ++ (choose_network prod_nets m).0)
unfolding choose_network is_prod default_network
choose_network-IsDefaulted networks [] m h = (
  default_network m.site,
  refl,
  record { before = networks; after = []; listed = refl; of_site = refl; of_type = refl },
)
choose_network-IsDefaulted networks (net ∷ rest) m h =
    let (before, after, listed, holds) = filterb-first (is_prod m.site) networks net rest h in
    (
      net,
      refl,
      record {
        before = before;
        after = after;
        listed = append-nil networks ∙ listed;
        of_site = ground (arith, holds, String_eq.eqb_iff net.site m.site);
        of_type = ground (arith, holds, String_eq.eqb_iff net.type "prod");
      },
    )

default_unless-IsDefaulted :
    (p : Option NetworkConfiguration) (networks : Networks) (m : GroupConfiguration)
    → m.primary_network ≡ p
    → IsDefaulted p
        (default_unless p networks m).1.primary_network
        m.site
        (networks ++ (default_unless p networks m).0)
unfolding default_unless
default_unless-IsDefaulted none networks m h =
    choose_network-IsDefaulted networks (filterb (is_prod m.site) networks) m refl
default_unless-IsDefaulted (some p) networks m h = h

set_defaults-extends :
    (networks : Networks) (ms : List GroupConfiguration)
    → (added : Networks) × ((set_defaults networks ms).0 ≡ networks ++ added)
unfolding set_defaults
set_defaults-extends networks [] = ([], sym (append-nil networks))
set_defaults-extends networks (m ∷ ms) =
    let first = (set_default_primary_network networks m).0 in
    let (added, e) = set_defaults-extends (networks ++ first) ms in
    (first ++ added, e ∙ append_assoc networks first added)

pub set_defaults-AreDefaulted :
    (networks : Networks) (ms : List GroupConfiguration)
    → AreDefaulted ms (set_defaults networks ms).1 (set_defaults networks ms).0
unfolding set_defaults set_default_primary_network
set_defaults-AreDefaulted networks [] = tt
set_defaults-AreDefaulted networks (m ∷ ms) =
    let step : Networks × GroupConfiguration = default_unless m.primary_network networks m in
    let (added, e) = set_defaults-extends (networks ++ step.0) ms in
    (
      rw e (
          IsDefaulted-append m.primary_network step.1.primary_network m.site (networks ++ step.0)
            added (default_unless-IsDefaulted m.primary_network networks m refl)),
      set_defaults-AreDefaulted (networks ++ step.0) ms,
    )
