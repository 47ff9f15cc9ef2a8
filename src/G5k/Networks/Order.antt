-- ===== src/G5k/Networks/Order.antt =====
-- The networks are the same whatever order the reserved ones are listed in.
use enoslib.Base.{
  ◌≡◌, ◌↔◌, refl, ap, ◌∙◌, sym, String, Bool, true, false, ◌&&◌, List, arith, if◌then◌else◌,
}
use enoslib.Base.Eq.{Eq, String_eq, ◌==◌, ==→≡, ≡→==}
use enoslib.Base.Count.{SameItems, count-sorted, sorted_unique}
use enoslib.Base.Sort.{sorted, sorted-IsSorted}
use enoslib.Base.Text.{text_le}
use enoslib.Base.Text.Order.{text_le_total, text_le_trans, text_le_antisym}
use enoslib.G5k.Configuration.{NetworkConfiguration}
use enoslib.G5k.Networks.{
  OarNetwork, SiteNature, SiteNature_eq, site_nature_le, site_nature, oar_le, network_pools,
  concretize_networks,
}

-- An order on pairs, by the first and then by the second, and its laws.
module _ {A B : Type 0} ⦃e : Eq A⦄ (le : A → A → Bool) (le' : B → B → Bool) where
  abbrev lex : A × B → A × B → Bool
  lex a b = if a.0 == b.0 then le' a.1 b.1 else le a.0 b.0

  lex_total :
      ((a b : A) → le a b ≡ false → le b a ≡ true)
      → ((a b : B) → le' a b ≡ false → le' b a ≡ true)
      → (a b : A × B) → lex a b ≡ false
      → lex b a ≡ true
  lex_total total total' a b h =
      ground (arith, h, total a.0 b.0, total' a.1 b.1, e.eqb_iff a.0 b.0, e.eqb_iff b.0 a.0)

  lex_trans :
      ((a b c : A) → le a b ≡ true → le b c ≡ true → le a c ≡ true)
      → ((a b : A) → le a b ≡ true → le b a ≡ true → a ≡ b)
      → ((a b c : B) → le' a b ≡ true → le' b c ≡ true → le' a c ≡ true)
      → (a b c : A × B) → lex a b ≡ true
      → lex b c ≡ true
      → lex a c ≡ true
  lex_trans trans antisym trans' a b c h k = ground (
    arith,
    h,
    k,
    trans a.0 b.0 c.0,
    antisym a.0 b.0,
    trans' a.1 b.1 c.1,
    e.eqb_iff a.0 b.0,
    e.eqb_iff b.0 c.0,
    e.eqb_iff a.0 c.0,
  )

  lex_antisym :
      ((a b : A) → le a b ≡ true → le b a ≡ true → a ≡ b)
      → ((a b : B) → le' a b ≡ true → le' b a ≡ true → a ≡ b)
      → (a b : A × B) → lex a b ≡ true
      → lex b a ≡ true
      → a ≡ b
  lex_antisym antisym antisym' a b h k =
      let first : a.0 ≡ b.0 =
        ground (arith, h, k, antisym a.0 b.0, e.eqb_iff a.0 b.0, e.eqb_iff b.0 a.0) in
      let second : a.1 ≡ b.1 =
        ground (arith, h, k, first, antisym' a.1 b.1, e.eqb_iff a.0 b.0, e.eqb_iff b.0 a.0) in
      λ i. (first i, second i)

-- A reserved network by its key and its descriptor.
abbrev triple : OarNetwork → SiteNature × String
triple n = ((n.site, n.nature), n.descriptor)

untriple : SiteNature × String → OarNetwork
untriple t = record { site = t.0.0; nature = t.0.1; descriptor = t.1 }

triple-injective : (n m : OarNetwork) → triple n ≡ triple m → n ≡ m
unfolding untriple
triple-injective n m h = ap untriple h

pub oar_eqb_iff :
    (n m : OarNetwork)
    → ((site_nature n == site_nature m && n.descriptor == m.descriptor) ≡ true) ↔ (n ≡ m)
oar_eqb_iff n m = (
  λ h.
      let key = ==→≡ (site_nature n) (site_nature m) (ground (arith, h)) in
      let descriptor = ==→≡ n.descriptor m.descriptor (ground (arith, h)) in
      triple-injective n m (λ i. (key i, descriptor i)),
  λ h.
      let key = ≡→== (site_nature n) (site_nature m) (ap site_nature h) in
      let descriptor = ≡→== n.descriptor m.descriptor (ap (λ x. x.descriptor) h) in
      ground (arith, key, descriptor),
)

instance abbrev pub OarNetwork_eq : Eq OarNetwork
OarNetwork_eq = record {
  eqb = λ n m. site_nature n == site_nature m && n.descriptor == m.descriptor;
  eqb_iff = oar_eqb_iff;
}

site_nature_le_antisym :
    (a b : SiteNature) → site_nature_le a b ≡ true → site_nature_le b a ≡ true → a ≡ b
site_nature_le_antisym = lex_antisym text_le text_le text_le_antisym text_le_antisym

oar_le_total : (n m : OarNetwork) → oar_le n m ≡ false → oar_le m n ≡ true
oar_le_total n m =
    lex_total site_nature_le text_le (lex_total text_le text_le text_le_total text_le_total)
      text_le_total (triple n) (triple m)

oar_le_trans : (n m o : OarNetwork) → oar_le n m ≡ true → oar_le m o ≡ true → oar_le n o ≡ true
oar_le_trans n m o =
    lex_trans site_nature_le text_le
      (lex_trans text_le text_le text_le_trans text_le_antisym text_le_trans) site_nature_le_antisym
      text_le_trans (triple n) (triple m) (triple o)

oar_le_antisym : (n m : OarNetwork) → oar_le n m ≡ true → oar_le m n ≡ true → n ≡ m
oar_le_antisym n m h k = triple-injective n m (
    lex_antisym site_nature_le text_le site_nature_le_antisym text_le_antisym (triple n) (triple m)
      h k)

sorted-SameItems : (xs ys : List OarNetwork) → SameItems xs ys → sorted oar_le xs ≡ sorted oar_le ys
sorted-SameItems xs ys same =
    sorted_unique oar_le oar_le_antisym (sorted oar_le xs) (sorted oar_le ys)
      (sorted-IsSorted oar_le oar_le_total oar_le_trans xs)
      (sorted-IsSorted oar_le oar_le_total oar_le_trans ys)
      (λ a. count-sorted oar_le a xs ∙ same a ∙ sym (count-sorted oar_le a ys))

-- `_concretize_networks` is deterministic: two lists of the same reserved networks, in whatever
-- order, give the same networks in the same order, or the same error.
concretize_networks-SameItems :
    (network_configs : List NetworkConfiguration) (oar_networks oar_networks' : List OarNetwork)
    → SameItems oar_networks oar_networks'
    → concretize_networks network_configs oar_networks
      ≡ concretize_networks network_configs oar_networks'
unfolding concretize_networks network_pools
concretize_networks-SameItems network_configs oar_networks oar_networks' same =
    rw (sorted-SameItems oar_networks oar_networks' same) refl
