-- ===== src/G5k/Names.antt =====
-- The names of nodes in networks: `_translate` and `translate` of G5kVlanNetwork and G5kProdNetwork,
-- and `_where` of G5kHost (enoslib/infra/enos_g5k/objects.py).
pub mod Back
use Prim.Native.String.{◌++◌ as ◌<>◌}
use text.Mathlib.Text.{starts_with}
use enoslib.Base.{
  ℕ, zero, suc, ◌-◌, String, Bool, true, false, Option, none, some, List, [], ◌∷◌, map,
  if◌then◌else◌,
}
use enoslib.Base.Eq.{String_eq, ◌==◌}
use enoslib.Base.Text.{split}
use enoslib.G5k.Networks.{
  G5kHost, G5kNetwork, vlan_network, prod_network, subnet_network, vlan_id_of,
}

-- `".".join(parts)`
unfoldable pub join_dots : List String → String
join_dots [] = ""
join_dots (s ∷ []) = s
join_dots (s ∷ t ∷ parts) = s <> "." <> join_dots (t ∷ parts)

unfoldable pub text_length : String → ℕ
text_length String.[] = 0
text_length (String.◌∷◌ c s) = suc (text_length s)

-- `s.replace(old, "")`, some characters of an occurrence being still to be skipped
unfoldable pub remove_from : String → ℕ → String → String
unfolding text_length
remove_from old skip String.[] = ""
remove_from old (suc skip) (String.◌∷◌ c s) = remove_from old skip s
remove_from old zero (String.◌∷◌ c s) =
    let found = starts_with (String.◌∷◌ c s) old in
    let rest = remove_from old (if found then text_length old - 1 else 0) s in
    if found then rest else String.◌∷◌ c rest

unfoldable pub remove_all : String → String → String
unfolding remove_from
remove_all old s = if old == "" then s else remove_from old 0 s

-- What is put behind the name of the machine, and taken away again.
unfoldable pub descriptor : Option String → Bool → String
descriptor none ipv6 = if ipv6 then "-ipv6" else ""
descriptor (some vlan_id) ipv6 =
    (if vlan_id == "" then "" else "-kavlan-" <> vlan_id) <> (if ipv6 then "-ipv6" else "")

unfoldable pub with_descriptor : String → List String → List String
with_descriptor d [] = []
with_descriptor d (uid ∷ parts) = (uid <> d) ∷ parts

-- `_translate`
unfoldable pub translate_one : String → Option String → Bool → Bool → String
unfolding descriptor with_descriptor join_dots remove_all
translate_one uid vlan_id reverse ipv6 =
    if reverse
    then remove_all (descriptor vlan_id ipv6) uid
    else join_dots (with_descriptor (descriptor vlan_id ipv6) (split b'.' uid))

-- `translate`, name by name; a network of addresses has no names.
unfoldable pub translate : G5kNetwork → Bool → String → String
unfolding translate_one vlan_id_of
translate (vlan_network roles id site vlan_id) reverse fqdn =
    translate_one fqdn (some vlan_id) reverse false
translate (prod_network roles id site) reverse fqdn = fqdn
translate (subnet_network roles id site subnets) reverse fqdn = fqdn

-- The second part of a name: a ValueError without one.
unfoldable pub site_part : List String → Option String
site_part [] = none
site_part (uid ∷ []) = none
site_part (uid ∷ site ∷ parts) = some site

unfoldable pub site_of : String → Option String
unfolding site_part
site_of fqdn = site_part (split b'.' fqdn)
