-- ===== src/G5k/Names/Back.antt =====
-- The name of a node in a vlan leads back to the node.
use Prim.Native.Char.{Char, char, code}
use text.Mathlib.TextEquality.{Char-path}
use Prim.Native.String.append
use Prim.Native.String.{◌++◌ as ◌<>◌}
use text.Mathlib.Text.{starts_with}
use text.Mathlib.TextPositions.{starts_with-append}
use enoslib.Base.{
  ℕ, suc, ◌-◌, ◌≡◌, ◌≢◌, refl, sym, ap, ◌∙◌, String, Bool, true, false, some, List, [], ◌∷◌, arith,
  if◌then◌else◌, Bool-cases, inl, inr,
}
use text.Mathlib.TextLemmas.{append-nil}
use enoslib.Base.Eq.{String_eq, ℕ_eq, ◌==◌, ==→≡}
use enoslib.Base.Text.{split, cons_first}
use enoslib.G5k.Names.{
  join_dots, text_length, remove_from, remove_all, with_descriptor, descriptor, translate_one,
}

-- A text put in front of the first dot, or at the end.
unfoldable pub put_in : String → String → String
put_in d String.[] = d
put_in d (String.◌∷◌ c s) =
    if code c == b'.' then d <> String.◌∷◌ c s else String.◌∷◌ c (put_in d s)

-- The text does not begin at any place of another one.
unfoldable pub is_absent : String → String → Bool
is_absent d String.[] = true
is_absent d (String.◌∷◌ c s) =
    let rest = is_absent d s in if starts_with (String.◌∷◌ c s) d then false else rest

-- The text, once it is put in, begins where it was put and at no other place.
unfoldable pub is_apart : String → String → Bool
unfolding put_in is_absent
is_apart d String.[] = true
is_apart d (String.◌∷◌ c s) =
    let rest = is_apart d s in
    if code c == b'.'
    then is_absent d (String.◌∷◌ c s)
    else if starts_with (String.◌∷◌ c (put_in d s)) d
    then false
    else rest

join-cons :
    (x : String) (parts : List String)
    → parts ≢ []
    → join_dots (x ∷ parts) ≡ x <> ("." <> join_dots parts)
unfolding join_dots
join-cons x [] h = absurd (h refl)
join-cons x (p ∷ parts) h = refl

dot-text : (c : Char) → (code c == b'.') ≡ true → "." ≡ String.◌∷◌ c ""
dot-text c h = ap (λ e. String.◌∷◌ e "") (Char-path (char b'.' tt) c (sym (==→≡ (code c) b'.' h)))

-- The dot as a character.
dot-cons : (c : Char) (s : String) → (code c == b'.') ≡ true → "." <> s ≡ String.◌∷◌ c s
dot-cons c s h =
    ap (λ t. t <> s) (dot-text c h) ∙ append.cons c "" s ∙ ap (λ t. String.◌∷◌ c t) (append.nil s)

module _ (c : Char) where
  cons_first-not_nil : (parts : List String) → cons_first c parts ≢ []
  unfolding cons_first
  cons_first-not_nil [] h = cc
  cons_first-not_nil (p ∷ parts) h = cc

  cons_first-join :
      (parts : List String)
      → parts ≢ []
      → join_dots (cons_first c parts) ≡ String.◌∷◌ c (join_dots parts)
  unfolding cons_first join_dots
  cons_first-join [] h = absurd (h refl)
  cons_first-join (p ∷ []) h = refl
  cons_first-join (p ∷ q ∷ parts) h = append.cons c p ("." <> join_dots (q ∷ parts))

  cons_first-descriptor :
      (d : String) (parts : List String)
      → parts ≢ []
      → join_dots (with_descriptor d (cons_first c parts))
        ≡ String.◌∷◌ c (join_dots (with_descriptor d parts))
  unfolding cons_first join_dots with_descriptor
  cons_first-descriptor d [] h = absurd (h refl)
  cons_first-descriptor d (p ∷ []) h = append.cons c p d
  cons_first-descriptor d (p ∷ q ∷ parts) h =
      let rest = "." <> join_dots (q ∷ parts) in
      ap (λ t. t <> rest) (append.cons c p d) ∙ append.cons c (p <> d) rest

split-not_nil : (s : String) → split b'.' s ≢ []
unfolding split
split-not_nil String.[] = λ h. cc
split-not_nil (String.◌∷◌ c s) = elim (Bool-cases (code c == b'.')) [
  | inl dot ↦ rw dot (λ h. cc)
  | inr other ↦ rw other (cons_first-not_nil c (split b'.' s))
]

split-join : (s : String) → join_dots (split b'.' s) ≡ s
unfolding split
split-join String.[] = unfold join_dots in refl
split-join (String.◌∷◌ c s) = elim (Bool-cases (code c == b'.')) [
  | inl dot ↦ rw dot (
      join-cons "" (split b'.' s) (split-not_nil s)
      ∙ append.nil ("." <> join_dots (split b'.' s))
      ∙ ap (λ t. "." <> t) (split-join s)
      ∙ dot-cons c s dot)
  | inr other ↦
      rw other (
        cons_first-join c (split b'.' s) (split-not_nil s)
        ∙ ap (λ t. String.◌∷◌ c t) (split-join s))
]

put_in-join : (d s : String) → join_dots (with_descriptor d (split b'.' s)) ≡ put_in d s
unfolding split put_in
put_in-join d String.[] = unfold join_dots with_descriptor in append.nil d
put_in-join d (String.◌∷◌ c s) = elim (Bool-cases (code c == b'.')) [
  | inl dot ↦ rw dot (
      unfold with_descriptor in
      (join-cons ("" <> d) (split b'.' s) (split-not_nil s)
        ∙ ap (λ t. t <> ("." <> join_dots (split b'.' s))) (append.nil d)
        ∙ ap (λ t. d <> ("." <> t)) (split-join s)
        ∙ ap (λ t. d <> t) (dot-cons c s dot)))
  | inr other ↦ rw other (
      cons_first-descriptor c d (split b'.' s) (split-not_nil s)
      ∙ ap (λ t. String.◌∷◌ c t) (put_in-join d s))
]

-- Characters that are to be skipped are skipped.
remove_from-skip :
    (old t r : String) → remove_from old (text_length t) (t <> r) ≡ remove_from old 0 r
unfolding remove_from text_length
remove_from-skip old String.[] r = ap (remove_from old 0) (append.nil r)
remove_from-skip old (String.◌∷◌ c t) r =
    ap (remove_from old (suc (text_length t))) (append.cons c t r) ∙ remove_from-skip old t r

remove_from-absent : (old r : String) → is_absent old r ≡ true → remove_from old 0 r ≡ r
unfolding remove_from is_absent
remove_from-absent old String.[] h = refl
remove_from-absent old (String.◌∷◌ c r) h = elim (Bool-cases (starts_with (String.◌∷◌ c r) old)) [
  | inl found ↦ absurd (ground (arith, h, found))
  | inr none_here ↦
      rw none_here (ap (λ t. String.◌∷◌ c t) (remove_from-absent old r (rw none_here at h)))
]

length-suc : (n : ℕ) → suc n - 1 ≡ n
length-suc n = omega arith

remove_from-found :
    (c : Char) (d r : String)
    → remove_from (String.◌∷◌ c d) 0 (String.◌∷◌ c d <> r) ≡ remove_from (String.◌∷◌ c d) 0 r
unfolding remove_from text_length
remove_from-found c d r =
    ap (remove_from (String.◌∷◌ c d) 0) (append.cons c d r)
    ∙ rw
        (ap (λ t. starts_with t (String.◌∷◌ c d)) (sym (append.cons c d r))
          ∙ starts_with-append (String.◌∷◌ c d) r)
        (ap (λ k. remove_from (String.◌∷◌ c d) k (d <> r)) (length-suc (text_length d))
          ∙ remove_from-skip (String.◌∷◌ c d) d r)

remove_from-step :
    (old : String) (c : Char) (t : String)
    → starts_with (String.◌∷◌ c t) old ≡ false
    → remove_from old 0 (String.◌∷◌ c t) ≡ String.◌∷◌ c (remove_from old 0 t)
unfolding remove_from
remove_from-step old c t h = rw h refl

-- What was put in is taken away.
remove_from-put_in :
    (e : Char) (d s : String)
    → is_apart (String.◌∷◌ e d) s ≡ true
    → remove_from (String.◌∷◌ e d) 0 (put_in (String.◌∷◌ e d) s) ≡ s
unfolding is_apart put_in
remove_from-put_in e d String.[] h =
    ap (remove_from (String.◌∷◌ e d) 0) (sym (append-nil (String.◌∷◌ e d)))
    ∙ remove_from-found e d ""
    ∙ unfold remove_from in refl
remove_from-put_in e d (String.◌∷◌ c s) h = elim (Bool-cases (code c == b'.')) [
  | inl dot ↦ rw dot (
      remove_from-found e d (String.◌∷◌ c s)
      ∙ remove_from-absent (String.◌∷◌ e d) (String.◌∷◌ c s) (rw dot at h))
  | inr other ↦ rw other (
      remove_from-step (String.◌∷◌ e d) c (put_in (String.◌∷◌ e d) s) (ground (arith, h, other))
      ∙ ap (λ t. String.◌∷◌ c t) (remove_from-put_in e d s (ground (arith, h, other))))
]

remove_all-put_in :
    (d s : String) → (d == "") ≡ false → is_apart d s ≡ true → remove_all d (put_in d s) ≡ s
unfolding remove_all
remove_all-put_in String.[] s e h = cc
remove_all-put_in (String.◌∷◌ c d) s e h = rw e (remove_from-put_in c d s h)

-- The name of a node in a vlan, translated back, is the name of the node, if what is put in begins at
-- no other place of the translated name.
pub translate_one-back :
    (fqdn vlan_id : String) (ipv6 : Bool)
    → (descriptor (some vlan_id) ipv6 == "") ≡ false
    → is_apart (descriptor (some vlan_id) ipv6) fqdn ≡ true
    → translate_one (translate_one fqdn (some vlan_id) false ipv6) (some vlan_id) true ipv6 ≡ fqdn
unfolding translate_one remove_all
translate_one-back fqdn vlan_id ipv6 e h =
    let d = descriptor (some vlan_id) ipv6 in
    ap (remove_all d) (put_in-join d fqdn) ∙ remove_all-put_in d fqdn e h
