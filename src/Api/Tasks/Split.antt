-- ===== src/Api/Tasks/Split.antt =====
-- What `_split_args` puts at the top level: the last keyword that writes a name decides.
use enoslib.Base.{
  ◌≡◌, refl, sym, ◌∙◌, String, false, Option, none, some, [], ◌∷◌, arith, if◌then◌else◌, Bool-cases,
  inl, inr, ap,
}
use enoslib.Base.Eq.{String_eq, ◌==◌, ==→≡}
use enoslib.Base.Dict.{Dict, get, put, get-put, has_key, IsMapping, put-IsMapping}
use enoslib.Api.Tasks.{
  Arg, Args, TaskValue, plain, Replacement, renamed, expanded, ansible_top_level, update, split_one,
  split_from, split_args, removed, plain_args,
}

abbrev pub or_else : {A : Type 0} → Option A → Option A → Option A
or_else none b = b
or_else (some a) b = some a

pub or_else-none : {A : Type 0} (a : Option A) → or_else a none ≡ a
or_else-none none = refl
or_else-none (some a) = refl

or_else_assoc : {A : Type 0} (a b c : Option A) → or_else a (or_else b c) ≡ or_else (or_else a b) c
or_else_assoc none b c = refl
or_else_assoc (some a) b c = refl

module _ {A : Type 0} where
  -- The last entry with a key.
  unfoldable pub get_last : String → Dict String A → Option A
  get_last k [] = none
  get_last k ((j, v) ∷ d) = or_else (get_last k d) (if j == k then some v else none)

  pub get-update :
      (k : String) (d e : Dict String A) → get k (update d e) ≡ or_else (get_last k e) (get k d)
  unfolding update get_last
  get-update k d [] = refl
  get-update k d ((j, v) ∷ e) =
      get-update k (put j v d) e
      ∙ rw (get-put j k v d) (elim (Bool-cases (j == k)) [
        | inl h ↦ rw h (or_else_assoc (get_last k e) (some v) (get k d))
        | inr h ↦ rw h (or_else_assoc (get_last k e) none (get k d))
      ])

  pub update-IsMapping : (d e : Dict String A) → IsMapping d → IsMapping (update d e)
  unfolding update
  update-IsMapping d [] m = m
  update-IsMapping d ((k, v) ∷ e) m = update-IsMapping (put k v d) e (put-IsMapping k v d m)

  pub get_last-absent : (k : String) (d : Dict String A) → has_key k d ≡ false → get_last k d ≡ none
  unfolding get_last
  get_last-absent k [] h = refl
  get_last-absent k ((j, v) ∷ d) h = ground (arith, h, get_last-absent k d)

  -- In a dictionary it is the only one.
  pub get_last-get : (k : String) (d : Dict String A) → IsMapping d → get_last k d ≡ get k d
  unfolding get_last get
  get_last-get k [] m = refl
  get_last-get k ((j, v) ∷ d) m = elim (Bool-cases (j == k)) [
    | inl h ↦ rw (h, get_last-absent k d (ap (λ t. has_key t d) (sym (==→≡ j k h)) ∙ m.0)) refl
    | inr h ↦ rw (h, get_last-get k d m.1) (or_else-none (get k d))
  ]

  pub get_last-removed :
      (k j : String) (d : Dict String A)
      → (k == j) ≡ false
      → get_last j (removed k d) ≡ get_last j d
  unfolding get_last removed
  get_last-removed k j [] h = refl
  get_last-removed k j ((i, v) ∷ d) h = elim (Bool-cases (i == k)) [
    | inl same ↦
        let e : (i == j) ≡ false = ap (λ t. t == j) (==→≡ i k same) ∙ h in
        rw (same, e) (sym (or_else-none (get_last j d)))
    | inr other ↦ rw (other, get_last-removed k j d h) refl
  ]

-- What a keyword writes under a name of the top level.
abbrev pub writes : String → Option Replacement → Arg → Option Arg
writes n none v = none
writes n (some (renamed name)) v = if name == n then some v else none
writes n (some (expanded args)) v = get_last n args

unfoldable pub last_write : String → Args → Option Arg
unfolding get
last_write n [] = none
last_write n ((k, v) ∷ kwargs) =
    or_else (last_write n kwargs) (writes n (get k ansible_top_level) v)

get-split_one :
    (n : String) (r : Option Replacement) (k : String) (v : Arg) (top_args module_args : Args)
    → get n (split_one r k v (top_args, module_args)).0 ≡ or_else (writes n r v) (get n top_args)
unfolding split_one
get-split_one n none k v top_args module_args = refl
get-split_one n (some (renamed name)) k v top_args module_args =
    get-put name n v top_args
    ∙ (elim (Bool-cases (name == n)) [ inl h ↦ rw h refl | inr h ↦ rw h refl ])
get-split_one n (some (expanded args)) k v top_args module_args = get-update n top_args args

get-split_from :
    (n : String) (kwargs top_args module_args : Args)
    → get n (split_from kwargs (top_args, module_args)).0
      ≡ or_else (last_write n kwargs) (get n top_args)
unfolding split_from last_write
get-split_from n [] top_args module_args = refl
get-split_from n ((k, v) ∷ kwargs) top_args module_args =
    let next = split_one (get k ansible_top_level) k v (top_args, module_args) in
    get-split_from n kwargs next.0 next.1
    ∙ rw (get-split_one n (get k ansible_top_level) k v top_args module_args) (
        or_else_assoc (last_write n kwargs) (writes n (get k ansible_top_level) v) (get n top_args))

pub get-split_args :
    (n : String) (kwargs : Args) → get n (split_args kwargs).0 ≡ last_write n kwargs
unfolding split_args
get-split_args n kwargs = get-split_from n kwargs [] [] ∙ or_else-none (last_write n kwargs)

split_one-IsMapping :
    (r : Option Replacement) (k : String) (v : Arg) (split : Args × Args)
    → IsMapping split.0
    → IsMapping (split_one r k v split).0
unfolding split_one
split_one-IsMapping none k v split m = m
split_one-IsMapping (some (renamed name)) k v split m = put-IsMapping name v split.0 m
split_one-IsMapping (some (expanded args)) k v split m = update-IsMapping split.0 args m

split_from-IsMapping :
    (kwargs : Args) (split : Args × Args)
    → IsMapping split.0
    → IsMapping (split_from kwargs split).0
unfolding split_from
split_from-IsMapping [] split m = m
split_from-IsMapping ((k, v) ∷ kwargs) split m =
    split_from-IsMapping kwargs (split_one (get k ansible_top_level) k v split)
      (split_one-IsMapping (get k ansible_top_level) k v split m)

unfoldable pub plain_option : Option Arg → Option TaskValue
plain_option none = none
plain_option (some v) = some (plain v)

plain_option-or_else :
    (a b : Option Arg) → plain_option (or_else a b) ≡ or_else (plain_option a) (plain_option b)
unfolding plain_option
plain_option-or_else none b = refl
plain_option-or_else (some a) b = refl

plain_option-get_last :
    (n : String) (args : Args) → get_last n (plain_args args) ≡ plain_option (get_last n args)
unfolding plain_option get_last
plain_option-get_last n [] = refl
plain_option-get_last n ((k, v) ∷ args) = rw (plain_option-get_last n args) (
    sym (
      plain_option-or_else (get_last n args) (if k == n then some v else none)
      ∙ (elim (Bool-cases (k == n)) [ inl h ↦ rw h refl | inr h ↦ rw h refl ])))

-- The arguments of the top level, put into a task.
pub get_last-plain_args :
    (n : String) (kwargs : Args)
    → get_last n (plain_args (split_args kwargs).0) ≡ plain_option (last_write n kwargs)
unfolding split_args
get_last-plain_args n kwargs =
    let top_args = (split_args kwargs).0 in
    plain_option-get_last n top_args
    ∙ ap plain_option (
        get_last-get n top_args (split_from-IsMapping kwargs ([], []) tt) ∙ get-split_args n kwargs)

-- A new keyword is the last one.
pub last_write-put :
    (n k : String) (v : Arg) (kwargs : Args)
    → has_key k kwargs ≡ false
    → last_write n (put k v kwargs)
      ≡ or_else (writes n (get k ansible_top_level) v) (last_write n kwargs)
unfolding last_write put
last_write-put n k v [] h = sym (or_else-none (writes n (get k ansible_top_level) v))
last_write-put n k v ((j, u) ∷ kwargs) h = elim (Bool-cases (j == k)) [
  | inl same ↦ absurd (ground (arith, h, same))
  | inr other ↦
      rw (other, last_write-put n k v kwargs (ground (arith, h, other)))
        (sym (
          or_else_assoc (writes n (get k ansible_top_level) v) (last_write n kwargs)
            (writes n (get j ansible_top_level) u)))
]
