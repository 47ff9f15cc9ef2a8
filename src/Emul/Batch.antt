-- ===== src/Emul/Batch.antt =====
-- `_chunks` and `_combine` of enoslib/service/emul/utils.py: the commands of each host, in lines of bounded length. A line is the list of the commands that its text joins by ";".
pub mod Lines
pub mod Combined
use enoslib.Base.{
  ℕ, zero, suc, ◌+◌, String, Bool, true, false, Option, none, some, List, [], ◌∷◌, ◌++◌, length,
  take, drop, ltb, if◌then◌else◌,
}
use enoslib.Base.Eq.{Eq, String_eq}
use enoslib.Base.Dict.{Dict, get, put}

module _ {ℓ} {A : Type ℓ} where
  -- `for i in range(0, len(_list), size)`, on fuel, with `_list[i : i + size]`
  unfoldable pub chunk_loop : ℕ → List A → ℕ → ℕ → List (List A)
  chunk_loop zero xs size i = []
  chunk_loop (suc fuel) xs size i =
      let rest = chunk_loop fuel xs size (i + size) in
      if ltb i (length xs) then take size (drop i xs) ∷ rest else []

  -- `_chunks`; `none` is the ValueError of a step that is zero.
  unfoldable pub chunks : List A → ℕ → Option (List (List A))
  unfolding chunk_loop
  chunks xs zero = none
  chunks xs (suc size) = some (chunk_loop (suc (length xs)) xs (suc size) 0)

module _ {ℓ} {A : Type ℓ} where
  -- The value of a `defaultdict(list)`.
  abbrev pub or_empty : Option (List A) → List A
  or_empty none = []
  or_empty (some xs) = xs

  abbrev pub list_of : String → Dict String (List A) → List A
  list_of alias d = or_empty (get alias d)

  -- `c[s] = c[s] + l` for the items of one argument
  unfoldable pub combine_arg : Dict String (List A) → Dict String (List A) → Dict String (List A)
  unfolding get put
  combine_arg c [] = c
  combine_arg c ((s, l) ∷ a) = combine_arg (put s (list_of s c ++ l) c) a

  unfoldable pub combine_args :
      Dict String (List A) → List (Dict String (List A)) → Dict String (List A)
  unfolding combine_arg
  combine_args c [] = c
  combine_args c (a ∷ args) = combine_args (combine_arg c a) args

module _ {ℓ} {A : Type ℓ} where
  -- `commands[alias].append(...)` for each chunk: an alias with no commands gets no key.
  unfoldable pub add_lines :
      Dict String (List (List A)) → String → List (List A) → Dict String (List (List A))
  unfolding get put
  add_lines commands alias [] = commands
  add_lines commands alias (line ∷ lines) =
      add_lines (put alias (list_of alias commands ++ line ∷ []) commands) alias lines

  unfoldable pub chunk_items :
      Dict String (List (List A)) → Dict String (List A) → ℕ → Option (Dict String (List (List A)))
  unfolding add_lines chunks
  chunk_items commands [] size = some commands
  chunk_items commands ((alias, value) ∷ c) size = elim (chunks value size) [
    | none ↦ none
    | some lines ↦ chunk_items (add_lines commands alias lines) c size
  ]

  -- `_combine(*args, chunk_size=size)`
  unfoldable pub combine : List (Dict String (List A)) → ℕ → Option (Dict String (List (List A)))
  unfolding combine_args chunk_items
  combine args size = chunk_items [] (combine_args [] args) size
