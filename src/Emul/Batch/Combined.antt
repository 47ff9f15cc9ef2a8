-- ===== src/Emul/Batch/Combined.antt =====
-- The lines of each host hold its commands of all arguments, in the order of the arguments.
use mathlib.Core.List.{append_assoc, append-nil}
use enoslib.Base.{
  ℕ, suc, String, ◌≡◌, refl, sym, ap, ◌∙◌, Bool, true, false, some, List, [], ◌∷◌, ◌++◌, length,
  if◌then◌else◌, arith, All, All-append, Bool-cases, inl, inr,
}
use enoslib.Base.Eq.{String_eq, ◌==◌, ==→≡}
use enoslib.Base.Dict.{Dict, get, put, get-put, has_key, IsMapping, put-IsMapping}
use enoslib.Emul.Batch.Lines.{concat, Fits, concat-chunk_loop, chunk_loop-Fits}
use enoslib.Emul.Batch.{
  chunk_loop, chunks, list_of, combine_arg, combine_args, add_lines, chunk_items, combine,
}

module _ {ℓ} {A : Type ℓ} where
  -- The items under a key.
  abbrev pub items : String → Dict String (List A) → List A
  items alias [] = []
  items alias ((s, l) ∷ d) = if s == alias then l ++ items alias d else items alias d

  abbrev pub all_items : String → List (Dict String (List A)) → List A
  all_items alias [] = []
  all_items alias (a ∷ args) = items alias a ++ all_items alias args

  list_of-put :
      (s alias : String) (l : List A) (d : Dict String (List A))
      → list_of alias (put s l d) ≡ (if s == alias then l else list_of alias d)
  list_of-put s alias l d = elim (Bool-cases (s == alias)) [
    | inl same ↦ rw (get-put, same)
    | inr other ↦ rw (get-put, other)
  ]

  list_of-append :
      (s alias : String) (l : List A) (c a : Dict String (List A))
      → list_of alias (put s (list_of s c ++ l) c) ++ items alias a
        ≡ list_of alias c ++ items alias ((s, l) ∷ a)
  list_of-append s alias l c a = elim (Bool-cases (s == alias)) [
    | inl same ↦
        rw (list_of-put, same)
          (ap (λ k. (list_of k c ++ l) ++ items alias a) (==→≡ s alias same)
            ∙ append_assoc (list_of alias c) l (items alias a))
    | inr other ↦ rw (list_of-put, other)
  ]

  list_of-combine_arg :
      (alias : String) (c a : Dict String (List A))
      → list_of alias (combine_arg c a) ≡ list_of alias c ++ items alias a
  unfolding combine_arg
  list_of-combine_arg alias c [] = sym (append-nil (list_of alias c))
  list_of-combine_arg alias c ((s, l) ∷ a) =
      list_of-combine_arg alias (put s (list_of s c ++ l) c) a ∙ list_of-append s alias l c a

  list_of-combine_args :
      (alias : String) (c : Dict String (List A)) (args : List (Dict String (List A)))
      → list_of alias (combine_args c args) ≡ list_of alias c ++ all_items alias args
  unfolding combine_args
  list_of-combine_args alias c [] = sym (append-nil (list_of alias c))
  list_of-combine_args alias c (a ∷ args) =
      list_of-combine_args alias (combine_arg c a) args
      ∙ ap (λ xs. xs ++ all_items alias args) (list_of-combine_arg alias c a)
      ∙ append_assoc (list_of alias c) (items alias a) (all_items alias args)

  combine_arg-IsMapping : (c a : Dict String (List A)) → IsMapping c → IsMapping (combine_arg c a)
  unfolding combine_arg
  combine_arg-IsMapping c [] m = m
  combine_arg-IsMapping c ((s, l) ∷ a) m =
      combine_arg-IsMapping (put s (list_of s c ++ l) c) a (put-IsMapping s (list_of s c ++ l) c m)

  combine_args-IsMapping :
      (c : Dict String (List A)) (args : List (Dict String (List A)))
      → IsMapping c
      → IsMapping (combine_args c args)
  unfolding combine_args
  combine_args-IsMapping c [] m = m
  combine_args-IsMapping c (a ∷ args) m =
      combine_args-IsMapping (combine_arg c a) args (combine_arg-IsMapping c a m)

  items-absent :
      (alias : String) (d : Dict String (List A)) → has_key alias d ≡ false → items alias d ≡ []
  items-absent alias [] h = refl
  items-absent alias ((s, l) ∷ d) h = ground (arith, items-absent alias d)

  items-eq-list_of :
      (alias : String) (d : Dict String (List A)) → IsMapping d → items alias d ≡ list_of alias d
  unfolding get
  items-eq-list_of alias [] m = refl
  items-eq-list_of alias ((s, l) ∷ d) m = elim (Bool-cases (s == alias)) [
    | inl same ↦
        rw same
          (ap (λ xs. l ++ xs) (items-absent alias d (rw (==→≡ s alias same) at m.0)) ∙ append-nil l)
    | inr other ↦ rw other (items-eq-list_of alias d m.1)
  ]

  concat-append : (xss yss : List (List A)) → concat (xss ++ yss) ≡ concat xss ++ concat yss
  concat-append [] yss = refl
  concat-append (xs ∷ xss) yss =
      ap (λ ys. xs ++ ys) (concat-append xss yss) ∙ sym (append_assoc xs (concat xss) (concat yss))

module _ {ℓ} {A : Type ℓ} where
  if-append :
      (b : Bool) (xs ys : List A)
      → (if b then xs else []) ++ (if b then ys else []) ≡ (if b then xs ++ ys else [])
  if-append true xs ys = refl
  if-append false xs ys = refl

  if-nil : (b : Bool) → ◌≡◌ {A = List A} (if b then [] else []) []
  if-nil true = refl
  if-nil false = refl

  append-if :
      (b : Bool) (xs v ys : List A)
      → (xs ++ (if b then v else [])) ++ ys ≡ xs ++ (if b then v ++ ys else ys)
  append-if true xs v ys = append_assoc xs v ys
  append-if false xs v ys = ap (λ zs. zs ++ ys) (append-nil xs)

  concat-put_line :
      (alias s : String) (commands : Dict String (List (List A))) (line : List A)
      → concat (list_of alias (put s (list_of s commands ++ line ∷ []) commands))
        ≡ concat (list_of alias commands) ++ (if s == alias then line else [])
  concat-put_line alias s commands line = elim (Bool-cases (s == alias)) [
    | inl same ↦
        rw (list_of-put, same)
          (ap (λ k. concat (list_of k commands ++ line ∷ [])) (==→≡ s alias same)
            ∙ concat-append (list_of alias commands) (line ∷ [])
            ∙ ap (λ ys. concat (list_of alias commands) ++ ys) (append-nil line))
    | inr other ↦ rw (list_of-put, other) (sym (append-nil (concat (list_of alias commands))))
  ]

  concat-add_lines :
      (alias s : String) (commands : Dict String (List (List A))) (lines : List (List A))
      → concat (list_of alias (add_lines commands s lines))
        ≡ concat (list_of alias commands) ++ (if s == alias then concat lines else [])
  unfolding add_lines
  concat-add_lines alias s commands [] =
      rw if-nil (sym (append-nil (concat (list_of alias commands))))
  concat-add_lines alias s commands (line ∷ lines) =
      concat-add_lines alias s (put s (list_of s commands ++ line ∷ []) commands) lines
      ∙ ap (λ xs. xs ++ (if s == alias then concat lines else []))
          (concat-put_line alias s commands line)
      ∙ append_assoc (concat (list_of alias commands)) _ _
      ∙ ap (λ xs. concat (list_of alias commands) ++ xs)
          (if-append (s == alias) line (concat lines))

  put_line-Fits :
      (size : ℕ) (s : String) (commands : Dict String (List (List A))) (line : List A)
      → ((a : String) → All (Fits size) (list_of a commands))
      → Fits size line
      → (a : String)
      → All (Fits size) (list_of a (put s (list_of s commands ++ line ∷ []) commands))
  put_line-Fits size s commands line old new a = elim (Bool-cases (s == a)) [
    | inl same ↦
        rw (list_of-put, same)
          (All-append (Fits size) (list_of s commands) (line ∷ []) (old s) (new, tt))
    | inr other ↦ rw (list_of-put, other) (old a)
  ]

  add_lines-Fits :
      (size : ℕ) (alias s : String) (commands : Dict String (List (List A))) (lines : List (List A))
      → ((a : String) → All (Fits size) (list_of a commands))
      → All (Fits size) lines
      → All (Fits size) (list_of alias (add_lines commands s lines))
  unfolding add_lines
  add_lines-Fits size alias s commands [] old new = old alias
  add_lines-Fits size alias s commands (line ∷ lines) old new =
      add_lines-Fits size alias s (put s (list_of s commands ++ line ∷ []) commands) lines
        (put_line-Fits size s commands line old new.0) new.1

  -- What `chunk_items` adds to the lines of each host.
  record IsCut (size : ℕ) (before : Dict String (List (List A))) (c : Dict String (List A))
      (after : Dict String (List (List A))) : Type ℓ where
    keeps :
        (alias : String)
        → concat (list_of alias after) ≡ concat (list_of alias before) ++ items alias c
    fits :
        ((a : String) → All (Fits size) (list_of a before))
        → (a : String) → All (Fits size) (list_of a after)

  chunk_items-IsCut :
      (before : Dict String (List (List A))) (c : Dict String (List A)) (size : ℕ)
      → (after : Dict String (List (List A))) × (chunk_items before c (suc size) ≡ some after)
        × IsCut (suc size) before c after
  unfolding chunk_items chunks
  chunk_items-IsCut before [] size =
      (before, refl, record { keeps = λ alias. sym (append-nil _); fits = λ old. old })
  chunk_items-IsCut before ((s, value) ∷ c) size =
      let lines : List (List A) = chunk_loop (suc (length value)) value (suc size) 0 in
      let (after, e, cut) = chunk_items-IsCut (add_lines before s lines) c size in
      (
        after,
        e,
        record {
          keeps = λ alias.
              cut.keeps alias
              ∙ ap (λ xs. xs ++ items alias c) (concat-add_lines alias s before lines)
              ∙ append-if (s == alias) (concat (list_of alias before)) (concat lines)
                  (items alias c)
              ∙ ap
                  (λ v.
                    concat (list_of alias before)
                    ++ (if s == alias then v ++ items alias c else items alias c))
                  (concat-chunk_loop (suc (length value)) value size 0 (omega arith));
          fits = λ old. cut.fits (λ a.
              add_lines-Fits (suc size) a s before lines old
                (chunk_loop-Fits (suc (length value)) value size 0));
        },
      )

-- `_combine` with a positive chunk size returns, for each host, lines that hold its commands of the
-- first argument, then of the second, and so on; no line is empty or longer than the chunk size.
pub combine-Fits {ℓ} :
    {A : Type ℓ} (args : List (Dict String (List A))) (size : ℕ)
    → (commands : Dict String (List (List A))) × (combine args (suc size) ≡ some commands)
      × ((alias : String) → concat (list_of alias commands) ≡ all_items alias args)
      × ((alias : String) → All (Fits (suc size)) (list_of alias commands))
unfolding combine get
combine-Fits args size =
    let c = combine_args [] args in
    let (after, e, cut) = chunk_items-IsCut [] c size in
    (
      after,
      e,
      (λ alias.
          cut.keeps alias
          ∙ items-eq-list_of alias c (combine_args-IsMapping [] args tt)
          ∙ list_of-combine_args alias [] args),
      cut.fits (λ a. tt),
    )
