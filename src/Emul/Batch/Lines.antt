-- ===== src/Emul/Batch/Lines.antt =====
-- The lines hold the commands in their order, and are neither empty nor too long.
use enoslib.Base.{
  ℕ, zero, suc, ◌+◌, ◌≤◌, ◌<◌, ◌≡◌, refl, sym, ap, ◌∙◌, some, List, [], ◌∷◌, ◌++◌, length, take,
  drop, ltb, ltb→lt, arith, All, take-append-drop, length-take, length-drop, Bool-cases, inl, inr,
}
use enoslib.Base.Eq.{String_eq}
use enoslib.Emul.Batch.{chunk_loop, chunks}

module _ {ℓ} {A : Type ℓ} where
  abbrev pub concat : List (List A) → List A
  concat [] = []
  concat (xs ∷ xss) = xs ++ concat xss

  drop-nil : (n : ℕ) → drop {A = A} n [] ≡ []
  drop-nil zero = refl
  drop-nil (suc n) = refl

  drop-drop : (n m : ℕ) (xs : List A) → drop n (drop m xs) ≡ drop (m + n) xs
  drop-drop n zero xs = ap (λ k. drop k xs) (omega arith)
  drop-drop n (suc m) [] = rw (drop-nil n, drop-nil (suc m + n))
  drop-drop n (suc m) (x ∷ xs) =
      let e : suc m + n ≡ suc (m + n) = omega arith in rw e (drop-drop n m xs)

  drop_all : (n : ℕ) (xs : List A) → length xs ≤ n → drop n xs ≡ []
  drop_all zero [] h = refl
  drop_all zero (x ∷ xs) h = absurd (omega arith)
  drop_all (suc n) [] h = refl
  drop_all (suc n) (x ∷ xs) h = drop_all n xs (omega arith)

  pub concat-chunk_loop :
      (fuel : ℕ) (xs : List A) (size i : ℕ)
      → length xs < i + fuel
      → concat (chunk_loop fuel xs (suc size) i) ≡ drop i xs
  unfolding chunk_loop
  concat-chunk_loop zero xs size i h = sym (drop_all i xs (omega arith))
  concat-chunk_loop (suc fuel) xs size i h = elim (Bool-cases (ltb i (length xs))) [
    | inl more ↦ rw more (
        ap (λ ys. take (suc size) (drop i xs) ++ ys)
          (concat-chunk_loop fuel xs size (i + suc size) (omega arith)
            ∙ sym (drop-drop (suc size) i xs))
        ∙ take-append-drop (suc size) (drop i xs))
    | inr done ↦ rw done (sym (drop_all i xs (ground arith)))
  ]

  -- A line has a command, and at most `size` of them.
  abbrev pub Fits : ℕ → List A → Type 0
  Fits size line = (0 < length line) × (length line ≤ size)

  pub chunk_loop-Fits :
      (fuel : ℕ) (xs : List A) (size i : ℕ)
      → All (Fits (suc size)) (chunk_loop fuel xs (suc size) i)
  unfolding chunk_loop
  chunk_loop-Fits zero xs size i = tt
  chunk_loop-Fits (suc fuel) xs size i = elim (Bool-cases (ltb i (length xs))) [
    | inl more ↦ rw more (
      omega
          (arith, length-take (suc size) (drop i xs), length-drop i xs, ltb→lt i (length xs) more),
      chunk_loop-Fits fuel xs size (i + suc size),
    )
    | inr done ↦ rw done tt
  ]

  -- `_chunks` with a positive size cuts the list into lines that hold its elements in their order;
  -- no line is empty, and none is longer than the size.
  chunks-Fits :
      (xs : List A) (size : ℕ)
      → (lines : List (List A)) × (chunks xs (suc size) ≡ some lines)
        × (concat lines ≡ xs)
        × All (Fits (suc size)) lines
  unfolding chunks
  chunks-Fits xs size = (
    chunk_loop (suc (length xs)) xs (suc size) 0,
    refl,
    concat-chunk_loop (suc (length xs)) xs size 0 (omega arith),
    chunk_loop-Fits (suc (length xs)) xs size 0,
  )
