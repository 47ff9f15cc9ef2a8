-- ===== src/MergeDict/Leaves.antt =====
-- What a merged dictionary holds at each path of keys.
use enoslib.Base.{
  String, ◌≡◌, refl, ap, ◌∙◌, Option, none, some, List, [], ◌∷◌, arith, if◌then◌else◌, Bool-cases,
  inl, inr,
}
use enoslib.Base.Eq.{String_eq, ◌==◌, ==→≡}
use enoslib.MergeDict.{
  Value, Items, other, dict, end, item, get, put, ◌>>=◌, merge_items, merge_value, merge_dict,
}

module _ {A : Type 0} where
  -- The value that is no dictionary, at a path below an optional value.
  abbrev pub leaf_at : List String → Option (Value A) → Option A
  leaf_at [] (some (other a)) = some a
  leaf_at [] (some (dict d)) = none
  leaf_at (k ∷ ks) (some (dict d)) = leaf_at ks (get k d)
  leaf_at _ _ = none

  abbrev pub leaf : List String → Items A → Option A
  leaf ks d = leaf_at ks (some (dict d))

  abbrev pub or_else : Option A → Option A → Option A
  or_else (some a) o = some a
  or_else none o = o

  leaf_at-none : (ks : List String) → leaf_at ks none ≡ none
  leaf_at-none [] = refl
  leaf_at-none (k ∷ ks) = refl

  get-put :
      (k j : String) (v : Value A) (d : Items A)
      → get j (put k v d) ≡ (if k == j then some v else get j d)
  unfolding get put
  get-put k j v end = refl
  get-put k j v (item i u d) =
      ground (
        arith,
        String_eq.eqb_iff i k,
        String_eq.eqb_iff i j,
        String_eq.eqb_iff k j,
        get-put k j v d,
      )

  >>=-eq-some :
      (m : Option (Items A)) (f : Items A → Option (Items A)) (r : Items A)
      → (m >>= f) ≡ some r
      → (d : Items A) × (m ≡ some d) × (f d ≡ some r)
  >>=-eq-some none f r h = cc
  >>=-eq-some (some d) f r h = (d, refl, h)

-- Each key stands once in its dictionary, at every depth.
abbrev mutual
  pub IsMapping : {A : Type 0} → Items A → Type 0
  IsMapping end = Unit
  IsMapping (item k v d) = (get k d ≡ none) × IsMappingValue v × IsMapping d

  pub IsMappingValue : {A : Type 0} → Value A → Type 0
  IsMappingValue (other a) = Unit
  IsMappingValue (dict d) = IsMapping d

module _ {A : Type 0} where
  -- The leaf below `k` after a write under `k`, and below another key.
  leaf-put :
      (k j : String) (ks : List String) (v : Value A) (d : Items A)
      → leaf (j ∷ ks) (put k v d) ≡ (if k == j then leaf_at ks (some v) else leaf (j ∷ ks) d)
  leaf-put k j ks v d = elim (Bool-cases (k == j)) [
    | inl same ↦ rw (get-put, same)
    | inr different ↦ rw (get-put, different)
  ]

  or_else-other :
      (ks : List String) (a b : A)
      → leaf_at ks (some (other b))
        ≡ or_else (leaf_at ks (some (other b))) (leaf_at ks (some (other a)))
  or_else-other [] a b = refl
  or_else-other (k ∷ ks) a b = refl

  or_else-none : (o : Option A) → or_else o none ≡ o
  or_else-none none = refl
  or_else-none (some a) = refl

  -- One item of `diff`, given the leaves of the items behind it.
  leaf-item :
      (k j : String) (ks : List String) (v : Value A) (diff original merged result : Items A)
      → get k diff ≡ none
      → leaf (j ∷ ks) merged ≡ (
          if k == j
          then or_else (leaf_at ks (some v)) (leaf_at ks (get k original))
          else leaf (j ∷ ks) original)
      → leaf (j ∷ ks) result ≡ or_else (leaf (j ∷ ks) diff) (leaf (j ∷ ks) merged)
      → leaf (j ∷ ks) result ≡ or_else (leaf (j ∷ ks) (item k v diff)) (leaf (j ∷ ks) original)
  unfolding get
  leaf-item k j ks v diff original merged result fresh first rest = elim (Bool-cases (k == j)) [
    | inl same ↦
        let e : k ≡ j = ==→≡ k j same in
        let old : leaf_at ks (get j diff) ≡ none =
          ap (leaf_at ks) (rw e at fresh) ∙ leaf_at-none ks in
        rw same (
          rest
          ∙ ap (λ o. or_else o (leaf (j ∷ ks) merged)) old
          ∙ (rw same at first)
          ∙ ap (λ i. or_else (leaf_at ks (some v)) (leaf_at ks (get i original))) e)
    | inr different ↦
        rw different (rest ∙ ap (or_else (leaf_at ks (get j diff))) (rw different at first))
  ]

mutual
  unfolding merge_items

  merge_items-leaf :
      {A : Type 0} (diff original result : Items A) (ks : List String)
      → IsMapping diff
      → merge_items diff original ≡ some result
      → leaf ks result ≡ or_else (leaf ks diff) (leaf ks original)
  merge_items-leaf end original result [] m e = refl
  merge_items-leaf end original result (j ∷ ks) m e =
      let same : original ≡ result = cc in rw (leaf_at-none, same)
  merge_items-leaf (item k v diff) original result [] m e = refl
  merge_items-leaf (item k v diff) original result (j ∷ ks) m e =
      let (merged, first, rest) =
        >>=-eq-some (merge_value v k original (get k original)) (merge_items diff) result e in
      leaf-item k j ks v diff original merged result m.0
        (merge_value-leaf v k original (get k original) merged j ks m.1 refl first)
        (merge_items-leaf diff merged result (j ∷ ks) m.2 rest)

  merge_value-leaf :
      {A : Type 0} (v : Value A) (k : String) (original : Items A) (found : Option (Value A))
      → (result : Items A) (j : String) (ks : List String) → IsMappingValue v
      → get k original ≡ found
      → merge_value v k original found ≡ some result
      → leaf (j ∷ ks) result ≡ (
          if k == j
          then or_else (leaf_at ks (some v)) (leaf_at ks found)
          else leaf (j ∷ ks) original)
  merge_value-leaf v k original none result j ks m f e =
      let written : put k v original ≡ result = cc in
      rw (← written, leaf-put, leaf_at-none, or_else-none)
  merge_value-leaf (dict diff) k original (some (dict old)) result j ks m f e =
      let (merged, first, rest) = >>=-eq-some (merge_items diff old) _ result e in
      let written : put k (dict merged) original ≡ result = cc in
      rw (← written, leaf-put)
        (ap (λ o. if k == j then o else leaf (j ∷ ks) original)
          (merge_items-leaf diff old merged ks m first))
  merge_value-leaf (dict diff) k original (some (other a)) result j ks m f e = cc
  merge_value-leaf (other b) k original (some (dict old)) result j ks m f e = cc
  merge_value-leaf (other b) k original (some (other a)) result j ks m f e =
      let written : put k (other b) original ≡ result = cc in
      rw (← written, leaf-put)
        (ap (λ o. if k == j then o else leaf (j ∷ ks) original) (or_else-other ks a b))

-- If `merge_dict` returns, and each key stands once in its dictionary of `diff`, then at each path of keys the result has the value of `diff`, and that
-- of `original` where `diff` has none.
merge_dict-leaf :
    {A : Type 0} (original diff result : Items A)
    → IsMapping diff
    → merge_dict original diff ≡ some result
    → (path : List String) → leaf path result ≡ or_else (leaf path diff) (leaf path original)
unfolding merge_dict
merge_dict-leaf original diff result m e path = merge_items-leaf diff original result path m e
