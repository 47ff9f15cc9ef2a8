-- ===== src/Cluster/Free.antt =====
-- When a node counts as free.
use enoslib.Base.{
  ℕ, ◌+◌, ◌≤◌, ◌<◌, ◌≡◌, ◌↔◌, refl, max, Bool, true, false, ◌&&◌, not, Option, none, some, List, [],
  ◌∷◌, ltb, leb, any, All, arith, Bool-cases, inl, inr,
}
use enoslib.Base.Eq.{String_eq, ◌==◌}
use enoslib.Cluster.{Reservation, start_of, intersects, add_overlap, overlapping, is_nil}

-- Second `t` lies in a reservation that starts at the date, if there is one.
abbrev pub holds : ℕ → ℕ → Option ℕ → Bool
holds t walltime none = false
holds t walltime (some r_start) = leb r_start t && ltb t (r_start + walltime)

-- A reservation that is not best effort has the node at second `t`.
abbrev pub covers : ℕ → Reservation → Bool
covers t r = not (r.queue == "besteffort") && holds t r.walltime (start_of r)

-- The reservation has a start, or is best effort.
abbrev pub IsDated : Reservation → Type 0
IsDated r = (r.queue == "besteffort") ≡ false → (t : ℕ) × (start_of r ≡ some t)

abbrev pub IsFree : List Reservation → ℕ → ℕ → Type 0
IsFree rs start walltime = (t : ℕ) → start ≤ t → t < start + walltime → any (covers t) rs ≡ false

-- No second of the slot is in the reservation.
abbrev Misses : Bool → Option ℕ → Reservation → ℕ → ℕ → Type 0
Misses best o r start walltime =
    (t : ℕ) → start ≤ t → t < start + walltime → (not best && holds t r.walltime o) ≡ false

add_overlap-Misses :
    (best : Bool) (o : Option ℕ) (r : Reservation) (start walltime : ℕ) (rest : List Reservation)
    → (best ≡ false → (t : ℕ) × (o ≡ some t))
    → is_nil (add_overlap best o r start walltime rest) ≡ true
    → (is_nil rest ≡ true) × Misses best o r start walltime
unfolding add_overlap intersects
add_overlap-Misses true o r start walltime rest dated h = (h, λ t _ _. refl)
add_overlap-Misses false none r start walltime rest dated h = let (t, e) = dated refl in cc
add_overlap-Misses false (some x) r start walltime rest dated h =
    elim (Bool-cases (intersects x r.walltime start walltime)) [
      | inl meets ↦ absurd (cc)
      | inr apart ↦ (rw apart at h, λ t from to. ground (arith, apart))
    ]

Misses-add_overlap :
    (best : Bool) (o : Option ℕ) (r : Reservation) (start walltime : ℕ) (rest : List Reservation)
    → (best ≡ false → (t : ℕ) × (o ≡ some t))
    → is_nil rest ≡ true
    → Misses best o r start walltime
    → is_nil (add_overlap best o r start walltime rest) ≡ true
unfolding add_overlap intersects
Misses-add_overlap true o r start walltime rest dated h misses = h
Misses-add_overlap false none r start walltime rest dated h misses = let (t, e) = dated refl in cc
Misses-add_overlap false (some x) r start walltime rest dated h misses =
    elim (Bool-cases (intersects x r.walltime start walltime)) [
      | inl meets ↦
          ground (arith, meets, misses (max x start) (omega arith) (ground (arith, meets)))
      | inr apart ↦ rw apart h
    ]

-- The reservations that overlap with a slot are none exactly when no second of the slot is covered
-- by a reservation that is not best effort, if each of these has a start.
pub overlapping-IsFree :
    (rs : List Reservation) (start walltime : ℕ)
    → All IsDated rs
    → (is_nil (overlapping rs start walltime) ≡ true) ↔ IsFree rs start walltime
unfolding overlapping
overlapping-IsFree [] start walltime dated = (λ h t from to. refl, λ h. refl)
overlapping-IsFree (r ∷ rs) start walltime dated =
    let rest = overlapping-IsFree rs start walltime dated.1 in
    (
      (λ h t from to.
          let (none_left, misses) =
            add_overlap-Misses (r.queue == "besteffort") (start_of r) r start walltime
              (overlapping rs start walltime) dated.0 h in
          ground (arith, misses t from to, rest.0 none_left t from to)),
      λ free.
          Misses-add_overlap (r.queue == "besteffort") (start_of r) r start walltime
            (overlapping rs start walltime) dated.0
            (rest.1 (λ t from to. ground (arith, free t from to)))
            (λ t from to. ground (arith, free t from to)),
    )
