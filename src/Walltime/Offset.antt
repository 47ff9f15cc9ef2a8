-- ===== src/Walltime/Offset.antt =====
-- What an offset makes of a walltime, on every branch.
use enoslib.Base.{
  ℕ, suc, ◌+◌, ◌*◌, ◌/◌, ◌%◌, ◌≤◌, ◌<◌, ◌≡◌, refl, arith, Bool-cases, inl, inr, true, false, ap,
  ltb, lt→ltb, ltb→lt,
}
use enoslib.Base.Int.{ℤ, pos, negsuc, ◌≤ℤ◌, ◌+ℤ◌}
use enoslib.Walltime.{
  Clock, negative_walltime, value_error, Result, ok, err, seconds, g5k_walltime,
  g5k_offset_walltime, iotlab_walltime, iotlab_offset_walltime, time_of_day, offset_from_format,
}

-- A time of day.
pub record IsTime (c : Clock) : Type 0 where
  pub hours : c.hour < 24
  pub minutes : c.minute < 60
  pub seconds_left : c.second < 60

-- The new walltime is exactly `total` seconds.
abbrev pub OffsetsTo : ℤ → Result Clock → Type 0
OffsetsTo total (ok c) = (pos (seconds c) ≡ total) × (0 < seconds c) × IsTime c
OffsetsTo total (err negative_walltime) = total ≤ℤ pos 0
OffsetsTo total (err value_error) = pos 86400 ≤ℤ total

minute_fits : (n : ℕ) → ltb (n % 3600 / 60) 60 ≡ true
minute_fits n = lt→ltb _ _ (omega arith)

second_fits : (n : ℕ) → ltb (n % 60) 60 ≡ true
second_fits n = lt→ltb _ _ (omega arith)

past_a_day : (n : ℕ) → ltb (n / 3600) 24 ≡ false → 86400 ≤ n
past_a_day n h = ground arith

g5k_walltime-OffsetsTo : (total : ℤ) → OffsetsTo total (g5k_walltime total)
unfolding g5k_walltime
g5k_walltime-OffsetsTo (negsuc n) = omega arith
g5k_walltime-OffsetsTo (pos ℕ.zero) = omega arith
g5k_walltime-OffsetsTo (pos (suc n)) = elim (Bool-cases (ltb (suc n / 3600) 24)) [
  | inl fits ↦
      rw (fits, minute_fits (suc n), second_fits (suc n))
        (ap pos (omega arith), omega arith, omega (arith, ltb→lt (suc n / 3600) 24 fits))
  | inr long ↦ rw long (omega (arith, past_a_day (suc n) long))
]

-- On Grid'5000 the new walltime is the old one plus the offset, to the second, if that is positive
-- and below a day. NegativeWalltime is raised only if it is not positive, and from a day on the
-- code fails with a ValueError.
pub g5k_offset_walltime-OffsetsTo :
    (walltime : Clock) (offset : ℤ)
    → OffsetsTo (pos (seconds walltime) +ℤ offset) (g5k_offset_walltime walltime offset)
unfolding g5k_offset_walltime
g5k_offset_walltime-OffsetsTo walltime offset =
    g5k_walltime-OffsetsTo (pos (seconds walltime) +ℤ offset)

-- The new walltime is `total` seconds, rounded down to the minute.
abbrev pub RoundsTo : ℤ → Result Clock → Type 0
RoundsTo total (ok c) =
    (pos (seconds c) ≤ℤ total) × (total ≤ℤ pos (seconds c + 59)) × (c.second ≡ 0) × IsTime c
RoundsTo total (err negative_walltime) = total ≤ℤ pos 0
RoundsTo total (err value_error) = pos 86400 ≤ℤ total

iotlab_walltime-RoundsTo : (total : ℤ) → RoundsTo total (iotlab_walltime total)
unfolding iotlab_walltime
iotlab_walltime-RoundsTo (negsuc n) = omega arith
iotlab_walltime-RoundsTo (pos ℕ.zero) = omega arith
iotlab_walltime-RoundsTo (pos (suc n)) = elim (Bool-cases (ltb (suc n / 3600) 24)) [
  | inl fits ↦
      rw (fits, minute_fits (suc n))
        (omega arith, omega arith, refl, omega (arith, ltb→lt (suc n / 3600) 24 fits))
  | inr long ↦ rw long (omega (arith, past_a_day (suc n) long))
]

-- On IoT-LAB the new walltime is the sum rounded down to a minute, never up; the errors are those
-- of Grid'5000.
iotlab_offset_walltime-RoundsTo :
    (walltime : Clock) (offset : ℤ)
    → RoundsTo
        (pos (walltime.hour * 3600 + walltime.minute * 60) +ℤ offset)
        (iotlab_offset_walltime walltime offset)
unfolding iotlab_offset_walltime
iotlab_offset_walltime-RoundsTo walltime offset =
    iotlab_walltime-RoundsTo (pos (walltime.hour * 3600 + walltime.minute * 60) +ℤ offset)

-- The new walltime is `total` seconds, less whole days.
abbrev pub WrapsTo : ℤ → Result Clock → Type 0
WrapsTo total (ok c) = IsTime c × ((days : ℕ) × (pos (seconds c + days * 86400) ≡ total))
WrapsTo total (err negative_walltime) = total ≤ℤ negsuc 0
WrapsTo total (err value_error) = ⊥

time_of_day-WrapsTo : (total : ℤ) → WrapsTo total (time_of_day total)
unfolding time_of_day
time_of_day-WrapsTo (negsuc n) = omega arith
time_of_day-WrapsTo (pos n) = (omega arith, (n / 86400, ap pos (omega arith)))

-- `offset_from_format` raises NegativeWalltime exactly if the sum is negative, and never fails
-- otherwise; from a day on it drops the days, so that the walltime comes out shorter.
offset_from_format-WrapsTo :
    (date : Clock) (offset : ℤ)
    → WrapsTo (pos (seconds date) +ℤ offset) (offset_from_format date offset)
unfolding offset_from_format
offset_from_format-WrapsTo date offset = time_of_day-WrapsTo (pos (seconds date) +ℤ offset)
