-- ===== src/Walltime.antt =====
-- The `offset_walltime` methods: of Grid'5000 (enoslib/infra/enos_g5k/provider.py), of IoT-LAB
-- (enoslib/infra/enos_iotlab/provider.py), and `offset_from_format` of enoslib/infra/utils.py, by
-- which VMonG5k and Distem do it. A walltime is the numbers of its text "h:m:s"; the parsing and the
-- printing are Python's.
pub mod Offset
use enoslib.Base.{ℕ, suc, ◌+◌, ◌*◌, ◌/◌, ◌%◌, Bool, true, false, ◌&&◌, ltb, if◌then◌else◌}
use enoslib.Base.Int.{ℤ, pos, negsuc, ◌+ℤ◌}

pub record Clock : Type 0 where
  pub hour : ℕ
  pub minute : ℕ
  pub second : ℕ

pub data OffsetError : Type 0 where
  negative_walltime value_error : OffsetError

pub data Result {ℓ} (A : Type ℓ) : Type ℓ where
  ok : A → Result A
  err : OffsetError → Result A

abbrev pub seconds : Clock → ℕ
seconds c = c.hour * 3600 + c.minute * 60 + c.second

-- `datetime.time(hour, minute, second)` raises ValueError out of range.
datetime_time : ℕ → ℕ → ℕ → Result Clock
datetime_time h m s =
    if ltb h 24 && (ltb m 60 && ltb s 60)
    then ok (record { hour = h; minute = m; second = s })
    else err value_error

-- From `walltime_sec` on: the test for `<= 0`, and the new walltime.
g5k_walltime : ℤ → Result Clock
unfolding datetime_time
g5k_walltime (negsuc n) = err negative_walltime
g5k_walltime (pos ℕ.zero) = err negative_walltime
g5k_walltime (pos (suc n)) = datetime_time (suc n / 3600) (suc n % 3600 / 60) (suc n % 60)

-- `G5kBase.offset_walltime`
unfoldable pub g5k_offset_walltime : Clock → ℤ → Result Clock
unfolding g5k_walltime ◌+ℤ◌
g5k_offset_walltime walltime offset = g5k_walltime (pos (seconds walltime) +ℤ offset)

iotlab_walltime : ℤ → Result Clock
unfolding datetime_time
iotlab_walltime (negsuc n) = err negative_walltime
iotlab_walltime (pos ℕ.zero) = err negative_walltime
iotlab_walltime (pos (suc n)) = datetime_time (suc n / 3600) (suc n % 3600 / 60) 0

-- `Iotlab.offset_walltime`: the walltime is hours and minutes.
unfoldable pub iotlab_offset_walltime : Clock → ℤ → Result Clock
unfolding iotlab_walltime ◌+ℤ◌
iotlab_offset_walltime walltime offset =
    iotlab_walltime (pos (walltime.hour * 3600 + walltime.minute * 60) +ℤ offset)

-- The time of day of `datetime + timedelta`: days are dropped by the format.
time_of_day : ℤ → Result Clock
time_of_day (negsuc n) = err negative_walltime
time_of_day (pos n) = ok (record { hour = n / 3600 % 24; minute = n % 3600 / 60; second = n % 60 })

-- `offset_from_format`
unfoldable pub offset_from_format : Clock → ℤ → Result Clock
unfolding time_of_day ◌+ℤ◌
offset_from_format date offset = time_of_day (pos (seconds date) +ℤ offset)
