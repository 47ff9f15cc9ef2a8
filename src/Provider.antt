-- ===== src/Provider.antt =====
-- enoslib/errors.py and enoslib/infra/provider.py: the errors that reservations raise, and the
-- methods of a provider. Every testbed implements them in its own way, so they are a record here:
-- `P` is a provider object, and `W` the testbeds behind it with their clock.
use enoslib.Base.{ℕ, Bool}
use enoslib.Base.Int.{ℤ}

-- A datetime is its timestamp in seconds, rounded up.
pub data Error : Type 0 where
  invalid_reservation_time : (hint : ℕ) → Error
  invalid_reservation_too_old : Error
  invalid_reservation_critical : Error
  no_slot_error : Error
  negative_walltime : Error
  other : ℕ → Error

pub data Result {ℓ} (A : Type ℓ) : Type ℓ where
  ok : A → Result A
  err : Error → Result A

-- A statement on a provider and the testbeds: what it writes before it raises stays written, and
-- the state stands beside the result.
abbrev pub Outcome : Type 0 → Type 0 → Type 0
Outcome P W = Result (Unit {0}) × (P × W)

pub record Provider (P W : Type 0) : Type 0 where
  -- `ceil(datetime.now(timezone.utc).timestamp())`
  pub now : W → ℕ × W
  pub is_created : P → W → Bool
  pub test_slot : P → ℕ → ℤ → W → Bool × W
  pub offset_walltime : ℤ → P → Result (Unit {0}) × P
  pub async_init : ℕ → P → W → Outcome P W
  pub destroy : P → W → Outcome P W
