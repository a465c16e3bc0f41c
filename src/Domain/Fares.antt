-- ===== src/Domain/Fares.antt =====
-- backend/slr/domain/fares.py, with the strategies of backend/slr/adapters/distance_fare.py,
-- dynamic_fare.py and fixed_fare.py. Money is integer cents. Python's float and the `Decimal` of a
-- float's text are parameters; a decimal is a fraction whose scale is a power of ten, and products are
-- exact, as they are in Python up to 28 digits.
pub mod Rounding
use train_seat_booking_syste.Prelude.{
  ℕ, suc, ◌+◌, ◌*◌, ◌/◌, Bool, ℤ, pos, negsuc, ◌-ℤ◌, ◌*ℤ◌, if◌then◌else◌,
}
use train_seat_booking_syste.Domain.Errors.{Result, ok, err, value_error, ◌>>=◌}

-- coefficient / scale
pub record Decimal : Type 0 where
  pub coefficient : ℤ
  pub scale : ℕ

pub record Floats (F : Type 0) : Type 0 where
  pub zero : F
  pub one : F
  pub add : F → F → F
  pub sub : F → F → F
  pub mul : F → F → F
  pub ltb : F → F → Bool
  pub decimal : F → Decimal

-- `Money.rupees`
abbrev pub rupees : ℤ → ℤ
rupees n = n *ℤ pos 100

abbrev pub times : Decimal → Decimal → Decimal
times a b = record { coefficient = a.coefficient *ℤ b.coefficient; scale = a.scale * b.scale }

abbrev pub decimal_of : ℤ → Decimal
decimal_of n = record { coefficient = n; scale = 1 }

-- the nearest integer to n / d, and the greater of two that are as near
unfoldable pub half_up : ℕ → ℕ → ℕ
half_up n d = (2 * n + d) / (2 * d)

abbrev pub rounded : ℤ → ℕ → ℤ
rounded (pos n) scale = pos (half_up n scale)
rounded (negsuc n) scale = pos 0 -ℤ pos (half_up (suc n) scale)

-- `_round_cents`: ROUND_HALF_UP rounds a half away from zero.
abbrev pub round_cents : Decimal → ℤ
round_cents value = rounded value.coefficient value.scale

-- The strategies that the wiring can choose; the dynamic one has the bounds of its constructor.
pub data FareStrategy (F : Type 0) : Type 0 where
  fixed : ℤ → FareStrategy F
  distance : ℤ → FareStrategy F
  dynamic : ℤ → F → F → FareStrategy F

module _ {F : Type 0} (floats : Floats F) where
  unfoldable pub distance_fare : F → ℤ → F → ℤ
  distance_fare distance_km rate_per_km class_mult = round_cents (
      times (times (decimal_of rate_per_km) (floats.decimal distance_km))
        (floats.decimal class_mult))

  -- `min(1.0, max(0.0, occupancy))`
  abbrev pub clamped : F → F
  clamped occupancy =
      let low = if floats.ltb floats.zero occupancy then occupancy else floats.zero in
      if floats.ltb low floats.one then low else floats.one

  unfoldable pub demand_multiplier : F → F → F → Result F
  demand_multiplier occupancy floor ceiling =
      if floats.ltb ceiling floor
      then err value_error
      else ok (floats.add floor (floats.mul (floats.sub ceiling floor) (clamped occupancy)))

  unfoldable pub dynamic_fare : F → ℤ → F → F → F → F → Result ℤ
  dynamic_fare distance_km rate_per_km class_mult occupancy floor ceiling =
      demand_multiplier occupancy floor ceiling >>= λ mult. ok (
        round_cents (
          times (decimal_of (distance_fare distance_km rate_per_km class_mult))
            (floats.decimal mult)))

  -- `price` of each
  unfoldable pub price : FareStrategy F → F → F → F → Result ℤ
  price (fixed amount) distance_km class_mult occupancy = ok amount
  price (distance rate) distance_km class_mult occupancy =
      ok (distance_fare distance_km rate class_mult)
  price (dynamic rate floor ceiling) distance_km class_mult occupancy =
      dynamic_fare distance_km rate class_mult occupancy floor ceiling
