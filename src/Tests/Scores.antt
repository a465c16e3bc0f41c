-- ===== src/Tests/Scores.antt =====
-- The abuse score in tenths.
use native.Mathlib.Nat.{div-le_of_le-mul, mul-le-mul_left}
use train_seat_booking_syste.Prelude.{
  ℕ, ◌+◌, ◌*◌, ◌/◌, ◌≤◌, ◌≡◌, refl, ltb, leb, leb→le, ◌==◌, arith, if◌then◌else◌,
}
use train_seat_booking_syste.Domain.Abuse.{ScoreFloats, Weight, AbuseWeights, weigh, abuse_score}
use train_seat_booking_syste.Domain.Abuse.Bounds.{IsRounding, IsUnit, abuse_score_lem}
use train_seat_booking_syste.Domain.Errors.{Result, ok, err, value_error}
use train_seat_booking_syste.Ports.{AbuseFeatures}

-- a / b, in tenths
abbrev ratio : ℕ → ℕ → Result ℕ
ratio a b = if b == 0 then err value_error else ok (a * 10 / b)

abbrev tenths : ScoreFloats ℕ
tenths = record {
  zero = 0;
  one = 10;
  of_count = λ n. n * 10;
  add = λ a b. a + b;
  mul = λ a b. a * b / 10;
  div = ratio;
  ltb = ltb;
  leb = leb;
}

mul_le_tenths : (a b : ℕ) → b ≤ 10 → a * b / 10 ≤ a
mul_le_tenths a b h =
    let small : a * b ≤ a * 10 = mul-le-mul_left a h in div-le_of_le-mul 10 (omega arith)

ratio_le_ten : (a b : ℕ) → a ≤ b → a * 10 / b ≤ 10
ratio_le_ten a b h = div-le_of_le-mul b (omega arith)

tenths-IsRounding : IsRounding tenths
tenths-IsRounding = record {
  le_refl = λ a. ground arith;
  zero_le_one = refl;
  le_of_lt = λ a b h. ground arith;
  le_add = λ a b h k. ground arith;
  add_mono = λ a b c d h k. ground arith;
  le_mul = λ a b h k. ground arith;
  mul_le = λ a b h k. let small = mul_le_tenths a b (leb→le b 10 k) in ground arith;
  le_div = λ a b q h k e. ground arith;
  div_le = λ a b q h k e. let small = ratio_le_ten a b (leb→le a b h) in ground arith;
}

abbrev weight_of : ℕ → ℕ → Weight ℕ
weight_of weight scale = record { weight = weight; scale = scale }

-- `DEFAULT_WEIGHTS`, in tenths
abbrev default_weights : AbuseWeights ℕ
default_weights = record {
  velocity = weight_of 10 100;
  passenger_fanout = weight_of 15 50;
  seat_fanout = weight_of 10 60;
  cancel_ratio = weight_of 5 10;
}

abbrev no_weights : AbuseWeights ℕ
no_weights = record {
  velocity = weight_of 0 10;
  passenger_fanout = weight_of 0 10;
  seat_fanout = weight_of 0 10;
  cancel_ratio = weight_of 0 10;
}

abbrev signs : ℕ → AbuseFeatures ℕ
signs n = record { velocity = n; passenger_fanout = 1; seat_fanout = 3; cancel_ratio = 0 }

-- From ten bookings on, the velocity counts no further.
score_saturates :
    (abuse_score tenths (signs 2) default_weights ≡ ok 2)
    × (abuse_score tenths (signs 10) default_weights ≡ ok 4)
    × (abuse_score tenths (signs 90) default_weights ≡ ok 4)
unfolding abuse_score weigh
score_saturates = (refl, refl, refl)

score_without_weights : abuse_score tenths (signs 2) no_weights ≡ err value_error
unfolding abuse_score weigh
score_without_weights = refl

score_between : IsUnit tenths 4
unfolding abuse_score weigh
score_between =
    abuse_score_lem tenths (signs 10) default_weights 4 tenths-IsRounding
      (refl, (refl, (refl, (refl, tt)))) refl
