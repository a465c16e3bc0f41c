-- ===== src/Domain/Abuse.antt =====
-- backend/slr/domain/abuse.py, with backend/slr/adapters/heuristic_abuse.py: the weighted score. Python's
-- float is a parameter, with a division that raises where the divisor is zero.
pub mod Bounds
use train_seat_booking_syste.Prelude.{ℕ, Bool, List, [], ◌∷◌, if◌then◌else◌}
use train_seat_booking_syste.Domain.Errors.{Result, ok, err, value_error, ◌>>=◌}
use train_seat_booking_syste.Ports.{AbuseFeatures}

pub record ScoreFloats (F : Type 0) : Type 0 where
  pub zero : F
  pub one : F
  pub of_count : ℕ → F
  pub add : F → F → F
  pub mul : F → F → F
  pub div : F → F → Result F
  pub ltb : F → F → Bool
  pub leb : F → F → Bool

-- `Weight`: the weight of a signal, and the value at which it saturates
pub record Weight (F : Type 0) : Type 0 where
  pub weight : F
  pub scale : F

pub record AbuseWeights (F : Type 0) : Type 0 where
  pub velocity : Weight F
  pub passenger_fanout : Weight F
  pub seat_fanout : Weight F
  pub cancel_ratio : Weight F

module _ {F : Type 0} (floats : ScoreFloats F) where
  -- `min(1.0, max(0.0, x))`
  abbrev pub saturate : F → F
  saturate x =
      let low = if floats.ltb floats.zero x then x else floats.zero in
      if floats.ltb low floats.one then low else floats.one

  -- the fields of `AbuseFeatures` in their order, with their weights
  abbrev pub signals : AbuseFeatures F → AbuseWeights F → List (F × Weight F)
  signals features weights =
      (floats.of_count features.velocity, weights.velocity)
      ∷ (floats.of_count features.passenger_fanout, weights.passenger_fanout)
      ∷ (floats.of_count features.seat_fanout, weights.seat_fanout)
      ∷ (features.cancel_ratio, weights.cancel_ratio)
      ∷ []

  -- the loop, from `total_weight` and `weighted` on
  unfoldable pub weigh : F → F → List (F × Weight F) → Result (F × F)
  weigh total_weight weighted [] = ok (total_weight, weighted)
  weigh total_weight weighted ((value, w) ∷ rest) = do
    ratio ← floats.div value w.scale
    weigh (floats.add total_weight w.weight)
        (floats.add weighted (floats.mul w.weight (saturate ratio))) rest

  unfoldable pub abuse_score : AbuseFeatures F → AbuseWeights F → Result F
  abuse_score features weights =
      weigh floats.zero floats.zero (signals features weights) >>= λ (total_weight, weighted).
      if floats.leb total_weight floats.zero
      then err value_error
      else floats.div weighted total_weight
