-- ===== src/Domain/Abuse/Bounds.antt =====
-- The bounds of the score.
use train_seat_booking_syste.Prelude.{
  ◌≡◌, true, false, List, [], ◌∷◌, All, arith, Bool-cases, inl, inr,
}
use train_seat_booking_syste.Domain.Errors.{ok, Result-cases}
use train_seat_booking_syste.Ports.{AbuseFeatures}
use train_seat_booking_syste.Domain.Abuse.{
  ScoreFloats, Weight, AbuseWeights, saturate, signals, weigh, abuse_score,
}

-- What the score relies on of floats that are numbers: order, and operations that round in order.
pub record IsRounding {F : Type 0} (floats : ScoreFloats F) : Type 0 where
  pub le_refl : (a : F) → floats.leb a a ≡ true
  pub zero_le_one : floats.leb floats.zero floats.one ≡ true
  pub le_of_lt : (a b : F) → floats.ltb a b ≡ true → floats.leb a b ≡ true
  pub le_add :
      (a b : F)
      → floats.leb floats.zero a ≡ true
      → floats.leb floats.zero b ≡ true
      → floats.leb floats.zero (floats.add a b) ≡ true
  pub add_mono :
      (a b c d : F)
      → floats.leb a b ≡ true
      → floats.leb c d ≡ true
      → floats.leb (floats.add a c) (floats.add b d) ≡ true
  pub le_mul :
      (a b : F)
      → floats.leb floats.zero a ≡ true
      → floats.leb floats.zero b ≡ true
      → floats.leb floats.zero (floats.mul a b) ≡ true
  pub mul_le :
      (a b : F)
      → floats.leb floats.zero a ≡ true
      → floats.leb b floats.one ≡ true
      → floats.leb (floats.mul a b) a ≡ true
  pub le_div :
      (a b q : F)
      → floats.leb floats.zero a ≡ true
      → floats.leb b floats.zero ≡ false
      → floats.div a b ≡ ok q
      → floats.leb floats.zero q ≡ true
  pub div_le :
      (a b q : F)
      → floats.leb a b ≡ true
      → floats.leb b floats.zero ≡ false
      → floats.div a b ≡ ok q
      → floats.leb q floats.one ≡ true

module _ {F : Type 0} (floats : ScoreFloats F) where
  abbrev pub IsUnit : F → Type 0
  IsUnit x = (floats.leb floats.zero x ≡ true) × (floats.leb x floats.one ≡ true)

  abbrev pub HasWeight : F × Weight F → Type 0
  HasWeight (value, w) = floats.leb floats.zero w.weight ≡ true

  saturate-IsUnit : IsRounding floats → (x : F) → IsUnit (saturate floats x)
  saturate-IsUnit laws x =
      let up = laws.le_of_lt floats.zero x in
      let top = laws.le_of_lt x floats.one in
      let low_top = laws.le_of_lt floats.zero floats.one in
      let one = laws.le_refl floats.one in
      let positive = laws.zero_le_one in
      let zero = laws.le_refl floats.zero in
      elim (Bool-cases (floats.ltb floats.zero x)) [
        | inl e ↦ elim (Bool-cases (floats.ltb x floats.one)) [
          | inl g ↦ ground (arith, up e, top g)
          | inr g ↦ ground arith
        ]
        | inr e ↦ elim (Bool-cases (floats.ltb floats.zero floats.one)) [
          | inl g ↦ ground (arith, low_top g)
          | inr g ↦ ground arith
        ]
      ]

  -- The weighted sum is at most the sum of the weights.
  abbrev IsBetween : F × F → Type 0
  IsBetween (total_weight, weighted) =
      (floats.leb floats.zero weighted ≡ true) × (floats.leb weighted total_weight ≡ true)

  weigh-IsBetween :
      IsRounding floats
      → (total_weight weighted : F) (rest : List (F × Weight F)) (sums : F × F) → All HasWeight rest
      → IsBetween (total_weight, weighted)
      → weigh floats total_weight weighted rest ≡ ok sums
      → IsBetween sums
  unfolding weigh
  weigh-IsBetween laws total_weight weighted [] sums h (low, high) e =
      let same : sums ≡ (total_weight, weighted) = ground arith in rw same (low, high)
  weigh-IsBetween laws total_weight weighted ((value, w) ∷ rest) sums (weight, h) (low, high) e =
      elim (Result-cases (floats.div value w.scale)) [
        | inl (ratio, d) ↦
            let (positive, small) = saturate-IsUnit laws ratio in
            let part = floats.mul w.weight (saturate floats ratio) in
            weigh-IsBetween laws (floats.add total_weight w.weight) (floats.add weighted part) rest
              sums h
              (
                laws.le_add weighted part low
                    (laws.le_mul w.weight (saturate floats ratio) weight positive),
                laws.add_mono weighted total_weight part w.weight high
                    (laws.mul_le w.weight (saturate floats ratio) weight small),
              )
              (ground arith)
        | inr (x, d) ↦ absurd (ground arith)
      ]

-- Where no weight is negative, a score is between 0 and 1.
pub abuse_score_lem :
    {F : Type 0} (floats : ScoreFloats F) (features : AbuseFeatures F) (weights : AbuseWeights F)
    (score : F)
    → IsRounding floats
    → All (HasWeight floats) (signals floats features weights)
    → abuse_score floats features weights ≡ ok score
    → IsUnit floats score
unfolding abuse_score
abuse_score_lem floats features weights score laws h e =
    elim (Result-cases (weigh floats floats.zero floats.zero (signals floats features weights))) [
      | inl ((total_weight, weighted), d) ↦
          let (low, high) =
            weigh-IsBetween floats laws floats.zero floats.zero (signals floats features weights)
              (total_weight, weighted) h (laws.le_refl floats.zero, laws.le_refl floats.zero) d in
          elim (Bool-cases (floats.leb total_weight floats.zero)) [
            | inl nothing ↦ absurd (ground arith)
            | inr positive ↦
                let quotient : floats.div weighted total_weight ≡ ok score = ground arith in
                (
                  laws.le_div weighted total_weight score low positive quotient,
                  laws.div_le weighted total_weight score high positive quotient,
                )
          ]
      | inr (x, d) ↦ absurd (ground arith)
    ]
