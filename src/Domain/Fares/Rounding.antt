-- ===== src/Domain/Fares/Rounding.antt =====
-- The rounding of a fare, and fares over two distances.
use native.Mathlib.Nat.{
  div-mul-le_self, lt-div-mul-add, le-div_iff_mul-le, mul-le-mul_left, mul-le-mul_right, mul-pos,
  le_of_mul-le-mul_left,
}
use train_seat_booking_syste.Prelude.{
  ℕ, ◌+◌, ◌*◌, ◌/◌, ◌≤◌, ◌<◌, ◌≡◌, refl, ap, ◌∙◌, pos, ◌*ℤ◌, arith,
}
use train_seat_booking_syste.Domain.Fares.{Floats, half_up, distance_fare}

-- The number of cents that is nearest to n / d.
abbrev pub IsNearest : ℕ → ℕ → ℕ → Type 0
IsNearest q n d = (q * (2 * d) ≤ 2 * n + d) × (2 * n + d < q * (2 * d) + 2 * d)

half_up-IsNearest : (n d : ℕ) → 0 < d → IsNearest (half_up n d) n d
unfolding half_up
half_up-IsNearest n d h =
    let h' : 0 < 2 * d = omega arith in (div-mul-le_self (2 * n + d) (2 * d), lt-div-mul-add h')

cross : (q a b c d : ℕ) → 0 < b → q * (2 * b) ≤ 2 * a + b → a * d ≤ c * b → q * (2 * d) ≤ 2 * c + d
cross q a b c d hb low h =
    let scaled : q * (2 * b) * d ≤ (2 * a + b) * d = mul-le-mul_right d low in
    let wide : b * (q * (2 * d)) ≤ b * (2 * c + d) = grind arith in le_of_mul-le-mul_left wide hb

half_up_mono : (a b c d : ℕ) → 0 < b → 0 < d → a * d ≤ c * b → half_up a b ≤ half_up c d
unfolding half_up
half_up_mono a b c d hb hd h =
    let h' : 0 < 2 * d = omega arith in
    (le-div_iff_mul-le h').1
      (cross ((2 * a + b) / (2 * b)) a b c d hb (div-mul-le_self (2 * a + b) (2 * b)) h)

pos-*ℤ : (a b : ℕ) → pos a *ℤ pos b ≡ pos (a * b)
unfolding ◌*ℤ◌
pos-*ℤ a b = ground arith

module _ {F : Type 0} (floats : Floats F) where
  -- The decimal of a float that is not negative.
  abbrev pub HasDecimal : F → ℕ → ℕ → Type 0
  HasDecimal x c s = (floats.decimal x ≡ record { coefficient = pos c; scale = s }) × (0 < s)

  distance_fare-half_up :
      (km mult : F) (rate c s m t : ℕ)
      → HasDecimal km c s
      → HasDecimal mult m t
      → distance_fare floats km (pos rate) mult ≡ pos (half_up (rate * c * m) (1 * s * t))
  unfolding distance_fare
  distance_fare-half_up km mult rate c s m t (ek, hs) (em, ht) =
      rw (ek, em, pos-*ℤ rate c, pos-*ℤ (rate * c) m) refl

-- For a rate, a distance and a class factor that are not negative, `distance_fare` is the number of
-- cents nearest to their product, the greater of two that are as near; and over a distance that is at
-- least as long it is not less.
pub distance_fare_lem :
    {F : Type 0} (floats : Floats F) (km further mult : F) (rate c s c' s' m t : ℕ)
    → HasDecimal floats km c s
    → HasDecimal floats further c' s'
    → HasDecimal floats mult m t
    → c * s' ≤ c' * s
    → (q : ℕ) × (q' : ℕ) × (distance_fare floats km (pos rate) mult ≡ pos q)
      × (distance_fare floats further (pos rate) mult ≡ pos q')
      × IsNearest q (rate * c * m) (s * t)
      × (q ≤ q')
distance_fare_lem floats km further mult rate c s c' s' m t k f u h =
    let st : 0 < s * t = mul-pos k.1 u.1 in
    let st' : 0 < s' * t = mul-pos f.1 u.1 in
    let scaled : rate * m * t * (c * s') ≤ rate * m * t * (c' * s) =
      mul-le-mul_left (rate * m * t) h in
    let longer : rate * c * m * (s' * t) ≤ rate * c' * m * (s * t) = grind arith in
    let e = distance_fare-half_up floats km mult rate c s m t k u in
    let e' = distance_fare-half_up floats further mult rate c' s' m t f u in
    (
      half_up (rate * c * m) (s * t),
      half_up (rate * c' * m) (s' * t),
      e ∙ ap (λ d. pos (half_up (rate * c * m) d)) (grind arith),
      e' ∙ ap (λ d. pos (half_up (rate * c' * m) d)) (grind arith),
      half_up-IsNearest (rate * c * m) (s * t) st,
      half_up_mono (rate * c * m) (s * t) (rate * c' * m) (s' * t) st st' longer,
    )
