-- ===== src/Domain/Errors.antt =====
-- backend/slr/domain/errors.py: the typed rule violations, and the built-in exceptions that the
-- modelled code raises. A call that may raise returns a `Result`; messages are not modelled.
use train_seat_booking_syste.Prelude.{◌≡◌, refl, ◌⊎◌, inl, inr, Bool, true, false}

pub data Error : Type 0 where
  invalid_leg invalid_service_date illegal_transition no_feasible_seat overlap_error : Error
  seat_cap_exceeded velocity_exceeded abuse_suspected payment_declined coach_full : Error
  booking_not_found seat_not_bookable : Error
  key_error value_error stop_iteration index_error assertion_error : Error

pub data Result {ℓ} (A : Type ℓ) : Type ℓ where
  err : Error → Result A
  ok : A → Result A

module _ {ℓ κ} {A : Type ℓ} {B : Type κ} where
  infixl 5 ◌>>=◌
  -- An exception ends the block.
  abbrev pub ◌>>=◌ : Result A → (A → Result B) → Result B
  ◌>>=◌ m next = elim m [ err e ↦ err e | ok a ↦ next a ]

module _ {ℓ} {B : Type ℓ} where
  infixl 5 ◌>>◌
  abbrev pub ◌>>◌ : Result (Unit {0}) → Result B → Result B
  ◌>>◌ check next = check >>= λ _. next

-- `if b: raise e`
abbrev pub raise_if : Bool → Error → Result (Unit {0})
raise_if true e = err e
raise_if false e = ok tt

abbrev pub is_ok {ℓ} : {A : Type ℓ} → Result A → Bool
is_ok (ok a) = true
is_ok (err e) = false

-- To split on a computed result and keep the equation.
pub Result-cases {ℓ} :
    {A : Type ℓ} (r : Result A) → ((a : A) × (r ≡ ok a)) ⊎ ((e : Error) × (r ≡ err e))
Result-cases (ok a) = inl (a, refl)
Result-cases (err e) = inr (e, refl)
