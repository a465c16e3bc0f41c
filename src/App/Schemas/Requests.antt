-- ===== src/App/Schemas/Requests.antt =====
-- backend/slr/app/schemas.py: the bodies of requests, with the bounds that their fields declare. A
-- number in a body may be negative.
use train_seat_booking_syste.Prelude.{ℕ, suc, Bool, ◌&&◌, String, ℤ, pos, leb_ℤ, leb, Option}
use train_seat_booking_syste.Domain.Values.{TravelClass}

abbrev pub text_length : String → ℕ
text_length String.[] = 0
text_length (String.◌∷◌ c s) = suc (text_length s)

-- `NAME` and `NIC`
abbrev pub is_name : String → Bool
is_name s = leb 1 (text_length s) && leb (text_length s) 120

abbrev pub is_nic : String → Bool
is_nic s = leb 1 (text_length s) && leb (text_length s) 64

abbrev pub is_ge_zero : ℤ → Bool
is_ge_zero z = leb_ℤ (pos 0) z

pub record HoldBody : Type 0 where
  pub trip_id : String
  pub seat_id : String
  pub origin_seq : ℤ
  pub dest_seq : ℤ
  pub passenger_id : String
  pub passenger_name : String
  pub reference : Option String

abbrev pub is_hold_body : HoldBody → Bool
is_hold_body b =
    is_ge_zero b.origin_seq
    && is_ge_zero b.dest_seq
    && is_nic b.passenger_id
    && is_name b.passenger_name

pub record QuoteBody : Type 0 where
  pub trip_id : String
  pub origin_seq : ℤ
  pub dest_seq : ℤ
  pub travel_class : TravelClass

abbrev pub is_quote_body : QuoteBody → Bool
is_quote_body b = is_ge_zero b.origin_seq && is_ge_zero b.dest_seq

pub record SellBody : Type 0 where
  pub trip_id : String
  pub origin_seq : ℤ
  pub dest_seq : ℤ
  pub passenger_id : String
  pub passenger_name : String
  pub travel_class : TravelClass

abbrev pub is_sell_body : SellBody → Bool
is_sell_body b =
    is_ge_zero b.origin_seq
    && is_ge_zero b.dest_seq
    && is_nic b.passenger_id
    && is_name b.passenger_name
