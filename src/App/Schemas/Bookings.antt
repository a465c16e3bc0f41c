-- ===== src/App/Schemas/Bookings.antt =====
-- backend/slr/app/schemas.py: money, bookings, receipts and verifications as they are sent.
use train_seat_booking_syste.Prelude.{ℕ, Bool, String, ℤ, Option}
use train_seat_booking_syste.Domain.Values.{BookingStatus, TravelClass}
use train_seat_booking_syste.Ports.{Hold}
use train_seat_booking_syste.UseCases.Receipt.{Receipt, StandingAdvice, map_option}
use train_seat_booking_syste.UseCases.VerifyTicket
use train_seat_booking_syste.UseCases.VerifyTicket.{Verdict, Verification}

pub record MoneyOut : Type 0 where
  pub cents : ℤ
  pub currency : String

abbrev pub money_out : String → ℤ → MoneyOut
money_out currency cents = record { cents = cents; currency = currency }

pub record BookingOut : Type 0 where
  pub booking_id : String
  pub reference : String
  pub trip_id : String
  pub seat_id : String
  pub origin_seq : ℕ
  pub dest_seq : ℕ
  pub passenger_id : String
  pub passenger_name : String
  pub travel_class : TravelClass
  pub status : BookingStatus
  pub fare : MoneyOut
  pub held_until : ℤ
  pub created_at : ℤ

unfoldable pub booking_out : String → Hold → BookingOut
booking_out currency h = record {
  booking_id = h.booking_id;
  reference = h.reference;
  trip_id = h.trip_id;
  seat_id = h.seat_id;
  origin_seq = h.leg.origin_seq;
  dest_seq = h.leg.dest_seq;
  passenger_id = h.passenger_id;
  passenger_name = h.passenger_name;
  travel_class = h.travel_class;
  status = h.status;
  fare = money_out currency h.fare_cents;
  held_until = h.held_until;
  created_at = h.created_at;
}

pub record StandingOut : Type 0 where
  pub after_seq : ℕ
  pub after_station : String
  pub seat_label : String

abbrev pub standing_out : StandingAdvice → StandingOut
standing_out a = record {
  after_seq = a.after_seq;
  after_station = a.after_station;
  seat_label = a.seat_label;
}

pub record ReceiptOut : Type 0 where
  pub reference : String
  pub qr_payload : String
  pub booking_id : String
  pub passenger_id : String
  pub passenger_name : String
  pub trip_id : String
  pub route_code : String
  pub train_no : String
  pub train_name : String
  pub service_date : String
  pub origin_code : String
  pub origin_name : String
  pub origin_seq : ℕ
  pub dest_code : String
  pub dest_name : String
  pub dest_seq : ℕ
  pub depart : String
  pub arrive : String
  pub duration_min : ℤ
  pub travel_class : TravelClass
  pub fare : MoneyOut
  pub status : BookingStatus
  pub issued_at : ℤ
  pub coach : Option String
  pub seat_label : Option String
  pub standing : Option StandingOut

unfoldable pub receipt_out : String → Receipt → ReceiptOut
receipt_out currency r = record {
  reference = r.reference;
  qr_payload = r.qr_payload;
  booking_id = r.booking_id;
  passenger_id = r.passenger_id;
  passenger_name = r.passenger_name;
  trip_id = r.trip_id;
  route_code = r.route_code;
  train_no = r.train_no;
  train_name = r.train_name;
  service_date = r.service_date;
  origin_code = r.origin_code;
  origin_name = r.origin_name;
  origin_seq = r.origin_seq;
  dest_code = r.dest_code;
  dest_name = r.dest_name;
  dest_seq = r.dest_seq;
  depart = r.depart;
  arrive = r.arrive;
  duration_min = r.duration;
  travel_class = r.travel_class;
  fare = money_out currency r.fare;
  status = r.status;
  issued_at = r.issued_at;
  coach = r.coach;
  seat_label = r.seat;
  standing = map_option standing_out r.standing;
}

pub record VerifyOut : Type 0 where
  pub verdict : Verdict
  pub is_valid : Bool
  pub ticket : ReceiptOut

unfoldable pub verify_out : String → Verification → VerifyOut
verify_out currency v = record {
  verdict = v.verdict;
  is_valid = VerifyTicket.is_valid v;
  ticket = receipt_out currency v.receipt;
}

pub record QuoteOut : Type 0 where
  pub trip_id : String
  pub origin_seq : ℕ
  pub dest_seq : ℕ
  pub travel_class : TravelClass
  pub fare : MoneyOut
