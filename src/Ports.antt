-- ===== src/Ports.antt =====
-- backend/slr/ports: the records that cross the ports. Times are epoch seconds, and money is
-- integer cents; both are Python integers.
use train_seat_booking_syste.Prelude.{ℕ, Bool, String, ℤ, List}
use train_seat_booking_syste.Domain.Errors.{Result}
use train_seat_booking_syste.Domain.Stations.{Station, Leg}
use train_seat_booking_syste.Domain.Timetable.{Stop}
use train_seat_booking_syste.Domain.Values.{BookingStatus, CoachType, TravelClass}

-- ports/repository.py
pub record Coach : Type 0 where
  pub code : String
  pub coach_type : CoachType
  pub travel_class : TravelClass
  pub rows : ℕ
  pub columns : String
  pub exit_rows : List ℕ

pub record Seat : Type 0 where
  pub seat_id : String
  pub coach : String
  pub coach_type : CoachType
  pub travel_class : TravelClass
  pub number : ℕ
  pub row : ℕ
  pub column : String

pub record Trip (F : Type 0) : Type 0 where
  pub trip_id : String
  pub route_code : String
  pub service_date : String
  pub train_no : String
  pub train_name : String
  pub stations : List (Station F)
  pub stops : List Stop
  pub coaches : List Coach
  pub seats : List Seat

pub record Hold : Type 0 where
  pub booking_id : String
  pub reference : String
  pub trip_id : String
  pub seat_id : String
  pub leg : Leg
  pub passenger_id : String
  pub passenger_name : String
  pub travel_class : TravelClass
  pub status : BookingStatus
  pub fare_cents : ℤ
  pub held_until : ℤ
  pub created_at : ℤ

-- ports/availability.py
pub record AvailabilityEvent : Type 0 where
  pub trip_id : String
  pub seat_id : String
  pub leg : Leg
  pub status : BookingStatus

-- ports/payment.py
pub record PaymentResult : Type 0 where
  pub is_ok : Bool
  pub reference : String
  pub detail : String

-- domain/abuse.py: the signals that the scorer is given.
pub record AbuseFeatures (F : Type 0) : Type 0 where
  pub velocity : ℕ
  pub passenger_fanout : ℕ
  pub seat_fanout : ℕ
  pub cancel_ratio : F

-- usecases/_deps.py: what the program is given from outside. Over Python's float `F` and its
-- operations: the fare strategy, which may raise, the configuration (where a key may be missing), the
-- abuse scorer, the payment gateway's answer to the n-th charge, and the n-th identifier and reference that the
-- generators give. The clock is an argument of each use case, which reads it once.
pub record Deps (F : Type 0) : Type 0 where
  pub float_zero : F
  pub float_sub : F → F → F
  pub float_div : ℕ → ℕ → F
  pub float_leb : F → F → Bool
  pub price : F → F → F → Result ℤ
  pub get_int : String → Result ℤ
  pub get_float : String → Result F
  pub score : AbuseFeatures F → F
  pub answer : ℕ → String → ℤ → PaymentResult
  pub nth_id : ℕ → String
  pub nth_reference : ℕ → String
