-- ===== src/App/Routes.antt =====
-- backend/slr/app/routes/bookings.py, admin.py and trips.py: each route validates its input, builds
-- the leg, runs its use case and maps the result out. The framework answers 422 where a declared
-- bound is not met.
pub mod Holding
pub mod Searching
use train_seat_booking_syste.Prelude.{
  ℕ, Bool, String, ℤ, ◌&&◌, Option, none, some, str_eq, if◌then◌else◌,
}
use train_seat_booking_syste.App.HttpErrors.{status_for}
use train_seat_booking_syste.App.Schemas.Bookings.{
  BookingOut, ReceiptOut, VerifyOut, QuoteOut, money_out, booking_out, receipt_out, verify_out,
}
use train_seat_booking_syste.App.Schemas.Requests.{
  HoldBody, QuoteBody, SellBody, is_ge_zero, is_hold_body, is_quote_body, is_sell_body,
}
use train_seat_booking_syste.App.Schemas.Trips.{
  TripOut, LegAvailabilityOut, ImpactOut, trip_out, availability_out, impact_out,
}
use train_seat_booking_syste.UseCases.ImpactReport.{Floats, impact_report}
use train_seat_booking_syste.Domain.Errors.{Error, Result, ok, err}
use train_seat_booking_syste.Domain.Stations.{Leg, make_leg}
use train_seat_booking_syste.Ports.{Deps}
use train_seat_booking_syste.UseCases.CancelBooking.{cancel_booking}
use train_seat_booking_syste.UseCases.ConfirmBooking.{confirm_booking}
use train_seat_booking_syste.UseCases.HoldSeat.{HoldRequest, hold_seat}
use train_seat_booking_syste.UseCases.LegAvailability.{leg_availability, quote_fare, get_trip}
use train_seat_booking_syste.UseCases.SellUnreserved.{SaleRequest, sell_unreserved}
use train_seat_booking_syste.UseCases.VerifyTicket.{verify_ticket}
use train_seat_booking_syste.World.{World, Exec, pure, lift, ◌>>=◌}

-- A response with a body, one that refuses with a status, or an exception that no handler takes.
pub data Reply (A : Type 0) : Type 0 where
  sent : ℕ → A → Reply A
  refused : ℕ → Reply A
  unhandled : Error → Reply A

abbrev pub refusal : {A : Type 0} → Error → Option ℕ → Reply A
refusal e none = unhandled e
refusal e (some status) = refused status

unfoldable pub reply : {A : Type 0} → ℕ → Result A → Reply A
reply status (ok a) = sent status a
reply status (err e) = refusal e (status_for e)

abbrev pub hold_request : HoldBody → Leg → HoldRequest
hold_request b leg = record {
  trip_id = b.trip_id;
  seat_id = b.seat_id;
  leg = leg;
  passenger_id = b.passenger_id;
  passenger_name = b.passenger_name;
  reference = b.reference;
}

abbrev pub sale_request : SellBody → Leg → SaleRequest
sale_request b leg = record {
  trip_id = b.trip_id;
  leg = leg;
  passenger_id = b.passenger_id;
  passenger_name = b.passenger_name;
  travel_class = b.travel_class;
  reference = none;
}

module _ {F : Type 0} where
  -- A route with its status, on a body that is valid or not.
  unfoldable pub respond : {A : Type 0} → ℕ → Bool → Exec F A → World F → Reply A × World F
  respond status is_valid run w =
      let (r, w') = run w in if is_valid then (reply status r, w') else (refused 422, w)

  -- app/deps.py: `require_counter_key`, for keys in ASCII. It runs before the body is validated.
  unfoldable pub with_counter_key :
      {A : Type 0} → String → String → (World F → Reply A × World F) → World F → Reply A × World F
  with_counter_key counter_key presented route w =
      let answer = route w in if str_eq presented counter_key then answer else (refused 401, w)

  unfoldable pub run_hold : Deps F → String → ℤ → HoldBody → Exec F BookingOut
  run_hold deps currency now b = do
    leg ← lift (make_leg b.origin_seq b.dest_seq)
    booking ← hold_seat deps now (hold_request b leg)
    pure (booking_out currency booking)

  -- POST /bookings/hold
  unfoldable pub hold : Deps F → String → ℤ → HoldBody → World F → Reply BookingOut × World F
  hold deps currency now b = respond 201 (is_hold_body b) (run_hold deps currency now b)

  unfoldable pub run_quote : Deps F → String → QuoteBody → Exec F QuoteOut
  run_quote deps currency b = do
    leg ← lift (make_leg b.origin_seq b.dest_seq)
    fare ← quote_fare deps b.trip_id leg b.travel_class
    pure (record {
      trip_id = b.trip_id;
      origin_seq = leg.origin_seq;
      dest_seq = leg.dest_seq;
      travel_class = b.travel_class;
      fare = money_out currency fare;
    })

  -- POST /quote. The positions of the body are those of the leg.
  unfoldable pub quote : Deps F → String → QuoteBody → World F → Reply QuoteOut × World F
  quote deps currency b = respond 200 (is_quote_body b) (run_quote deps currency b)

  unfoldable pub run_confirm : Deps F → String → ℤ → String → Exec F ReceiptOut
  run_confirm deps currency now booking_id = do
    receipt ← confirm_booking deps now booking_id
    pure (receipt_out currency receipt)

  -- POST /bookings/{booking_id}/confirm
  unfoldable pub confirm : Deps F → String → ℤ → String → World F → Reply ReceiptOut × World F
  confirm deps currency now booking_id =
      respond 200 Bool.true (run_confirm deps currency now booking_id)

  unfoldable pub run_cancel : String → String → Exec F BookingOut
  run_cancel currency booking_id = do
    booking ← cancel_booking booking_id
    pure (booking_out currency booking)

  -- POST /bookings/{booking_id}/cancel
  unfoldable pub cancel : String → String → World F → Reply BookingOut × World F
  cancel currency booking_id = respond 200 Bool.true (run_cancel currency booking_id)

  unfoldable pub run_sell : Deps F → String → ℤ → SellBody → Exec F ReceiptOut
  run_sell deps currency now b = do
    leg ← lift (make_leg b.origin_seq b.dest_seq)
    receipt ← sell_unreserved deps now (sale_request b leg)
    pure (receipt_out currency receipt)

  -- POST /admin/unreserved/sell
  unfoldable pub sell :
      String → String → Deps F → String → ℤ → SellBody → World F → Reply ReceiptOut × World F
  sell counter_key presented deps currency now b =
      with_counter_key counter_key presented
        (respond 201 (is_sell_body b) (run_sell deps currency now b))

  unfoldable pub run_verify : String → ℤ → String → Exec F VerifyOut
  run_verify currency now reference = do
    verification ← verify_ticket now reference
    pure (verify_out currency verification)

  -- GET /admin/verify/{reference}
  unfoldable pub verify :
      String → String → String → ℤ → String → World F → Reply VerifyOut × World F
  verify counter_key presented currency now reference =
      with_counter_key counter_key presented
        (respond 200 Bool.true (run_verify currency now reference))

  unfoldable pub run_read_trip : String → Exec F (TripOut F)
  run_read_trip trip_id = do trip ← get_trip trip_id; pure (trip_out trip)

  -- GET /trips/{trip_id}
  unfoldable pub read_trip : String → World F → Reply (TripOut F) × World F
  read_trip trip_id = respond 200 Bool.true (run_read_trip trip_id)

  unfoldable pub run_availability : ℤ → String → ℤ → ℤ → Exec F LegAvailabilityOut
  run_availability now trip_id origin_seq dest_seq = do
    leg ← lift (make_leg origin_seq dest_seq)
    view ← leg_availability now trip_id leg
    pure (availability_out view)

  -- GET /trips/{trip_id}/availability
  unfoldable pub trip_availability :
      ℤ → String → ℤ → ℤ → World F → Reply LegAvailabilityOut × World F
  trip_availability now trip_id origin_seq dest_seq =
      respond 200 (is_ge_zero origin_seq && is_ge_zero dest_seq)
        (run_availability now trip_id origin_seq dest_seq)

  unfoldable pub run_impact : Floats F → String → Exec F (ImpactOut F)
  run_impact floats trip_id = do report ← impact_report floats trip_id; pure (impact_out report)

  -- GET /trips/{trip_id}/impact
  unfoldable pub trip_impact : Floats F → String → World F → Reply (ImpactOut F) × World F
  trip_impact floats trip_id = respond 200 Bool.true (run_impact floats trip_id)
