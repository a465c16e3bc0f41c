-- ===== src/App/HttpErrors.antt =====
-- backend/slr/app/errors.py: the status of a response to a raised error. `none` is an error that no
-- handler is registered for. The table lists AntiAbuseError for its three subclasses, and no other
-- class of the table has subclasses.
use train_seat_booking_syste.Prelude.{ℕ, Option, none, some}
use train_seat_booking_syste.Domain.Errors.{
  Error, invalid_leg, invalid_service_date, illegal_transition, no_feasible_seat, overlap_error,
  seat_cap_exceeded, velocity_exceeded, abuse_suspected, payment_declined, coach_full,
  booking_not_found, seat_not_bookable, key_error, value_error, stop_iteration, index_error,
  assertion_error,
}

unfoldable pub status_for : Error → Option ℕ
status_for overlap_error = some 409
status_for illegal_transition = some 409
status_for no_feasible_seat = some 409
status_for coach_full = some 409
status_for seat_cap_exceeded = some 429
status_for velocity_exceeded = some 429
status_for abuse_suspected = some 429
status_for payment_declined = some 402
status_for booking_not_found = some 404
status_for seat_not_bookable = some 422
status_for invalid_leg = some 422
status_for invalid_service_date = some 422
status_for value_error = some 422
status_for key_error = some 404
status_for stop_iteration = none
status_for index_error = none
status_for assertion_error = none
