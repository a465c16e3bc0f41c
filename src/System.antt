-- ===== src/System.antt =====
-- The service as a whole: any sequence of intents, each at the time at which it arrives, against
-- one store. A request that raises ends there, and the next one meets what it left.
use train_seat_booking_syste.Prelude.{
  ◌≡◌, ◌≢◌, ◌≤◌, ◌⊎◌, true, false, String, ℤ, some, List, [], ◌∷◌, arith, eq_iff,
}
use train_seat_booking_syste.Prelude.Dict.{lookup}
use train_seat_booking_syste.Domain.Stations.{Leg, overlaps}
use train_seat_booking_syste.Domain.Values.{TravelClass, is_active}
use train_seat_booking_syste.MemoryRepo.Exclusive.{IsExclusive, share_seat}
use train_seat_booking_syste.Ports.{Hold, Deps}
use train_seat_booking_syste.UseCases.CancelBooking.Outcome.{cancel_booking-IsKept}
use train_seat_booking_syste.UseCases.CancelBooking.{cancel_booking}
use train_seat_booking_syste.UseCases.ConfirmBooking.Outcome.{confirm_booking-IsKept}
use train_seat_booking_syste.UseCases.ConfirmBooking.{confirm_booking}
use train_seat_booking_syste.UseCases.HoldSeat.Outcome.{hold_seat-IsKept}
use train_seat_booking_syste.UseCases.HoldSeat.{HoldRequest, hold_seat}
use train_seat_booking_syste.UseCases.LegAvailability.Outcome.{
  leg_availability-IsKept, quote_fare-IsKept, get_trip-IsKept,
}
use train_seat_booking_syste.UseCases.LegAvailability.{leg_availability, quote_fare, get_trip}
use train_seat_booking_syste.UseCases.SellUnreserved.Outcome.{sell_unreserved-IsKept}
use train_seat_booking_syste.UseCases.SellUnreserved.{SaleRequest, sell_unreserved}
use train_seat_booking_syste.UseCases.VerifyTicket.Outcome.{verify_ticket-IsKept}
use train_seat_booking_syste.UseCases.VerifyTicket.{verify_ticket}
use train_seat_booking_syste.World.Atomic.{IsKept}
use train_seat_booking_syste.World.{World}

pub data Intent : Type 0 where
  hold : HoldRequest → Intent
  sell : SaleRequest → Intent
  confirm cancel verify trip : String → Intent
  availability : String → Leg → Intent
  quote : String → Leg → TravelClass → Intent

shares :
    (h g : Hold)
    → h.trip_id ≡ g.trip_id
    → h.seat_id ≡ g.seat_id
    → is_active h.status ≡ true
    → is_active g.status ≡ true
    → share_seat h g ≡ true
shares h g t s ah ag = ground (arith, eq_iff h.trip_id g.trip_id, eq_iff h.seat_id g.seat_id)

apart :
    (a b : Leg) → overlaps a b ≡ false → (a.dest_seq ≤ b.origin_seq) ⊎ (b.dest_seq ≤ a.origin_seq)
apart a b h = grind arith

module _ {F : Type 0} (deps : Deps F) where
  unfoldable pub serve_one : ℤ → Intent → World F → World F
  serve_one now (hold r) w = (hold_seat deps now r w).1
  serve_one now (sell r) w = (sell_unreserved deps now r w).1
  serve_one now (confirm id) w = (confirm_booking deps now id w).1
  serve_one now (cancel id) w = (cancel_booking id w).1
  serve_one now (verify reference) w = (verify_ticket now reference w).1
  serve_one now (trip id) w = (get_trip id w).1
  serve_one now (availability id leg) w = (leg_availability now id leg w).1
  serve_one now (quote id leg travel_class) w = (quote_fare deps id leg travel_class w).1

  unfoldable pub serve : List (ℤ × Intent) → World F → World F
  serve [] w = w
  serve ((now, intent) ∷ rest) w = serve rest (serve_one now intent w)

  serve_one-IsKept :
      (now : ℤ) (intent : Intent) (w : World F)
      → IsExclusive w.store.holds
      → IsKept w (serve_one now intent w)
  unfolding serve_one
  serve_one-IsKept now (hold r) w x = hold_seat-IsKept deps now r w x
  serve_one-IsKept now (sell r) w x = sell_unreserved-IsKept deps now r w x
  serve_one-IsKept now (confirm id) w x = confirm_booking-IsKept deps now id w x
  serve_one-IsKept now (cancel id) w x = cancel_booking-IsKept id w x
  serve_one-IsKept now (verify reference) w x = verify_ticket-IsKept now reference w x
  serve_one-IsKept now (trip id) w x = get_trip-IsKept id w x
  serve_one-IsKept now (availability id leg) w x = leg_availability-IsKept id leg w x now
  serve_one-IsKept now (quote id leg c) w x = quote_fare-IsKept id leg w x deps c

  pub serve-IsExclusive :
      (intents : List (ℤ × Intent)) (w : World F)
      → IsExclusive w.store.holds
      → IsExclusive (serve intents w).store.holds
  unfolding serve
  serve-IsExclusive [] w x = x
  serve-IsExclusive ((now, intent) ∷ rest) w x =
      serve-IsExclusive rest (serve_one now intent w) (serve_one-IsKept now intent w x).exclusive

  -- From a store with no double booking, whatever intents arrive, in whatever order and at whatever
  -- times, and however each of them ends: two different bookings of the store that are HELD or
  -- CONFIRMED on the same seat of the same trip are for legs of which one ends before, or where, the
  -- other begins.
  pub serve_no_double_booking :
      (intents : List (ℤ × Intent)) (w : World F)
      → IsExclusive w.store.holds
      → (j k : String) (h g : Hold) → lookup j (serve intents w).store.holds ≡ some h
      → lookup k (serve intents w).store.holds ≡ some g
      → j ≢ k
      → h.trip_id ≡ g.trip_id
      → h.seat_id ≡ g.seat_id
      → is_active h.status ≡ true
      → is_active g.status ≡ true
      → (h.leg.dest_seq ≤ g.leg.origin_seq) ⊎ (g.leg.dest_seq ≤ h.leg.origin_seq)
  serve_no_double_booking intents w x j k h g lj lk ne t s ah ag =
      apart h.leg g.leg
        ((serve-IsExclusive intents w x).disjoint j k h g lj lk ne (shares h g t s ah ag))
