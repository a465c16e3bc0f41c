-- ===== src/Tests/Bookings.antt =====
-- The use cases run on the sample, and each of their theorems at an input.
use train_seat_booking_syste.Prelude.{
  ◌≡◌, ◌≢◌, ◌≤◌, ◌⊎◌, inl, refl, String, ℤ, pos, ◌+ℤ◌, ◌-ℤ◌, some, List, [], ◌∷◌, ◌++◌, arith,
  eq_iff, Bool, get_elem?, if◌then◌else◌,
}
use train_seat_booking_syste.Prelude.Dict.{Dict, lookup, insert}
use train_seat_booking_syste.Domain.Errors.{ok, err}
use train_seat_booking_syste.Domain.Values.{held, confirmed, cancelled}
use train_seat_booking_syste.MemoryRepo
use train_seat_booking_syste.MemoryRepo.Exclusive.{
  IsExclusive, IsExclusive-nil, add_hold-IsExclusive,
}
use train_seat_booking_syste.MemoryRepo.{is_due, expire}
use train_seat_booking_syste.Ports.{Hold, Seat}
use train_seat_booking_syste.System.{Intent, hold, serve, serve_one, serve_no_double_booking}
use train_seat_booking_syste.Tests.Sample.{deps, world, request, sale, booked, express, bench}
use train_seat_booking_syste.UseCases.AntiTout.{enforce_anti_tout}
use train_seat_booking_syste.UseCases.HoldSeat.{hold_seat, hold_body, place_hold, reserved_seat}
use train_seat_booking_syste.UseCases.ConfirmBooking.{confirm_booking, confirm_body, settle}
use train_seat_booking_syste.UseCases.Support.{validate_leg, price_leg, occupancy_over_leg}
use train_seat_booking_syste.Domain.Stations.{distance_km}
use train_seat_booking_syste.Domain.Errors.{
  illegal_transition, payment_declined, invalid_leg, seat_cap_exceeded, velocity_exceeded,
  abuse_suspected,
}
use train_seat_booking_syste.Domain.Timetable.{serves, stop_at}
use train_seat_booking_syste.Domain.Packing.{choose_seat, choose_from}
use train_seat_booking_syste.UseCases.SellUnreserved.{sold_hold}
use train_seat_booking_syste.UseCases.SellUnreserved.Assigned.{chosen_seat-accepted}
use train_seat_booking_syste.UseCases.AntiTout.Policy.{Verdicts, suspected, enforce_anti_tout_lem}
use train_seat_booking_syste.UseCases.CancelBooking.{cancel_booking}
use train_seat_booking_syste.UseCases.CancelBooking.Outcome.{freed, cancel_booking_lem}
use train_seat_booking_syste.UseCases.Receipt.{receipt_for}
use train_seat_booking_syste.UseCases.ConfirmBooking.Outcome.{
  confirm_booking-unserved, undone, settled, confirm_booking-refused, confirm_booking-declined,
  confirm_booking-paid,
}
use train_seat_booking_syste.UseCases.HoldSeat.Outcome.{
  IsReplayOrPlaced, hold_seat-IsReplayOrPlaced,
}
use train_seat_booking_syste.World.{with_uow, get_trip}

-- What a run of the program computes with.
program : Unit {0}
unfolding lookup insert MemoryRepo.active_for_seat MemoryRepo.active_for_passenger
    MemoryRepo.active_holds MemoryRepo.by_status MemoryRepo.by_reference MemoryRepo.get
    MemoryRepo.add_hold MemoryRepo.set_status MemoryRepo.expire_due validate_leg price_leg
    occupancy_over_leg distance_km enforce_anti_tout hold_seat hold_body place_hold reserved_seat
    confirm_booking confirm_body settle with_uow get_trip serve serve_one ◌+ℤ◌ ◌-ℤ◌
program = tt

abbrev two_holds : List (ℤ × Intent)
two_holds =
    (pos 0, hold (request 0 1)) ∷ (pos 0, hold (request 1 3)) ∷ (pos 0, hold (request 0 3)) ∷ []

-- The third hold overlaps the other two and is refused.
first_hold :
    lookup "id-1" (serve deps two_holds (world [])).store.holds
    ≡ some (booked "id-1" "SLR-1" 0 1 30 held)
unfolding program
first_hold = refl

second_hold :
    lookup "id-2" (serve deps two_holds (world [])).store.holds
    ≡ some (booked "id-2" "SLR-2" 1 3 212 held)
unfolding program
second_hold = refl

two_ids : ◌≢◌ {A = String} "id-1" "id-2"
two_ids = ground (arith, eq_iff "id-1" "id-2")

serve_no_double_booking_example : (1 ≤ 1) ⊎ (3 ≤ 0)
serve_no_double_booking_example =
    serve_no_double_booking deps two_holds (world []) IsExclusive-nil "id-1" "id-2"
      (booked "id-1" "SLR-1" 0 1 30 held) (booked "id-2" "SLR-2" 1 3 212 held) first_hold
      second_hold two_ids refl refl refl refl

abbrev one : Dict Hold
one = ("id-1", booked "id-1" "SLR-1" 0 1 30 held) ∷ []

abbrev unserved : Dict Hold
unserved = ("id-1", booked "id-1" "SLR-1" 0 2 70 held) ∷ []

abbrev declining : Dict Hold
declining = ("id-1", booked "id-1" "BAD" 0 1 30 held) ∷ []

one-found : lookup "id-1" one ≡ some (booked "id-1" "SLR-1" 0 1 30 held)
unfolding program
one-found = refl

unserved-found : lookup "id-1" unserved ≡ some (booked "id-1" "SLR-1" 0 2 70 held)
unfolding program
unserved-found = refl

declining-found : lookup "id-1" declining ≡ some (booked "id-1" "BAD" 0 1 30 held)
unfolding program
declining-found = refl

known : (holds : Dict Hold) → get_trip (world holds).store.trips "T:2026-07-01" ≡ ok express
unfolding program
known holds = refl

confirm_booking-refused_example :
    confirm_booking deps (pos 900) "id-1" (world one)
    ≡ (err illegal_transition, undone (world one) [])
confirm_booking-refused_example =
    confirm_booking-refused deps (pos 900) "id-1" (world one) (booked "id-1" "SLR-1" 0 1 30 held)
      one-found (inl refl)

confirm_booking-declined_example :
    confirm_booking deps (pos 60) "id-1" (world declining)
    ≡ (err payment_declined, undone (world declining) (("BAD", pos 30) ∷ []))
confirm_booking-declined_example =
    confirm_booking-declined deps (pos 60) "id-1" (world declining)
      (booked "id-1" "BAD" 0 1 30 held) declining-found express refl refl (known declining) refl

confirm_booking-paid_example : confirm_booking deps (pos 60) "id-1" (world one) ≡ (
  receipt_for (booked "id-1" "SLR-1" 0 1 30 confirmed) express (pos 60),
  settled (pos 60) "id-1" (booked "id-1" "SLR-1" 0 1 30 held) (world one),
)
confirm_booking-paid_example =
    confirm_booking-paid deps (pos 60) "id-1" (world one) (booked "id-1" "SLR-1" 0 1 30 held)
      one-found express refl refl (known one) refl

confirm_booking-unserved_example :
    ((confirm_booking deps (pos 60) "id-1" (world unserved)).0 ≡ err invalid_leg)
    × (lookup "id-1" (confirm_booking deps (pos 60) "id-1" (world unserved)).1.store.holds
        ≡ some (booked "id-1" "SLR-1" 0 2 70 confirmed))
    × ((confirm_booking deps (pos 60) "id-1" (world unserved)).1.charges
        ≡ [] ++ ("SLR-1", pos 70) ∷ [])
unfolding stop_at serves
confirm_booking-unserved_example =
    confirm_booking-unserved deps (pos 60) "id-1" (world unserved)
      (booked "id-1" "SLR-1" 0 2 70 held) unserved-found express refl refl (known unserved) refl
      refl

hold_seat-IsReplayOrPlaced_example :
    IsReplayOrPlaced deps
      (pos 0)
      (request 0 1)
      (world [])
      (booked "id-1" "SLR-1" 0 1 30 held)
      (hold_seat deps (pos 0) (request 0 1) (world [])).1
unfolding program
hold_seat-IsReplayOrPlaced_example =
    hold_seat-IsReplayOrPlaced deps (pos 0) (request 0 1) (world [])
      (booked "id-1" "SLR-1" 0 1 30 held) (hold_seat deps (pos 0) (request 0 1) (world [])).1 refl

one-IsExclusive : IsExclusive one
unfolding program
one-IsExclusive =
    add_hold-IsExclusive [] one (booked "id-1" "SLR-1" 0 1 30 held) IsExclusive-nil refl

cancel_booking_lem_example : cancel_booking "id-1" (world one) ≡ (
  ok (booked "id-1" "SLR-1" 0 1 30 cancelled),
  freed "id-1" (booked "id-1" "SLR-1" 0 1 30 held) (world one),
)
cancel_booking_lem_example =
    cancel_booking_lem "id-1" (world one) (booked "id-1" "SLR-1" 0 1 30 held) one-found

chosen_seat-accepted_example :
    (seat : Seat) × (get_elem? (bench ∷ []) 0 ≡ some seat)
    × ((booking_id reference : String) (fare now : ℤ)
        → let sold = sold_hold sale booking_id reference (some seat) fare now in
          MemoryRepo.add_hold one sold ≡ ok (insert booking_id sold one))
unfolding program choose_seat choose_from
chosen_seat-accepted_example = chosen_seat-accepted one sale (bench ∷ []) 0 refl

enforce_anti_tout_lem_example :
    (few : Bool) × (slow : Bool) × Verdicts deps one "T:2026-07-01" "NIC1"
      (pos 60)
      (pos 6)
      (pos 600)
      (pos 10)
      100
      few
      slow
    × (enforce_anti_tout deps one "T:2026-07-01" "NIC1" (pos 60) ≡ (
        if few
        then if slow
          then if suspected deps one "T:2026-07-01" "NIC1" (pos 60) (pos 6) (pos 600) (pos 10) 100
            then err abuse_suspected
            else ok tt
          else err velocity_exceeded
        else err seat_cap_exceeded))
unfolding program
enforce_anti_tout_lem_example =
    enforce_anti_tout_lem deps one "T:2026-07-01" "NIC1" (pos 60) (pos 6) (pos 600) (pos 10) 100
      refl refl refl refl (omega arith) (omega arith) (omega arith) (omega arith, tt)
