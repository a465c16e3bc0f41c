-- ===== src/Tests/Interface.antt =====
-- The routes on the sample, and the theorems about them and the schemas at an input.
use train_seat_booking_syste.Prelude.{◌≡◌, refl, ℤ, pos, ◌+ℤ◌, ◌-ℤ◌, none, some, [], ◌∷◌}
use train_seat_booking_syste.Prelude.Dict.{lookup, insert}
use train_seat_booking_syste.App.HttpErrors.{status_for}
use train_seat_booking_syste.App.Routes.{
  sent, refused, reply, respond, run_hold, hold, with_counter_key, sell,
}
use train_seat_booking_syste.App.Routes.Holding.{IsAnswer, hold_lem}
use train_seat_booking_syste.App.Schemas.Bookings.{booking_out}
use train_seat_booking_syste.App.Schemas.Requests.{HoldBody, SellBody}
use train_seat_booking_syste.Domain.Stations.{make_leg, distance_km}
use train_seat_booking_syste.Domain.Values.{third, held}
use train_seat_booking_syste.MemoryRepo
use train_seat_booking_syste.MemoryRepo.Exclusive.{IsExclusive-nil}
use train_seat_booking_syste.Tests.Sample.{deps, world, booked}
use train_seat_booking_syste.UseCases.AntiTout.{enforce_anti_tout}
use train_seat_booking_syste.UseCases.HoldSeat.{hold_seat, hold_body, place_hold, reserved_seat}
use train_seat_booking_syste.UseCases.Support.{validate_leg, price_leg, occupancy_over_leg}
use train_seat_booking_syste.World.{with_uow, get_trip}

abbrev body : ℤ → ℤ → HoldBody
body o d = record {
  trip_id = "T:2026-07-01";
  seat_id = "R1A";
  origin_seq = o;
  dest_seq = d;
  passenger_id = "NIC1";
  passenger_name = "Nimal";
  reference = none;
}

-- What a request for a hold computes with.
holding : Unit {0}
unfolding lookup insert MemoryRepo.active_for_seat MemoryRepo.active_for_passenger
    MemoryRepo.active_holds MemoryRepo.by_reference MemoryRepo.add_hold MemoryRepo.expire_due
    validate_leg price_leg occupancy_over_leg distance_km enforce_anti_tout hold_seat hold_body
    place_hold reserved_seat with_uow get_trip make_leg hold run_hold respond reply status_for ◌+ℤ◌
    ◌-ℤ◌
holding = tt

first_hold_sent :
    (hold deps "LKR" (pos 0) (body (pos 0) (pos 1)) (world [])).0
    ≡ sent 201 (booking_out "LKR" (booked "id-1" "SLR-1" 0 1 30 held))
unfolding holding
first_hold_sent = refl

backward_refused : (hold deps "LKR" (pos 0) (body (pos 2) (pos 1)) (world [])).0 ≡ refused 422
unfolding holding
backward_refused = refl

abbrev sale_body : SellBody
sale_body = record {
  trip_id = "T:2026-07-01";
  origin_seq = pos 0;
  dest_seq = pos 1;
  passenger_id = "NIC2";
  passenger_name = "Kamala";
  travel_class = third;
}

wrong_key : (sell "counter" "" deps "LKR" (pos 0) sale_body (world [])).0 ≡ refused 401
unfolding sell with_counter_key
wrong_key = refl

-- A hold of the whole leg is there already.
overlap_refused :
    (hold deps "LKR"
      (pos 0)
      (body (pos 0) (pos 1))
      (world (("id-9", booked "id-9" "SLR-9" 0 3 30 held) ∷ []))).0
    ≡ refused 409
unfolding holding
overlap_refused = refl

-- The client gives the reference.
abbrev named : HoldBody
named = record (body (pos 0) (pos 1)) { reference = some "MINE" }

named_sent :
    (hold deps "LKR" (pos 0) named (world [])).0
    ≡ sent 201 (booking_out "LKR" (booked "id-1" "MINE" 0 1 30 held))
unfolding holding
named_sent = refl

hold_lem_example :
    IsAnswer deps "LKR" (pos 0) named (world []) (hold deps "LKR" (pos 0) named (world []))
hold_lem_example = hold_lem deps "LKR" (pos 0) named (world []) IsExclusive-nil
