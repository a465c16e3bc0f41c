-- ===== src/Tests/Impact.antt =====
-- The impact report of the sample.
use train_seat_booking_syste.Prelude.{
  ℕ, ◌≡◌, ◌≤◌, refl, pos, ◌+ℤ◌, ◌+◌, ◌-◌, ltb, [], ◌∷◌, arith, length,
}
use train_seat_booking_syste.Prelude.Dict.{Dict, lookup}
use train_seat_booking_syste.Domain.Packing.Depth.Greatest.{depth_at}
use train_seat_booking_syste.Domain.Packing.Depth.{events, sweep, min_seats}
use train_seat_booking_syste.Domain.Stations.{distance_km}
use train_seat_booking_syste.Domain.Values.{held, confirmed}
use train_seat_booking_syste.MemoryRepo.{active_holds}
use train_seat_booking_syste.Ports.{Hold}
use train_seat_booking_syste.Tests.Sample.{world, booked}
use train_seat_booking_syste.UseCases.ImpactReport.Outcome.{active_legs_of, impact_report_lem}
use train_seat_booking_syste.UseCases.ImpactReport.{
  Floats, ImpactReport, route_km, impact_from, report_of, read_legs, impact_report,
}
use train_seat_booking_syste.World.{with_uow, get_trip}

abbrev floats : Floats ℕ
floats = record { zero = 0; add = λ a b. a + b; sub = λ a b. a - b; ltb = ltb }

abbrev stored : Dict Hold
stored =
    ("id-1", booked "id-1" "SLR-1" 0 2 30 confirmed)
    ∷ ("id-2", booked "id-2" "SLR-2" 2 3 30 held)
    ∷ []

-- Two legs share one seat; a rigid booking would have kept 2 * 121 km.
abbrev report : ImpactReport ℕ
report = record {
  trip_id = "T:2026-07-01";
  active_legs = 2;
  seats_used = pos 1;
  seat_km_reclaimed = 121;
}

impact_report_lem_example :
    (m : ℕ) × ((impact_report floats "T:2026-07-01" (world stored)).1.store ≡ (world stored).store)
    × (2 ≡ length (active_legs_of (world stored) "T:2026-07-01"))
    × (pos 1 ≡ pos m)
    × ((x : ℕ) → depth_at x (active_legs_of (world stored) "T:2026-07-01") ≤ m)
    × ((x : ℕ) × (depth_at x (active_legs_of (world stored) "T:2026-07-01") ≡ m))
unfolding impact_report report_of route_km impact_from read_legs with_uow get_trip lookup
    active_holds distance_km min_seats sweep events ◌+ℤ◌
impact_report_lem_example =
    impact_report_lem floats "T:2026-07-01" (world stored) report (omega arith) refl
