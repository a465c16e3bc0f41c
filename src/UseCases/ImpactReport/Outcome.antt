-- ===== src/UseCases/ImpactReport/Outcome.antt =====
-- What an impact report says, and that making it changes nothing.
use train_seat_booking_syste.Prelude.{
  ℕ, ◌≡◌, ◌≤◌, ◌∙◌, String, pos, List, length, All, arith, inl, inr,
}
use train_seat_booking_syste.Domain.Errors.{ok, Result-cases}
use train_seat_booking_syste.Domain.Packing.Depth.Greatest.{depth_at, min_seats-greatest}
use train_seat_booking_syste.Domain.Packing.Depth.{min_seats}
use train_seat_booking_syste.Domain.Stations.{Leg, IsForward}
use train_seat_booking_syste.MemoryRepo.{active_holds}
use train_seat_booking_syste.Ports.{Trip}
use train_seat_booking_syste.UseCases.ImpactReport.{
  Floats, ImpactReport, report_of, legs_of, read_legs, impact_report,
}
use train_seat_booking_syste.World.{World, with_uow, get_trip}

abbrev pub active_legs_of : {F : Type 0} → World F → String → List Leg
active_legs_of w trip_id = legs_of (active_holds w.store.holds trip_id)

module _ {F : Type 0} (floats : Floats F) (trip_id : String) (w : World F) where
  report_of-legs :
      (trip : Trip F) (legs : List Leg) (report : ImpactReport F)
      → report_of floats trip_id trip legs ≡ ok report
      → (report.seats_used ≡ min_seats legs)
        × (report.active_legs ≡ length legs)
        × (report.trip_id ≡ trip_id)
  unfolding report_of
  report_of-legs trip legs report e = ground arith

  impact_report-store : (impact_report floats trip_id w).1.store ≡ w.store
  unfolding impact_report read_legs with_uow
  impact_report-store = ground arith

  impact_report-legs :
      (report : ImpactReport F)
      → (impact_report floats trip_id w).0 ≡ ok report
      → (trip : Trip F) × (report_of floats trip_id trip (active_legs_of w trip_id) ≡ ok report)
  unfolding impact_report read_legs with_uow
  impact_report-legs report e = elim (Result-cases (get_trip w.store.trips trip_id)) [
    | inr (x, h) ↦ ground arith
    | inl (trip, h) ↦ (trip, ground arith)
  ]

-- An impact report of a trip whose active legs run forward counts those legs, and the seats that it
-- says are used are the largest number of them over one position: no position has more, and some
-- position has as many. Whatever happens, the store stays as it was.
pub impact_report_lem :
    {F : Type 0} (floats : Floats F) (trip_id : String) (w : World F) (report : ImpactReport F)
    → All IsForward (active_legs_of w trip_id)
    → (impact_report floats trip_id w).0 ≡ ok report
    → (m : ℕ) × ((impact_report floats trip_id w).1.store ≡ w.store)
      × (report.active_legs ≡ length (active_legs_of w trip_id))
      × (report.seats_used ≡ pos m)
      × ((x : ℕ) → depth_at x (active_legs_of w trip_id) ≤ m)
      × ((x : ℕ) × (depth_at x (active_legs_of w trip_id) ≡ m))
impact_report_lem floats trip_id w report f e =
    let legs = active_legs_of w trip_id in
    let (trip, made) = impact_report-legs floats trip_id w report e in
    let (seats, count, _) = report_of-legs floats trip_id w trip legs report made in
    let (m, same, bound, position) = min_seats-greatest legs f in
    (m, impact_report-store floats trip_id w, count, seats ∙ same, bound, position)
