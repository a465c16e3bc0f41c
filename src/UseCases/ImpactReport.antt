-- ===== src/UseCases/ImpactReport.antt =====
-- backend/slr/usecases/impact_report.py, with `impact_seat_km` of backend/slr/domain/packing.py. The
-- operations of Python's float that they use are parameters; `zero` is where `sum` starts.
pub mod Outcome
use train_seat_booking_syste.Prelude.{
  ℕ, Bool, String, ℤ, Option, List, [], ◌∷◌, map, length, if◌then◌else◌,
}
use train_seat_booking_syste.Domain.Errors
use train_seat_booking_syste.Domain.Errors.{Result, ok, err, value_error}
use train_seat_booking_syste.Domain.Packing.Depth.{min_seats}
use train_seat_booking_syste.Domain.Stations.{Station, Leg, distance_km}
use train_seat_booking_syste.MemoryRepo
use train_seat_booking_syste.Ports.{Hold, Trip}
use train_seat_booking_syste.World.{World, Exec, pure, lift, ◌>>=◌, with_uow, trip_of, gets_holds}

pub record Floats (F : Type 0) : Type 0 where
  pub zero : F
  pub add : F → F → F
  pub sub : F → F → F
  pub ltb : F → F → Bool

pub record ImpactReport (F : Type 0) : Type 0 where
  pub trip_id : String
  pub active_legs : ℕ
  pub seats_used : ℤ
  pub seat_km_reclaimed : F

abbrev pub legs_of : List Hold → List Leg
legs_of = map (λ h. h.leg)

-- the `with` block
unfoldable pub read_legs : {F : Type 0} → String → Exec F (Trip F × List Leg)
read_legs trip_id = do
  trip ← trip_of trip_id
  holds ← gets_holds (λ d. MemoryRepo.active_holds d trip_id)
  pure (trip, legs_of holds)

module _ {F : Type 0} (floats : Floats F) where
  abbrev pub greatest_km : F → List F → F
  greatest_km m [] = m
  greatest_km m (k ∷ ks) = greatest_km (if floats.ltb m k then k else m) ks

  abbrev pub least_km : F → List F → F
  least_km m [] = m
  least_km m (k ∷ ks) = least_km (if floats.ltb k m then k else m) ks

  -- `max(kms) - min(kms)`
  unfoldable pub route_km : List F → Result F
  route_km [] = err value_error
  route_km (k ∷ ks) = ok (floats.sub (greatest_km k ks) (least_km k ks))

  -- the `sum` of `impact_seat_km`, from the sum so far
  unfoldable pub impact_from : F → List (Station F) → F → List Leg → Result F
  impact_from total stations route [] = ok total
  impact_from total stations route (l ∷ legs) =
      Errors.◌>>=◌ (distance_km floats.sub stations l)
        (λ km. impact_from (floats.add total (floats.sub route km)) stations route legs)

  unfoldable pub report_of : String → Trip F → List Leg → Result (ImpactReport F)
  report_of trip_id trip legs = Errors.◌>>=◌ (route_km (map (λ s. s.km) trip.stations)) (λ route.
      Errors.◌>>=◌ (impact_from floats.zero trip.stations route legs) (λ km. ok (record {
        trip_id = trip_id;
        active_legs = length legs;
        seats_used = min_seats legs;
        seat_km_reclaimed = km;
      })))

  -- The report is made after the `with` block, which commits nothing.
  unfoldable pub impact_report : String → Exec F (ImpactReport F)
  impact_report trip_id = do
    (trip, legs) ← with_uow (read_legs trip_id)
    lift (report_of trip_id trip legs)
