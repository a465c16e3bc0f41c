-- ===== src/UseCases/SearchTrains/Search.antt =====
-- backend/slr/usecases/search_trains.py as a whole, with `find_by_date` of
-- backend/slr/adapters/memory_repo.py. Texts are compared by their code points.
pub mod Complete
pub mod Order
use Prim.Native.Char.{code}
use Prim.Native.String
use train_seat_booking_syste.Prelude.{
  ℕ, Bool, true, false, ◌&&◌, ◌||◌, String, ℤ, List, [], ◌∷◌, map, select, str_eq, bool_not, ltb,
  ◌==◌, if◌then◌else◌,
}
use train_seat_booking_syste.Prelude.Dict.{Dict, values}
use train_seat_booking_syste.Prelude.Sorting.{sort}
use train_seat_booking_syste.Domain.Calendar.{Dates, parse_date, within_window, date_from_epoch}
use train_seat_booking_syste.Domain.Errors
use train_seat_booking_syste.Domain.Errors.{
  Result, ok, err, invalid_leg, invalid_service_date, raise_if,
}
use train_seat_booking_syste.Domain.Timetable.{departure_min}
use train_seat_booking_syste.Ports.{Hold, Trip, Deps}
use train_seat_booking_syste.UseCases.SearchTrains.{TrainOption, options_of}
use train_seat_booking_syste.UseCases.Support.{booking_window_days, utc_offset_minutes}
use train_seat_booking_syste.World.{
  World, Exec, pure, lift, ◌>>=◌, ◌>>◌, with_uow, commit, gets_holds, expire_due,
}

abbrev pub leb_text : String → String → Bool
leb_text String.[] t = true
leb_text (String.◌∷◌ c s) String.[] = false
leb_text (String.◌∷◌ c s) (String.◌∷◌ d t) =
    ltb (code c) (code d) || code c == code d && leb_text s t

-- A trip with the first part of its sort key.
pub record Departure (F : Type 0) : Type 0 where
  pub minute : ℕ
  pub trip : Trip F

module _ {F : Type 0} where
  abbrev pub leb_departure : Departure F → Departure F → Bool
  leb_departure a b =
      ltb a.minute b.minute || a.minute == b.minute && leb_text a.trip.trip_id b.trip.trip_id

  -- The keys are computed before anything is compared.
  unfoldable pub departures_of : List (Trip F) → Result (List (Departure F))
  departures_of [] = ok []
  departures_of (trip ∷ trips) = Errors.◌>>=◌ (departure_min trip.stops) (λ minute.
      Errors.◌>>=◌ (departures_of trips)
        (λ rest. ok (record { minute = minute; trip = trip } ∷ rest)))

  abbrev pub trips_on : Dict (Trip F) → String → List (Trip F)
  trips_on trips service_date = select (λ t. str_eq t.service_date service_date) (values trips)

  abbrev pub trips_of : List (Departure F) → List (Trip F)
  trips_of = map (λ d. d.trip)

  unfoldable pub find_by_date : Dict (Trip F) → String → Result (List (Trip F))
  find_by_date trips service_date =
      Errors.◌>>=◌ (departures_of (trips_on trips service_date))
        (λ departures. ok (trips_of (sort leb_departure departures)))

  abbrev pub trips_found : String → Exec F (List (Trip F))
  trips_found service_date w = (find_by_date w.store.trips service_date, w)

  -- the `with` block
  unfoldable pub search_body : Deps F → ℤ → String → String → String → Exec F (List (TrainOption F))
  search_body deps now origin_code dest_code service_date = do
    expire_due now
    trips ← trips_found service_date
    holds ← gets_holds (λ d. d)
    options ← lift (options_of deps holds origin_code dest_code trips)
    commit
    pure options

  -- the checks before the `with` block
  unfoldable pub check_search : Deps F → Dates → ℤ → String → String → String → Result (Unit {0})
  check_search deps dates now origin_code dest_code service_date =
      Errors.◌>>=◌ (parse_date dates service_date) (λ day.
        Errors.◌>>◌ (raise_if (str_eq origin_code dest_code) invalid_leg) (
          Errors.◌>>=◌ (deps.get_int utc_offset_minutes) (λ offset.
            Errors.◌>>=◌ (deps.get_int booking_window_days) (λ window.
              Errors.◌>>=◌
                (within_window dates service_date (date_from_epoch dates now offset) window)
                (λ bookable. raise_if (bool_not bookable) invalid_service_date)))))

  unfoldable pub search_trains :
      Deps F → Dates → ℤ → String → String → String → Exec F (List (TrainOption F))
  search_trains deps dates now origin_code dest_code service_date = do
    lift (check_search deps dates now origin_code dest_code service_date)
    with_uow (search_body deps now origin_code dest_code service_date)
