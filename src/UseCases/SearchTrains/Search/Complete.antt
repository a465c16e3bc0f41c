-- ===== src/UseCases/SearchTrains/Search/Complete.antt =====
-- A search lists the trains of the day that serve the journey, and no others.
use train_seat_booking_syste.Prelude.{
  ◌≡◌, refl, sym, ap, subst, inl, inr, String, ℤ, Option, none, some, List, [], ◌∷◌, Occurs, arith,
}
use train_seat_booking_syste.Prelude.Dict.{Dict}
use train_seat_booking_syste.Prelude.Sorting.{sort, sort-Occurs, sort-Occurs_inv}
use train_seat_booking_syste.Domain.Calendar.{Dates}
use train_seat_booking_syste.Domain.Errors.{ok, Result-cases}
use train_seat_booking_syste.Domain.Timetable.{departure_min}
use train_seat_booking_syste.MemoryRepo
use train_seat_booking_syste.Ports.{Hold, Trip, Deps}
use train_seat_booking_syste.UseCases.SearchTrains.Search.{
  Departure, leb_departure, departures_of, trips_on, trips_of, find_by_date, search_body,
  check_search, search_trains,
}
use train_seat_booking_syste.UseCases.SearchTrains.{
  TrainOption, append_some, option_for, options_of,
}
use train_seat_booking_syste.World.{World, with_uow}

module _ {F : Type 0} where
  departures_of_sound :
      (trips : List (Trip F)) (ds : List (Departure F)) (d : Departure F)
      → departures_of trips ≡ ok ds
      → Occurs d ds
      → Occurs d.trip trips
  unfolding departures_of
  departures_of_sound [] ds d e m = let s : ds ≡ [] = ground arith in subst (Occurs d) s m
  departures_of_sound (t ∷ trips) ds d e m = elim (Result-cases (departure_min t.stops)) [
    | inr (x, h) ↦ ground arith
    | inl (minute, h) ↦ elim (Result-cases (departures_of trips)) [
      | inr (x, k) ↦ ground arith
      | inl (rest, k) ↦
          let s : ds ≡ record { minute = minute; trip = t } ∷ rest = ground arith in
          elim (subst (Occurs d) s m) [
            | inl same ↦ inl (ap (λ (u : Departure F). u.trip) same)
            | inr j ↦ inr (departures_of_sound trips rest d k j)
          ]
    ]
  ]

  departures_of_complete :
      (trips : List (Trip F)) (ds : List (Departure F)) (t : Trip F)
      → departures_of trips ≡ ok ds
      → Occurs t trips
      → (d : Departure F) × Occurs d ds × (t ≡ d.trip)
  unfolding departures_of
  departures_of_complete [] ds t e m = absurd m
  departures_of_complete (u ∷ trips) ds t e m = elim (Result-cases (departure_min u.stops)) [
    | inr (x, h) ↦ absurd (ground arith)
    | inl (minute, h) ↦ elim (Result-cases (departures_of trips)) [
      | inr (x, k) ↦ absurd (ground arith)
      | inl (rest, k) ↦
          let s : record { minute = minute; trip = u } ∷ rest ≡ ds = ground arith in
          elim m [
            | inl same ↦ (record { minute = minute; trip = u }, subst (Occurs _) s (inl refl), same)
            | inr j ↦
                let (d, at, same) = departures_of_complete trips rest t k j in
                (d, subst (Occurs d) s (inr at), same)
          ]
    ]
  ]

  trips_of_sound :
      (ds : List (Departure F)) (t : Trip F)
      → Occurs t (trips_of ds)
      → (d : Departure F) × Occurs d ds × (t ≡ d.trip)
  trips_of_sound [] t m = absurd m
  trips_of_sound (d ∷ ds) t (inl e) = (d, inl refl, e)
  trips_of_sound (d ∷ ds) t (inr m) = let (u, at, e) = trips_of_sound ds t m in (u, inr at, e)

  trips_of_complete :
      (ds : List (Departure F)) (d : Departure F) → Occurs d ds → Occurs d.trip (trips_of ds)
  trips_of_complete [] d m = absurd m
  trips_of_complete (u ∷ ds) d (inl e) = inl (ap (λ (v : Departure F). v.trip) e)
  trips_of_complete (u ∷ ds) d (inr m) = inr (trips_of_complete ds d m)

  find_by_date_lem :
      (trips : Dict (Trip F)) (date : String) (found : List (Trip F)) (t : Trip F)
      → find_by_date trips date ≡ ok found
      → (Occurs t found → Occurs t (trips_on trips date))
        × (Occurs t (trips_on trips date) → Occurs t found)
  unfolding find_by_date
  find_by_date_lem trips date found t e =
      elim (Result-cases (departures_of (trips_on trips date))) [
        | inr (x, h) ↦ absurd (ground arith)
        | inl (ds, h) ↦
            let s : trips_of (sort leb_departure ds) ≡ found = ground arith in
            (
              λ m.
                  let (d, at, same) =
                    trips_of_sound (sort leb_departure ds) t (subst (Occurs t) (sym s) m) in
                  rw same (
                    departures_of_sound (trips_on trips date) ds d h
                      (sort-Occurs_inv leb_departure d ds at)),
              λ m.
                  let (d, at, same) = departures_of_complete (trips_on trips date) ds t h m in
                  subst (Occurs t) s (
                    rw same (
                      trips_of_complete (sort leb_departure ds) d
                        (sort-Occurs leb_departure d ds at))),
            )
      ]

  module _ (deps : Deps F) (holds : Dict Hold) (origin_code dest_code : String) where
    options_of_sound :
        (trips : List (Trip F)) (options : List (TrainOption F)) (o : TrainOption F)
        → options_of deps holds origin_code dest_code trips ≡ ok options
        → Occurs o options
        → (t : Trip F) × Occurs t trips
          × (option_for deps holds t origin_code dest_code ≡ ok (some o))
    unfolding options_of
    options_of_sound [] options o e m =
        let s : options ≡ [] = ground arith in absurd (subst (Occurs o) s m)
    options_of_sound (t ∷ trips) options o e m =
        elim (Result-cases (option_for deps holds t origin_code dest_code)) [
          | inr (x, h) ↦ absurd (ground arith)
          | inl (found, h) ↦
              elim (Result-cases (options_of deps holds origin_code dest_code trips)) [
                | inr (x, k) ↦ absurd (ground arith)
                | inl (rest, k) ↦
                    let s : options ≡ append_some found rest = ground arith in
                    pick t trips found rest o h (options_of_sound trips rest o k)
                      (subst (Occurs o) s m)
              ]
        ]
      where
        pick :
            (t : Trip F) (trips : List (Trip F)) (found : Option (TrainOption F))
            (rest : List (TrainOption F)) (o : TrainOption F)
            → option_for deps holds t origin_code dest_code ≡ ok found
            → (Occurs o rest
                → (t : Trip F) × Occurs t trips
                  × (option_for deps holds t origin_code dest_code ≡ ok (some o)))
            → Occurs o (append_some found rest)
            → (u : Trip F) × Occurs u (t ∷ trips)
              × (option_for deps holds u origin_code dest_code ≡ ok (some o))
        pick t trips none rest o h ih m = let (u, at, e) = ih m in (u, inr at, e)
        pick t trips (some p) rest o h ih (inl same) = (t, inl refl, rw same h)
        pick t trips (some p) rest o h ih (inr m) = let (u, at, e) = ih m in (u, inr at, e)

    append_some-Occurs :
        (found : Option (TrainOption F)) (rest : List (TrainOption F)) (o : TrainOption F)
        → Occurs o rest
        → Occurs o (append_some found rest)
    append_some-Occurs none rest o m = m
    append_some-Occurs (some p) rest o m = inr m

    options_of_complete :
        (trips : List (Trip F)) (options : List (TrainOption F)) (o : TrainOption F) (t : Trip F)
        → options_of deps holds origin_code dest_code trips ≡ ok options
        → Occurs t trips
        → option_for deps holds t origin_code dest_code ≡ ok (some o)
        → Occurs o options
    unfolding options_of
    options_of_complete [] options o t e m f = absurd m
    options_of_complete (u ∷ trips) options o t e m f =
        elim (Result-cases (option_for deps holds u origin_code dest_code)) [
          | inr (x, h) ↦ absurd (ground arith)
          | inl (found, h) ↦
              elim (Result-cases (options_of deps holds origin_code dest_code trips)) [
                | inr (x, k) ↦ absurd (ground arith)
                | inl (rest, k) ↦
                    let s : append_some found rest ≡ options = ground arith in
                    subst (Occurs o) s (elim m [
                      | inl same ↦
                          let is_found : found ≡ some o = ground arith in rw is_found (inl refl)
                      | inr j ↦
                          append_some-Occurs found rest o (options_of_complete trips rest o t k j f)
                    ])
              ]
        ]

  abbrev pub holds_after : World F → ℤ → Dict Hold
  holds_after w now = (MemoryRepo.expire_due w.store.holds now).1

  search_trains-parts :
      (deps : Deps F) (dates : Dates) (now : ℤ) (origin_code dest_code date : String) (w : World F)
      (options : List (TrainOption F))
      → (search_trains deps dates now origin_code dest_code date w).0 ≡ ok options
      → (found : List (Trip F)) × (find_by_date w.store.trips date ≡ ok found)
        × (options_of deps (holds_after w now) origin_code dest_code found ≡ ok options)
        × (check_search deps dates now origin_code dest_code date ≡ ok tt)
        × ((search_trains deps dates now origin_code dest_code date w).1.store.holds
            ≡ holds_after w now)
        × ((search_trains deps dates now origin_code dest_code date w).1.store.trips
            ≡ w.store.trips)
  unfolding search_trains search_body with_uow
  search_trains-parts deps dates now origin_code dest_code date w options e =
      elim (Result-cases (check_search deps dates now origin_code dest_code date)) [
        | inr (x, c) ↦ absurd (ground arith)
        | inl (u, c) ↦ elim (Result-cases (find_by_date w.store.trips date)) [
          | inr (x, f) ↦ absurd (ground arith)
          | inl (found, f) ↦
              elim (Result-cases
                (options_of deps (holds_after w now) origin_code dest_code found)) [
                  | inr (x, o) ↦ absurd (ground arith)
                  | inl (listed, o) ↦ (found, f, ground arith, c, ground arith, ground arith)
                ]
        ]
      ]

-- A search that returns has passed the checks on the date and the stations, and lists an option
-- exactly where a stored trip of the date serves the journey, as the options are made while the
-- overdue holds are expired. It leaves the store with those holds expired, and the trips as they were.
pub search_trains_lem :
    {F : Type 0} (deps : Deps F) (dates : Dates) (now : ℤ) (origin_code dest_code date : String)
    (w : World F) (options : List (TrainOption F))
    → (search_trains deps dates now origin_code dest_code date w).0 ≡ ok options
    → (check_search deps dates now origin_code dest_code date ≡ ok tt)
      × ((o : TrainOption F)
          → Occurs o options
          → (t : Trip F) × Occurs t (trips_on w.store.trips date)
            × (option_for deps (holds_after w now) t origin_code dest_code ≡ ok (some o)))
      × ((o : TrainOption F) (t : Trip F)
          → Occurs t (trips_on w.store.trips date)
          → option_for deps (holds_after w now) t origin_code dest_code ≡ ok (some o)
          → Occurs o options)
      × ((search_trains deps dates now origin_code dest_code date w).1.store.holds
          ≡ holds_after w now)
      × ((search_trains deps dates now origin_code dest_code date w).1.store.trips ≡ w.store.trips)
search_trains_lem deps dates now origin_code dest_code date w options e =
    let (found, f, listed, c, holds, trips) =
      search_trains-parts deps dates now origin_code dest_code date w options e in
    (
      c,
      λ o m.
          let (t, at, made) =
            options_of_sound deps (holds_after w now) origin_code dest_code found options o listed
              m in
          (t, (find_by_date_lem w.store.trips date found t f).0 at, made),
      λ o t at made.
          options_of_complete deps (holds_after w now) origin_code dest_code found options o t
            listed ((find_by_date_lem w.store.trips date found t f).1 at) made,
      holds,
      trips,
    )
