-- ===== src/Domain/Timetable.antt =====
-- backend/slr/domain/timetable.py: calls of a train, and the times of a leg.
pub mod Parse
use train_seat_booking_syste.Prelude.{
  ℕ, String, ◌/◌, ◌%◌, ◌≡◌, ◌↔◌, inl, inr, Bool, false, ◌&&◌, ℤ, pos, ◌-ℤ◌, negsuc, Option, none,
  some, List, [], ◌∷◌, arith, ltb, ◌==◌, find, Option-cases, if◌then◌else◌, is_some,
}
use train_seat_booking_syste.Prelude.Digits.{two_by_two}
use train_seat_booking_syste.Domain.Errors.{
  Result, ok, err, is_ok, invalid_leg, invalid_service_date,
}
use train_seat_booking_syste.Domain.Stations.{Leg}

-- Times are minutes from the midnight of the service date.
pub record Stop : Type 0 where
  pub station_seq : ℕ
  pub arrive_min : Option ℕ
  pub depart_min : Option ℕ

-- `Stop(seq, arrive, depart)` with the checks of `__post_init__`.
unfoldable pub make_stop : ℤ → Option ℕ → Option ℕ → Result Stop
make_stop (negsuc n) arrive depart = err invalid_service_date
make_stop (pos seq) none none = err invalid_service_date
make_stop (pos seq) arrive depart =
    ok (record { station_seq = seq; arrive_min = arrive; depart_min = depart })

pub record LegTimes : Type 0 where
  pub depart_min : ℕ
  pub arrive_min : ℕ

-- `times.duration_min`: nothing forces the arrival to be the later one, so it has a sign.
abbrev pub duration_min : LegTimes → ℤ
duration_min t = pos t.arrive_min -ℤ pos t.depart_min

-- `format_hhmm(minutes)`
unfoldable pub format_hhmm : ℕ → String
unfolding two_by_two
format_hhmm minutes = two_by_two (minutes % 1440 / 60) (minutes % 1440 % 60)

unfoldable pub stop_at : List Stop → ℕ → Option Stop
stop_at stops seq = find (λ s. s.station_seq == seq) stops

departures : List Stop → List ℕ
departures [] = []
departures (s ∷ rest) = elim s.depart_min [ some t ↦ t ∷ departures rest | none ↦ departures rest ]

least : ℕ → List ℕ → ℕ
least m [] = m
least m (t ∷ ts) = least (if ltb t m then t else m) ts

least_or_raise : List ℕ → Result ℕ
least_or_raise [] = err invalid_service_date
least_or_raise (t ∷ ts) = ok (least t ts)

-- `departure_min(stops)`
unfoldable pub departure_min : List Stop → Result ℕ
unfolding departures least least_or_raise
departure_min stops = least_or_raise (departures stops)

unfoldable pub serves : List Stop → Leg → Bool
serves stops l = elim (stop_at stops l.origin_seq) [
  | none ↦ false
  | some origin ↦ elim (stop_at stops l.dest_seq) [
    | none ↦ false
    | some dest ↦ is_some origin.depart_min && is_some dest.arrive_min
  ]
]

times_of : Option ℕ → Option ℕ → Result LegTimes
times_of (some d) (some a) = ok (record { depart_min = d; arrive_min = a })
times_of _ _ = err invalid_leg

unfoldable pub leg_times : List Stop → Leg → Result LegTimes
unfolding times_of
leg_times stops l = elim (stop_at stops l.origin_seq) [
  | none ↦ err invalid_leg
  | some origin ↦ elim (stop_at stops l.dest_seq) [
    | none ↦ err invalid_leg
    | some dest ↦ times_of origin.depart_min dest.arrive_min
  ]
]

-- `leg_times` returns exactly where `serves` holds, and raises InvalidLeg everywhere else.
pub is_ok-leg_times :
    (stops : List Stop) (l : Leg)
    → (is_ok (leg_times stops l) ≡ serves stops l)
      × ((leg_times stops l ≡ err invalid_leg) ↔ (serves stops l ≡ false))
unfolding leg_times serves
is_ok-leg_times stops l = (ground arith, (λ h. ground arith, λ h. ground arith))

-- The times of a leg are the departure at the first stop of its origin and the arrival at the first
-- stop of its destination.
leg_times_lem :
    (stops : List Stop) (l : Leg) (t : LegTimes)
    → leg_times stops l ≡ ok t
    → (o : Stop) × (d : Stop) × (stop_at stops l.origin_seq ≡ some o)
      × (stop_at stops l.dest_seq ≡ some d)
      × (o.depart_min ≡ some t.depart_min)
      × (d.arrive_min ≡ some t.arrive_min)
unfolding leg_times
leg_times_lem stops l t h = elim (Option-cases (stop_at stops l.origin_seq)) [
  | inl e ↦ ground arith
  | inr (o, e) ↦ elim (Option-cases (stop_at stops l.dest_seq)) [
    | inl e' ↦ ground arith
    | inr (d, e') ↦ (o, d, e, e', ground arith, ground arith)
  ]
]
