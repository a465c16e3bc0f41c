-- ===== src/App/Timetable/Window.antt =====
-- The trips that the timetable is expanded to.
use train_seat_booking_syste.Prelude.{
  ℕ, ◌+◌, ◌≤◌, ◌<◌, ◌≡◌, refl, sym, subst, true, String, pos, List, [], ◌∷◌, ◌++◌, map, Occurs, inl,
  inr, append-Occurs_inv, append-Occurs_left, append-Occurs_right, map-Occurs, map-Occurs_inv,
  arith,
}
use train_seat_booking_syste.Domain.Calendar.{Dates, parse_date, is_in, weekday, dates_from}
use train_seat_booking_syste.Domain.Calendar.Window.{
  IsServiceDay, dates_from_sound, dates_from_complete, service_dates-eq,
}
use train_seat_booking_syste.Domain.Errors.{ok, Result-cases}
use train_seat_booking_syste.Ports.{Trip}
use train_seat_booking_syste.App.Timetable.{
  ServicePattern, Timetable, materialize, trips_of_patterns,
}

module _ {F : Type 0} (dates : Dates) (timetable : Timetable F) (first window : ℕ) where
  -- A trip of a pattern on a day of the window on which it runs.
  abbrev pub IsScheduled : List ServicePattern → Trip F → Type 0
  IsScheduled patterns t =
      (pattern : ServicePattern) × Occurs pattern patterns
      × ((date : String) × IsServiceDay dates pattern.days_of_week first window date
          × (t ≡ materialize timetable pattern date))

module _ {F : Type 0} (dates : Dates) (timetable : Timetable F) (start : String) (first window : ℕ)
    (starts : parse_date dates start ≡ ok first) where
  trips_of_patterns-cons :
      (p : ServicePattern) (patterns : List ServicePattern) (trips : List (Trip F))
      → trips_of_patterns dates timetable start (pos window) (p ∷ patterns) ≡ ok trips
      → (rest : List (Trip F)) × (trips_of_patterns dates timetable start (pos window) patterns
          ≡ ok rest)
        × (map (materialize timetable p) (dates_from dates p.days_of_week first window) ++ rest
            ≡ trips)
  unfolding trips_of_patterns
  trips_of_patterns-cons p patterns trips e =
      let days = service_dates-eq dates p.days_of_week start first window starts in
      elim (Result-cases (trips_of_patterns dates timetable start (pos window) patterns)) [
        | inr (x, h) ↦ absurd (ground arith)
        | inl (rest, h) ↦ (rest, h, ground arith)
      ]

  pub trips_of_patterns_sound :
      (patterns : List ServicePattern) (trips : List (Trip F)) (t : Trip F)
      → trips_of_patterns dates timetable start (pos window) patterns ≡ ok trips
      → Occurs t trips
      → IsScheduled dates timetable first window patterns t
  unfolding trips_of_patterns
  trips_of_patterns_sound [] trips t e m =
      let s : trips ≡ [] = ground arith in absurd (subst (Occurs t) s m)
  trips_of_patterns_sound (p ∷ patterns) trips t e m =
      let (rest, h, s) = trips_of_patterns-cons p patterns trips e in
      let mine = map (materialize timetable p) (dates_from dates p.days_of_week first window) in
      elim (append-Occurs_inv t mine rest (subst (Occurs t) (sym s) m)) [
        | inl l ↦
            let (d, at, same) = map-Occurs_inv (materialize timetable p) t _ l in
            (p, inl refl, (d, dates_from_sound dates p.days_of_week first window d at, same))
        | inr r ↦
            let (q, at, made) = trips_of_patterns_sound patterns rest t h r in (q, inr at, made)
      ]

  pub trips_of_patterns_complete :
      (patterns : List ServicePattern) (trips : List (Trip F)) (p : ServicePattern) (n : ℕ)
      → trips_of_patterns dates timetable start (pos window) patterns ≡ ok trips
      → Occurs p patterns
      → first ≤ n
      → n < first + window
      → is_in (weekday n) p.days_of_week ≡ true
      → Occurs (materialize timetable p (dates.to_iso n)) trips
  trips_of_patterns_complete [] trips p n e m h k r = absurd m
  trips_of_patterns_complete (q ∷ patterns) trips p n e m h k r =
      let (rest, f, s) = trips_of_patterns-cons q patterns trips e in
      let mine = map (materialize timetable q) (dates_from dates q.days_of_week first window) in
      subst (Occurs (materialize timetable p (dates.to_iso n))) s (elim m [
        | inr j ↦
            append-Occurs_right _ mine rest (trips_of_patterns_complete patterns rest p n f j h k r)
        | inl same ↦ append-Occurs_left _ mine rest (
            subst (λ (u : ServicePattern). Occurs (materialize timetable u (dates.to_iso n)) mine)
              (sym same)
              (map-Occurs (materialize timetable q) (dates.to_iso n) _ (
                dates_from_complete dates q.days_of_week first window n h k (
                  subst (λ (u : ServicePattern). is_in (weekday n) u.days_of_week ≡ true) same r))))
      ])
