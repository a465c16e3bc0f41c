-- ===== src/Domain/Calendar/Window.antt =====
-- The dates that the seeder expands a pattern to, and the dates that can be booked.
use train_seat_booking_syste.Prelude.{
  ℕ, zero, suc, ◌+◌, ◌≤◌, ◌<◌, ◌≡◌, ◌==◌, sym, ap, subst, inl, inr, true, ◌&&◌, String, pos, ◌-ℤ◌,
  ltb_ℤ, leb_ℤ, List, ◌∷◌, Occurs, arith, Bool-cases,
}
use train_seat_booking_syste.Domain.Errors.{ok}
use train_seat_booking_syste.Domain.Calendar.{
  Dates, IsFaithful, end_of_dates, weekday, is_in, parse_date, days_between, runs_on, dates_from,
  service_dates, within_window,
}

module _ (dates : Dates) (days : List ℕ) where
  -- A day of the window on which the pattern runs.
  abbrev pub IsServiceDay : ℕ → ℕ → String → Type 0
  IsServiceDay first left d =
      (n : ℕ) × (first ≤ n)
      × (n < first + left)
      × (is_in (weekday n) days ≡ true)
      × (d ≡ dates.to_iso n)

  widen :
      (first left : ℕ) (d : String)
      → IsServiceDay (suc first) left d
      → IsServiceDay first (suc left) d
  widen first left d (n, h, k, e, same) = (n, omega arith, omega arith, e, same)

  pub dates_from_sound :
      (first left : ℕ) (d : String)
      → Occurs d (dates_from dates days first left)
      → IsServiceDay first left d
  unfolding dates_from
  dates_from_sound first zero d m = absurd m
  dates_from_sound first (suc left) d m = elim (Bool-cases (is_in (weekday first) days)) [
    | inl e ↦
        let m' : Occurs d (dates.to_iso first ∷ dates_from dates days (suc first) left) =
          rw e at m in
        elim m' [
          | inl s ↦ (first, omega arith, omega arith, e, s)
          | inr r ↦ widen first left d (dates_from_sound (suc first) left d r)
        ]
    | inr e ↦
        let m' : Occurs d (dates_from dates days (suc first) left) = rw e at m in
        widen first left d (dates_from_sound (suc first) left d m')
  ]

  pub dates_from_complete :
      (first left n : ℕ)
      → first ≤ n
      → n < first + left
      → is_in (weekday n) days ≡ true
      → Occurs (dates.to_iso n) (dates_from dates days first left)
  unfolding dates_from
  dates_from_complete first zero n h k e = absurd (omega arith)
  dates_from_complete first (suc left) n h k e = elim (Bool-cases (n == first)) [
    | inl t ↦
        let s : n ≡ first = ground arith in
        let e' : is_in (weekday first) days ≡ true =
          subst (λ x. is_in (weekday x) days ≡ true) s e in
        rw e' (inl (ap dates.to_iso s))
    | inr t ↦
        let m = dates_from_complete (suc first) left n (ground arith) (omega arith) e in
        elim (Bool-cases (is_in (weekday first) days)) [ inl e' ↦ rw e' (inr m) | inr e' ↦ rw e' m ]
  ]

pub service_dates-eq :
    (dates : Dates) (days : List ℕ) (start : String) (first window : ℕ)
    → parse_date dates start ≡ ok first
    → service_dates dates days start (pos window) ≡ ok (dates_from dates days first window)
unfolding service_dates
service_dates-eq dates days start first window p = ground arith

parse_date-to_iso :
    (dates : Dates) (n : ℕ)
    → IsFaithful dates
    → 0 < n
    → n < end_of_dates
    → parse_date dates (dates.to_iso n) ≡ ok n
unfolding parse_date
parse_date-to_iso dates n law h k = rw (law.read_back n h k)

runs_on-day :
    (dates : Dates) (days : List ℕ) (first window : ℕ) (d : String)
    → IsFaithful dates
    → 0 < first
    → first + window ≤ end_of_dates
    → IsServiceDay dates days first window d
    → runs_on dates days d ≡ ok true
unfolding runs_on
runs_on-day dates days first window d law low high (n, h, k, e, same) =
    rw (same, parse_date-to_iso dates n law (omega arith) (omega arith), e)

offset_fits :
    (first n window : ℕ)
    → first ≤ n
    → n < first + window
    → (leb_ℤ (pos 0) (pos n -ℤ pos first) && ltb_ℤ (pos n -ℤ pos first) (pos window)) ≡ true
unfolding ◌-ℤ◌
offset_fits first n window h k = ground arith

within_window-day :
    (dates : Dates) (days : List ℕ) (start : String) (first window : ℕ) (d : String)
    → IsFaithful dates
    → 0 < first
    → first + window ≤ end_of_dates
    → parse_date dates start ≡ ok first
    → IsServiceDay dates days first window d
    → within_window dates d start (pos window) ≡ ok true
unfolding within_window days_between
within_window-day dates days start first window d law low high p (n, h, k, e, same) =
    rw (same, parse_date-to_iso dates n law (omega arith) (omega arith), p)
      (ap ok (offset_fits first n window h k))

-- Over a calendar that reads back what it writes, for a window of `window` days from a date, no day
-- of it past the last date: the
-- seeder's `service_dates` lists exactly the dates of the window on whose weekday the pattern runs,
-- and every one of them `runs_on` accepts and `within_window` lets be booked on the first day.
pub service_dates_lem :
    (dates : Dates) (days : List ℕ) (start : String) (first window : ℕ) (listed : List String)
    → IsFaithful dates
    → 0 < first
    → first + window ≤ end_of_dates
    → parse_date dates start ≡ ok first
    → service_dates dates days start (pos window) ≡ ok listed
    → ((n : ℕ)
        → first ≤ n
        → n < first + window
        → is_in (weekday n) days ≡ true
        → Occurs (dates.to_iso n) listed)
      × ((d : String)
          → Occurs d listed
          → IsServiceDay dates days first window d
            × (runs_on dates days d ≡ ok true)
            × (within_window dates d start (pos window) ≡ ok true))
service_dates_lem dates days start first window listed law low high p e =
    let same = service_dates-eq dates days start first window p in
    let s : dates_from dates days first window ≡ listed = ground arith in
    (
      λ n h k r.
          subst (Occurs (dates.to_iso n)) s (dates_from_complete dates days first window n h k r),
      λ d m.
          let day = dates_from_sound dates days first window d (subst (Occurs d) (sym s) m) in
          (
            day,
            runs_on-day dates days first window d law low high day,
            within_window-day dates days start first window d law low high p day,
          ),
    )
