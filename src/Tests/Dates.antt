-- ===== src/Tests/Dates.antt =====
-- A calendar of tally marks, and the theorem about the window at an input.
use train_seat_booking_syste.Prelude.{
  ℕ, zero, suc, ◌+◌, ◌≤◌, ◌<◌, ◌≡◌, refl, true, String, ℤ, pos, ◌+ℤ◌, ◌-ℤ◌, some, [], ◌∷◌, Occurs,
  arith, ap,
}
use train_seat_booking_syste.Domain.Calendar.Shift.{shift_date_lem}
use train_seat_booking_syste.Domain.Calendar.Window.{IsServiceDay, service_dates_lem}
use train_seat_booking_syste.Domain.Calendar.{
  Dates, IsFaithful, weekday, is_in, parse_date, runs_on, dates_from, service_dates, within_window,
  days_between, shift_date, end_of_dates,
}
use train_seat_booking_syste.Domain.Errors.{ok}

abbrev pub tally : ℕ → String
tally zero = String.[]
tally (suc n) = String.◌∷◌ "|" (tally n)

abbrev pub marks : String → ℕ
marks String.[] = 0
marks (String.◌∷◌ c s) = suc (marks s)

abbrev pub dates : Dates
dates = record { from_iso = λ s. some (marks s); to_iso = tally }

marks-tally : (n : ℕ) → marks (tally n) ≡ n
marks-tally zero = refl
marks-tally (suc n) = omega (arith, marks-tally n)

dates-IsFaithful : IsFaithful dates
dates-IsFaithful = record { read_back = λ n h k. ap some (marks-tally n) }

-- Tuesdays and Thursdays of the week that starts on day 1, a Monday.
service_dates_lem_example :
    ((n : ℕ)
      → 1 ≤ n
      → n < 1 + 7
      → is_in (weekday n) (1 ∷ 3 ∷ []) ≡ true
      → Occurs (tally n) ("||" ∷ "||||" ∷ []))
    × ((d : String)
        → Occurs d ("||" ∷ "||||" ∷ [])
        → IsServiceDay dates (1 ∷ 3 ∷ []) 1 7 d
          × (runs_on dates (1 ∷ 3 ∷ []) d ≡ ok true)
          × (within_window dates d "|" (pos 7) ≡ ok true))
unfolding parse_date service_dates dates_from
service_dates_lem_example =
    service_dates_lem dates (1 ∷ 3 ∷ []) "|" 1 7 ("||" ∷ "||||" ∷ []) dates-IsFaithful (omega arith)
      (omega arith) refl refl

-- From day 2.
shift_date_lem_example :
    ((k : ℤ) (m : ℕ)
      → pos 2 +ℤ k ≡ pos m
      → 0 < m
      → m < end_of_dates
      → (e : String) × (e ≡ tally m)
        × (shift_date dates "||" k ≡ ok e)
        × (days_between dates "||" e ≡ ok k)
        × (shift_date dates e (pos 0 -ℤ k) ≡ ok (tally 2)))
    × ((e : String) (m : ℕ) (k : ℤ)
        → parse_date dates e ≡ ok m
        → days_between dates "||" e ≡ ok k
        → shift_date dates "||" k ≡ ok (tally m))
unfolding parse_date
shift_date_lem_example = shift_date_lem dates "||" 2 dates-IsFaithful refl
