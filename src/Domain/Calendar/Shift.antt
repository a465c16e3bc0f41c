-- ===== src/Domain/Calendar/Shift.antt =====
-- Dates moved by a number of days.
use train_seat_booking_syste.Prelude.{
  ℕ, ◌<◌, ◌≡◌, refl, String, ℤ, pos, negsuc, ◌+ℤ◌, ◌-ℤ◌, subst, arith,
}
use train_seat_booking_syste.Domain.Errors.{ok}
use train_seat_booking_syste.Domain.Calendar.{
  Dates, IsFaithful, end_of_dates, parse_date, days_between, shift_date,
}

-ℤ_of_sum : (n m : ℕ) (k : ℤ) → pos n +ℤ k ≡ pos m → pos m -ℤ pos n ≡ k
unfolding ◌+ℤ◌ ◌-ℤ◌
-ℤ_of_sum n m (pos k) e = ground arith
-ℤ_of_sum n m (negsuc k) e = ground arith

+ℤ_of_difference : (n m : ℕ) → pos n +ℤ (pos m -ℤ pos n) ≡ pos m
unfolding ◌+ℤ◌ ◌-ℤ◌
+ℤ_of_difference n m = ground arith

+ℤ_back : (n m : ℕ) (k : ℤ) → pos n +ℤ k ≡ pos m → pos m +ℤ (pos 0 -ℤ k) ≡ pos n
unfolding ◌+ℤ◌ ◌-ℤ◌
+ℤ_back n m (pos k) e = ground arith
+ℤ_back n m (negsuc k) e = ground arith

module _ (dates : Dates) where
  parse_to_iso :
      (m : ℕ)
      → IsFaithful dates
      → 0 < m
      → m < end_of_dates
      → parse_date dates (dates.to_iso m) ≡ ok m
  unfolding parse_date
  parse_to_iso m h a b = rw (h.read_back m a b) refl

  shift_date_of :
      (d : String) (n m : ℕ) (k : ℤ)
      → parse_date dates d ≡ ok n
      → pos n +ℤ k ≡ pos m
      → shift_date dates d k ≡ ok (dates.to_iso m)
  unfolding shift_date
  shift_date_of d n m k p e = rw p (rw e refl)

  days_between_of :
      (d e : String) (n m : ℕ)
      → parse_date dates d ≡ ok n
      → parse_date dates e ≡ ok m
      → days_between dates d e ≡ ok (pos m -ℤ pos n)
  unfolding days_between
  days_between_of d e n m p q = rw q (rw p refl)

-- For a calendar that reads back what it writes and a date that is read as day n: moved by k days
-- to a day m that the calendar has, it is the date of day m, the days from the first date to it are
-- k, and moved back by -k days it is the date of day n; and moved by the days between it and another
-- date it is that other date, as the calendar writes it.
pub shift_date_lem :
    (dates : Dates) (d : String) (n : ℕ)
    → IsFaithful dates
    → parse_date dates d ≡ ok n
    → ((k : ℤ) (m : ℕ)
        → pos n +ℤ k ≡ pos m
        → 0 < m
        → m < end_of_dates
        → (e : String) × (e ≡ dates.to_iso m)
          × (shift_date dates d k ≡ ok e)
          × (days_between dates d e ≡ ok k)
          × (shift_date dates e (pos 0 -ℤ k) ≡ ok (dates.to_iso n)))
      × ((e : String) (m : ℕ) (k : ℤ)
          → parse_date dates e ≡ ok m
          → days_between dates d e ≡ ok k
          → shift_date dates d k ≡ ok (dates.to_iso m))
shift_date_lem dates d n h p = (
  λ k m s a b.
      let q = parse_to_iso dates m h a b in
      (
        dates.to_iso m,
        refl,
        shift_date_of dates d n m k p s,
        subst (λ x. days_between dates d (dates.to_iso m) ≡ ok x) (-ℤ_of_sum n m k s)
            (days_between_of dates d (dates.to_iso m) n m p q),
        shift_date_of dates (dates.to_iso m) m n (pos 0 -ℤ k) q (+ℤ_back n m k s),
      ),
  λ e m k q t.
      let u = days_between_of dates d e n m p q in
      let same : pos m -ℤ pos n ≡ k = ground arith in
      shift_date_of dates d n m k p (subst (λ x. pos n +ℤ x ≡ pos m) same (+ℤ_of_difference n m)),
)
