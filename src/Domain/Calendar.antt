-- ===== src/Domain/Calendar.antt =====
-- backend/slr/domain/timetable.py: the rules on dates. The class `date` of Python's library is a
-- parameter: a date is its proleptic Gregorian ordinal, `fromisoformat` and `isoformat` read and
-- write it, and day 1 is a Monday. Dates outside the years 1 to 9999, where `date` overflows, are not
-- modelled.
pub mod Window
pub mod Shift
use train_seat_booking_syste.Prelude.{
  ℕ, zero, suc, ◌+◌, ◌/◌, ◌%◌, ◌<◌, ◌≡◌, Bool, ◌&&◌, String, ℤ, pos, negsuc, pos_part, ◌+ℤ◌, ◌-ℤ◌,
  ◌*ℤ◌, ltb_ℤ, leb_ℤ, Option, none, some, List, [], ◌∷◌, any, ◌==◌, if◌then◌else◌,
}
use train_seat_booking_syste.Domain.Errors.{Result, ok, err, invalid_service_date, ◌>>=◌}

pub record Dates : Type 0 where
  pub from_iso : String → Option ℕ
  pub to_iso : ℕ → String

-- the day after `date.max`, 9999-12-31
abbrev pub end_of_dates : ℕ
end_of_dates = 3652060

-- What `isoformat` writes of a date, `fromisoformat` reads back.
pub record IsFaithful (dates : Dates) : Type 0 where
  pub read_back : (n : ℕ) → 0 < n → n < end_of_dates → dates.from_iso (dates.to_iso n) ≡ some n

abbrev pub parsed : Option ℕ → Result ℕ
parsed none = err invalid_service_date
parsed (some n) = ok n

-- `d.weekday()`, with Monday as 0
abbrev pub weekday : ℕ → ℕ
weekday n = (n + 6) % 7

-- the quotient by 86400, rounded down
abbrev pub floor_days : ℤ → ℤ
floor_days (pos n) = pos (n / 86400)
floor_days (negsuc n) = negsuc (n / 86400)

abbrev pub is_in : ℕ → List ℕ → Bool
is_in n days = any (λ d. d == n) days

module _ (dates : Dates) where
  unfoldable pub parse_date : String → Result ℕ
  parse_date service_date = parsed (dates.from_iso service_date)

  unfoldable pub shift_date : String → ℤ → Result String
  shift_date service_date days = do
    day ← parse_date service_date
    ok (dates.to_iso (pos_part (pos day +ℤ days)))

  unfoldable pub days_between : String → String → Result ℤ
  days_between start_date end_date = do
    end ← parse_date end_date
    start ← parse_date start_date
    ok (pos end -ℤ pos start)

  unfoldable pub runs_on : List ℕ → String → Result Bool
  runs_on days_of_week service_date = do
    day ← parse_date service_date
    ok (is_in (weekday day) days_of_week)

  -- The comprehension of `service_dates`, from day `first` on.
  unfoldable pub dates_from : List ℕ → ℕ → ℕ → List String
  dates_from days_of_week first zero = []
  dates_from days_of_week first (suc left) =
      let rest = dates_from days_of_week (suc first) left in
      if is_in (weekday first) days_of_week then dates.to_iso first ∷ rest else rest

  unfoldable pub service_dates : List ℕ → String → ℤ → Result (List String)
  service_dates days_of_week start_date window_days =
      if ltb_ℤ window_days (pos 0) then err invalid_service_date else do
        first ← parse_date start_date
        ok (dates_from days_of_week first (pos_part window_days))

  unfoldable pub within_window : String → String → ℤ → Result Bool
  within_window service_date today window_days = do
    offset ← days_between today service_date
    ok (leb_ℤ (pos 0) offset && ltb_ℤ offset window_days)

  -- `date_from_epoch`: whole days since 1970-01-01, which is day 719163, at the local time.
  unfoldable pub date_from_epoch : ℤ → ℤ → String
  date_from_epoch epoch utc_offset_minutes =
      dates.to_iso (pos_part (pos 719163 +ℤ floor_days (epoch +ℤ (utc_offset_minutes *ℤ pos 60))))
