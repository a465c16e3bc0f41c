-- ===== src/Domain/Timetable/Parse.antt =====
-- backend/slr/domain/timetable.py: the day codes and the times of the configuration file,
-- and the identifier of a trip.
pub mod Clock
pub mod Days
use Prim.Native.Char.{code}
use Prim.Native.String
use train_seat_booking_syste.Prelude.{
  ℕ, suc, ◌+◌, ◌*◌, ◌<◌, ◌==◌, Bool, true, false, ◌&&◌, String, ℤ, pos, pos_part, leb_ℤ, ltb_ℤ,
  Option, none, some, List, [], ◌∷◌, str_eq, any, if◌then◌else◌,
}
use train_seat_booking_syste.Prelude.Digits.{concat}
use train_seat_booking_syste.Prelude.Text.{strip, split_once, int_of, upper}
use train_seat_booking_syste.Domain.Errors.{Result, ok, err, invalid_service_date, ◌>>=◌}

-- `DAY_CODES`
abbrev pub day_codes : List String
day_codes = "MON" ∷ "TUE" ∷ "WED" ∷ "THU" ∷ "FRI" ∷ "SAT" ∷ "SUN" ∷ []

-- `DAY_CODES.index(upper)`, counted from `n`
abbrev pub index_from : ℕ → String → List String → Option ℕ
index_from n day [] = none
index_from n day (c ∷ rest) = if str_eq c day then some n else index_from (suc n) day rest

unfoldable pub day_index : String → Option ℕ
day_index day = index_from 0 (upper (strip day)) day_codes

-- `days.add(n)`
abbrev pub add_day : ℕ → List ℕ → List ℕ
add_day n days = if any (λ d. d == n) days then days else n ∷ days

abbrev pub add_index : Option ℕ → List ℕ → Result (List ℕ)
add_index none days = err invalid_service_date
add_index (some n) days = ok (add_day n days)

-- The loop of `parse_days`, from a set of days on.
unfoldable pub days_from : List ℕ → List String → Result (List ℕ)
days_from days [] = ok days
days_from days (c ∷ codes) = add_index (day_index c) days >>= λ more. days_from more codes

abbrev pub some_day : List ℕ → Result (List ℕ)
some_day [] = err invalid_service_date
some_day (d ∷ days) = ok (d ∷ days)

unfoldable pub parse_days : List String → Result (List ℕ)
parse_days codes = days_from [] codes >>= some_day

-- `while text.startswith("+")`
unfoldable pub strip_days : ℕ → String → ℕ × String
strip_days day_offset String.[] = (day_offset, String.[])
strip_days day_offset (String.◌∷◌ c s) = elim (code c == b'+') [
  | true ↦ strip_days (suc day_offset) s
  | false ↦ (day_offset, String.◌∷◌ c s)
]

-- both parts by `int`; a text without a colon cannot be unpacked
abbrev pub int_pair : Option ℤ → Option ℤ → Option (ℤ × ℤ)
int_pair (some h) (some m) = some (h, m)
int_pair _ _ = none

abbrev pub int_parts : Option (String × String) → Option (ℤ × ℤ)
int_parts none = none
int_parts (some (h, m)) = int_pair (int_of h) (int_of m)

abbrev pub minutes_of : ℕ → Option (ℤ × ℤ) → Result ℕ
minutes_of day_offset none = err invalid_service_date
minutes_of day_offset (some (hours, minutes)) =
    if leb_ℤ (pos 0) hours
      && ltb_ℤ hours (pos 24)
      && leb_ℤ (pos 0) minutes
      && ltb_ℤ minutes (pos 60)
    then ok (day_offset * 1440 + pos_part hours * 60 + pos_part minutes)
    else err invalid_service_date

unfoldable pub parse_hhmm : String → Result ℕ
unfolding strip_days
parse_hhmm value =
    let (day_offset, text) = strip_days 0 (strip value) in
    minutes_of day_offset (int_parts (split_once b':' text))

unfoldable pub trip_id_for : String → String → String
trip_id_for pattern_code service_date = concat pattern_code (concat ":" service_date)
