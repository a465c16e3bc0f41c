-- ===== src/Domain/Timetable/Parse/Clock.antt =====
-- A time that is written is read back.
use Prim.Native.Char.{Char, code}
use train_seat_booking_syste.Prelude.{
  ℕ, zero, suc, ◌+◌, ◌*◌, ◌/◌, ◌%◌, ◌<◌, ◌≡◌, refl, Bool, true, false, String, ℤ, Option, none,
  some, ◌==◌, arith, passes, passes_at, sym, ap, ◌∙◌,
}
use train_seat_booking_syste.Prelude.Digits.{two_by_two, digit}
use train_seat_booking_syste.Prelude.Digits.Laws.{code-digit}
use train_seat_booking_syste.Prelude.Text.{
  strip, lstrip, rstrip, split_once, int_of, read_digits, is_empty, is_space,
}
use train_seat_booking_syste.Domain.Errors.{Result, ok, err}
use train_seat_booking_syste.Domain.Timetable.{format_hhmm}
use train_seat_booking_syste.Domain.Timetable.Parse.{parse_hhmm, strip_days, minutes_of, int_parts}

abbrev gives : ℕ → Result ℕ → Bool
gives n (ok m) = m == n
gives n (err e) = false

gives_sound : (n : ℕ) (r : Result ℕ) → gives n r ≡ true → r ≡ ok n
gives_sound n (ok m) h = ground arith
gives_sound n (err e) h = cc

read_back : passes (λ m. gives m (parse_hhmm (format_hhmm m))) 1440 ≡ true
unfolding passes format_hhmm parse_hhmm split_once int_of read_digits strip
read_back = refl

-- `"+" * days + text`
abbrev pub later : ℕ → String → String
later zero text = text
later (suc days) text = String.◌∷◌ "+" (later days text)

-- What ends in something other than white space is not shortened.
rstrip_step :
    (c : Char) (s : String)
    → is_empty s ≡ false
    → rstrip s ≡ s
    → rstrip (String.◌∷◌ c s) ≡ String.◌∷◌ c s
unfolding rstrip
rstrip_step c s e h = rw h (rw e (ground arith))

rstrip_one :
    (c : Char)
    → is_space (code c) ≡ false
    → rstrip (String.◌∷◌ c String.[]) ≡ String.◌∷◌ c String.[]
unfolding rstrip
rstrip_one c h = rw h refl

module _ (m : ℕ) where
  lstrip-format_hhmm : lstrip (format_hhmm m) ≡ format_hhmm m
  unfolding lstrip format_hhmm two_by_two
  lstrip-format_hhmm = ground (arith, code-digit (m % 1440 / 60 / 10) (omega arith))

  format_hhmm-nonempty : is_empty (format_hhmm m) ≡ false
  unfolding format_hhmm two_by_two
  format_hhmm-nonempty = refl

  rstrip-format_hhmm : rstrip (format_hhmm m) ≡ format_hhmm m
  unfolding format_hhmm two_by_two
  rstrip-format_hhmm =
      let last =
        rstrip_one (digit (m % 1440 % 60 % 10))
          (ground (arith, code-digit (m % 1440 % 60 % 10) (omega arith))) in
      rstrip_step _ _ refl (rstrip_step _ _ refl (rstrip_step _ _ refl (rstrip_step _ _ refl last)))

  later-nonempty : (k : ℕ) → is_empty (later k (format_hhmm m)) ≡ false
  later-nonempty zero = format_hhmm-nonempty
  later-nonempty (suc k) = refl

  lstrip-later : (k : ℕ) → lstrip (later k (format_hhmm m)) ≡ later k (format_hhmm m)
  unfolding lstrip
  lstrip-later zero = lstrip-format_hhmm
  lstrip-later (suc k) = refl

  rstrip-later : (k : ℕ) → rstrip (later k (format_hhmm m)) ≡ later k (format_hhmm m)
  rstrip-later zero = rstrip-format_hhmm
  rstrip-later (suc k) = rstrip_step "+" _ (later-nonempty k) (rstrip-later k)

  strip_days-format_hhmm : (d : ℕ) → strip_days d (format_hhmm m) ≡ (d, format_hhmm m)
  unfolding strip_days format_hhmm two_by_two
  strip_days-format_hhmm d =
      let e : (code (digit (m % 1440 / 60 / 10)) == b'+') ≡ false =
        ground (arith, code-digit (m % 1440 / 60 / 10) (omega arith)) in
      rw (e, strip_days) refl

  strip_days-later : (d k : ℕ) → strip_days d (later k (format_hhmm m)) ≡ (d + k, format_hhmm m)
  unfolding strip_days
  strip_days-later d zero = ground (arith, strip_days-format_hhmm d)
  strip_days-later d (suc k) = ground (arith, strip_days-later (suc d) k)

minutes_of-later :
    (k m : ℕ) (parts : Option (ℤ × ℤ))
    → minutes_of 0 parts ≡ ok m
    → minutes_of k parts ≡ ok (k * 1440 + m)
minutes_of-later k m none h = ground arith
minutes_of-later k m (some (hours, minutes)) h = ground arith

format_hhmm-mod : (m : ℕ) → format_hhmm (m % 1440) ≡ format_hhmm m
unfolding format_hhmm
format_hhmm-mod m = let e : m % 1440 % 1440 ≡ m % 1440 = omega arith in rw e refl

parse_hhmm-of_day : (m : ℕ) → m < 1440 → parse_hhmm (format_hhmm m) ≡ ok m
parse_hhmm-of_day m h =
    gives_sound m (parse_hhmm (format_hhmm m))
      (passes_at (λ n. gives n (parse_hhmm (format_hhmm n))) 1440 h read_back)

parse_hhmm-later_of :
    (k m : ℕ)
    → parse_hhmm (later k (format_hhmm m))
      ≡ minutes_of k (int_parts (split_once b':' (format_hhmm m)))
unfolding parse_hhmm strip
parse_hhmm-later_of k m =
    rw (lstrip-later m k, rstrip-later m k, strip_days-later m 0 k) (ground arith)

-- What the timetable prints of a minute, marked with the days that have gone by, is read back as that
-- minute, for every minute from midnight of the service date on.
pub parse_hhmm-format_hhmm : (m : ℕ) → parse_hhmm (later (m / 1440) (format_hhmm m)) ≡ ok m
parse_hhmm-format_hhmm m =
    let today =
      sym (parse_hhmm-later_of 0 m)
      ∙ ap parse_hhmm (sym (format_hhmm-mod m))
      ∙ parse_hhmm-of_day (m % 1440) (omega arith) in
    parse_hhmm-later_of (m / 1440) m
    ∙ minutes_of-later (m / 1440) (m % 1440) (int_parts (split_once b':' (format_hhmm m))) today
    ∙ ap ok (omega arith)
