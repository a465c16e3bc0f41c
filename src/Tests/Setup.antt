-- ===== src/Tests/Setup.antt =====
-- The fares and the settings on small inputs, and each theorem about them there.
use train_seat_booking_syste.Prelude.{
  ◌*ℤ◌, ℕ, ◌+◌, ◌*◌, ◌-◌, ◌≤◌, ◌≡◌, refl, pos, ltb, String, [], ◌∷◌, All, arith,
}
use train_seat_booking_syste.Prelude.Dict.{Dict, lookup, insert}
use train_seat_booking_syste.Prelude.Text.{int_of, strip, split, read_digits}
use train_seat_booking_syste.Domain.Errors.{ok, err, value_error, key_error}
use train_seat_booking_syste.Domain.Fares.{
  Floats, half_up, distance_fare, demand_multiplier, dynamic_fare, price, dynamic,
}
use train_seat_booking_syste.Domain.Fares.Rounding.{IsNearest, distance_fare_lem}
use train_seat_booking_syste.App.Settings.{
  Settings, policy_defaults, policy_of, load_settings, getenv, origins_of, build_config, get_str,
  get_int, update,
}
use train_seat_booking_syste.App.Settings.Served.{IsServed, build_config_lem}

-- Floats counted in tenths, down to 0.
abbrev tenths : Floats ℕ
tenths = record {
  zero = 0;
  one = 10;
  add = λ a b. a + b;
  sub = λ a b. a - b;
  mul = λ a b. half_up (a * b) 10;
  ltb = ltb;
  decimal = λ a. record { coefficient = pos a; scale = 10 };
}

-- 685 · 14.5 · 0.7 is 6952.75
distance_fare_at_14_5 : distance_fare tenths 145 (pos 685) 7 ≡ pos 6953
unfolding distance_fare half_up ◌*ℤ◌
distance_fare_at_14_5 = refl

-- a train that is half full, between 1.0 and 1.8
price_half_full : price tenths (dynamic (pos 685) 10 18) 145 7 5 ≡ ok (pos 9734)
unfolding price dynamic_fare demand_multiplier distance_fare half_up ◌*ℤ◌
price_half_full = refl

price_inverted_band : price tenths (dynamic (pos 685) 18 10) 145 7 5 ≡ err value_error
unfolding price dynamic_fare demand_multiplier distance_fare half_up ◌*ℤ◌
price_inverted_band = refl

distance_fare_lem_example :
    (q : ℕ) × (q' : ℕ) × (distance_fare tenths 145 (pos 685) 7 ≡ pos q)
    × (distance_fare tenths 280 (pos 685) 7 ≡ pos q')
    × IsNearest q (685 * 145 * 7) (10 * 10)
    × (q ≤ q')
distance_fare_lem_example =
    distance_fare_lem tenths 145 280 7 685 145 10 280 10 7 10 (refl, omega arith)
      (refl, omega arith) (refl, omega arith) (omega arith)

-- An environment that sets the window, and a variable of no interest.
abbrev fortnight : Dict String
fortnight = ("BOOKING_WINDOW_DAYS", " 14 ") ∷ ("HOME", "/root") ∷ []

abbrev fortnight_settings : Settings
fortnight_settings = record {
  database_url = "postgresql+psycopg://slr:slr_local_dev@db:5432/slr";
  counter_key = "counter-dev-key";
  currency = "LKR";
  fare_strategy = "dynamic";
  fare_rate_per_km_cents = pos 685;
  timetable_path = "timetable.json";
  booking_window_days = pos 14;
  utc_offset_minutes = pos 330;
  cors_origins = "http://localhost:5173" ∷ [];
  policy = policy_of fortnight policy_defaults;
}

load_settings-fortnight : load_settings fortnight "timetable.json" ≡ ok fortnight_settings
unfolding load_settings getenv lookup int_of strip read_digits split origins_of
load_settings-fortnight = refl

load_settings_refused :
    load_settings (("UTC_OFFSET_MINUTES", "5h") ∷ []) "timetable.json" ≡ err value_error
unfolding load_settings getenv lookup int_of strip read_digits split origins_of
load_settings_refused = refl

get_str_unknown : get_str (build_config fortnight fortnight_settings) "no_such_key" ≡ err key_error
unfolding get_str build_config update lookup insert getenv
get_str_unknown = refl

build_config_lem_example :
    All (IsServed fortnight (build_config fortnight fortnight_settings)) policy_defaults
    × (get_int (build_config fortnight fortnight_settings) "booking_window_days" ≡ ok (pos 14))
    × (get_int (build_config fortnight fortnight_settings) "utc_offset_minutes" ≡ ok (pos 330))
build_config_lem_example =
    build_config_lem fortnight "timetable.json" fortnight_settings load_settings-fortnight
