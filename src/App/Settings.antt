-- ===== src/App/Settings.antt =====
-- backend/slr/app/config.py, with backend/slr/adapters/env_config.py and fixture_config.py, and the
-- choice of the fare strategy in backend/slr/app/wiring.py. The environment is a dictionary, and the
-- reading of a float from a text is a parameter.
pub mod Served
use train_seat_booking_syste.Prelude.{
  ℕ, Bool, String, ℤ, Option, none, some, List, [], ◌∷◌, map, str_eq, if◌then◌else◌,
}
use train_seat_booking_syste.Prelude.Dict.{Dict, lookup, insert}
use train_seat_booking_syste.Prelude.Text.{strip, split, int_of, is_empty}
use train_seat_booking_syste.Domain.Errors.{Result, ok, err, key_error, value_error, ◌>>=◌}
use train_seat_booking_syste.Domain.Fares.{FareStrategy, distance, dynamic}

-- A row of `_POLICY_DEFAULTS`.
pub record PolicyDefault : Type 0 where
  pub key : String
  pub env_name : String
  pub default : String

abbrev row : String → String → String → PolicyDefault
row key env_name default = record { key = key; env_name = env_name; default = default }

abbrev pub policy_defaults : List PolicyDefault
policy_defaults =
    row "hold_ttl_seconds" "HOLD_TTL_SECONDS" "900"
    ∷ row "max_seats_per_passenger" "SEAT_CAP_PER_PASSENGER" "6"
    ∷ row "velocity_window_seconds" "VELOCITY_WINDOW_SECONDS" "600"
    ∷ row "max_bookings_per_window" "BOOKING_VELOCITY_LIMIT" "10"
    ∷ row "abuse_threshold" "ABUSE_THRESHOLD" "0.8"
    ∷ row "standing_capacity_per_coach" "STANDING_CAPACITY" "250"
    ∷ row "booking_window_days" "BOOKING_WINDOW_DAYS" "30"
    ∷ row "utc_offset_minutes" "UTC_OFFSET_MINUTES" "330"
    ∷ row "class_mult_first" "CLASS_MULT_FIRST" "2.0"
    ∷ row "class_mult_second" "CLASS_MULT_SECOND" "1.0"
    ∷ row "class_mult_third" "CLASS_MULT_THIRD" "0.7"
    ∷ []

pub record Settings : Type 0 where
  pub database_url : String
  pub counter_key : String
  pub currency : String
  pub fare_strategy : String
  pub fare_rate_per_km_cents : ℤ
  pub timetable_path : String
  pub booking_window_days : ℤ
  pub utc_offset_minutes : ℤ
  pub cors_origins : List String
  pub policy : Dict String

abbrev or_default : Option String → String → String
or_default none default = default
or_default (some s) default = s

-- `os.getenv(name, default)`
unfoldable pub getenv : Dict String → String → String → String
getenv environ name default = or_default (lookup name environ) default

-- `policy` of `load_settings`
abbrev pub policy_of : Dict String → List PolicyDefault → Dict String
policy_of environ [] = []
policy_of environ (p ∷ rest) = (p.key, getenv environ p.env_name p.default) ∷ policy_of environ rest

abbrev pub int_or_raise : Option ℤ → Result ℤ
int_or_raise none = err value_error
int_or_raise (some n) = ok n

abbrev pub text_or_raise : Option String → Result String
text_or_raise none = err key_error
text_or_raise (some s) = ok s

-- `tuple(o.strip() for o in origins.split(",") if o.strip())`
unfoldable pub origins_of : List String → List String
origins_of [] = []
origins_of (o ∷ rest) = if is_empty (strip o) then origins_of rest else strip o ∷ origins_of rest

unfoldable pub load_settings : Dict String → String → Result Settings
load_settings environ default_timetable = do
  let policy = policy_of environ policy_defaults
  fare_rate ← int_or_raise (int_of (getenv environ "FARE_RATE_PER_KM_CENTS" "685"))
  window_text ← text_or_raise (lookup "booking_window_days" policy)
  window ← int_or_raise (int_of window_text)
  offset_text ← text_or_raise (lookup "utc_offset_minutes" policy)
  offset ← int_or_raise (int_of offset_text)
  ok (record {
    database_url =
        getenv environ "DATABASE_URL" "postgresql+psycopg://slr:slr_local_dev@db:5432/slr";
    counter_key = getenv environ "COUNTER_KEY" "counter-dev-key";
    currency = getenv environ "CURRENCY" "LKR";
    fare_strategy = getenv environ "FARE_STRATEGY" "dynamic";
    fare_rate_per_km_cents = fare_rate;
    timetable_path = getenv environ "TIMETABLE_PATH" default_timetable;
    booking_window_days = window;
    utc_offset_minutes = offset;
    cors_origins =
        origins_of (split b',' (getenv environ "CORS_ALLOW_ORIGINS" "http://localhost:5173"));
    policy = policy;
  })

-- `values.update(overrides)`
unfoldable pub update : Dict String → Dict String → Dict String
update values [] = values
update values ((k, v) ∷ overrides) = update (insert k v values) overrides

-- `EnvConfig(settings.policy)`: the values that the three getters read
unfoldable pub build_config : Dict String → Settings → Dict String
build_config environ settings = update environ settings.policy

-- the getters of `EnvConfig`, and those of `FixtureConfig` over texts
unfoldable pub get_str : Dict String → String → Result String
get_str values key = text_or_raise (lookup key values)

unfoldable pub get_int : Dict String → String → Result ℤ
get_int values key = get_str values key >>= λ s. int_or_raise (int_of s)

module _ {F : Type 0} where
  abbrev float_or_raise : Option F → Result F
  float_or_raise none = err value_error
  float_or_raise (some x) = ok x

  unfoldable pub get_float : (String → Option F) → Dict String → String → Result F
  get_float float_of values key = get_str values key >>= λ s. float_or_raise (float_of s)

  -- `_fare_strategy`; the bounds are the defaults of `DynamicFare`
  unfoldable pub fare_strategy_of : F → F → Settings → FareStrategy F
  fare_strategy_of floor ceiling settings =
      if str_eq settings.fare_strategy "distance"
      then distance settings.fare_rate_per_km_cents
      else dynamic settings.fare_rate_per_km_cents floor ceiling
