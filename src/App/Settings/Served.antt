-- ===== src/App/Settings/Served.antt =====
-- The configuration that the use cases are served.
use train_seat_booking_syste.Prelude.{
  ◌≡◌, refl, ◌∙◌, false, String, some, List, [], ◌∷◌, All, any, str_eq, eq_iff, arith, Option-cases,
  inl, inr,
}
use train_seat_booking_syste.Prelude.Dict.{Dict, lookup, insert, lookup-insert}
use train_seat_booking_syste.Prelude.Text.{int_of}
use train_seat_booking_syste.Domain.Errors.{ok}
use train_seat_booking_syste.App.Settings.{
  PolicyDefault, Settings, policy_defaults, policy_of, getenv, load_settings, update, build_config,
  get_str, get_int, int_or_raise,
}

-- No two entries have one key.
abbrev Distinct : Dict String → Type 0
Distinct [] = Unit
Distinct ((k, v) ∷ d) = (any (λ (e : String × String). str_eq e.0 k) d ≡ false) × Distinct d

lookup-update_other :
    (k : String) (d p : Dict String)
    → any (λ (e : String × String). str_eq e.0 k) p ≡ false
    → lookup k (update d p) ≡ lookup k d
unfolding update
lookup-update_other k d [] h = refl
lookup-update_other k d ((j, v) ∷ p) h =
    let rest : any (λ (e : String × String). str_eq e.0 k) p ≡ false = ground arith in
    let other : str_eq j k ≡ false = ground arith in
    lookup-update_other k (insert j v d) p rest ∙ lookup-insert j k v d ∙ rw other refl

abbrev Served : Dict String → Dict String → Type 0
Served values = All (λ (e : String × String). lookup e.0 values ≡ some e.1)

lookup-update : (d p : Dict String) → Distinct p → Served (update d p) p
unfolding update
lookup-update d [] h = tt
lookup-update d ((k, v) ∷ p) (fresh, h) = (
  lookup-update_other k (insert k v d) p fresh ∙ lookup-insert k k v d ∙ ground (arith, eq_iff k k),
  lookup-update (insert k v d) p h,
)

policy-Distinct : (environ : Dict String) → Distinct (policy_of environ policy_defaults)
policy-Distinct environ =
    (refl, (refl, (refl, (refl, (refl, (refl, (refl, (refl, (refl, (refl, (refl, tt)))))))))))

abbrev pub IsServed : Dict String → Dict String → PolicyDefault → Type 0
IsServed environ values p = get_str values p.key ≡ ok (getenv environ p.env_name p.default)

served :
    (environ values : Dict String) (ps : List PolicyDefault)
    → Served values (policy_of environ ps)
    → All (IsServed environ values) ps
unfolding get_str
served environ values [] h = tt
served environ values (p ∷ ps) (e, h) = (rw e refl, served environ values ps h)

load_settings-parts :
    (environ : Dict String) (path : String) (s : Settings)
    → load_settings environ path ≡ ok s
    → (s.policy ≡ policy_of environ policy_defaults)
      × (int_or_raise (int_of (getenv environ "BOOKING_WINDOW_DAYS" "30"))
          ≡ ok s.booking_window_days)
      × (int_or_raise (int_of (getenv environ "UTC_OFFSET_MINUTES" "330"))
          ≡ ok s.utc_offset_minutes)
unfolding load_settings lookup
load_settings-parts environ path s e =
    elim (Option-cases (int_of (getenv environ "FARE_RATE_PER_KM_CENTS" "685"))) [
      | inl h ↦ absurd (ground arith)
      | inr (rate, h) ↦ elim (Option-cases (int_of (getenv environ "BOOKING_WINDOW_DAYS" "30"))) [
        | inl k ↦ absurd (ground arith)
        | inr (window, k) ↦
            elim (Option-cases (int_of (getenv environ "UTC_OFFSET_MINUTES" "330"))) [
              | inl l ↦ absurd (ground arith)
              | inr (offset, l) ↦ (ground arith, ground arith, ground arith)
            ]
      ]
    ]

-- Where the settings load, the use cases are served a value under every key of the policy: that of its
-- environment variable, or its default, whatever else the environment holds. The booking window and
-- the offset that they read are those that the settings hand to the seeder.
pub build_config_lem :
    (environ : Dict String) (path : String) (settings : Settings)
    → load_settings environ path ≡ ok settings
    → All (IsServed environ (build_config environ settings)) policy_defaults
      × (get_int (build_config environ settings) "booking_window_days"
          ≡ ok settings.booking_window_days)
      × (get_int (build_config environ settings) "utc_offset_minutes"
          ≡ ok settings.utc_offset_minutes)
unfolding build_config get_int
build_config_lem environ path settings e =
    let (same, window, offset) = load_settings-parts environ path settings e in
    let all =
      served environ (update environ (policy_of environ policy_defaults)) policy_defaults
        (lookup-update environ (policy_of environ policy_defaults) (policy-Distinct environ)) in
    rw same (all, rw (all.1.1.1.1.1.1.0) window, rw (all.1.1.1.1.1.1.1.0) offset)
