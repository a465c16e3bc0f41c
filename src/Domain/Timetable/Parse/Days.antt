-- ===== src/Domain/Timetable/Parse/Days.antt =====
-- The days on which a pattern runs.
use train_seat_booking_syste.Prelude.{
  ℕ, ◌≡◌, refl, ◌==◌, true, eq_iff, String, some, List, [], ◌∷◌, Occurs, any, subst, inl, inr, ◌⊎◌,
  arith, Option-cases, Bool-cases,
}
use train_seat_booking_syste.Prelude.Text.{strip, upper}
use train_seat_booking_syste.Domain.Errors.{ok, Result-cases}
use train_seat_booking_syste.Domain.Timetable.Parse.{day_index, add_day, days_from, parse_days}

any-Occurs : (n : ℕ) (days : List ℕ) → any (λ d. d == n) days ≡ true → Occurs n days
any-Occurs n [] h = cc
any-Occurs n (d ∷ days) h = elim (Bool-cases (d == n)) [
  | inl e ↦ inl (ground arith)
  | inr e ↦ inr (any-Occurs n days (ground arith))
]

add_day_self : (n : ℕ) (days : List ℕ) → Occurs n (add_day n days)
add_day_self n days = elim (Bool-cases (any (λ d. d == n) days)) [
  | inl e ↦ rw e (any-Occurs n days e)
  | inr e ↦ rw e (inl refl)
]

add_day-keeps : (n m : ℕ) (days : List ℕ) → Occurs m days → Occurs m (add_day n days)
add_day-keeps n m days h = elim (Bool-cases (any (λ d. d == n) days)) [
  | inl e ↦ rw e h
  | inr e ↦ rw e (inr h)
]

add_day-inv : (n m : ℕ) (days : List ℕ) → Occurs m (add_day n days) → (m ≡ n) ⊎ Occurs m days
add_day-inv n m days h = elim (Bool-cases (any (λ d. d == n) days)) [
  | inl e ↦ inr (rw e at h)
  | inr e ↦ rw e at h
]

-- What the days of the week are written as, and the number that `date.weekday` gives them.
abbrev pub IsDay : String → ℕ → Type 0
IsDay written n =
    ((written ≡ "MON") × (n ≡ 0))
    ⊎ ((written ≡ "TUE") × (n ≡ 1))
    ⊎ ((written ≡ "WED") × (n ≡ 2))
    ⊎ ((written ≡ "THU") × (n ≡ 3))
    ⊎ ((written ≡ "FRI") × (n ≡ 4))
    ⊎ ((written ≡ "SAT") × (n ≡ 5))
    ⊎ ((written ≡ "SUN") × (n ≡ 6))

-- A code is read in either case, with white space around it.
abbrev pub Means : String → ℕ → Type 0
Means code n = IsDay (upper (strip code)) n

day_index-Means : (code : String) (n : ℕ) → day_index code ≡ some n → Means code n
unfolding day_index
day_index-Means code n e =
    let written = upper (strip code) in
    ground (
      arith,
      eq_iff "MON" written,
      eq_iff "TUE" written,
      eq_iff "WED" written,
      eq_iff "THU" written,
      eq_iff "FRI" written,
      eq_iff "SAT" written,
      eq_iff "SUN" written,
    )

-- A code of the list that names the day.
abbrev Names : List String → ℕ → Type 0
Names codes n = (c : String) × Occurs c codes × (day_index c ≡ some n)

days_from_keeps :
    (acc : List ℕ) (codes : List String) (days : List ℕ) (n : ℕ)
    → days_from acc codes ≡ ok days
    → Occurs n acc
    → Occurs n days
unfolding days_from
days_from_keeps acc [] days n e m = let s : acc ≡ days = ground arith in subst (Occurs n) s m
days_from_keeps acc (c ∷ codes) days n e m = elim (Option-cases (day_index c)) [
  | inl h ↦ absurd (ground arith)
  | inr (k, h) ↦
      days_from_keeps (add_day k acc) codes days n (ground arith) (add_day-keeps k n acc m)
]

days_from_complete :
    (acc : List ℕ) (codes : List String) (days : List ℕ) (c : String)
    → days_from acc codes ≡ ok days
    → Occurs c codes
    → (n : ℕ) × (day_index c ≡ some n) × Occurs n days
unfolding days_from
days_from_complete acc [] days c e m = absurd m
days_from_complete acc (d ∷ codes) days c e m = elim (Option-cases (day_index d)) [
  | inl h ↦ absurd (ground arith)
  | inr (k, h) ↦ elim m [
    | inl same ↦ (
      k,
      rw same h,
      days_from_keeps (add_day k acc) codes days k (ground arith) (add_day_self k acc),
    )
    | inr j ↦ days_from_complete (add_day k acc) codes days c (ground arith) j
  ]
]

days_from_sound :
    (acc : List ℕ) (codes : List String) (days : List ℕ) (n : ℕ)
    → days_from acc codes ≡ ok days
    → Occurs n days
    → Occurs n acc ⊎ Names codes n
unfolding days_from
days_from_sound acc [] days n e m = let s : days ≡ acc = ground arith in inl (subst (Occurs n) s m)
days_from_sound acc (c ∷ codes) days n e m = elim (Option-cases (day_index c)) [
  | inl h ↦ absurd (ground arith)
  | inr (k, h) ↦ elim (days_from_sound (add_day k acc) codes days n (ground arith) m) [
    | inr (d, at, f) ↦ inr (d, inr at, f)
    | inl q ↦ elim (add_day-inv k n acc q) [
      | inl same ↦ inr (c, inl refl, rw same h)
      | inr r ↦ inl r
    ]
  ]
]

parse_days-parts :
    (codes : List String) (days : List ℕ)
    → parse_days codes ≡ ok days
    → (days_from [] codes ≡ ok days) × ((n : ℕ) × Occurs n days)
unfolding parse_days
parse_days-parts codes days e = elim (Result-cases (days_from [] codes)) [
  | inr (x, h) ↦ absurd (ground arith)
  | inl ([], h) ↦ absurd (ground arith)
  | inl (d ∷ ds, h) ↦
      let s : d ∷ ds ≡ days = ground arith in (ground arith, (d, subst (Occurs d) s (inl refl)))
]

-- Where the day codes of a pattern are read, every code is MON to SUN, in either case and with white
-- space around it, and the days are the numbers 0 to 6 of those that occur, no others; there is at
-- least one.
pub parse_days_lem :
    (codes : List String) (days : List ℕ)
    → parse_days codes ≡ ok days
    → ((n : ℕ) → Occurs n days → (c : String) × Occurs c codes × Means c n)
      × ((c : String) → Occurs c codes → (n : ℕ) × Means c n × Occurs n days)
      × ((n : ℕ) × Occurs n days)
parse_days_lem codes days e =
    let (h, some_day_in) = parse_days-parts codes days e in
    (
      λ n m. elim (days_from_sound [] codes days n h m) [
        | inl q ↦ absurd q
        | inr (c, at, f) ↦ (c, at, day_index-Means c n f)
      ],
      λ c m.
          let (n, f, at) = days_from_complete [] codes days c h m in (n, day_index-Means c n f, at),
      some_day_in,
    )
