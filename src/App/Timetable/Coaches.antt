-- ===== src/App/Timetable/Coaches.antt =====
-- The seats of a coach: their numbers and their identifiers.
use Prim.Native.Char.{code}
use train_seat_booking_syste.Prelude.{
  ℕ, zero, suc, ◌+◌, ◌*◌, ◌<◌, ◌≡◌, refl, sym, ap, ◌∙◌, Bool, true, false, String, pos, pos_part,
  Option, none, some, List, [], ◌∷◌, map, length, take, get_elem?, Occurs, append-Occurs_inv, inl,
  inr, arith, subst, ◌&&◌, ◌==◌, bool_not, passes, passes_at, Bool-cases, ltb_ℤ,
}
use text.Mathlib.TextLemmas.{append_cancel_left}
use train_seat_booking_syste.Prelude.Digits.{decimal, concat}
use train_seat_booking_syste.Prelude.Digits.Laws.{leading, leading-decimal}
use train_seat_booking_syste.Prelude.Text.{split, is_digit}
use train_seat_booking_syste.Domain.Errors.{ok, Result-cases}
use train_seat_booking_syste.Domain.Timetable.Parse.{index_from}
use train_seat_booking_syste.SqlRepo.{parse_class, parse_coach_type}
use train_seat_booking_syste.Ports.{Coach, Seat}
use train_seat_booking_syste.App.Timetable.Numbers.{count_up, numbers-seats_from}
use train_seat_booking_syste.App.Timetable.{
  Layout, column_letters, sum_parts, column_labels, seat_at, row_seats, seats_from, build_coach,
}

-- A seat is made from a row and a place in it.
abbrev IsAt : Coach → ℕ → List String → ℕ → Seat → Type 0
IsAt coach width letters offset s =
    (row : ℕ) × (index : ℕ) × (letter : String) × (get_elem? letters index ≡ some letter)
    × (s ≡ seat_at coach width row (offset + index) letter)

row_seats-IsAt :
    (coach : Coach) (width row offset : ℕ) (letters : List String) (s : Seat)
    → Occurs s (row_seats coach width row offset letters)
    → IsAt coach width letters offset s
unfolding row_seats
row_seats-IsAt coach width row offset [] s m = absurd m
row_seats-IsAt coach width row offset (l ∷ letters) s (inl e) =
    (row, 0, l, refl, e ∙ ap (λ k. seat_at coach width row k l) (omega arith))
row_seats-IsAt coach width row offset (l ∷ letters) s (inr m) =
    let (r, i, letter, at, e) = row_seats-IsAt coach width row (suc offset) letters s m in
    (r, suc i, letter, at, e ∙ ap (λ k. seat_at coach width r k letter) (omega arith))

seats_from-IsAt :
    (coach : Coach) (letters : List String) (row left : ℕ) (s : Seat)
    → Occurs s (seats_from coach letters row left)
    → IsAt coach (length letters) letters 0 s
unfolding seats_from
seats_from-IsAt coach letters row zero s m = absurd m
seats_from-IsAt coach letters row (suc left) s m =
    elim (append-Occurs_inv s (row_seats coach (length letters) row 0 letters) _ m) [
      | inl r ↦ row_seats-IsAt coach (length letters) row 0 letters s r
      | inr r ↦ seats_from-IsAt coach letters (suc row) left s r
    ]

-- one letter, which is no digit
abbrev is_letter : String → Bool
is_letter String.[] = false
is_letter (String.◌∷◌ c s) = bool_not (is_digit (code c))

leading-is_letter : (n : ℕ) (l : String) → is_letter l ≡ true → leading n l ≡ n
unfolding leading
leading-is_letter n String.[] h = refl
leading-is_letter n (String.◌∷◌ c s) h = ground arith

abbrev is_index : ℕ → Option ℕ → Bool
is_index i none = false
is_index i (some j) = i == j

abbrev is_column : ℕ → Option String → Bool
is_column i none = false
is_column i (some l) = is_letter l && is_index i (index_from 0 l column_letters)

columns_table : passes (λ i. is_column i (get_elem? column_letters i)) 8 ≡ true
unfolding passes
columns_table = refl

get_elem?-lt : {A : Type 0} (xs : List A) (i : ℕ) (a : A) → get_elem? xs i ≡ some a → i < length xs
get_elem?-lt [] i a h = ground arith
get_elem?-lt (x ∷ xs) zero a h = omega arith
get_elem?-lt (x ∷ xs) (suc i) a h = let ih = get_elem?-lt xs i a h in omega arith

get_elem?-take :
    {A : Type 0} (n : ℕ) (xs : List A) (i : ℕ) (a : A)
    → get_elem? (take n xs) i ≡ some a
    → get_elem? xs i ≡ some a
get_elem?-take zero xs i a h = ground arith
get_elem?-take (suc n) [] i a h = ground arith
get_elem?-take (suc n) (x ∷ xs) zero a h = h
get_elem?-take (suc n) (x ∷ xs) (suc i) a h = get_elem?-take n xs i a h

both : (p q : Bool) → (p && q) ≡ true → (p ≡ true) × (q ≡ true)
both p q h = ground arith

same_index : (i j : ℕ) (o : Option ℕ) → is_index i o ≡ true → is_index j o ≡ true → i ≡ j
same_index i j none h k = cc
same_index i j (some n) h k = ground arith

column-of :
    (n i : ℕ) (l : String)
    → get_elem? (take n column_letters) i ≡ some l
    → (is_letter l ≡ true) × (is_index i (index_from 0 l column_letters) ≡ true)
column-of n i l h =
    let g = get_elem?-take n column_letters i l h in
    let t =
      passes_at (λ i. is_column i (get_elem? column_letters i)) 8
        (get_elem?-lt column_letters i l g) columns_table in
    let t' : is_column i (some l) ≡ true = subst (λ o. is_column i o ≡ true) g t in
    both (is_letter l) _ t'

-- Two seats of a coach with the same identifier are one seat.
seat_id-injective :
    (coach : Coach) (n row left : ℕ) (s t : Seat)
    → Occurs s (seats_from coach (take n column_letters) row left)
    → Occurs t (seats_from coach (take n column_letters) row left)
    → s.seat_id ≡ t.seat_id
    → s ≡ t
seat_id-injective coach n row left s t ms mt same =
    let w = length (take n column_letters) in
    let (r, i, l, at, e) = seats_from-IsAt coach (take n column_letters) row left s ms in
    let (r', i', l', at', e') = seats_from-IsAt coach (take n column_letters) row left t mt in
    let (a, b) = column-of n i l at in
    let (a', b') = column-of n i' l' at' in
    let ids : concat coach.code (concat (decimal r) l)
        ≡ concat coach.code (concat (decimal r') l') =
      sym (ap (λ (u : Seat). u.seat_id) e) ∙ same ∙ ap (λ (u : Seat). u.seat_id) e' in
    let tails = append_cancel_left coach.code (concat (decimal r) l) (concat (decimal r') l') ids in
    let rows : r ≡ r' =
      sym (leading-decimal r l ∙ leading-is_letter r l a)
      ∙ ap (leading 0) tails
      ∙ (leading-decimal r' l' ∙ leading-is_letter r' l' a') in
    let letters : l ≡ l' =
      append_cancel_left (decimal r) l l' (tails ∙ ap (λ k. concat (decimal k) l') (sym rows)) in
    let places : i ≡ i' =
      same_index i i' (index_from 0 l column_letters) b
        (subst (λ x. is_index i' (index_from 0 x column_letters) ≡ true) (sym letters) b') in
    e
    ∙ ap (λ k. seat_at coach w k (0 + i) l) rows
    ∙ ap (λ k. seat_at coach w r' (0 + k) l) places
    ∙ ap (λ x. seat_at coach w r' (0 + i') x) letters
    ∙ sym e'

column_labels-take :
    (columns : String) (letters : List String)
    → column_labels columns ≡ ok letters
    → (n : ℕ) × (letters ≡ take n column_letters)
unfolding column_labels
column_labels-take columns letters e = elim (Result-cases (sum_parts (split b'-' columns))) [
  | inr (x, h) ↦ absurd (ground arith)
  | inl (total, h) ↦ elim (Bool-cases (ltb_ℤ (pos 8) total)) [
    | inl k ↦ absurd (ground arith)
    | inr k ↦ (pos_part total, ground arith)
  ]
]

build_coach-parts :
    (code : String) (layout : Layout) (coach : Coach) (seats : List Seat)
    → build_coach code layout ≡ ok (coach, seats)
    → (letters : List String) × (column_labels layout.columns ≡ ok letters)
      × (seats ≡ seats_from coach letters 1 layout.rows)
unfolding build_coach
build_coach-parts code layout coach seats e =
    elim (Result-cases (parse_coach_type layout.coach_type)) [
      | inr (x, h) ↦ absurd (ground arith)
      | inl (c, h) ↦ elim (Result-cases (parse_class layout.travel_class)) [
        | inr (x, k) ↦ absurd (ground arith)
        | inl (t, k) ↦ elim (Result-cases (column_labels layout.columns)) [
          | inr (x, l) ↦ absurd (ground arith)
          | inl (letters, l) ↦ (letters, l, ground arith)
        ]
      ]
    ]

-- Where a coach is built, its seats are numbered from 1 up in their order, as many as its rows times
-- the column letters of its layout, and no two of them have the same identifier.
pub build_coach_lem :
    (code : String) (layout : Layout) (coach : Coach) (seats : List Seat)
    → build_coach code layout ≡ ok (coach, seats)
    → (letters : List String) × (column_labels layout.columns ≡ ok letters)
      × (map (λ s. s.number) seats ≡ count_up 1 (layout.rows * length letters))
      × ((s t : Seat) → Occurs s seats → Occurs t seats → s.seat_id ≡ t.seat_id → s ≡ t)
build_coach_lem code layout coach seats e =
    let (letters, labels, made) = build_coach-parts code layout coach seats e in
    let (n, taken) = column_labels-take layout.columns letters labels in
    let first : 0 * length letters + 1 ≡ 1 = omega arith in
    (
      letters,
      labels,
      ap (map (λ s. s.number)) made
          ∙ numbers-seats_from coach letters 0 layout.rows
          ∙ ap (λ k. count_up k (layout.rows * length letters)) first,
      λ s t ms mt.
          seat_id-injective coach n 1 layout.rows s t
            (subst (λ ls. Occurs s (seats_from coach ls 1 layout.rows)) taken
              (subst (Occurs s) made ms))
            (subst (λ ls. Occurs t (seats_from coach ls 1 layout.rows)) taken
              (subst (Occurs t) made mt)),
    )
