-- ===== src/App/Timetable/Numbers.antt =====
-- The numbers of the seats of a coach.
use train_seat_booking_syste.Prelude.{
  ℕ, zero, suc, ◌+◌, ◌-◌, ◌*◌, ◌≡◌, refl, sym, ap, ◌∙◌, String, List, [], ◌∷◌, ◌++◌, map, length,
  arith,
}
use train_seat_booking_syste.Ports.{Coach, Seat}
use train_seat_booking_syste.App.Timetable.{row_seats, seats_from}

-- `range(first, first + left)`
abbrev pub count_up : ℕ → ℕ → List ℕ
count_up first zero = []
count_up first (suc left) = first ∷ count_up (suc first) left

count_up-append :
    (first a b : ℕ) → count_up first (a + b) ≡ count_up first a ++ count_up (first + a) b
count_up-append first zero b = ground arith
count_up-append first (suc a) b =
    let e : suc a + b ≡ suc (a + b) = omega arith in
    let f : first + suc a ≡ suc first + a = omega arith in
    rw (e, f) (ap (λ t. first ∷ t) (count_up-append (suc first) a b))

map-append : (f : Seat → ℕ) (xs ys : List Seat) → map f (xs ++ ys) ≡ map f xs ++ map f ys
map-append f [] ys = refl
map-append f (x ∷ xs) ys = ap (λ t. f x ∷ t) (map-append f xs ys)

numbers-row_seats :
    (coach : Coach) (width row index : ℕ) (letters : List String)
    → map (λ s. s.number) (row_seats coach width row index letters)
      ≡ count_up ((row - 1) * width + index + 1) (length letters)
unfolding row_seats
numbers-row_seats coach width row index [] = refl
numbers-row_seats coach width row index (l ∷ letters) =
    let e : (row - 1) * width + suc index + 1 ≡ suc ((row - 1) * width + index + 1) = omega arith in
    ap (λ t. ((row - 1) * width + index + 1) ∷ t)
      (numbers-row_seats coach width row (suc index) letters
        ∙ ap (λ k. count_up k (length letters)) e)

pub numbers-seats_from :
    (coach : Coach) (letters : List String) (row left : ℕ)
    → map (λ s. s.number) (seats_from coach letters (suc row) left)
      ≡ count_up (row * length letters + 1) (left * length letters)
unfolding seats_from
numbers-seats_from coach letters row zero = ground arith
numbers-seats_from coach letters row (suc left) =
    let w = length letters in
    let first : (suc row - 1) * w + 0 + 1 ≡ row * w + 1 = grind arith in
    let next : suc row * w + 1 ≡ row * w + 1 + w = grind arith in
    let total : w + left * w ≡ suc left * w = grind arith in
    map-append (λ s. s.number) (row_seats coach w (suc row) 0 letters)
      (seats_from coach letters (suc (suc row)) left)
    ∙ ap (λ t. t ++ map (λ (s : Seat). s.number) (seats_from coach letters (suc (suc row)) left))
        (numbers-row_seats coach w (suc row) 0 letters ∙ ap (λ k. count_up k w) first)
    ∙ ap (λ t. count_up (row * w + 1) w ++ t)
        (numbers-seats_from coach letters (suc row) left ∙ ap (λ k. count_up k (left * w)) next)
    ∙ sym (count_up-append (row * w + 1) w (left * w))
    ∙ ap (count_up (row * w + 1)) total
