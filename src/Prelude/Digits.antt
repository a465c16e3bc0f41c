-- ===== src/Prelude/Digits.antt =====
-- Numbers as text: what Python's f-strings print.
pub mod Laws
use Prim.Native.Nat.{ℕ, zero, suc, ◌/◌, ◌%◌}
use Prim.Native.Char.{Char}
use Prim.Native.String.{String, [], ◌∷◌, ◌++◌}
use train_seat_booking_syste.Prelude.Tests.{ltb, if◌then◌else◌}

-- the character of a digit; only digits are asked for
abbrev pub digit : ℕ → Char
digit zero = "0"
digit (suc zero) = "1"
digit (suc (suc zero)) = "2"
digit (suc (suc (suc zero))) = "3"
digit (suc (suc (suc (suc zero)))) = "4"
digit (suc (suc (suc (suc (suc zero))))) = "5"
digit (suc (suc (suc (suc (suc (suc zero)))))) = "6"
digit (suc (suc (suc (suc (suc (suc (suc zero))))))) = "7"
digit (suc (suc (suc (suc (suc (suc (suc (suc zero)))))))) = "8"
digit _ = "9"

decimal_from : ℕ → ℕ → String
decimal_from zero n = []
decimal_from (suc fuel) n =
    let rest = decimal_from fuel (n / 10) in
    if ltb n 10 then digit n ∷ [] else rest ++ digit (n % 10) ∷ []

-- `f"{n}"`; a number has at most as many digits as its successor counts.
unfoldable pub decimal : ℕ → String
unfolding decimal_from
decimal n = decimal_from (suc n) n

-- `f"{a:02d}:{b:02d}"` for two numbers below 100
unfoldable pub two_by_two : ℕ → ℕ → String
two_by_two a b = digit (a / 10) ∷ digit (a % 10) ∷ ":" ∷ digit (b / 10) ∷ digit (b % 10) ∷ []

-- `f"{s}{t}"`
abbrev pub concat : String → String → String
concat s t = s ++ t
