-- ===== src/Prelude/Text.antt =====
-- The text functions of Python that the program calls, on ASCII white space, letters and digits. A
-- text of other white space or digits, and the limit on the digits that `int` reads, are left aside.
use Prim.Native.Nat.{ℕ, zero, suc, ◌+◌, ◌-◌, ◌*◌}
use Prim.Native.Char.{Char, code}
use Prim.Native.String.{String}
use mathlib.Core.Bool.{Bool, true, false, ◌&&◌, ◌||◌}
use mathlib.Core.List.{List, [], ◌∷◌}
use mathlib.Core.Option.{Option, none, some}
use train_seat_booking_syste.Prelude.Tests.{leb, ◌==◌, if◌then◌else◌}
use train_seat_booking_syste.Prelude.Int.{ℤ, pos, ◌-ℤ◌}

abbrev pub is_space : ℕ → Bool
is_space c = leb 9 c && leb c 13 || leb 28 c && leb c 32

abbrev pub is_digit : ℕ → Bool
is_digit c = leb b'0' c && leb c b'9'

abbrev pub is_empty : String → Bool
is_empty String.[] = true
is_empty (String.◌∷◌ c s) = false

-- `s.strip()`, by the ends
unfoldable pub lstrip : String → String
lstrip String.[] = String.[]
lstrip (String.◌∷◌ c s) = if is_space (code c) then lstrip s else String.◌∷◌ c s

unfoldable pub rstrip : String → String
rstrip String.[] = String.[]
rstrip (String.◌∷◌ c s) =
    let rest = rstrip s in
    if is_space (code c) && is_empty rest then String.[] else String.◌∷◌ c rest

unfoldable pub strip : String → String
unfolding lstrip rstrip
strip s = rstrip (lstrip s)

abbrev push_char : Char → List String → List String
push_char c [] = String.◌∷◌ c String.[] ∷ []
push_char c (s ∷ rest) = String.◌∷◌ c s ∷ rest

-- `s.split(d)` for a separator of one character
unfoldable pub split : ℕ → String → List String
split d String.[] = String.[] ∷ []
split d (String.◌∷◌ c s) =
    let rest = split d s in if code c == d then String.[] ∷ rest else push_char c rest

-- `s.split(d, 1)`, in two parts if the separator is there
abbrev head_char : Char → Option (String × String) → Option (String × String)
head_char c none = none
head_char c (some (s, t)) = some (String.◌∷◌ c s, t)

unfoldable pub split_once : ℕ → String → Option (String × String)
split_once d String.[] = none
split_once d (String.◌∷◌ c s) =
    let rest = split_once d s in if code c == d then some (String.[], s) else head_char c rest

-- What `int` has read, and whether the last character was a digit.
abbrev take_digit : ℕ → Option (ℕ × Bool) → Option (ℕ × Bool)
take_digit c none = none
take_digit c (some (n, after)) =
    if is_digit c
    then some (n * 10 + (c - b'0'), true)
    else if c == b'_' && after
    then some (n, false)
    else none

unfoldable pub read_digits : Option (ℕ × Bool) → String → Option (ℕ × Bool)
read_digits so_far String.[] = so_far
read_digits so_far (String.◌∷◌ c s) = read_digits (take_digit (code c) so_far) s

abbrev read_number : Option (ℕ × Bool) → Option ℕ
read_number (some (n, true)) = some n
read_number _ = none

-- digits, with single underscores between them
unfoldable pub number_of : String → Option ℕ
unfolding read_digits
number_of s = read_number (read_digits (some (0, false)) s)

abbrev signed : Bool → Option ℕ → Option ℤ
signed minus none = none
signed minus (some n) = some (if minus then pos 0 -ℤ pos n else pos n)

unfoldable pub int_from : String → Option ℤ
unfolding number_of
int_from String.[] = none
int_from (String.◌∷◌ c s) =
    if code c == b'-'
    then signed true (number_of s)
    else if code c == b'+'
    then signed false (number_of s)
    else signed false (number_of (String.◌∷◌ c s))

-- `int(s)`; `none` is ValueError
unfoldable pub int_of : String → Option ℤ
unfolding strip int_from
int_of s = int_from (strip s)

abbrev char_at : String → ℕ → Char → Char
char_at String.[] i c = c
char_at (String.◌∷◌ d s) zero c = d
char_at (String.◌∷◌ d s) (suc i) c = char_at s i c

abbrev upper_char : Char → Char
upper_char c =
    if leb b'a' (code c) && leb (code c) b'z'
    then char_at "ABCDEFGHIJKLMNOPQRSTUVWXYZ" (code c - b'a') c
    else c

-- `s.upper()`
unfoldable pub upper : String → String
upper String.[] = String.[]
upper (String.◌∷◌ c s) = String.◌∷◌ (upper_char c) (upper s)
