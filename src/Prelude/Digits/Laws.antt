-- ===== src/Prelude/Digits/Laws.antt =====
-- A number is read back from its decimal digits.
use Prim.Native.Nat.{ℕ, zero, suc, ◌+◌, ◌-◌, ◌*◌, ◌/◌, ◌%◌, ◌<◌}
use Prim.Native.Char.{Char, code}
use Prim.Native.String.{String, ◌++◌}
use mathlib.Core.Path.{◌≡◌, refl, ap, ◌∙◌}
use mathlib.Core.Logic.{inl, inr}
use mathlib.Core.Bool.{true}
use native.Mathlib.Omega.{arith}
use text.Mathlib.TextLemmas.{nil-append, cons-append, append_assoc}
use train_seat_booking_syste.Prelude.Tests.{ltb, Bool-cases, if◌then◌else◌}
use train_seat_booking_syste.Prelude.Digits.{digit, decimal_from, decimal}
use train_seat_booking_syste.Prelude.Text.{is_digit}

-- the number that a text starts with
unfoldable pub leading : ℕ → String → ℕ
leading acc String.[] = acc
leading acc (String.◌∷◌ c s) =
    let rest = leading (acc * 10 + (code c - b'0')) s in if is_digit (code c) then rest else acc

pub code-digit : (n : ℕ) → n < 10 → code (digit n) ≡ 48 + n
code-digit zero h = refl
code-digit (suc zero) h = refl
code-digit (suc (suc zero)) h = refl
code-digit (suc (suc (suc zero))) h = refl
code-digit (suc (suc (suc (suc zero)))) h = refl
code-digit (suc (suc (suc (suc (suc zero))))) h = refl
code-digit (suc (suc (suc (suc (suc (suc zero)))))) h = refl
code-digit (suc (suc (suc (suc (suc (suc (suc zero))))))) h = refl
code-digit (suc (suc (suc (suc (suc (suc (suc (suc zero)))))))) h = refl
code-digit (suc (suc (suc (suc (suc (suc (suc (suc (suc zero))))))))) h = refl
code-digit (suc (suc (suc (suc (suc (suc (suc (suc (suc (suc n)))))))))) h = absurd (omega arith)

leading-digit :
    (acc n : ℕ) (t : String)
    → n < 10
    → leading acc (String.◌∷◌ (digit n) t) ≡ leading (acc * 10 + n) t
unfolding leading
leading-digit acc n t h =
    let e : code (digit n) ≡ 48 + n = code-digit n h in
    let d : is_digit (48 + n) ≡ true = ground arith in
    let m : 48 + n - 48 ≡ n = omega arith in rw (e, d, m) refl

one-append : (c : Char) (t : String) → String.◌∷◌ c String.[] ++ t ≡ String.◌∷◌ c t
one-append c t = cons-append c String.[] t ∙ ap (String.◌∷◌ c) (nil-append t)

leading-decimal_from :
    (fuel n : ℕ) (t : String) → n < fuel → leading 0 (decimal_from fuel n ++ t) ≡ leading n t
unfolding decimal_from
leading-decimal_from zero n t h = absurd (omega arith)
leading-decimal_from (suc fuel) n t h = elim (Bool-cases (ltb n 10)) [
  | inl e ↦ rw e (
      ap (leading 0) (one-append (digit n) t)
      ∙ leading-digit 0 n t (ground arith)
      ∙ ap (λ k. leading k t) (omega arith))
  | inr e ↦
      let last = String.◌∷◌ (digit (n % 10)) String.[] in
      rw e (
        ap (leading 0) (append_assoc (decimal_from fuel (n / 10)) last t)
        ∙ ap (λ u. leading 0 (decimal_from fuel (n / 10) ++ u)) (one-append (digit (n % 10)) t)
        ∙ leading-decimal_from fuel (n / 10) (String.◌∷◌ (digit (n % 10)) t) (ground arith)
        ∙ leading-digit (n / 10) (n % 10) t (omega arith)
        ∙ ap (λ k. leading k t) (omega arith))
]

-- A number before what is no digit can be told from the text.
pub leading-decimal : (n : ℕ) (t : String) → leading 0 (decimal n ++ t) ≡ leading n t
unfolding decimal
leading-decimal n t = leading-decimal_from (suc n) n t (omega arith)
