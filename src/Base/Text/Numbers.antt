-- ===== src/Base/Text/Numbers.antt =====
-- `parse` of an unsigned number, and that it reads back what `to_string` wrote.
use Prim.Native.Nat.{ℕ, zero, suc, ◌+◌, ◌*◌, ◌-◌, ◌/◌, ◌%◌, ◌≤◌, ◌<◌}
use Prim.Native.Char.{Char, code}
use Prim.Native.String.{String, ◌++◌}
use mathlib.Core.Path.{◌≡◌, refl, ap, ◌∙◌}
use mathlib.Core.Logic.{inl, inr}
use mathlib.Core.Bool.{Bool, true, false, ◌&&◌}
use mathlib.Core.Option.{Option, none, some}
use text.Mathlib.TextLemmas.{cons-append, nil-append}
use native.Mathlib.Omega.{arith}
use void_control.Base.Tests.{ltb, leb, ◌==◌, if◌then◌else◌, Bool-cases}
use void_control.Base.Chars.{AllChars, AllChars-append, cons_char}
use void_control.Base.Text.{decimal, decimal_fuel, digit, is_empty_text}

abbrev pub is_digit : Char → Bool
is_digit c = leb 48 (code c) && leb (code c) 57

-- The digits behind a number that was read before them.
unfoldable pub digits_value : ℕ → String → Option ℕ
digits_value a String.[] = some a
digits_value a (String.◌∷◌ c s) =
    let rest = digits_value (a * 10 + (code c - 48)) s in if is_digit c then rest else none

at_most : ℕ → Option ℕ → Option ℕ
at_most max none = none
at_most max (some n) = if leb n max then some n else none

-- One digit at least.
some_digits : String → Option ℕ
some_digits String.[] = none
some_digits (String.◌∷◌ c s) = digits_value 0 (cons_char c s)

-- `parse` of an unsigned number of at most `max`: digits behind an optional plus sign.
unfoldable pub parse_number : ℕ → String → Option ℕ
unfolding at_most some_digits digits_value
parse_number max String.[] = none
parse_number max (String.◌∷◌ c s) =
    if code c == 43
    then at_most max (some_digits s)
    else at_most max (digits_value 0 (cons_char c s))

abbrev and_then_digits : Option ℕ → String → Option ℕ
and_then_digits none t = none
and_then_digits (some a) t = digits_value a t

digits_value-append :
    (a : ℕ) (s t : String) → digits_value a (s ++ t) ≡ and_then_digits (digits_value a s) t
unfolding digits_value
digits_value-append a String.[] t = rw nil-append refl
digits_value-append a (String.◌∷◌ c s) t =
    rw cons-append (ground (arith, digits_value-append (a * 10 + (code c - 48)) s t))

-- What one digit is: a text of one character.
digit_lem :
    (d : ℕ)
    → d < 10
    → (c : Char) × (digit d ≡ cons_char c "") × (is_digit c ≡ true) × (code c - 48 ≡ d)
unfolding digit
digit_lem zero h = ("0", refl, refl, refl)
digit_lem (suc zero) h = ("1", refl, refl, refl)
digit_lem (suc (suc zero)) h = ("2", refl, refl, refl)
digit_lem (suc (suc (suc zero))) h = ("3", refl, refl, refl)
digit_lem (suc (suc (suc (suc zero)))) h = ("4", refl, refl, refl)
digit_lem (suc (suc (suc (suc (suc zero))))) h = ("5", refl, refl, refl)
digit_lem (suc (suc (suc (suc (suc (suc zero)))))) h = ("6", refl, refl, refl)
digit_lem (suc (suc (suc (suc (suc (suc (suc zero))))))) h = ("7", refl, refl, refl)
digit_lem (suc (suc (suc (suc (suc (suc (suc (suc zero)))))))) h = ("8", refl, refl, refl)
digit_lem (suc (suc (suc (suc (suc (suc (suc (suc (suc zero))))))))) h = ("9", refl, refl, refl)
digit_lem _ h = absurd (omega arith)

digits_value-digit : (a d : ℕ) → d < 10 → digits_value a (digit d) ≡ some (a * 10 + d)
unfolding digits_value
digits_value-digit a d h =
    let (c, e, is, v) = digit_lem d h in rw e (rw is (ap (λ n. some (a * 10 + n)) v))

digits_value-decimal_fuel : (f n : ℕ) → n < f → digits_value 0 (decimal_fuel f n) ≡ some n
unfolding decimal_fuel
digits_value-decimal_fuel zero n h = absurd (omega arith)
digits_value-decimal_fuel (suc f) n h = elim (Bool-cases (ltb n 10)) [
  | inl e ↦ rw e (digits_value-digit 0 n (ground arith) ∙ ap some (omega arith))
  | inr e ↦
      let big : 10 ≤ n = ground arith in
      let smaller : n / 10 < f = omega arith in
      let last : n % 10 < 10 = omega arith in
      let whole : n / 10 * 10 + n % 10 ≡ n = omega arith in
      rw e (
        digits_value-append 0 (decimal_fuel f (n / 10)) (digit (n % 10))
        ∙ ap (λ o. and_then_digits o (digit (n % 10)))
            (digits_value-decimal_fuel f (n / 10) smaller)
        ∙ digits_value-digit (n / 10) (n % 10) last
        ∙ ap some whole)
]

digits-decimal_fuel : (f n : ℕ) → AllChars is_digit (decimal_fuel f n)
unfolding decimal_fuel
digits-decimal_fuel zero n = tt
digits-decimal_fuel (suc f) n = elim (Bool-cases (ltb n 10)) [
  | inl e ↦ rw e (one n (ground arith))
  | inr e ↦ rw e (
      AllChars-append is_digit (decimal_fuel f (n / 10)) (digit (n % 10))
        (digits-decimal_fuel f (n / 10)) (one (n % 10) (omega arith)))
]
  where
    one : (d : ℕ) → d < 10 → AllChars is_digit (digit d)
    one d h = let (c, e, is, v) = digit_lem d h in rw e (is, tt)

-- The text of a number is made of digits.
pub decimal-AllChars : (n : ℕ) → AllChars is_digit (decimal n)
unfolding decimal
decimal-AllChars n = digits-decimal_fuel (suc n) n

is_empty_text-append : (s : String) (c : Char) → is_empty_text (s ++ cons_char c "") ≡ false
is_empty_text-append String.[] c = rw nil-append refl
is_empty_text-append (String.◌∷◌ d s) c = rw cons-append refl

-- The text of a number is never empty.
pub is_empty_text-decimal : (n : ℕ) → is_empty_text (decimal n) ≡ false
unfolding decimal decimal_fuel
is_empty_text-decimal n = elim (Bool-cases (ltb n 10)) [
  | inl e ↦ let (c, s, is, v) = digit_lem n (ground arith) in rw (e, s) refl
  | inr e ↦
      let last : n % 10 < 10 = omega arith in
      let (c, s, is, v) = digit_lem (n % 10) last in
      rw (e, s) (is_empty_text-append (decimal_fuel n (n / 10)) c)
]

parse_number-digits :
    (max n : ℕ) (s : String)
    → AllChars is_digit s
    → is_empty_text s ≡ false
    → digits_value 0 s ≡ some n
    → n ≤ max
    → parse_number max s ≡ some n
unfolding parse_number
parse_number-digits max n String.[] h e v le = absurd (ground arith)
parse_number-digits max n (String.◌∷◌ c s) h e v le =
    let no_plus : (code c == 43) ≡ false = ground (arith, h.0) in rw (no_plus, v) (ground arith)

-- A number that is not too large is read back from its text.
pub parse_number-decimal : (max n : ℕ) → n ≤ max → parse_number max (decimal n) ≡ some n
unfolding decimal
parse_number-decimal max n le =
    parse_number-digits max n (decimal_fuel (suc n) n) (digits-decimal_fuel (suc n) n)
      (is_empty_text-decimal n) (digits_value-decimal_fuel (suc n) n (omega arith)) le
