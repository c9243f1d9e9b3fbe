-- ===== src/Base/Text/Trim.antt =====
-- `trim` leaves a text with solid ends as it is.
use Prim.Native.Nat.{ℕ}
use Prim.Native.Char.{Char, code}
use Prim.Native.String.{String, ◌++◌}
use mathlib.Core.Path.{◌≡◌, refl, ap, ◌∙◌}
use mathlib.Core.Bool.{Bool, true, false, not}
use text.Mathlib.TextLemmas.{cons-append, nil-append}
use native.Mathlib.Omega.{arith}
use void_control.Base.Chars.{AllChars}
use void_control.Base.Text.{is_whitespace, trim_start, trim_end, trim, decimal, is_empty_text}
use void_control.Base.Text.Numbers.{is_digit, decimal-AllChars, is_empty_text-decimal}

abbrev pub starts_solid : String → Bool
starts_solid String.[] = true
starts_solid (String.◌∷◌ c s) = not (is_whitespace (code c))

abbrev is_solid : Char → Bool
is_solid c = not (is_whitespace (code c))

digit_is_solid : (c : Char) → is_digit c ≡ true → is_solid c ≡ true
unfolding is_whitespace
digit_is_solid c h = ground arith

digits_are_solid : (s : String) → AllChars is_digit s → AllChars is_solid s
digits_are_solid String.[] h = tt
digits_are_solid (String.◌∷◌ c s) h = (digit_is_solid c h.0, digits_are_solid s h.1)

trim_end-solid : (s : String) → AllChars is_solid s → trim_end s ≡ s
unfolding trim_end
trim_end-solid String.[] h = refl
trim_end-solid (String.◌∷◌ c s) h = ground (arith, trim_end-solid s h.1)

is_empty_text-behind : (s t : String) → is_empty_text t ≡ false → is_empty_text (s ++ t) ≡ false
is_empty_text-behind String.[] t h = rw nil-append h
is_empty_text-behind (String.◌∷◌ c s) t h = rw cons-append refl

trim_end-append :
    (s t : String) → trim_end t ≡ t → is_empty_text t ≡ false → trim_end (s ++ t) ≡ s ++ t
unfolding trim_end
trim_end-append String.[] t e h = rw nil-append e
trim_end-append (String.◌∷◌ c s) t e h =
    rw cons-append (ground (arith, trim_end-append s t e h, is_empty_text-behind s t h))

trim_start-solid : (s : String) → starts_solid s ≡ true → trim_start s ≡ s
unfolding trim_start
trim_start-solid String.[] h = refl
trim_start-solid (String.◌∷◌ c s) h = ground arith

-- A text that starts solid and ends in a number is trimmed.
pub trim-decimal :
    (s : String) (n : ℕ)
    → starts_solid (s ++ decimal n) ≡ true
    → trim (s ++ decimal n) ≡ s ++ decimal n
unfolding trim
trim-decimal s n h =
    ap trim_start (
      trim_end-append s (decimal n)
        (trim_end-solid (decimal n) (digits_are_solid (decimal n) (decimal-AllChars n)))
        (is_empty_text-decimal n))
    ∙ trim_start-solid (s ++ decimal n) h
