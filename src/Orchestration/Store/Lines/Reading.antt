-- ===== src/Orchestration/Store/Lines/Reading.antt =====
-- src/orchestration/store/fs.rs: the lines of a file that was written line by line.
use void_control.Base.{
  ◌≡◌, arith, ℕ, false, String, [], ◌∷◌, ◌&◌, AllChars, is_plain, is_empty_text, lines,
  lines-append, lines-whole, decimal, decimal-AllChars, is_empty_text-decimal, is_digit,
}
use text.Mathlib.TextLemmas.{cons-append, nil-append}

-- One line of a file, and the rest of it.
pub lines-cons : (l r : String) → AllChars is_plain l → lines (l & "\n" & r) ≡ l ∷ lines r
lines-cons l r h = rw (cons-append, nil-append) (lines-append l r h)

digits_are_plain : (s : String) → AllChars is_digit s → AllChars is_plain s
digits_are_plain String.[] h = tt
digits_are_plain (String.◌∷◌ c s) h = (ground (arith, h.0), digits_are_plain s h.1)

pub decimal-is_plain : (n : ℕ) → AllChars is_plain (decimal n)
decimal-is_plain n = digits_are_plain (decimal n) (decimal-AllChars n)

-- The last line of a file, which ends in no newline.
pub lines-last : (l : String) → AllChars is_plain l → is_empty_text l ≡ false → lines l ≡ l ∷ []
lines-last String.[] h e = absurd (ground arith)
lines-last (String.◌∷◌ c l) h e = lines-whole c l h

pub lines-decimal : (n : ℕ) → lines (decimal n) ≡ decimal n ∷ []
lines-decimal n = lines-last (decimal n) (decimal-is_plain n) (is_empty_text-decimal n)
