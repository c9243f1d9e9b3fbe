-- ===== src/Base/Chars.antt =====
-- Rust's texts by their characters: `push`, `join`, `split`, `split_once` and `lines`.
use Prim.Native.Char.{Char, code}
use Prim.Native.String.{String, ◌++◌}
use mathlib.Core.Path.{◌≡◌, refl}
use mathlib.Core.Bool.{Bool, true, false, not, ◌&&◌, ◌||◌}
use mathlib.Core.Option.{Option, none, some}
use mathlib.Core.List.{List, [], ◌∷◌}
use text.Mathlib.TextLemmas.{cons-append, nil-append}
use text.Mathlib.TextLemmas
use text.Mathlib.TextEquality.{Char-path}
use native.Mathlib.Omega.{arith}
use void_control.Base.Tests.{◌==◌, if◌then◌else◌}

abbrev pub same_char : Char → Char → Bool
same_char c d = code c == code d

pub char_of_same : (c d : Char) → same_char c d ≡ true → c ≡ d
char_of_same c d h = Char-path c d (ground arith)

-- A text that begins with a character.
abbrev pub cons_char : Char → String → String
cons_char c s = String.◌∷◌ c s

-- `String::push`
abbrev pub push : String → Char → String
push s c = s ++ String.◌∷◌ c ""

pub push-append : (s : String) (c : Char) (t : String) → push s c ++ t ≡ s ++ cons_char c t
push-append s c t = rw (TextLemmas.append_assoc, cons-append, nil-append) refl

-- A predicate of every character.
abbrev pub AllChars : (Char → Bool) → String → Type 0
AllChars p String.[] = Unit {0}
AllChars p (String.◌∷◌ c s) = (p c ≡ true) × AllChars p s

pub AllChars-append :
    (p : Char → Bool) (s t : String) → AllChars p s → AllChars p t → AllChars p (s ++ t)
AllChars-append p String.[] t h k = rw nil-append k
AllChars-append p (String.◌∷◌ c s) t h k = rw cons-append (h.0, AllChars-append p s t h.1 k)

-- `split(d)`
abbrev push_first : Char → List String → List String
push_first c [] = cons_char c "" ∷ []
push_first c (l ∷ ls) = cons_char c l ∷ ls

unfoldable pub split : Char → String → List String
split d String.[] = "" ∷ []
split d (String.◌∷◌ c s) =
    let rest = split d s in if same_char c d then "" ∷ rest else push_first c rest

abbrev pub not_char : Char → Char → Bool
not_char d c = not (same_char c d)

pub split-append :
    (d : Char) (l r : String)
    → AllChars (not_char d) l
    → split d (l ++ cons_char d r) ≡ l ∷ split d r
unfolding split
split-append d String.[] r h = rw nil-append (ground arith)
split-append d (String.◌∷◌ c l) r h = rw cons-append (ground (arith, split-append d l r h.1))

pub split-whole : (d : Char) (l : String) → AllChars (not_char d) l → split d l ≡ l ∷ []
unfolding split
split-whole d String.[] h = refl
split-whole d (String.◌∷◌ c l) h = ground (arith, split-whole d l h.1)

abbrev push_left : Char → Option (String × String) → Option (String × String)
push_left c none = none
push_left c (some (l, r)) = some (cons_char c l, r)

-- `split_once(d)`
unfoldable pub split_once : Char → String → Option (String × String)
split_once d String.[] = none
split_once d (String.◌∷◌ c s) =
    let rest = split_once d s in if same_char c d then some ("", s) else push_left c rest

pub split_once-append :
    (d : Char) (l r : String)
    → AllChars (not_char d) l
    → split_once d (l ++ cons_char d r) ≡ some (l, r)
unfolding split_once
split_once-append d String.[] r h = rw nil-append (ground arith)
split_once-append d (String.◌∷◌ c l) r h =
    rw cons-append (ground (arith, split_once-append d l r h.1))

starts_with_newline : String → Bool
starts_with_newline String.[] = false
starts_with_newline (String.◌∷◌ c s) = code c == 10

-- `lines()`: a line ends at a newline, with the carriage return before it where there is one.
unfoldable pub lines : String → List String
unfolding starts_with_newline
lines String.[] = []
lines (String.◌∷◌ c s) =
    let rest = lines s in
    if code c == 10
    then "" ∷ rest
    else if code c == 13 && starts_with_newline s
    then rest
    else push_first c rest

-- Neither a newline nor a carriage return.
abbrev pub is_plain : Char → Bool
is_plain c = not (code c == 10 || code c == 13)

pub lines-append :
    (l r : String) → AllChars is_plain l → lines (l ++ cons_char "\n" r) ≡ l ∷ lines r
unfolding lines
lines-append String.[] r h = rw nil-append refl
lines-append (String.◌∷◌ c l) r h = rw cons-append (ground (arith, lines-append l r h.1))

pub lines-whole :
    (c : Char) (l : String)
    → AllChars is_plain (cons_char c l)
    → lines (cons_char c l) ≡ cons_char c l ∷ []
unfolding lines
lines-whole c String.[] h = ground arith
lines-whole c (String.◌∷◌ d l) h = ground (arith, lines-whole d l h.1)

-- `join(separator)`
unfoldable pub join : String → List String → String
join separator [] = ""
join separator (s ∷ []) = s
join separator (s ∷ t ∷ ss) = s ++ separator ++ join separator (t ∷ ss)
