-- ===== src/Orchestration/Store/Codec/Escaping.antt =====
-- src/orchestration/store/fs.rs, module serde_json: what `escape` writes, `unescape` reads back, and the
-- splitting functions keep it whole.
use Prim.Native.Char.{Char}
use Prim.Native.String.{String, ◌++◌}
use text.Mathlib.TextLemmas.{cons-append, nil-append}
use text.Mathlib.TextLemmas
use void_control.Base.{
  ◌≡◌, refl, sym, ap, ◌∙◌, ◌⊎◌, inl, inr, true, false, arith, Bool-cases, same_char, char_of_same,
  cons_char, push, push-append, AllChars, AllChars-append, is_plain,
}
use void_control.Orchestration.Store.{IoResult}
use void_control.Orchestration.Store.Codec.{
  escape_char, escape, unescape_char, unescape_from, unescape, split_escaped_from, split_left_from,
  split_right_from,
}

-- Written as it is: neither a backslash, nor a separator, nor the end of a line.
abbrev pub IsKept : Char → Type 0
IsKept c =
    (escape_char c ≡ cons_char c "")
    × (same_char c "\\" ≡ false)
    × (same_char c ";" ≡ false)
    × (same_char c "=" ≡ false)
    × (is_plain c ≡ true)

-- Written as a backslash and a character that stands for it.
abbrev pub IsEscaped : Char → Type 0
IsEscaped c =
    (d : Char) × (escape_char c ≡ cons_char "\\" (cons_char d ""))
    × (unescape_char d ≡ c)
    × (is_plain d ≡ true)

IsEscaped-same :
    (c d e : Char)
    → same_char c d ≡ true
    → escape_char d ≡ cons_char "\\" (cons_char e "")
    → unescape_char e ≡ d
    → is_plain e ≡ true
    → IsEscaped c
IsEscaped-same c d e same written read plain =
    let p : c ≡ d = char_of_same c d same in (e, ap escape_char p ∙ written, read ∙ sym p, plain)

pub escape_char_lem : (c : Char) → IsKept c ⊎ IsEscaped c
unfolding escape_char unescape_char
escape_char_lem c = elim (Bool-cases (same_char c "\\")) [
  | inl e ↦ inr (IsEscaped-same c "\\" "\\" e refl refl refl)
  | inr backslash ↦ elim (Bool-cases (same_char c ";")) [
    | inl e ↦ inr (IsEscaped-same c ";" ";" e refl refl refl)
    | inr semicolon ↦ elim (Bool-cases (same_char c "=")) [
      | inl e ↦ inr (IsEscaped-same c "=" "=" e refl refl refl)
      | inr equals ↦ elim (Bool-cases (same_char c "\n")) [
        | inl e ↦ inr (IsEscaped-same c "\n" "n" e refl refl refl)
        | inr newline ↦ elim (Bool-cases (same_char c "\r")) [
          | inl e ↦ inr (IsEscaped-same c "\r" "r" e refl refl refl)
          | inr return ↦ elim (Bool-cases (same_char c "\t")) [
            | inl e ↦ inr (IsEscaped-same c "\t" "t" e refl refl refl)
            | inr tab ↦ inl (
              rw (backslash, semicolon, equals, newline, return, tab) refl,
              backslash,
              semicolon,
              equals,
              ground arith,
            )
          ]
        ]
      ]
    ]
  ]
]

-- `escape` writes no end of a line.
pub escape-AllChars : (s : String) → AllChars is_plain (escape s)
unfolding escape
escape-AllChars String.[] = tt
escape-AllChars (String.◌∷◌ c s) =
    AllChars-append is_plain (escape_char c) (escape s) (one (escape_char_lem c))
      (escape-AllChars s)
  where
    one : IsKept c ⊎ IsEscaped c → AllChars is_plain (escape_char c)
    one (inl (e, b, m, q, p)) = rw e (p, tt)
    one (inr (d, e, u, p)) = rw e (refl, (p, tt))

unescape_from-escape_char :
    (output : String) (c : Char) (t : String)
    → unescape_from output false (escape_char c ++ t) ≡ unescape_from (push output c) false t
unfolding unescape_from
unescape_from-escape_char output c t = elim (escape_char_lem c) [
  | inl (e, b, m, q, p) ↦ rw (e, cons-append, nil-append) (ground arith)
  | inr (d, e, u, plain) ↦
      rw (e, cons-append, cons-append, nil-append)
        (ap (λ a. unescape_from (push output a) false t) u)
]

-- The loop of `unescape` takes what `escape` wrote of `s` for `s`.
unescape_from-escape :
    (output s t : String)
    → unescape_from output false (escape s ++ t) ≡ unescape_from (output ++ s) false t
unfolding escape
unescape_from-escape output String.[] t = rw (nil-append, TextLemmas.append-nil) refl
unescape_from-escape output (String.◌∷◌ c s) t =
    rw (TextLemmas.append_assoc) (unescape_from-escape_char output c (escape s ++ t))
    ∙ unescape_from-escape (push output c) s t
    ∙ ap (λ o. unescape_from o false t) (push-append output c s)

pub unescape-escape : (s : String) → unescape (escape s) ≡ IoResult.ok s
unfolding unescape
unescape-escape s =
    ap (unescape_from "" false) (sym (TextLemmas.append-nil (escape s)))
    ∙ unescape_from-escape "" s ""
    ∙ unfold unescape_from in (ap IoResult.ok (nil-append s))

-- A loop that copies what `escape` writes for each character copies all of it.
copied :
    {A : Type 0} (loop : String → String → A)
    → ((o : String) (c : Char) (t : String)
        → loop o (escape_char c ++ t) ≡ loop (o ++ escape_char c) t)
    → (o s t : String) → loop o (escape s ++ t) ≡ loop (o ++ escape s) t
unfolding escape
copied loop one o String.[] t = rw (nil-append, TextLemmas.append-nil) refl
copied loop one o (String.◌∷◌ c s) t =
    ap (loop o) (TextLemmas.append_assoc (escape_char c) (escape s) t)
    ∙ one o c (escape s ++ t)
    ∙ copied loop one (o ++ escape_char c) s t
    ∙ ap (λ r. loop r t) (TextLemmas.append_assoc o (escape_char c) (escape s))

abbrev pub IsSeparator : Char → Type 0
IsSeparator d = (d ≡ ";") ⊎ (d ≡ "=")

kept-no_separator : (c d : Char) → IsSeparator d → IsKept c → same_char c d ≡ false
kept-no_separator c d (inl e) (w, b, m, q, p) = rw e m
kept-no_separator c d (inr e) (w, b, m, q, p) = rw e q

pushed_twice : (o : String) (c d : Char) → push (push o c) d ≡ o ++ cons_char c (cons_char d "")
pushed_twice o c d = push-append o c (cons_char d "")

pub split_escaped_from-escape :
    (d : Char) (o s t : String)
    → IsSeparator d
    → split_escaped_from d o false (escape s ++ t) ≡ split_escaped_from d (o ++ escape s) false t
split_escaped_from-escape d o s t is = copied (λ o t. split_escaped_from d o false t) one o s t
  where
    one :
        (o : String) (c : Char) (t : String)
        → split_escaped_from d o false (escape_char c ++ t)
          ≡ split_escaped_from d (o ++ escape_char c) false t
    one o c t = elim (escape_char_lem c) [
      | inl k ↦
          rw (k.0, cons-append, nil-append)
            (unfold split_escaped_from in (ground (arith, kept-no_separator c d is k)))
      | inr (e, w, u, plain) ↦
          rw (w, cons-append, cons-append, nil-append)
            (unfold split_escaped_from in
              (ap (λ r. split_escaped_from d r false t) (pushed_twice o "\\" e)))
    ]

pub split_left_from-escape :
    (d : Char) (o s t : String)
    → IsSeparator d
    → split_left_from d o false (escape s ++ t) ≡ split_left_from d (o ++ escape s) false t
split_left_from-escape d o s t is = copied (λ o t. split_left_from d o false t) one o s t
  where
    one :
        (o : String) (c : Char) (t : String)
        → split_left_from d o false (escape_char c ++ t)
          ≡ split_left_from d (o ++ escape_char c) false t
    one o c t = elim (escape_char_lem c) [
      | inl k ↦
          rw (k.0, cons-append, nil-append)
            (unfold split_left_from in (ground (arith, kept-no_separator c d is k)))
      | inr (e, w, u, plain) ↦
          rw (w, cons-append, cons-append, nil-append)
            (unfold split_left_from in
              (ap (λ r. split_left_from d r false t) (pushed_twice o "\\" e)))
    ]

pub split_right_from-escape :
    (o s t : String)
    → split_right_from o false (escape s ++ t) ≡ split_right_from (o ++ escape s) false t
split_right_from-escape = copied (λ o t. split_right_from o false t) one
  where
    one :
        (o : String) (c : Char) (t : String)
        → split_right_from o false (escape_char c ++ t)
          ≡ split_right_from (o ++ escape_char c) false t
    one o c t = elim (escape_char_lem c) [
      | inl (w, b, m, q, p) ↦
          rw (w, cons-append, nil-append) (unfold split_right_from in (ground arith))
      | inr (e, w, u, plain) ↦
          rw (w, cons-append, cons-append, nil-append)
            (unfold split_right_from in
              (ap (λ r. split_right_from r false t) (pushed_twice o "\\" e)))
    ]
