-- ===== src/Orchestration/Store/Codec/Numbers.antt =====
-- src/orchestration/store/fs.rs, module serde_json: what is decoded from the text of a map of
-- numbers.
use Prim.Native.String.{String, ◌++◌}
use text.Mathlib.TextLemmas.{cons-append, nil-append}
use void_control.Base.{
  ◌≡◌, refl, sym, ap, ◌∙◌, false, [], ◌∷◌, map, AllChars, AllChars-append, All, is_plain,
  is_empty_text, join, subst,
}
use void_control.Base.Map.{Map, IsOrdered, insert, insert_all, insert_all-ordered}
use void_control.Orchestration.Store.{IoResult, ◌>>=◌}
use void_control.Orchestration.Store.Codec.{
  escape, split_once_escaped, encode_number, encode_map_f64, decode_number, decode_numbers,
  decode_map_f64,
}
use void_control.Orchestration.Store.Codec.Escaping.{unescape-escape, escape-AllChars}
use void_control.Orchestration.Store.Codec.Splitting.{
  IsPart, split_escaped-join, pair-IsPart, split_once_escaped-pair, is_empty_text-join,
  is_empty_text-pair, join-AllChars,
}

module _ {F : Type 0} (text : F → String) (read : String → IoResult String F) where
  -- The text of the number holds nothing to escape, and `parse` reads the number back.
  abbrev pub IsExact : F → Type 0
  IsExact x = (escape (text x) ≡ text x) × (read (text x) ≡ IoResult.ok x)

  abbrev pub IsExactEntry : String × F → Type 0
  IsExactEntry e = IsExact e.1

  encode_number-pair :
      (k : String) (x : F)
      → IsExact x
      → encode_number text (k, x) ≡ escape k ++ "=" ++ escape (text x)
  unfolding encode_number
  encode_number-pair k x h = ap (λ t. escape k ++ "=" ++ t) (sym h.0)

  numbers-IsPart : (m : Map F) → All IsExactEntry m → All IsPart (map (encode_number text) m)
  numbers-IsPart [] h = tt
  numbers-IsPart ((k, x) ∷ m) h = (
    subst IsPart (sym (encode_number-pair k x h.0)) (pair-IsPart k (text x)),
    numbers-IsPart m h.1,
  )

  decode_number-encode_number :
      (pair k : String) (x : F) (m : Map F)
      → IsExact x
      → decode_number read pair (split_once_escaped (encode_number text (k, x)) "=") m
        ≡ IoResult.ok (insert k x m)
  unfolding decode_number
  decode_number-encode_number pair k x m h =
      rw
        (
          encode_number-pair k x h,
          split_once_escaped-pair k (text x),
          unescape-escape (text x),
          h.1,
          unescape-escape k,
        )
        refl

  decode_numbers-encode_number :
      (l m : Map F)
      → All IsExactEntry l
      → decode_numbers read (map (encode_number text) l) m ≡ IoResult.ok (insert_all l m)
  decode_numbers-encode_number [] m h = unfold decode_numbers in refl
  decode_numbers-encode_number ((k, x) ∷ l) m h =
      step ∙ decode_numbers-encode_number l (insert k x m) h.1
    where
      step :
          decode_numbers read (encode_number text (k, x) ∷ map (encode_number text) l) m
          ≡ decode_numbers read (map (encode_number text) l) (insert k x m)
      step =
          unfold decode_numbers in
          (ap (λ r. r >>= decode_numbers read (map (encode_number text) l))
            (decode_number-encode_number (encode_number text (k, x)) k x m h.0))

  -- A map of numbers with its keys in order is decoded from the text that it is encoded to, where
  -- each of its numbers is read back from its text and has nothing to escape in it.
  pub decode_map_f64-encode_map_f64 :
      (m : Map F)
      → IsOrdered m
      → All IsExactEntry m
      → decode_map_f64 read (encode_map_f64 text m) ≡ IoResult.ok m
  unfolding decode_map_f64 encode_map_f64
  decode_map_f64-encode_map_f64 [] ordered exact = unfold join in refl
  decode_map_f64-encode_map_f64 ((k, x) ∷ m) ordered exact =
      rw (is_empty_text-join (encode_number text (k, x)) (map (encode_number text) m) filled) (
        ap (λ ps. decode_numbers read ps [])
          (split_escaped-join (encode_number text (k, x)) (map (encode_number text) m)
            (numbers-IsPart ((k, x) ∷ m) exact))
        ∙ decode_numbers-encode_number ((k, x) ∷ m) [] exact
        ∙ ap IoResult.ok (insert_all-ordered ((k, x) ∷ m) ordered))
    where
      filled : is_empty_text (encode_number text (k, x)) ≡ false
      filled = rw (encode_number-pair k x exact.0) (is_empty_text-pair (escape k) (escape (text x)))

  numbers-AllChars :
      (m : Map F) → All IsExactEntry m → All (AllChars is_plain) (map (encode_number text) m)
  numbers-AllChars [] h = tt
  numbers-AllChars ((k, x) ∷ m) h =
      (subst (AllChars is_plain) (sym (encode_number-pair k x h.0)) pair, numbers-AllChars m h.1)
    where
      pair : AllChars is_plain (escape k ++ "=" ++ escape (text x))
      pair =
          AllChars-append is_plain (escape k) ("=" ++ escape (text x)) (escape-AllChars k)
            (rw (cons-append, nil-append) (refl, escape-AllChars (text x)))

  pub encode_map_f64-AllChars :
      (m : Map F) → All IsExactEntry m → AllChars is_plain (encode_map_f64 text m)
  unfolding encode_map_f64
  encode_map_f64-AllChars m h = join-AllChars (map (encode_number text) m) (numbers-AllChars m h)
