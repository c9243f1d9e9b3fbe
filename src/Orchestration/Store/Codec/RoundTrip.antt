-- ===== src/Orchestration/Store/Codec/RoundTrip.antt =====
-- src/orchestration/store/fs.rs, module serde_json: what is decoded from the text of a map or of a list.
use Prim.Native.Char.{Char}
use Prim.Native.String.{String, ◌++◌}
use text.Mathlib.TextLemmas.{cons-append, nil-append}
use void_control.Base.{
  ◌≡◌, ◌≢◌, ◌↔◌, refl, ap, ◌∙◌, inl, inr, false, List, [], ◌∷◌, map, cons_char, AllChars,
  AllChars-append, All, is_plain, is_empty_text, join, subst,
}
use void_control.Base.Map.{Map, IsOrdered, insert, insert_all, insert_all-ordered}
use void_control.Orchestration.Store.{IoResult, ◌>>=◌}
use void_control.Orchestration.Store.Codec.{
  escape, split_once_escaped, encode_entry, encode_map_string, encode_list, decode_entry,
  decode_pairs, decode_map_string, unescape_all, decode_list,
}
use void_control.Orchestration.Store.Codec.Escaping.{
  escape_char_lem, unescape-escape, escape-AllChars,
}
use void_control.Orchestration.Store.Codec.Splitting.{
  IsPart, split_escaped-join, escape-IsPart, pair-IsPart, split_once_escaped-pair,
  is_empty_text-append, is_empty_text-join, is_empty_text-pair, join-AllChars,
}

entries-IsPart : (m : Map String) → All IsPart (map encode_entry m)
unfolding encode_entry
entries-IsPart [] = tt
entries-IsPart ((k, v) ∷ m) = (pair-IsPart k v, entries-IsPart m)

decode_entry-encode_entry :
    (pair k v : String) (m : Map String)
    → decode_entry pair (split_once_escaped (encode_entry (k, v)) "=") m
      ≡ IoResult.ok (insert k v m)
unfolding encode_entry decode_entry
decode_entry-encode_entry pair k v m =
    rw (split_once_escaped-pair k v, unescape-escape k, unescape-escape v) refl

decode_pairs-encode_entry :
    (l m : Map String) → decode_pairs (map encode_entry l) m ≡ IoResult.ok (insert_all l m)
decode_pairs-encode_entry [] m = unfold decode_pairs in refl
decode_pairs-encode_entry ((k, v) ∷ l) m = step ∙ decode_pairs-encode_entry l (insert k v m)
  where
    step :
        decode_pairs (encode_entry (k, v) ∷ map encode_entry l) m
        ≡ decode_pairs (map encode_entry l) (insert k v m)
    step =
        unfold decode_pairs in
        (ap (λ r. r >>= decode_pairs (map encode_entry l))
          (decode_entry-encode_entry (encode_entry (k, v)) k v m))

-- A map of texts with its keys in order, as a `BTreeMap` has them, is decoded from the text that it is
-- encoded to, whatever characters its keys and values hold.
pub decode_map_string-encode_map_string :
    (m : Map String) → IsOrdered m → decode_map_string (encode_map_string m) ≡ IoResult.ok m
unfolding decode_map_string encode_map_string
decode_map_string-encode_map_string [] ordered = unfold join in refl
decode_map_string-encode_map_string ((k, v) ∷ m) ordered =
    rw (is_empty_text-join (encode_entry (k, v)) (map encode_entry m) filled) (
      ap (λ ps. decode_pairs ps [])
        (split_escaped-join (encode_entry (k, v)) (map encode_entry m)
          (entries-IsPart ((k, v) ∷ m)))
      ∙ decode_pairs-encode_entry ((k, v) ∷ m) []
      ∙ ap IoResult.ok (insert_all-ordered ((k, v) ∷ m) ordered))
  where
    filled : is_empty_text (encode_entry (k, v)) ≡ false
    filled = unfold encode_entry in (is_empty_text-pair (escape k) (escape v))

escaped-IsPart : (l : List String) → All IsPart (map escape l)
escaped-IsPart [] = tt
escaped-IsPart (s ∷ l) = (escape-IsPart s, escaped-IsPart l)

unescape_all-escape : (l : List String) → unescape_all (map escape l) ≡ IoResult.ok l
unfolding unescape_all
unescape_all-escape [] = refl
unescape_all-escape (s ∷ l) = rw (unescape-escape s) (rw (unescape_all-escape l) refl)

is_empty_text-escape : (c : Char) (s : String) → is_empty_text (escape (cons_char c s)) ≡ false
is_empty_text-escape c s =
    unfold escape in
    (elim (escape_char_lem c) [
      | inl (e, b, m, q, p) ↦ rw (e, cons-append) refl
      | inr (d, e, u, plain) ↦ rw (e, cons-append) refl
    ])

encoded-empty : decode_list (encode_list []) ≡ IoResult.ok []
unfolding decode_list encode_list join
encoded-empty = refl

encoded-one_empty : decode_list (encode_list ("" ∷ [])) ≡ IoResult.ok []
unfolding decode_list encode_list join escape
encoded-one_empty = refl

encoded-one : (c : Char) (s : String) → is_empty_text (encode_list (cons_char c s ∷ [])) ≡ false
unfolding encode_list
encoded-one c s = is_empty_text-join (escape (cons_char c s)) [] (is_empty_text-escape c s)

encoded-two : (s t : String) (l : List String) → is_empty_text (encode_list (s ∷ t ∷ l)) ≡ false
unfolding encode_list join
encoded-two s t l =
    rw (cons-append, nil-append)
      (is_empty_text-append (escape s) ";" (join ";" (escape t ∷ map escape l)))

decode_list-filled :
    (s : String) (l : List String)
    → is_empty_text (encode_list (s ∷ l)) ≡ false
    → decode_list (encode_list (s ∷ l)) ≡ IoResult.ok (s ∷ l)
unfolding decode_list encode_list
decode_list-filled s l h = rw h (
    ap unescape_all (split_escaped-join (escape s) (map escape l) (escaped-IsPart (s ∷ l)))
    ∙ unescape_all-escape (s ∷ l))

-- A list of texts is decoded from the text that it is encoded to exactly when it is not the list of
-- one empty text, whatever characters its texts hold.
pub decode_list-encode_list_iff :
    (l : List String) → (decode_list (encode_list l) ≡ IoResult.ok l) ↔ (l ≢ "" ∷ [])
decode_list-encode_list_iff l =
    (λ h e. lost (subst (λ k. decode_list (encode_list k) ≡ IoResult.ok k) e h), kept l)
  where
    lost : decode_list (encode_list ("" ∷ [])) ≢ IoResult.ok ("" ∷ [])
    lost h = cc (encoded-one_empty, h)

    kept : (l : List String) → l ≢ "" ∷ [] → decode_list (encode_list l) ≡ IoResult.ok l
    kept [] h = encoded-empty
    kept (String.[] ∷ []) h = absurd (h refl)
    kept (String.◌∷◌ c s ∷ []) h = decode_list-filled (cons_char c s) [] (encoded-one c s)
    kept (s ∷ t ∷ l) h = decode_list-filled s (t ∷ l) (encoded-two s t l)

-- The text of a map is one line.
entries-AllChars : (m : Map String) → All (AllChars is_plain) (map encode_entry m)
unfolding encode_entry
entries-AllChars [] = tt
entries-AllChars ((k, v) ∷ m) = (
  AllChars-append is_plain (escape k) ("=" ++ escape v) (escape-AllChars k)
      (rw (cons-append, nil-append) (refl, escape-AllChars v)),
  entries-AllChars m,
)

pub encode_map_string-AllChars : (m : Map String) → AllChars is_plain (encode_map_string m)
unfolding encode_map_string
encode_map_string-AllChars m = join-AllChars (map encode_entry m) (entries-AllChars m)
