-- ===== src/Orchestration/Store/Records/Faithful.antt =====
-- src/orchestration/store/fs.rs: what the text files need of `serde_json`, and that the module of that name
-- gives it.
use void_control.Base.{
  ◌≡◌, refl, arith, Option, none, some, String, [], All, AllChars, is_plain, is_empty_text,
  if◌then◌else◌, ◌∙◌,
}
use void_control.Base.Map.{Map, IsOrdered}
use void_control.Orchestration.Store.{IoResult}
use void_control.Orchestration.Store.Lines.{transpose_filled, unwrap_or, invalid_data}
use void_control.Orchestration.Store.Records.{Texts}
use void_control.Orchestration.Store.Codec.{
  encode_map_string, decode_map_string, encode_map_f64, decode_map_f64,
}
use void_control.Orchestration.Store.Codec.RoundTrip.{
  decode_map_string-encode_map_string, encode_map_string-AllChars,
}
use void_control.Orchestration.Store.Codec.Numbers.{
  IsExactEntry, decode_map_f64-encode_map_f64, encode_map_f64-AllChars,
}

-- The text `t` is one line, and gives `a` back: an empty text, which is not parsed, for a default.
abbrev pub Carries : {A : Type 0} → (String → IoResult String A) → A → String → A → Type 0
Carries read otherwise t a =
    AllChars is_plain t
    × ((if is_empty_text t then IoResult.ok otherwise else read t) ≡ IoResult.ok a)

-- Maps with their keys in order are written in one line each and read back.
pub record IsFaithful {F : Type 0} (texts : Texts F) (IsExactNumber : String × F → Type 0)
    : Type 0 where
  pub map_carried :
      (m : Map String)
      → IsOrdered m
      → (t : String) × (texts.map_to_string m ≡ IoResult.ok t) × Carries texts.map_from_str [] t m
  pub numbers_carried :
      (m : Map F)
      → IsOrdered m
      → All IsExactNumber m
      → (t : String) × (texts.numbers_to_string m ≡ IoResult.ok t)
        × Carries texts.numbers_from_str [] t m

-- `mod serde_json`, with `to_string` and `parse` of `f64`.
abbrev pub local_json :
    {F : Type 0} → (F → String) → (String → IoResult String F) → (String → String) → Texts F
local_json text read parse_error = record {
  map_to_string = λ m. IoResult.ok (encode_map_string m);
  map_from_str = decode_map_string;
  numbers_to_string = λ m. IoResult.ok (encode_map_f64 text m);
  numbers_from_str = decode_map_f64 read;
  parse_error = parse_error;
}

decode_map_string-filled :
    (t : String)
    → (if is_empty_text t then IoResult.ok [] else decode_map_string t) ≡ decode_map_string t
unfolding decode_map_string
decode_map_string-filled t = ground arith

decode_map_f64-filled :
    {F : Type 0} (read : String → IoResult String F) (t : String)
    → (if is_empty_text t then IoResult.ok [] else decode_map_f64 read t) ≡ decode_map_f64 read t
unfolding decode_map_f64
decode_map_f64-filled read t = ground arith

-- The module serde_json of the build without serde writes every map of texts with its keys in order in one line
-- and reads it back; so too every map of numbers, where each number is read back from its text and has nothing
-- to escape in it.
pub local_json-IsFaithful :
    {F : Type 0} (text : F → String) (read : String → IoResult String F)
    (parse_error : String → String)
    → IsFaithful (local_json text read parse_error) (IsExactEntry text read)
local_json-IsFaithful text read parse_error = record {
  map_carried = λ m ordered. (
    encode_map_string m,
    refl,
    (
      encode_map_string-AllChars m,
      decode_map_string-filled (encode_map_string m)
          ∙ decode_map_string-encode_map_string m ordered,
    ),
  );
  numbers_carried = λ m ordered exact. (
    encode_map_f64 text m,
    refl,
    (
      encode_map_f64-AllChars text read m exact,
      decode_map_f64-filled read (encode_map_f64 text m)
          ∙ decode_map_f64-encode_map_f64 text read m ordered exact,
    ),
  );
}

-- A line that carries a value, read with its default.
pub transpose_filled-Carries :
    {A : Type 0} (read : String → IoResult String A) (otherwise : A) (t : String) (a : A)
    → Carries read otherwise t a
    → (x : Option A) × (transpose_filled (λ s. invalid_data (read s)) (some t) ≡ IoResult.ok x)
      × (unwrap_or otherwise x ≡ a)
unfolding transpose_filled invalid_data
transpose_filled-Carries read otherwise String.[] a (plain, h) = (none, refl, ground arith)
transpose_filled-Carries read otherwise (String.◌∷◌ c t) a (plain, h) = (some a, rw h refl, refl)
