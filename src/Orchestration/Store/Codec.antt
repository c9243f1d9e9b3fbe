-- ===== src/Orchestration/Store/Codec.antt =====
-- src/orchestration/store/fs.rs, module serde_json: maps and lists as one line of text, for a build without
-- serde. The error is its text. `F` is the type of `f64`; its `to_string` and `parse` are parameters.
pub mod Escaping
pub mod Splitting
pub mod RoundTrip
pub mod Numbers
use Prim.Native.Char.{Char, code}
use void_control.Base.{
  Bool, true, false, not, ◌&&◌, Option, none, some, String, List, [], ◌∷◌, map, if◌then◌else◌, ◌==◌,
  ◌&◌, same_char, cons_char, push, is_empty_text, join,
}
use void_control.Base.Map.{Map, insert}
use void_control.Orchestration.Store.{IoResult, map_ok, and_then, ◌>>=◌}

-- What `escape` appends for one character.
unfoldable pub escape_char : Char → String
escape_char c =
    if same_char c "\\"
    then "\\\\"
    else if same_char c ";"
    then "\\;"
    else if same_char c "="
    then "\\="
    else if same_char c "\n"
    then "\\n"
    else if same_char c "\r"
    then "\\r"
    else if same_char c "\t"
    then "\\t"
    else cons_char c ""

unfoldable pub escape : String → String
unfolding escape_char
escape String.[] = ""
escape (String.◌∷◌ c s) = escape_char c & escape s

-- What stands for an escaped character.
unfoldable pub unescape_char : Char → Char
unescape_char c =
    if same_char c "n"
    then "\n"
    else if same_char c "r"
    then "\r"
    else if same_char c "t"
    then "\t"
    else c

-- The loop of `unescape`: the output so far, and whether the last character was a backslash.
unfoldable pub unescape_from : String → Bool → String → IoResult String String
unfolding unescape_char
unescape_from output true String.[] = IoResult.err "dangling escape sequence"
unescape_from output false String.[] = IoResult.ok output
unescape_from output true (String.◌∷◌ c s) = unescape_from (push output (unescape_char c)) false s
unescape_from output false (String.◌∷◌ c s) =
    let escaped = unescape_from output true s in
    let pushed = unescape_from (push output c) false s in
    if same_char c "\\" then escaped else pushed

unfoldable pub unescape : String → IoResult String String
unescape value = unescape_from "" false value

-- The loop of `split_escaped`: the part so far, and whether the last character was a backslash.
unfoldable pub split_escaped_from : Char → String → Bool → String → List String
split_escaped_from separator current escaped String.[] =
    (if escaped then push current "\\" else current) ∷ []
split_escaped_from separator current true (String.◌∷◌ c s) =
    split_escaped_from separator (push (push current "\\") c) false s
split_escaped_from separator current false (String.◌∷◌ c s) =
    let after_backslash = split_escaped_from separator current true s in
    let after_separator = split_escaped_from separator "" false s in
    let pushed = split_escaped_from separator (push current c) false s in
    if same_char c "\\"
    then after_backslash
    else if same_char c separator
    then current ∷ after_separator
    else pushed

unfoldable pub split_escaped : String → Char → List String
split_escaped value separator = split_escaped_from separator "" false value

-- The loop of `split_once_escaped`, before the separator and behind it. A backslash at the end is
-- dropped.
unfoldable pub split_right_from : String → Bool → String → String
split_right_from right escaped String.[] = right
split_right_from right true (String.◌∷◌ c s) = split_right_from (push (push right "\\") c) false s
split_right_from right false (String.◌∷◌ c s) =
    let after_backslash = split_right_from right true s in
    let pushed = split_right_from (push right c) false s in
    if same_char c "\\" then after_backslash else pushed

unfoldable pub split_left_from : Char → String → Bool → String → Option (String × String)
split_left_from separator left escaped String.[] = none
split_left_from separator left true (String.◌∷◌ c s) =
    split_left_from separator (push (push left "\\") c) false s
split_left_from separator left false (String.◌∷◌ c s) =
    let after_backslash = split_left_from separator left true s in
    let pushed = split_left_from separator (push left c) false s in
    if same_char c "\\"
    then after_backslash
    else if same_char c separator
    then some (left, split_right_from "" false s)
    else pushed

unfoldable pub split_once_escaped : String → Char → Option (String × String)
split_once_escaped value separator = split_left_from separator "" false value

encode_entry : String × String → String
encode_entry (key, value) = escape key & "=" & escape value

unfoldable pub encode_map_string : Map String → String
unfolding encode_entry
encode_map_string m = join ";" (map encode_entry m)

unfoldable pub encode_list : List String → String
encode_list l = join ";" (map escape l)

-- One round of the loop of `decode_map_string`, on the parts of one pair.
decode_entry : String → Option (String × String) → Map String → IoResult String (Map String)
decode_entry pair none m = IoResult.err ("invalid encoded map entry '" & pair & "'")
decode_entry pair (some (key, value)) m = do
  k ← unescape key
  v ← unescape value
  IoResult.ok (insert k v m)

unfoldable pub decode_pairs : List String → Map String → IoResult String (Map String)
unfolding decode_entry
decode_pairs [] m = IoResult.ok m
decode_pairs (pair ∷ pairs) m =
    decode_entry pair (split_once_escaped pair "=") m >>= decode_pairs pairs

unfoldable pub decode_map_string : String → IoResult String (Map String)
decode_map_string value =
    if is_empty_text value then IoResult.ok [] else decode_pairs (split_escaped value ";") []

-- `.map(unescape).collect()`
unfoldable pub unescape_all : List String → IoResult String (List String)
unescape_all [] = IoResult.ok []
unescape_all (item ∷ items) =
    let rest = unescape_all items in unescape item >>= λ s. map_ok (λ l. s ∷ l) rest

unfoldable pub decode_list : String → IoResult String (List String)
decode_list value =
    if is_empty_text value then IoResult.ok [] else unescape_all (split_escaped value ";")

-- Maps of numbers: `text` is `to_string` of `f64`, and `read` is `parse`, with its error as a text.
module _ {F : Type 0} (text : F → String) where
  encode_number : String × F → String
  encode_number (key, value) = escape key & "=" & text value

  unfoldable pub encode_map_f64 : Map F → String
  unfolding encode_number
  encode_map_f64 m = join ";" (map encode_number m)

module _ {F : Type 0} (read : String → IoResult String F) where
  -- One round of the loop of `decode_map_f64`.
  decode_number : String → Option (String × String) → Map F → IoResult String (Map F)
  decode_number pair none m = IoResult.err ("invalid encoded map entry '" & pair & "'")
  decode_number pair (some (key, value)) m = do
    v ← unescape value
    parsed ← read v
    k ← unescape key
    IoResult.ok (insert k parsed m)

  unfoldable pub decode_numbers : List String → Map F → IoResult String (Map F)
  unfolding decode_number
  decode_numbers [] m = IoResult.ok m
  decode_numbers (pair ∷ pairs) m =
      decode_number pair (split_once_escaped pair "=") m >>= decode_numbers pairs

  unfoldable pub decode_map_f64 : String → IoResult String (Map F)
  decode_map_f64 value =
      if is_empty_text value then IoResult.ok [] else decode_numbers (split_escaped value ";") []
