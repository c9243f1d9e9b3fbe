-- ===== src/Orchestration/Store/Lines.antt =====
-- src/orchestration/store/fs.rs: the reading of a file line by line. The iterator over the lines is the list
-- of those that are left.
pub mod Reading
use void_control.Base.{
  ℕ, Bool, Option, none, some, String, List, [], ◌∷◌, ◌&◌, is_empty_text, if◌then◌else◌,
}
use void_control.Orchestration.Store.{IoResult, Io, ErrorKind, fail}

abbrev pub Reader : Type 0 → Type 0
Reader A = List String → Io (A × List String)

abbrev pub then_read : {A B : Type 0} → Io (A × List String) → (A → Reader B) → Io (B × List String)
then_read (IoResult.err e) next = IoResult.err e
then_read (IoResult.ok (a, rest)) next = next a rest

infixl 5 ◌>>=◌
abbrev pub ◌>>=◌ : {A B : Type 0} → Reader A → (A → Reader B) → Reader B
(m >>= next) lines = then_read (m lines) next

abbrev pub with_rest : {A : Type 0} → List String → Io A → Io (A × List String)
with_rest lines (IoResult.err e) = IoResult.err e
with_rest lines (IoResult.ok a) = IoResult.ok (a, lines)

-- A result that needs no line.
abbrev pub give : {A : Type 0} → Io A → Reader A
give r lines = with_rest lines r

abbrev pub value_of : {A : Type 0} → Io (A × List String) → Io A
value_of (IoResult.err e) = IoResult.err e
value_of (IoResult.ok (a, rest)) = IoResult.ok a

-- The value that was read, or the error.
abbrev pub run : {A : Type 0} → Reader A → List String → Io A
run m lines = value_of (m lines)

unfoldable pub required_line : String → Reader String
required_line name [] = fail ErrorKind.invalid_data ("missing " & name)
required_line name (line ∷ lines) = IoResult.ok (line, lines)

unfoldable pub optional_line : Reader (Option String)
optional_line [] = IoResult.ok (none, [])
optional_line (line ∷ lines) = IoResult.ok (some line, lines)

-- `.filter(|value| !value.is_empty())`
abbrev pub non_empty : Option String → Option String
non_empty none = none
non_empty (some value) = if is_empty_text value then none else some value

abbrev pub some_ok : {A : Type 0} → Io A → Io (Option A)
some_ok (IoResult.err e) = IoResult.err e
some_ok (IoResult.ok a) = IoResult.ok (some a)

-- `.map(f).transpose()?`
abbrev pub transpose : {A : Type 0} → (String → Io A) → Option String → Io (Option A)
transpose f none = IoResult.ok none
transpose f (some value) = some_ok (f value)

-- `.filter(|value| !value.is_empty()).map(f).transpose()?`
unfoldable pub transpose_filled : {A : Type 0} → (String → Io A) → Option String → Io (Option A)
transpose_filled f value = transpose f (non_empty value)

-- `.unwrap_or(otherwise)`
abbrev pub unwrap_or : {A : Type 0} → A → Option A → A
unwrap_or otherwise none = otherwise
unwrap_or otherwise (some a) = a

-- `.map_err(invalid_data)`, where the error is its text
unfoldable pub invalid_data : {A : Type 0} → IoResult String A → Io A
invalid_data (IoResult.err message) = fail ErrorKind.invalid_data message
invalid_data (IoResult.ok a) = IoResult.ok a
