-- ===== src/Orchestration/Store.antt =====
-- src/orchestration/store.rs: the trait of a store, and the results of input and output.
-- `F` is the type of `f64`, and `E` that of a store's errors.
pub mod Codec
pub mod Lines
pub mod Records
pub mod Candidates
pub mod Files
pub mod Claims
pub mod Operations
pub mod Logs
pub mod Memory
pub mod Examples
use void_control.Base.{Bool, true, false, String, List, []}
use void_control.Orchestration.Types.{ExecutionCandidate}
use void_control.Orchestration.Events.{ExecutionSnapshot}

-- `io::Result`
pub data IoResult (E A : Type 0) : Type 0 where
  err : E → IoResult E A
  ok : A → IoResult E A

abbrev pub map_ok : {E A B : Type 0} → (A → B) → IoResult E A → IoResult E B
map_ok f (IoResult.err e) = IoResult.err e
map_ok f (IoResult.ok a) = IoResult.ok (f a)

abbrev pub and_then : {E A B : Type 0} → IoResult E A → (A → IoResult E B) → IoResult E B
and_then (IoResult.err e) next = IoResult.err e
and_then (IoResult.ok a) next = next a

-- What a `do` block is made of: `?`.
infixl 5 ◌>>=◌
abbrev pub ◌>>=◌ : {E A B : Type 0} → IoResult E A → (A → IoResult E B) → IoResult E B
r >>= next = and_then r next

pub record ExecutionStore (E F : Type 0) : Type 0 where
  pub list_active_execution_ids : IoResult E (List String)
  pub load_execution : String → IoResult E (ExecutionSnapshot F)
  pub load_candidates : String → IoResult E (List (ExecutionCandidate F))

-- The kinds of `io::ErrorKind` that the store and the service use.
pub data ErrorKind : Type 0 where
  not_found already_exists permission_denied would_block : ErrorKind
  invalid_input invalid_data other : ErrorKind

-- `io::Error`
pub record IoError : Type 0 where
  pub kind : ErrorKind
  pub message : String

abbrev pub Io : Type 0 → Type 0
Io A = IoResult IoError A

-- `Err(io::Error::new(kind, message))`
abbrev pub fail : {A : Type 0} → ErrorKind → String → Io A
fail kind message = IoResult.err (record { kind = kind; message = message })

-- `err.kind() == ErrorKind::NotFound`
abbrev pub is_not_found : ErrorKind → Bool
is_not_found ErrorKind.not_found = true
is_not_found _ = false
