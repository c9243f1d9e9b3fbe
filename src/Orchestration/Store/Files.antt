-- ===== src/Orchestration/Store/Files.antt =====
-- std::fs, the clock and the environment, as src/orchestration/store/fs.rs uses them: operations on a disk.
-- `D` is the state of the disk, `P` the type of paths and `H` that of open files.
pub mod Working
use void_control.Base.{ℕ, Bool, Option, none, some, String, List}
use void_control.Orchestration.Store.{IoResult, Io}

-- What changes the disk, or reads the clock.
abbrev pub Act : Type 0 → Type 0 → Type 0
Act D A = D → Io A × D

-- The entry of a directory.
pub data FileKind : Type 0 where
  is_file is_dir is_other : FileKind

pub record Entry (P : Type 0) : Type 0 where
  pub path : P
  pub file_name : String
  pub file_type : Io FileKind

pub record Files (D P H : Type 0) : Type 0 where
  pub root : P
  pub join : P → String → P
  pub with_extension : P → String → P
  pub create_dir_all : P → Act D (Unit {0})
  pub read_to_string : P → D → Io String
  pub write : P → String → Act D (Unit {0})
  -- `OpenOptions::new().write(true).create_new(true).open(path)`
  pub create_new : P → Act D H
  -- `OpenOptions::new().create(true).append(true).open(path)`
  pub open_append : P → Act D H
  pub write_all : H → String → Act D (Unit {0})
  pub remove_file : P → Act D (Unit {0})
  pub rename : P → P → Act D (Unit {0})
  pub read_dir : P → D → Io (List (Io (Entry P)))
  pub now_ms : D → ℕ × D
  -- `std::env::var`
  pub var : String → Option String

module _ {D : Type 0} where
  abbrev pub then_act : {A B : Type 0} → Io A × D → (A → Act D B) → Io B × D
  then_act (IoResult.err e, d) next = (IoResult.err e, d)
  then_act (IoResult.ok a, d) next = next a d

  infixl 5 ◌>>=◌
  abbrev pub ◌>>=◌ : {A B : Type 0} → Act D A → (A → Act D B) → Act D B
  (m >>= next) d = then_act (m d) next

  infixl 5 ◌>>◌
  abbrev pub ◌>>◌ : {B : Type 0} → Act D (Unit {0}) → Act D B → Act D B
  (m >> next) d = then_act (m d) (λ _. next)

  -- A result that leaves the disk as it is.
  abbrev pub give : {A : Type 0} → Io A → Act D A
  give r d = (r, d)
