-- ===== src/Orchestration/Store/Memory.antt =====
-- A disk in memory, which meets what src/orchestration/store/fs.rs needs of std::fs.
use mathlib.Core.Option.{get_or}
use text.Mathlib.TextLemmas.{nil-append}
use void_control.Base.{
  ◌≡◌, ◌≢◌, refl, sym, ap, ◌∙◌, arith, ℕ, ◌+◌, Option, none, some, String, List, ◌&◌, str_eq,
  str_eq_iff, str_eq_refl, ◌==◌, ==_iff, if◌then◌else◌,
}
use void_control.Orchestration.Store.{IoResult, Io, ErrorKind, fail}
use void_control.Orchestration.Store.Files.{Files, Entry}
use void_control.Orchestration.Store.Files.Working.{IsWorking, IsAppending}

-- A file has the number that it was made with, and a text. What the directories list stands beside the files.
pub record Disk : Type 0 where
  pub file_at : String → Option (ℕ × String)
  pub entries_at : String → List (Io (Entry String))
  pub next_file : ℕ
  pub clock : ℕ

abbrev pub set_file : String → Option (ℕ × String) → Disk → Disk
set_file p o d = record d {
  file_at = λ q. if str_eq p q then o else d.file_at q;
  next_file = d.next_file + 1;
}

abbrev pub text_of : Option (ℕ × String) → Option String
text_of none = none
text_of (some (n, t)) = some t

abbrev pub text_at : String → Disk → Option String
text_at p d = text_of (d.file_at p)

abbrev pub contents : Option (ℕ × String) → Io String
contents none = fail ErrorKind.not_found "no such file"
contents (some (n, t)) = IoResult.ok t

abbrev pub make : String → Option (ℕ × String) → Disk → Io (String × ℕ) × Disk
make p none d = (IoResult.ok (p, d.next_file), set_file p (some (d.next_file, "")) d)
make p (some f) d = (fail ErrorKind.already_exists "the file exists", d)

-- A file that is no longer there under its number is written in vain.
abbrev pub write_open : String × ℕ → Option (ℕ × String) → String → Disk → Disk
write_open (p, n) none t d = d
write_open (p, n) (some (m, s)) t d = if m == n then set_file p (some (m, s & t)) d else d

abbrev pub open_end : String → Option (ℕ × String) → Disk → Io (String × ℕ) × Disk
open_end p none d = make p none d
open_end p (some (n, s)) d = (IoResult.ok (p, n), d)

abbrev pub remove : String → Option (ℕ × String) → Disk → Io (Unit {0}) × Disk
remove p none d = (fail ErrorKind.not_found "no such file", d)
remove p (some f) d = (IoResult.ok tt, set_file p none d)

abbrev pub memory : Files Disk String (String × ℕ)
memory = record {
  root = "executions";
  join = λ p s. p & "/" & s;
  with_extension = λ p s. p & "." & s;
  create_dir_all = λ p d. (IoResult.ok tt, d);
  read_to_string = λ p d. contents (d.file_at p);
  write = λ p t d. (IoResult.ok tt, set_file p (some (d.next_file, t)) d);
  create_new = λ p d. make p (d.file_at p) d;
  open_append = λ p d. open_end p (d.file_at p) d;
  write_all = λ h t d. (IoResult.ok tt, write_open h (d.file_at h.0) t d);
  remove_file = λ p d. remove p (d.file_at p) d;
  rename = λ p q d. (IoResult.ok tt, set_file q (d.file_at p) (set_file p none d));
  read_dir = λ p d. IoResult.ok (d.entries_at p);
  now_ms = λ d. (d.clock, record d { clock = d.clock + 1 });
  var = λ name. none;
}

pub set_file_self :
    (p : String) (o : Option (ℕ × String)) (d : Disk) → (set_file p o d).file_at p ≡ o
set_file_self p o d = rw (str_eq_refl p) refl

set_file_other :
    (p q : String) (o : Option (ℕ × String)) (d : Disk)
    → q ≢ p
    → (set_file p o d).file_at q ≡ d.file_at q
set_file_other p q o d apart = ground (arith, str_eq_iff p q, apart)

file_of_text :
    (o : Option (ℕ × String)) (t : String) → text_of o ≡ some t → (n : ℕ) × (o ≡ some (n, t))
file_of_text none t h = cc
file_of_text (some (n, s)) t h = (n, ground arith)

no_text : (o : Option (ℕ × String)) → text_of o ≡ none → o ≡ none
no_text none h = refl
no_text (some (n, s)) h = cc

pub memory-IsWorking : IsWorking memory text_at
memory-IsWorking = record {
  found = λ p d t h. let (n, e) = file_of_text (d.file_at p) t h in rw e refl;
  missing = λ p d h. (
    record { kind = ErrorKind.not_found; message = "no such file" },
    rw (no_text (d.file_at p) h) refl,
    refl,
  );
  dir_made = λ p d. (d, refl, λ q. refl);
  clock_keeps = λ p d. refl;
  made = λ p d h. (
    (p, d.next_file),
    set_file p (some (d.next_file, "")) d,
    rw (no_text (d.file_at p) h) refl,
    ap text_of (set_file_self p (some (d.next_file, "")) d),
    λ t. (
      set_file p (some (d.next_file, t)) (set_file p (some (d.next_file, "")) d),
      rw
          (
            set_file_self p (some (d.next_file, "")) d,
            (==_iff d.next_file d.next_file).1 refl,
            nil-append,
          )
          refl,
      ap text_of (set_file_self p (some (d.next_file, t)) (set_file p (some (d.next_file, "")) d)),
    ),
  );
  not_made = λ p d t h.
      let (n, e) = file_of_text (d.file_at p) t h in
      (record { kind = ErrorKind.already_exists; message = "the file exists" }, rw e refl, refl);
  open_written = λ h t d. (write_open h (d.file_at h.0) t d, refl);
  taken_away = λ p d t h.
      let (n, e) = file_of_text (d.file_at p) t h in
      (set_file p none d, rw e refl, ap text_of (set_file_self p none d));
  written_over = λ p t d. (
    set_file p (some (d.next_file, t)) d,
    refl,
    ap text_of (set_file_self p (some (d.next_file, t)) d),
    λ q apart. ap text_of (set_file_other p q (some (d.next_file, t)) d apart),
  );
  renamed = λ p q d t h. (
    set_file q (d.file_at p) (set_file p none d),
    refl,
    ap text_of (set_file_self q (d.file_at p) (set_file p none d)) ∙ h,
  );
}

-- The file at the path is the one that is open.
abbrev pub Opened : String × ℕ → String → Disk → Type 0
Opened (q, n) p d = (q ≡ p) × (t : String) × (d.file_at p ≡ some (n, t))

open_end-Opened :
    (p : String) (o : Option (ℕ × String)) (d : Disk)
    → d.file_at p ≡ o
    → (h : String × ℕ) × (d' : Disk) × (open_end p o d ≡ (IoResult.ok h, d'))
      × Opened h p d'
      × (text_at p d' ≡ some (get_or (text_of o) ""))
open_end-Opened p none d e = (
  (p, d.next_file),
  set_file p (some (d.next_file, "")) d,
  refl,
  (refl, "", set_file_self p (some (d.next_file, "")) d),
  ap text_of (set_file_self p (some (d.next_file, "")) d),
)
open_end-Opened p (some (n, s)) d e = ((p, n), d, refl, (refl, s, e), ap text_of e)

file_at-write_open :
    (p : String) (n : ℕ) (d : Disk) (s t : String)
    → d.file_at p ≡ some (n, s)
    → (write_open (p, n) (d.file_at p) t d).file_at p ≡ some (n, s & t)
file_at-write_open p n d s t e = rw (e, (==_iff n n).1 refl) (set_file_self p (some (n, s & t)) d)

pub memory-IsAppending : IsAppending memory text_at Opened
memory-IsAppending = record {
  open_at_end = λ p d. open_end-Opened p (d.file_at p) d refl;
  written_at_end = λ h p d s t at e.
      let (same, u, there) = at in
      let here : d.file_at h.0 ≡ some (h.1, u) = ap d.file_at same ∙ there in
      let (m, found) = file_of_text (d.file_at h.0) s (ap (λ q. text_at q d) same ∙ e) in
      let now : (write_open h (d.file_at h.0) t d).file_at h.0 ≡ some (h.1, s & t) =
        file_at-write_open h.0 h.1 d s t
          (found ∙ ap (λ k. some (k, s)) (number m h.1 s u (sym found ∙ here))) in
      (
        write_open h (d.file_at h.0) t d,
        refl,
        (same, s & t, ap (write_open h (d.file_at h.0) t d).file_at (sym same) ∙ now),
        ap (λ q. text_at q (write_open h (d.file_at h.0) t d)) (sym same) ∙ ap text_of now,
      );
}
  where
    number :
        (m n : ℕ) (s u : String) → ◌≡◌ {A = Option (ℕ × String)} (some (m, s)) (some (n, u)) → m ≡ n
    number m n s u e = cc
