-- ===== src/Orchestration/Store/Files/Working.antt =====
-- std::fs on a disk that does not fail, as src/orchestration/store/fs.rs relies on it.
use mathlib.Core.Option.{get_or}
use void_control.Base.{◌≡◌, ◌≢◌, Option, none, some, String, ◌&◌}
use void_control.Orchestration.Store.{IoResult, IoError, ErrorKind}
use void_control.Orchestration.Store.Files.{Files}

-- A disk that does not fail, seen through the texts of its files: what std::fs promises.
pub record IsWorking {D P H : Type 0} (files : Files D P H) (text_at : P → D → Option String)
    : Type 0 where
  pub found :
      (p : P) (d : D) (t : String) → text_at p d ≡ some t → files.read_to_string p d ≡ IoResult.ok t
  pub missing :
      (p : P) (d : D)
      → text_at p d ≡ none
      → (e : IoError) × (files.read_to_string p d ≡ IoResult.err e) × (e.kind ≡ ErrorKind.not_found)
  pub dir_made :
      (p : P) (d : D)
      → (d' : D) × (files.create_dir_all p d ≡ (IoResult.ok tt, d'))
        × ((q : P) → text_at q d' ≡ text_at q d)
  pub clock_keeps : (p : P) (d : D) → text_at p (files.now_ms d).1 ≡ text_at p d
  -- A file that is made new is empty, and its maker can write it while it stands there.
  pub made :
      (p : P) (d : D)
      → text_at p d ≡ none
      → (h : H) × (d' : D) × (files.create_new p d ≡ (IoResult.ok h, d'))
        × (text_at p d' ≡ some "")
        × ((t : String)
            → (d'' : D) × (files.write_all h t d' ≡ (IoResult.ok tt, d''))
              × (text_at p d'' ≡ some t))
  pub not_made :
      (p : P) (d : D) (t : String)
      → text_at p d ≡ some t
      → (e : IoError) × (files.create_new p d ≡ (IoResult.err e, d))
        × (e.kind ≡ ErrorKind.already_exists)
  -- A file that was removed can still be written by who has it open.
  pub open_written :
      (h : H) (t : String) (d : D) → (d' : D) × (files.write_all h t d ≡ (IoResult.ok tt, d'))
  pub taken_away :
      (p : P) (d : D) (t : String)
      → text_at p d ≡ some t
      → (d' : D) × (files.remove_file p d ≡ (IoResult.ok tt, d')) × (text_at p d' ≡ none)
  pub written_over :
      (p : P) (t : String) (d : D)
      → (d' : D) × (files.write p t d ≡ (IoResult.ok tt, d'))
        × (text_at p d' ≡ some t)
        × ((q : P) → q ≢ p → text_at q d' ≡ text_at q d)
  pub renamed :
      (p q : P) (d : D) (t : String)
      → text_at p d ≡ some t
      → (d' : D) × (files.rename p q d ≡ (IoResult.ok tt, d')) × (text_at q d' ≡ some t)

-- Appending on a disk that does not fail. `AtEnd` tells that the open file is the one at the path and
-- that it writes at its end.
pub record IsAppending {D P H : Type 0} (files : Files D P H) (text_at : P → D → Option String)
    (AtEnd : H → P → D → Type 0) : Type 0 where
  -- The file is made where there is none, and keeps its text where there is one.
  pub open_at_end :
      (p : P) (d : D)
      → (h : H) × (d' : D) × (files.open_append p d ≡ (IoResult.ok h, d'))
        × AtEnd h p d'
        × (text_at p d' ≡ some (get_or (text_at p d) ""))
  pub written_at_end :
      (h : H) (p : P) (d : D) (s t : String)
      → AtEnd h p d
      → text_at p d ≡ some s
      → (d' : D) × (files.write_all h t d ≡ (IoResult.ok tt, d'))
        × AtEnd h p d'
        × (text_at p d' ≡ some (s & t))
