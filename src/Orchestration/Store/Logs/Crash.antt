-- ===== src/Orchestration/Store/Logs/Crash.antt =====
-- src/orchestration/store/fs.rs: what of a log is read back when its last record was cut short.
use void_control.Base.{
  ◌≡◌, refl, sym, ap, ◌∙◌, arith, false, String, List, [], ◌∷◌, ◌&◌, ◌++◌, All, AllChars, is_plain,
  is_blank, lines, append-nil,
}
use text.Mathlib.TextLemmas
use text.Mathlib.TextLemmas.{cons-append, nil-append}
use void_control.Orchestration.Store.{IoResult, Io, ErrorKind, fail, map_ok}
use void_control.Orchestration.Store.Lines.Reading.{lines-cons, lines-last}
use void_control.Orchestration.Store.Logs.{RecordTexts, record_line, load_lines}

module _ {T : Type 0} (texts : RecordTexts T) where
  -- The line of a record: it is one line, not blank, and read back.
  abbrev pub IsLine : T → String → Type 0
  IsLine r t =
      (texts.to_text r ≡ IoResult.ok t)
      × (texts.from_str t ≡ IoResult.ok r)
      × AllChars is_plain t
      × (is_blank t ≡ false)

  -- The records with their lines.
  abbrev pub AreLines : List (T × String) → Type 0
  AreLines l = All (λ e. IsLine e.0 e.1) l

  -- The file to which the records were appended.
  abbrev pub log_text : List (T × String) → String
  log_text [] = ""
  log_text ((r, t) ∷ l) = (t & "\n") & log_text l

  abbrev pub records : List (T × String) → List T
  records [] = []
  records ((r, t) ∷ l) = r ∷ records l

  one_line : (t rest : String) → AllChars is_plain t → lines ((t & "\n") & rest) ≡ t ∷ lines rest
  one_line t rest h = ap lines (TextLemmas.append_assoc t "\n" rest) ∙ lines-cons t rest h

  load_lines-log_text :
      (l : List (T × String)) (rest : String)
      → AreLines l
      → load_lines texts (lines (log_text l & rest))
        ≡ map_ok (λ more. records l ++ more) (load_lines texts (lines rest))
  load_lines-log_text [] rest h = rw nil-append (unchanged (load_lines texts (lines rest)))
    where
      unchanged : (x : Io (List T)) → x ≡ map_ok (λ more. more) x
      unchanged (IoResult.ok a) = refl
      unchanged (IoResult.err e) = refl
  load_lines-log_text ((r, t) ∷ l) rest h =
      let (written, read, plain, filled) = h.0 in
      ap (λ s. load_lines texts (lines s)) (TextLemmas.append_assoc (t & "\n") (log_text l) rest)
      ∙ ap (load_lines texts) (one_line t (log_text l & rest) plain)
      ∙ first r t (lines (log_text l & rest)) read filled
      ∙ ap (map_ok (◌∷◌ r)) (load_lines-log_text l rest h.1)
      ∙ both (load_lines texts (lines rest))
    where
      first :
          (r : T) (t : String) (ls : List String)
          → texts.from_str t ≡ IoResult.ok r
          → is_blank t ≡ false
          → load_lines texts (t ∷ ls) ≡ map_ok (◌∷◌ r) (load_lines texts ls)
      first r t ls read filled = unfold load_lines record_line in (rw (filled, read) refl)

      both :
          (x : Io (List T))
          → map_ok (◌∷◌ r) (map_ok (λ more. records l ++ more) x)
            ≡ map_ok (λ more. r ∷ records l ++ more) x
      both (IoResult.ok a) = refl
      both (IoResult.err e) = refl

  -- Of a log of records, each on a line of its own that is not blank and is read back, behind which
  -- stands the text of a record that was cut short, without an end of the line and not readable as a
  -- record, all the records are read, without an error.
  pub load_lines-torn :
      (l : List (T × String)) (torn e : String)
      → AreLines l
      → AllChars is_plain torn
      → texts.from_str torn ≡ IoResult.err e
      → load_lines texts (lines (log_text l & torn)) ≡ IoResult.ok (records l)
  load_lines-torn l torn e h plain bad =
      load_lines-log_text l torn h
      ∙ ap (map_ok (λ more. records l ++ more)) (tail torn plain bad)
      ∙ ap IoResult.ok (append-nil (records l))
    where
      tail :
          (t : String)
          → AllChars is_plain t
          → texts.from_str t ≡ IoResult.err e
          → load_lines texts (lines t) ≡ IoResult.ok []
      tail String.[] p b = unfold lines load_lines in refl
      tail (String.◌∷◌ c t) p b =
          rw (lines-last (String.◌∷◌ c t) p refl)
            (unfold load_lines record_line in (ground (arith)))

  -- Of a log in which a line behind the records is no record, the records are read where that is the
  -- last line.
  pub load_lines-spoilt_end :
      (l : List (T × String)) (line e : String)
      → AreLines l
      → AllChars is_plain line
      → is_blank line ≡ false
      → texts.from_str line ≡ IoResult.err e
      → load_lines texts (lines (log_text l & (line & "\n"))) ≡ IoResult.ok (records l)
  load_lines-spoilt_end l line e h plain filled bad =
      load_lines-log_text l (line & "\n") h
      ∙ ap (λ x. map_ok (λ m. records l ++ m) (load_lines texts x))
          (ap lines (sym (TextLemmas.append-nil (line & "\n"))) ∙ one_line line "" plain)
      ∙ unfold load_lines record_line lines in (rw (filled, bad) (ap IoResult.ok (append-nil _)))

  -- Where another record stands behind it, there is an error.
  pub load_lines-spoilt :
      (l more : List (T × String)) (s : T) (line u e : String)
      → AreLines l
      → AreLines ((s, u) ∷ more)
      → AllChars is_plain line
      → is_blank line ≡ false
      → texts.from_str line ≡ IoResult.err e
      → load_lines texts (lines (log_text l & ((line & "\n") & log_text ((s, u) ∷ more))))
        ≡ fail ErrorKind.invalid_data e
  load_lines-spoilt l more s line u e h k plain filled bad =
      load_lines-log_text l ((line & "\n") & log_text ((s, u) ∷ more)) h
      ∙ ap (λ x. map_ok (λ m. records l ++ m) (load_lines texts x))
          (one_line line (log_text ((s, u) ∷ more)) plain
            ∙ ap (◌∷◌ line) (one_line u (log_text more) (k.0.2)))
      ∙ unfold load_lines record_line in (rw (filled, bad) refl)
