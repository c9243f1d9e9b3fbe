-- ===== src/Orchestration/Store/Logs/Appending.antt =====
-- src/orchestration/store/fs.rs: what an append leaves in a log, also in one whose last record was cut
-- short.
use mathlib.Core.Option.{get_or}
use text.Mathlib.TextLemmas
use void_control.Base.{
  ◌≡◌, refl, sym, ap, ◌∙◌, false, Option, some, String, List, [], ◌∷◌, ◌&◌, AllChars, is_plain,
  is_blank, lines,
}
use void_control.Orchestration.Store.{IoResult, ErrorKind, fail}
use void_control.Orchestration.Store.Lines.{invalid_data}
use void_control.Orchestration.Store.Files.{Files, Act, ◌>>◌, give}
use void_control.Orchestration.Store.Files.Working.{IsWorking, IsAppending}
use void_control.Orchestration.Store.Logs.{
  RecordTexts, append_ndjson_record, load_ndjson_records, load_lines, records_of, to_writer,
  as_invalid_data,
}
use void_control.Orchestration.Store.Logs.Crash.{
  AreLines, log_text, records, load_lines-spoilt_end, load_lines-spoilt,
}

-- Records appended one after another.
unfoldable pub append_records :
    {T D P H : Type 0} → RecordTexts T → Files D P H → P → P → List T → Act D (Unit {0})
append_records texts files parent path [] = give (IoResult.ok tt)
append_records texts files parent path (r ∷ rs) =
    append_ndjson_record texts files parent path r >> append_records texts files parent path rs

module _ {T D P H : Type 0} (texts : RecordTexts T) (files : Files D P H)
    (text_at : P → D → Option String) (AtEnd : H → P → D → Type 0) (works : IsWorking files text_at)
    (appends : IsAppending files text_at AtEnd) where
  -- On a disk that does not fail, a record is added as its text and the end of a line.
  append_ndjson_record-written :
      (parent path : P) (d : D) (r : T) (t s : String)
      → texts.to_text r ≡ IoResult.ok t
      → get_or (text_at path d) "" ≡ s
      → (d' : D) × (append_ndjson_record texts files parent path r d ≡ (IoResult.ok tt, d'))
        × (text_at path d' ≡ some (s & (t & "\n")))
  unfolding invalid_data append_ndjson_record to_writer as_invalid_data
  append_ndjson_record-written parent path d r t s text old =
      let (d1, dir, same) = works.dir_made parent d in
      let (h, d2, handle_opened, at, there) = appends.open_at_end path d1 in
      let before : text_at path d2 ≡ some s =
        there ∙ ap (λ o. some (get_or o "")) (same path) ∙ ap some old in
      let (d3, wrote, at3, there3) = appends.written_at_end h path d2 s t at before in
      let (d4, ended, at4, there4) = appends.written_at_end h path d3 (s & t) "\n" at3 there3 in
      (
        d4,
        rw (dir, handle_opened, text, wrote, ended) refl,
        there4 ∙ ap some (TextLemmas.append_assoc s t "\n"),
      )

  append_records-written :
      (parent path : P) (l : List (T × String)) (d : D) (s : String)
      → AreLines texts l
      → text_at path d ≡ some s
      → (d' : D) × (append_records texts files parent path (records texts l) d
          ≡ (IoResult.ok tt, d'))
        × (text_at path d' ≡ some (s & log_text texts l))
  unfolding append_records
  append_records-written parent path [] d s h there =
      (d, refl, there ∙ ap some (sym (TextLemmas.append-nil s)))
  append_records-written parent path ((r, t) ∷ l) d s h there =
      let (d1, one, there1) =
        append_ndjson_record-written parent path d r t s (h.0.0) (ap (λ o. get_or o "") there) in
      let (d2, rest, there2) =
        append_records-written parent path l d1 (s & (t & "\n")) h.1 there1 in
      (
        d2,
        rw (one, rest) refl,
        there2 ∙ ap some (TextLemmas.append_assoc s (t & "\n") (log_text texts l)),
      )

  load_ndjson_records-text :
      (path : P) (d : D) (s : String)
      → text_at path d ≡ some s
      → load_ndjson_records texts files path d ≡ load_lines texts (lines s)
  load_ndjson_records-text path d s there =
      unfold load_ndjson_records records_of in rw (works.found path d s there) refl

  -- On a disk that does not fail, a record `r` that is appended to a log of records, each of which is
  -- read back from its line, with a last one that was cut short, lands on the line of that one. Where the line so joined is neither blank nor a record
  -- (and holds no end of a line), `r` is lost, with all the records before it still read; and as soon
  -- as one more record, and any number of others, have been appended, each of which can be read back
  -- from its line, reading the log is an error.
  pub append_after_torn :
      (parent path : P) (d : D) (l more : List (T × String)) (r s : T) (torn t u e : String)
      → AreLines texts l
      → text_at path d ≡ some (log_text texts l & torn)
      → texts.to_text r ≡ IoResult.ok t
      → AreLines texts ((s, u) ∷ more)
      → AllChars is_plain (torn & t)
      → is_blank (torn & t) ≡ false
      → texts.from_str (torn & t) ≡ IoResult.err e
      → (d1 : D) × (d2 : D) × (append_ndjson_record texts files parent path r d
          ≡ (IoResult.ok tt, d1))
        × (load_ndjson_records texts files path d1 ≡ IoResult.ok (records texts l))
        × (append_records texts files parent path (s ∷ records texts more) d1
            ≡ (IoResult.ok tt, d2))
        × (load_ndjson_records texts files path d2 ≡ fail ErrorKind.invalid_data e)
  append_after_torn parent path d l more r s torn t u e h there text k plain filled bad =
      let log : String = log_text texts l in
      let line : String = torn & t in
      let new : List (T × String) = (s, u) ∷ more in
      let (d1, one, there1) =
        append_ndjson_record-written parent path d r t (log & torn) text
          (ap (λ o. get_or o "") there) in
      let joined : (log & torn) & (t & "\n") ≡ log & (line & "\n") =
        TextLemmas.append_assoc log torn (t & "\n")
        ∙ ap (λ x. log & x) (sym (TextLemmas.append_assoc torn t "\n")) in
      let (d2, others, there2) =
        append_records-written parent path new d1 (log & (line & "\n")) k
          (there1 ∙ ap some joined) in
      (
        d1,
        d2,
        one,
        load_ndjson_records-text path d1 ((log & torn) & (t & "\n")) there1
            ∙ ap (λ x. load_lines texts (lines x)) joined
            ∙ load_lines-spoilt_end texts l line e h plain filled bad,
        others,
        load_ndjson_records-text path d2 ((log & (line & "\n")) & log_text texts new) there2
            ∙ ap (λ x. load_lines texts (lines x))
                (TextLemmas.append_assoc log (line & "\n") (log_text texts new))
            ∙ load_lines-spoilt texts l more s line u e h k plain filled bad,
      )
