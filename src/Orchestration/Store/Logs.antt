-- ===== src/Orchestration/Store/Logs.antt =====
-- src/orchestration/store/fs.rs: logs of JSON records, one to a line, for intents and routed messages. `V` is the
-- type of JSON values; what serde_json does with a record is a parameter.
pub mod Appending
pub mod Crash
use void_control.Base.{
  Bool, true, false, Option, none, some, String, List, [], ◌∷◌, is_blank, is_empty, if◌then◌else◌,
  lines,
}
use void_control.Orchestration.Types.{CommunicationIntent, RoutedMessage}
use void_control.Orchestration.Store.{IoResult, Io, ErrorKind, fail, map_ok, and_then}
use void_control.Orchestration.Store.Lines.{invalid_data}
use void_control.Orchestration.Store.Files.{Files, Act, then_act, ◌>>=◌, ◌>>◌, give}
use void_control.Orchestration.Store.Operations.{or_missing}
use void_control.Orchestration.Store.Claims.{execution_dir}

-- `serde_json::to_writer` and `from_str` of a record; an error is its text.
pub record RecordTexts (T : Type 0) : Type 0 where
  pub to_text : T → IoResult String String
  pub from_str : String → IoResult String T

-- The error of `to_writer`, also where it is one of writing.
as_invalid_data : {A D : Type 0} → Io A × D → Io A × D
as_invalid_data (IoResult.ok a, d) = (IoResult.ok a, d)
as_invalid_data (IoResult.err e, d) = (fail ErrorKind.invalid_data e.message, d)

module _ {T : Type 0} (texts : RecordTexts T) where
  -- One line that is not blank, before the lines `rest`: a record, or on the last line what is not one.
  record_line : IoResult String T → List String → Io (List T) → Io (List T)
  record_line (IoResult.ok r) rest more = map_ok (◌∷◌ r) more
  record_line (IoResult.err e) rest more =
      if is_empty rest then IoResult.ok [] else fail ErrorKind.invalid_data e

  unfoldable pub load_lines : List String → Io (List T)
  unfolding record_line
  load_lines [] = IoResult.ok []
  load_lines (line ∷ rest) =
      let more = load_lines rest in
      if is_blank line then more else record_line (texts.from_str line) rest more

  records_of : Io String → Io (List T)
  records_of (IoResult.ok contents) = load_lines (lines contents)
  records_of (IoResult.err e) = or_missing [] (IoResult.err e)

  module _ {D P H : Type 0} (files : Files D P H) where
    unfoldable pub load_ndjson_records : P → D → Io (List T)
    unfolding records_of
    load_ndjson_records path d = records_of (files.read_to_string path d)

    -- `parent` is the directory of the file.
    to_writer : H → T → Act D (Unit {0})
    unfolding as_invalid_data
    to_writer file item d =
        as_invalid_data ((give (invalid_data (texts.to_text item)) >>= files.write_all file) d)

    unfoldable pub append_ndjson_record : P → P → T → Act D (Unit {0})
    unfolding to_writer
    append_ndjson_record parent path item =
        files.create_dir_all parent
        >> (files.open_append path >>= λ file. to_writer file item >> files.write_all file "\n")

module _ {V D P H : Type 0} (intents : RecordTexts (CommunicationIntent V))
    (files : Files D P H) where
  unfoldable pub append_intent : String → CommunicationIntent V → Act D (Unit {0})
  append_intent execution_id =
      append_ndjson_record intents files (execution_dir files execution_id)
        (files.join (execution_dir files execution_id) "intents.log")

  unfoldable pub load_intents : String → D → Io (List (CommunicationIntent V))
  load_intents execution_id =
      load_ndjson_records intents files
        (files.join (execution_dir files execution_id) "intents.log")

module _ {D P H : Type 0} (messages : RecordTexts RoutedMessage) (files : Files D P H) where
  unfoldable pub append_routed_message : String → RoutedMessage → Act D (Unit {0})
  append_routed_message execution_id =
      append_ndjson_record messages files (execution_dir files execution_id)
        (files.join (execution_dir files execution_id) "messages.log")

  unfoldable pub load_routed_messages : String → D → Io (List RoutedMessage)
  load_routed_messages execution_id =
      load_ndjson_records messages files
        (files.join (execution_dir files execution_id) "messages.log")
