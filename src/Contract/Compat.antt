-- ===== src/Contract/Compat.antt =====
-- src/contract/compat.rs: the runs that void-box reports, as the contract has them. `F` is the type of `f64`, and
-- `float_text` its `to_string`.
pub mod Counting
use Prim.Native.Char.{code}
use void_control.Base.{
  ℕ, Bool, true, false, not, ◌&&◌, ◌||◌, Option, none, some, String, List, [], ◌∷◌, ◌&◌, ◌+◌, ◌==◌,
  ltb, leb, if◌then◌else◌, str_eq, decimal, parse_number, u64_max, add_u64, is_empty_text,
  cons_char, is_empty,
}
use void_control.Base.Map.{Map, insert}
use void_control.Contract.State.{RunState}
use void_control.Contract.Event.{
  EventType, EventEnvelope, EventSequenceTracker, default, observe_all,
}
use void_control.Contract.Error.{ContractErrorCode, Result}
use void_control.Contract.Error
use void_control.Contract.Api.{RuntimeInspection}

-- `i64`: `negsuc n` is -(n + 1).
pub data ℤ : Type 0 where
  pos negsuc : ℕ → ℤ

int_text : ℤ → String
int_text (ℤ.pos n) = decimal n
int_text (ℤ.negsuc n) = "-" & decimal (n + 1)

pub data VoidBoxPayloadValue (F : Type 0) : Type 0 where
  string : String → VoidBoxPayloadValue F
  bool : Bool → VoidBoxPayloadValue F
  integer : ℤ → VoidBoxPayloadValue F
  unsigned : ℕ → VoidBoxPayloadValue F
  float : F → VoidBoxPayloadValue F
  null : VoidBoxPayloadValue F
  unsupported : String → VoidBoxPayloadValue F

pub record VoidBoxRunEventRaw (F : Type 0) : Type 0 where
  pub ts_ms : ℕ
  pub event_type : String
  pub run_id : Option String
  pub seq : Option ℕ
  pub payload : Option (Map (VoidBoxPayloadValue F))

pub record VoidBoxRunRaw (F : Type 0) : Type 0 where
  pub id : String
  pub status : String
  pub error : Option String
  pub events : List (VoidBoxRunEventRaw F)

pub record ConversionDiagnostics : Type 0 where
  pub dropped_unknown_event_types : ℕ
  pub dropped_missing_run_id : ℕ
  pub seq_fallback_assigned : ℕ

pub record ConvertedRunView : Type 0 where
  pub inspection : RuntimeInspection
  pub events : List EventEnvelope
  pub diagnostics : ConversionDiagnostics

-- `s.to_ascii_lowercase() == t`
lower : ℕ → ℕ
lower c = if leb 65 c && leb c 90 then c + 32 else c

lowercase_eq : String → String → Bool
unfolding lower
lowercase_eq String.[] String.[] = true
lowercase_eq (String.◌∷◌ c s) (String.◌∷◌ d t) = lower (code c) == code d && lowercase_eq s t
lowercase_eq _ _ = false

unfoldable pub map_void_box_status : String → Option RunState
unfolding lowercase_eq
map_void_box_status status =
    if lowercase_eq status "pending"
    then some RunState.pending
    else if lowercase_eq status "starting"
    then some RunState.starting
    else if lowercase_eq status "running"
    then some RunState.running
    else if lowercase_eq status "completed"
        || lowercase_eq status "succeeded"
        || lowercase_eq status "success"
    then some RunState.succeeded
    else if lowercase_eq status "failed"
    then some RunState.failed
    else if lowercase_eq status "cancelled" || lowercase_eq status "canceled"
    then some RunState.canceled
    else none

unfoldable pub map_void_box_event_type : String → Option EventType
map_void_box_event_type event_type =
    if str_eq event_type "run.started"
    then some EventType.run_started
    else if str_eq event_type "run.finished"
    then some EventType.run_completed
    else if str_eq event_type "run.failed"
    then some EventType.run_failed
    else if str_eq event_type "run.cancelled" || str_eq event_type "run.canceled"
    then some EventType.run_canceled
    else none

unfoldable pub ts_ms_to_string : ℕ → String
ts_ms_to_string ts_ms = decimal ts_ms & "ms"

-- `strip_suffix`
strip_suffix : String → String → Option String
strip_suffix suffix String.[] = if is_empty_text suffix then some "" else none
strip_suffix suffix (String.◌∷◌ c s) =
    let rest = strip_suffix suffix s in
    if str_eq (cons_char c s) suffix
    then some ""
    else elim rest [ none ↦ none | some r ↦ some (cons_char c r) ]

unfoldable pub parse_ts_ms : String → Option ℕ
unfolding strip_suffix
parse_ts_ms ts = elim (strip_suffix "ms" ts) [
  | none ↦ none
  | some digits ↦ parse_number u64_max digits
]

-- The loop of `derive_started_updated`, over the least and the greatest time so far.
unfoldable pub time_range : List EventEnvelope → ℕ → ℕ → ℕ × ℕ
time_range [] least greatest = (least, greatest)
time_range (e ∷ es) least greatest = elim (parse_ts_ms e.timestamp) [
  | none ↦ time_range es least greatest
  | some ms ↦
      time_range es (if ltb ms least then ms else least) (if ltb greatest ms then ms else greatest)
]

range_text : ℕ × ℕ → String × String
range_text (least, greatest) =
    if least == u64_max then ("0Z", "0Z") else (ts_ms_to_string least, ts_ms_to_string greatest)

unfoldable pub derive_started_updated : List EventEnvelope → String × String
unfolding range_text
derive_started_updated events =
    if is_empty events then ("0Z", "0Z") else range_text (time_range events u64_max 0)

abbrev no_diagnostics : ConversionDiagnostics
no_diagnostics = record {
  dropped_unknown_event_types = 0;
  dropped_missing_run_id = 0;
  seq_fallback_assigned = 0;
}

module _ {F : Type 0} (float_text : F → String) where
  value_text : VoidBoxPayloadValue F → Option String
  unfolding int_text
  value_text (VoidBoxPayloadValue.string v) = some v
  value_text (VoidBoxPayloadValue.bool true) = some "true"
  value_text (VoidBoxPayloadValue.bool false) = some "false"
  value_text (VoidBoxPayloadValue.integer v) = some (int_text v)
  value_text (VoidBoxPayloadValue.unsigned v) = some (decimal v)
  value_text (VoidBoxPayloadValue.float v) = some (float_text v)
  value_text VoidBoxPayloadValue.null = none
  value_text (VoidBoxPayloadValue.unsupported v) = none

  insert_text : String → Option String → Map String → Map String
  insert_text key none out = out
  insert_text key (some value) out = insert key value out

  flatten_entries : Map (VoidBoxPayloadValue F) → Map String → Map String
  unfolding value_text insert_text
  flatten_entries [] out = out
  flatten_entries ((key, value) ∷ payload) out =
      flatten_entries payload (insert_text key (value_text value) out)

  unfoldable pub flatten_payload : Option (Map (VoidBoxPayloadValue F)) → Map String
  unfolding flatten_entries
  flatten_payload none = []
  flatten_payload (some payload) = flatten_entries payload []

  -- `match raw.seq`, and what it counts.
  seq_of : Option ℕ → Option ℕ → ℕ
  seq_of (some explicit) last_seq = explicit
  seq_of none none = 1
  seq_of none (some last) = add_u64 last 1

  count_fallback : Option ℕ → ConversionDiagnostics → ConversionDiagnostics
  count_fallback (some explicit) diagnostics = diagnostics
  count_fallback none diagnostics = record diagnostics {
    seq_fallback_assigned = diagnostics.seq_fallback_assigned + 1;
  }

  envelope : String → VoidBoxRunEventRaw F → EventType → ℕ → EventEnvelope
  envelope id raw event_type seq = record {
    event_id = "evt_" & id & "_" & decimal seq;
    event_type = event_type;
    run_id = id;
    attempt_id = 1;
    timestamp = ts_ms_to_string raw.ts_ms;
    seq = seq;
    payload = flatten_payload raw.payload;
  }

  push_front :
      EventEnvelope
      → ConversionDiagnostics × List EventEnvelope
      → ConversionDiagnostics × List EventEnvelope
  push_front event (diagnostics, events) = (diagnostics, event ∷ events)

  -- An event of a known type.
  convert_known :
      String
      → VoidBoxRunEventRaw F
      → EventType
      → Option String
      → ConversionDiagnostics
      → Option ℕ
      → (ConversionDiagnostics → Option ℕ → ConversionDiagnostics × List EventEnvelope)
      → ConversionDiagnostics × List EventEnvelope
  unfolding push_front envelope seq_of count_fallback
  convert_known id raw event_type none diagnostics last_seq rest =
      rest (record diagnostics { dropped_missing_run_id = diagnostics.dropped_missing_run_id + 1 })
        last_seq
  convert_known id raw event_type (some run_id) diagnostics last_seq rest =
      push_front (envelope id raw event_type (seq_of raw.seq last_seq))
        (rest (count_fallback raw.seq diagnostics) (some (seq_of raw.seq last_seq)))

  convert_typed :
      String
      → VoidBoxRunEventRaw F
      → Option EventType
      → ConversionDiagnostics
      → Option ℕ
      → (ConversionDiagnostics → Option ℕ → ConversionDiagnostics × List EventEnvelope)
      → ConversionDiagnostics × List EventEnvelope
  unfolding convert_known
  convert_typed id raw none diagnostics last_seq rest =
      rest
        (record diagnostics {
          dropped_unknown_event_types = diagnostics.dropped_unknown_event_types + 1;
        })
        last_seq
  convert_typed id raw (some event_type) diagnostics last_seq rest =
      convert_known id raw event_type raw.run_id diagnostics last_seq rest

  -- The loop over the events, from the counts and the number assigned last.
  unfoldable pub convert_events :
      String
      → List (VoidBoxRunEventRaw F)
      → ConversionDiagnostics
      → Option ℕ
      → ConversionDiagnostics × List EventEnvelope
  unfolding convert_typed
  convert_events id [] diagnostics last_seq = (diagnostics, [])
  convert_events id (raw ∷ raws) diagnostics last_seq =
      convert_typed id raw (map_void_box_event_type raw.event_type) diagnostics last_seq
        (convert_events id raws)

  view_of :
      VoidBoxRunRaw F → RunState → ConversionDiagnostics × List EventEnvelope → ConvertedRunView
  view_of run state (diagnostics, events) = record {
    inspection = record {
      run_id = run.id;
      attempt_id = 1;
      state = state;
      active_stage_count = 0;
      active_microvm_count = 0;
      started_at = (derive_started_updated events).0;
      updated_at = (derive_started_updated events).1;
      terminal_reason = run.error;
      exit_code = none;
    };
    events = events;
    diagnostics = diagnostics;
  }

  checked : Option EventSequenceTracker → ConvertedRunView → Result ConvertedRunView
  checked none view =
      Result.err (
        Error.new ContractErrorCode.invalid_spec "event sequence must be strictly increasing" false)
  checked (some tracker) view = Result.ok view

  converted : VoidBoxRunRaw F → Option RunState → Result ConvertedRunView
  unfolding checked view_of
  converted run none = Result.err (
      Error.new ContractErrorCode.invalid_spec ("unknown void-box status '" & run.status & "'")
        false)
  converted run (some state) =
      checked (observe_all default (convert_events run.id run.events no_diagnostics none).1)
        (view_of run state (convert_events run.id run.events no_diagnostics none))

  unfoldable pub from_void_box_run : VoidBoxRunRaw F → Result ConvertedRunView
  unfolding converted
  from_void_box_run run = converted run (map_void_box_status run.status)
