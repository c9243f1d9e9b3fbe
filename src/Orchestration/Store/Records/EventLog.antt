-- ===== src/Orchestration/Store/Records/EventLog.antt =====
-- src/orchestration/store/fs.rs: the event log of an execution is read back, one event to a line.
use Prim.Native.Char.{Char}
use text.Mathlib.TextLemmas
use text.Mathlib.TextLemmas.{cons-append, nil-append}
use void_control.Base.{
  ◌≡◌, refl, sym, ap, ◌∙◌, arith, ℕ, ◌≤◌, Bool, true, ◌&&◌, some, String, List, [], ◌∷◌, ◌++◌, ◌&◌,
  All, AllChars, AllChars-append, is_plain, not_char, is_digit, split, split-append, split-whole,
  decimal, decimal-AllChars, u64_max, parse_number-decimal,
}
use void_control.Orchestration.Events
use void_control.Orchestration.Events.{ControlEventEnvelope, ControlEventType, as_str, parse}
use void_control.Orchestration.Events.Names.{parse_iff}
use void_control.Orchestration.Store.Lines.Reading.{lines-cons}
use void_control.Orchestration.Store.Records.{
  event_line, event_from, parse_event_parts, add_some, parse_event_lines, parse_events,
}

-- What a part of a line may hold.
abbrev pub in_part : Char → Bool
in_part c = is_plain c && not_char "|" c

-- The id of the execution holds neither a bar nor the end of a line, and the number is of 64 bits.
pub record IsLoggable (e : ControlEventEnvelope) : Type 0 where
  pub id_part : AllChars in_part e.execution_id
  pub seq_small : e.seq ≤ u64_max

-- The log after `append_event` of every event, in turn, to `existing`.
abbrev pub append_all : String → List ControlEventEnvelope → String
append_all existing [] = existing
append_all existing (e ∷ es) = append_all (existing & event_line e) es

AllChars-mono :
    (p q : Char → Bool) (s : String)
    → ((c : Char) → p c ≡ true → q c ≡ true)
    → AllChars p s
    → AllChars q s
AllChars-mono p q String.[] imp h = tt
AllChars-mono p q (String.◌∷◌ c s) imp h = (imp c h.0, AllChars-mono p q s imp h.1)

part-plain : (s : String) → AllChars in_part s → AllChars is_plain s
part-plain s h = AllChars-mono in_part is_plain s (λ c e. ground arith) h

part-no_bar : (s : String) → AllChars in_part s → AllChars (not_char "|") s
part-no_bar s h = AllChars-mono in_part (not_char "|") s (λ c e. ground arith) h

decimal-in_part : (n : ℕ) → AllChars in_part (decimal n)
decimal-in_part n =
    AllChars-mono is_digit in_part (decimal n) (λ c e. ground arith) (decimal-AllChars n)

as_str-in_part : (t : ControlEventType) → AllChars in_part (as_str t)
unfolding as_str
as_str-in_part ControlEventType.execution_created = ground arith
as_str-in_part _ = ground arith

-- The line of an event, without its end.
abbrev event_body : ControlEventEnvelope → String
event_body e = e.execution_id & "|" & decimal e.seq & "|" & as_str e.event_type

bar-in_part :
    (s t : String) → AllChars is_plain s → AllChars is_plain t → AllChars is_plain (s & "|" & t)
bar-in_part s t hs ht =
    AllChars-append is_plain s ("|" & t) hs (rw (cons-append, nil-append) (refl, ht))

event_body-plain : (e : ControlEventEnvelope) → IsLoggable e → AllChars is_plain (event_body e)
event_body-plain e h =
    bar-in_part e.execution_id (decimal e.seq & "|" & as_str e.event_type)
      (part-plain e.execution_id h.id_part)
      (bar-in_part (decimal e.seq) (as_str e.event_type)
        (part-plain (decimal e.seq) (decimal-in_part e.seq))
        (part-plain (as_str e.event_type) (as_str-in_part e.event_type)))

split-bar : (s t : String) → AllChars in_part s → split "|" (s & "|" & t) ≡ s ∷ split "|" t
split-bar s t h = rw (cons-append, nil-append) (split-append "|" s t (part-no_bar s h))

parse_event_parts-event_body :
    (e : ControlEventEnvelope)
    → IsLoggable e
    → parse_event_parts (split "|" (event_body e)) ≡ some e
unfolding parse_event_parts event_from
parse_event_parts-event_body e h =
    rw
      (
        split-bar e.execution_id (decimal e.seq & "|" & as_str e.event_type) h.id_part,
        split-bar (decimal e.seq) (as_str e.event_type) (decimal-in_part e.seq),
        split-whole "|" (as_str e.event_type)
            (part-no_bar (as_str e.event_type) (as_str-in_part e.event_type)),
        parse_number-decimal u64_max e.seq h.seq_small,
        (parse_iff (as_str e.event_type) e.event_type).1 refl,
      )
      (unfold Events.new in refl)

event_line-append :
    (e : ControlEventEnvelope) (rest : String) → event_line e & rest ≡ event_body e & "\n" & rest
unfolding event_line
event_line-append e rest = rw (TextLemmas.append_assoc) (simp (TextLemmas.append_assoc))

-- One event is taken off the front of the log.
parse_events-event_line :
    (e : ControlEventEnvelope) (rest : String)
    → IsLoggable e
    → parse_events (event_line e & rest) ≡ e ∷ parse_events rest
unfolding parse_events parse_event_lines add_some
parse_events-event_line e rest h =
    rw
      (
        event_line-append e rest,
        lines-cons (event_body e) rest (event_body-plain e h),
        parse_event_parts-event_body e h,
      )
      refl

append_all-append :
    (existing : String) (es : List ControlEventEnvelope)
    → append_all existing es ≡ existing & append_all "" es
append_all-append existing [] = sym (TextLemmas.append-nil existing)
append_all-append existing (e ∷ es) =
    append_all-append (existing & event_line e) es
    ∙ TextLemmas.append_assoc existing (event_line e) (append_all "" es)
    ∙ ap (λ s. existing & s) (sym (append_all-append ("" & event_line e) es ∙ rw nil-append refl))

-- What was appended to an empty log, event by event, is read back in its order, before whatever follows it
-- in the file. The ids of the executions hold no bar and no end of a line.
pub parse_events-append_all :
    (es : List ControlEventEnvelope) (rest : String)
    → All IsLoggable es
    → parse_events (append_all "" es & rest) ≡ es ++ parse_events rest
parse_events-append_all [] rest h = rw nil-append refl
parse_events-append_all (e ∷ es) rest h =
    ap (λ s. parse_events (s & rest))
      (append_all-append ("" & event_line e) es ∙ rw nil-append refl)
    ∙ ap parse_events (TextLemmas.append_assoc (event_line e) (append_all "" es) rest)
    ∙ parse_events-event_line e (append_all "" es & rest) h.0
    ∙ ap (◌∷◌ e) (parse_events-append_all es rest h.1)
