-- ===== src/Orchestration/MessageBox/Examples.antt =====
-- src/orchestration/message_box.rs on concrete intents and messages.
use void_control.Base.{
  ℕ, ◌+◌, ◌≤◌, ◌≡◌, refl, none, some, String, List, [], ◌∷◌, ◌++◌, map, filter, length, get_elem?,
  ◌&◌, decimal, All, In, inl, arith, add_u32,
}
use void_control.Base.Map.{get, insert}
use void_control.Orchestration.Json.{Value, string, object, member, no_members}
use void_control.Orchestration.Types.{
  CandidateInbox, CommunicationIntent, CommunicationIntentAudience, CommunicationIntentKind,
  CommunicationIntentPriority, InboxSnapshot, RoutedMessage, RoutedMessageStatus, new_inbox,
}
use void_control.Orchestration.MessageBox.{
  message_dedup_key, merge_and_dedup, normalize_intents, summary_text,
}
use void_control.Orchestration.MessageBox.Merging.{HaveDistinctKeys, merge_and_dedup_lem}
use void_control.Orchestration.MessageBox.Intake.{IsKept, broadcasts, normalize_intents_lem}
use void_control.Orchestration.MessageBox.Delivery.{
  route_intents, route_one, pending_delivery_messages, pending_among, pending_one, index_intents,
  latest_messages, materialize_inbox_snapshots, build_candidate_inboxes,
}
use void_control.Orchestration.MessageBox.Delivery.Boxes.{snapshots_agree_with_inboxes}
use void_control.Orchestration.MessageBox.Delivery.Pending.{pending_delivery_messages_lem}
use void_control.Orchestration.MessageBox.Delivery.Once.{records, delivered_once}
use void_control.Orchestration.MessageBox.Stats.{extract_message_stats}
use void_control.Orchestration.MessageBox.Stats.Totals.{AddsUp, counts, extract_message_stats_lem}

abbrev intent : String → CommunicationIntentAudience → String → CommunicationIntent (Value ℕ)
intent id audience summary = record {
  intent_id = id;
  from_candidate_id = "candidate-1";
  iteration = 0;
  kind = CommunicationIntentKind.proposal;
  audience = audience;
  payload = object (member "summary_text" (string summary) no_members);
  priority = CommunicationIntentPriority.normal;
  ttl_iterations = 1;
  caused_by = none;
  context = none;
}

abbrev to_all : CommunicationIntent (Value ℕ)
to_all = intent "intent-1" CommunicationIntentAudience.broadcast "lower the batch size"

abbrev to_leader : CommunicationIntent (Value ℕ)
to_leader = intent "intent-2" CommunicationIntentAudience.leader "raise the limit"

abbrev sent : List (CommunicationIntent (Value ℕ))
sent = to_all ∷ to_leader ∷ []

abbrev quoted : String → String
quoted s = "'" & s & "'"

merge_and_dedup_lem_example :
    HaveDistinctKeys (message_dedup_key decimal quoted) (merge_and_dedup decimal quoted sent sent)
    × ((y : CommunicationIntent (Value ℕ))
        → In y (merge_and_dedup decimal quoted sent sent)
        → In y (sent ++ sent))
    × ((x : CommunicationIntent (Value ℕ))
        → In x (sent ++ sent)
        → (y : CommunicationIntent (Value ℕ)) × In y (merge_and_dedup decimal quoted sent sent)
          × (message_dedup_key decimal quoted y ≡ message_dedup_key decimal quoted x))
merge_and_dedup_lem_example = merge_and_dedup_lem decimal quoted sent sent

normalize_intents_lem_example :
    (length (normalize_intents "candidate-1" 1 sent).0 ≤ 3)
    × (length (broadcasts "candidate-1" 1 (normalize_intents "candidate-1" 1 sent).0) ≤ 1)
    × All (IsKept "candidate-1" 1) (normalize_intents "candidate-1" 1 sent).0
    × (length (normalize_intents "candidate-1" 1 sent).0
          + (normalize_intents "candidate-1" 1 sent).1
        ≡ 2)
normalize_intents_lem_example = normalize_intents_lem "candidate-1" 1 sent

abbrev messages : List RoutedMessage
messages = route_intents sent

abbrev inboxes : List CandidateInbox
inboxes = new_inbox "candidate-1" ∷ new_inbox "candidate-2" ∷ []

two_are_pending : length (pending_delivery_messages sent messages 1) ≡ 2
unfolding pending_delivery_messages pending_among pending_one index_intents latest_messages
    route_intents route_one get insert
two_are_pending = refl

snapshots_agree_with_inboxes_example :
    (b : CandidateInbox) × (s : InboxSnapshot (Value ℕ)) × (rs : List RoutedMessage) × (get_elem?
        (build_candidate_inboxes 1 2 sent messages)
        1
      ≡ some b)
    × (get_elem?
          (materialize_inbox_snapshots "exec-1" 1
            (build_candidate_inboxes 1 2 sent messages)
            sent
            messages)
          1
        ≡ some (s, rs))
    × (s.candidate_id ≡ b.candidate_id)
    × (map (λ e. summary_text e.payload) s.entries ≡ b.messages)
snapshots_agree_with_inboxes_example =
    snapshots_agree_with_inboxes 1 2 sent messages "exec-1" 1 (omega arith)

pending_delivery_messages_lem_example :
    In (route_one to_all) messages
    × In to_all sent
    × (to_all.intent_id ≡ (route_one to_all).intent_id)
    × ((route_one to_all).delivery_iteration ≡ 1)
    × ((route_one to_all).status ≡ RoutedMessageStatus.routed)
    × (1 ≤ add_u32 to_all.iteration to_all.ttl_iterations)
unfolding pending_delivery_messages pending_among pending_one index_intents latest_messages
    route_intents get insert route_one
pending_delivery_messages_lem_example =
    pending_delivery_messages_lem sent messages 1 (to_all, route_one to_all) (inl refl)

delivered_once_example :
    pending_delivery_messages sent
      (messages ++ records (materialize_inbox_snapshots "exec-1" 1 inboxes sent messages))
      1
    ≡ []
delivered_once_example =
    delivered_once "exec-1" 1 (new_inbox "candidate-1") (new_inbox "candidate-2" ∷ []) sent messages

extract_message_stats_lem_example :
    ((extract_message_stats sent messages 1).total_messages
      ≡ length (filter (counts (index_intents sent []) 1) messages))
    × AddsUp (extract_message_stats sent messages 1)
    × ((extract_message_stats sent messages 1).unique_sources
        ≤ (extract_message_stats sent messages 1).total_messages)
    × ((extract_message_stats sent messages 1).unique_intent_count
        ≤ (extract_message_stats sent messages 1).total_messages)
extract_message_stats_lem_example = extract_message_stats_lem sent messages 1
