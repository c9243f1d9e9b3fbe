-- ===== src/Orchestration/MessageBox/Delivery.antt =====
-- src/orchestration/message_box.rs: routing, and the delivery to the candidates.
pub mod Boxes
pub mod Pending
pub mod Once
use void_control.Base.{
  ℕ, zero, suc, ◌+◌, Bool, true, false, ◌&&◌, Option, none, some, String, List, [], ◌∷◌, ◌++◌, map,
  if◌then◌else◌, ltb, ◌==◌, str_eq, ◌&◌, decimal, add_u32,
}
use void_control.Base.Map.{Map, get, insert, values}
use void_control.Orchestration.Json.{Value}
use void_control.Orchestration.Types.{
  CandidateInbox, CommunicationIntent, CommunicationIntentAudience, InboxEntry, InboxSnapshot,
  RoutedMessage, RoutedMessageStatus, new_inbox,
}
use void_control.Orchestration.MessageBox.{summary_text}

-- To whom a message for this audience goes, and why: the `match` of `route_intents`.
receiver : CommunicationIntentAudience → String
receiver CommunicationIntentAudience.leader = "leader"
receiver CommunicationIntentAudience.broadcast = "broadcast"

routing_reason : CommunicationIntentAudience → String
routing_reason CommunicationIntentAudience.leader = "leader_feedback_channel"
routing_reason CommunicationIntentAudience.broadcast = "broadcast_fanout"

module _ {V : Type 0} where
  unfoldable pub route_one : CommunicationIntent V → RoutedMessage
  unfolding receiver routing_reason
  route_one i = record {
    message_id = "msg-" & i.intent_id & "-" & receiver i.audience;
    intent_id = i.intent_id;
    to = receiver i.audience;
    delivery_iteration = add_u32 i.iteration 1;
    routing_reason = routing_reason i.audience;
    status = RoutedMessageStatus.routed;
  }

  unfoldable pub route_intents : List (CommunicationIntent V) → List RoutedMessage
  route_intents intents = map route_one intents

  -- The map from the ids to the intents; a later intent takes the place of an earlier one.
  unfoldable pub index_intents :
      List (CommunicationIntent V) → Map (CommunicationIntent V) → Map (CommunicationIntent V)
  index_intents [] m = m
  index_intents (i ∷ is) m = index_intents is (insert i.intent_id i m)

unfoldable pub latest_messages : List RoutedMessage → Map RoutedMessage → Map RoutedMessage
latest_messages [] m = m
latest_messages (r ∷ rs) m = latest_messages rs (insert r.message_id r m)

-- `status == RoutedMessageStatus::Routed`
pub is_routed : RoutedMessageStatus → Bool
is_routed RoutedMessageStatus.routed = true
is_routed _ = false

-- What `filter_map` does with one answer.
push_some : {A : Type 0} → Option A → List A → List A
push_some none rest = rest
push_some (some a) rest = a ∷ rest

module _ {V : Type 0} where
  -- The closure of the `filter_map`, behind the two tests of the `filter`.
  in_time :
      ℕ
      → RoutedMessage
      → Option (CommunicationIntent V)
      → Option (CommunicationIntent V × RoutedMessage)
  in_time delivery_iteration message none = none
  in_time delivery_iteration message (some intent) =
      if ltb (add_u32 intent.iteration intent.ttl_iterations) delivery_iteration
      then none
      else some (intent, message)

  unfoldable pub pending_one :
      Map (CommunicationIntent V)
      → ℕ
      → RoutedMessage
      → Option (CommunicationIntent V × RoutedMessage)
  unfolding in_time is_routed
  pending_one intents_by_id delivery_iteration message =
      if message.delivery_iteration == delivery_iteration && is_routed message.status
      then in_time delivery_iteration message (get message.intent_id intents_by_id)
      else none

  unfoldable pub pending_among :
      Map (CommunicationIntent V)
      → ℕ
      → List RoutedMessage
      → List (CommunicationIntent V × RoutedMessage)
  unfolding push_some
  pending_among intents_by_id delivery_iteration [] = []
  pending_among intents_by_id delivery_iteration (m ∷ ms) =
      push_some (pending_one intents_by_id delivery_iteration m)
        (pending_among intents_by_id delivery_iteration ms)

  unfoldable pub pending_delivery_messages :
      List (CommunicationIntent V)
      → List RoutedMessage
      → ℕ
      → List (CommunicationIntent V × RoutedMessage)
  pending_delivery_messages intents messages delivery_iteration =
      pending_among (index_intents intents []) delivery_iteration
        (values (latest_messages messages []))

  -- One message into the boxes: into each of them, or into the first, by `push`.
  unfoldable pub deliver :
      {A : Type 0}
      → (CommunicationIntent V × RoutedMessage → A → A)
      → CommunicationIntent V × RoutedMessage
      → List A
      → List A
  deliver push p [] = []
  deliver push p (b ∷ bs) =
      if str_eq p.1.to "broadcast" then map (push p) (b ∷ bs) else push p b ∷ bs

  -- The loop over the pending messages.
  unfoldable pub deliver_all :
      {A : Type 0}
      → (CommunicationIntent V × RoutedMessage → A → A)
      → List (CommunicationIntent V × RoutedMessage)
      → List A
      → List A
  deliver_all push [] boxes = boxes
  deliver_all push (p ∷ ps) boxes = deliver_all push ps (deliver push p boxes)

  unfoldable pub entry_of : CommunicationIntent V × RoutedMessage → InboxEntry V
  entry_of p = record {
    message_id = p.1.message_id;
    intent_id = p.0.intent_id;
    from_candidate_id = p.0.from_candidate_id;
    kind = p.0.kind;
    payload = p.0.payload;
  }

  unfoldable pub delivered_record : CommunicationIntent V × RoutedMessage → RoutedMessage
  delivered_record p = record (p.1) { status = RoutedMessageStatus.delivered }

  -- A snapshot stands together with its delivered records from the start.
  push_entry :
      CommunicationIntent V × RoutedMessage
      → InboxSnapshot V × List RoutedMessage
      → InboxSnapshot V × List RoutedMessage
  unfolding entry_of delivered_record
  push_entry p (snapshot, records) = (
    record snapshot { entries = snapshot.entries ++ entry_of p ∷ [] },
    records ++ delivered_record p ∷ [],
  )

  unfoldable pub empty_snapshot : String → ℕ → CandidateInbox → InboxSnapshot V × List RoutedMessage
  empty_snapshot execution_id delivery_iteration inbox = (
    record {
      execution_id = execution_id;
      candidate_id = inbox.candidate_id;
      iteration = delivery_iteration;
      entries = [];
    },
    [],
  )

  -- Without inboxes nothing is delivered: there is no snapshot then.
  unfoldable pub materialize_inbox_snapshots :
      String
      → ℕ
      → List CandidateInbox
      → List (CommunicationIntent V)
      → List RoutedMessage
      → List (InboxSnapshot V × List RoutedMessage)
  unfolding push_entry
  materialize_inbox_snapshots execution_id delivery_iteration candidate_inboxes intents messages =
      deliver_all push_entry (pending_delivery_messages intents messages delivery_iteration)
        (map (empty_snapshot execution_id delivery_iteration) candidate_inboxes)

-- `(0..n).map(|idx| CandidateInbox::new(..))`, from a first index on.
unfoldable pub numbered_inboxes : ℕ → ℕ → List CandidateInbox
numbered_inboxes idx zero = []
numbered_inboxes idx (suc n) =
    new_inbox ("candidate-" & decimal (idx + 1)) ∷ numbered_inboxes (suc idx) n

or_first_candidate : List CandidateInbox → List CandidateInbox
or_first_candidate [] = new_inbox "candidate-1" ∷ []
or_first_candidate (b ∷ bs) = b ∷ bs

module _ {N : Type 0} where
  push_summary : CommunicationIntent (Value N) × RoutedMessage → CandidateInbox → CandidateInbox
  push_summary p inbox = record inbox {
    messages = inbox.messages ++ summary_text (p.0.payload) ∷ [];
  }

  unfoldable pub build_candidate_inboxes :
      ℕ → ℕ → List (CommunicationIntent (Value N)) → List RoutedMessage → List CandidateInbox
  unfolding push_summary or_first_candidate
  build_candidate_inboxes delivery_iteration candidate_count intents messages = or_first_candidate (
      deliver_all push_summary (pending_delivery_messages intents messages delivery_iteration)
        (numbered_inboxes 0 candidate_count))

  unfoldable pub backlog_from_pending_messages :
      List (CommunicationIntent (Value N)) → List RoutedMessage → ℕ → List String
  backlog_from_pending_messages intents messages delivery_iteration =
      map (λ p. summary_text (p.0.payload))
        (pending_delivery_messages intents messages delivery_iteration)
