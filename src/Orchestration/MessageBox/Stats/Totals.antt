-- ===== src/Orchestration/MessageBox/Stats/Totals.antt =====
-- src/orchestration/message_box.rs: how the counts of the statistics add up.
use void_control.Base.{
  ℕ, ◌+◌, ◌≤◌, ◌≡◌, Bool, ◌&&◌, Option, none, some, String, inl, inr, List, [], ◌∷◌, filter,
  if◌then◌else◌, ◌==◌, is_some, length, arith, refl, subst, Bool-cases,
}
use void_control.Base.Map.{Map, get}
use void_control.Orchestration.Types.{
  CommunicationIntent, CommunicationIntentKind, CommunicationIntentPriority, MessageStats,
  RoutedMessage, RoutedMessageStatus,
}
use void_control.Orchestration.MessageBox.Delivery.{index_intents}
use void_control.Orchestration.MessageBox.Stats.{
  Counting, add_text, no_stats, count_receiver, count_kind, count_priority, count_status,
  count_total, count_found, count_messages, extract_message_stats,
}

-- How the counts add up, all of them together.
pub record AddsUp (s : MessageStats) : Type 0 where
  pub receivers : s.leader_messages + s.broadcast_messages ≤ s.total_messages
  pub kinds : s.proposal_count + s.signal_count + s.evaluation_count ≡ s.total_messages
  pub priorities :
      s.high_priority_count + s.normal_priority_count + s.low_priority_count ≡ s.total_messages
  pub statuses : s.delivered_count + s.dropped_count + s.expired_count ≤ s.total_messages

count_total_lem :
    (status : RoutedMessageStatus) (priority : CommunicationIntentPriority)
    (kind : CommunicationIntentKind) (to : String) (s : MessageStats)
    → AddsUp s
    → AddsUp (
        count_status status
          (count_priority priority (count_kind kind (count_receiver to (count_total s)))))
unfolding count_status count_priority count_kind count_receiver count_total
count_total_lem status priority kind to s h =
    ground (arith, h.receivers, h.kinds, h.priorities, h.statuses)

total-count :
    (status : RoutedMessageStatus) (priority : CommunicationIntentPriority)
    (kind : CommunicationIntentKind) (to : String) (s : MessageStats)
    → (count_status status (
        count_priority priority
          (count_kind kind (count_receiver to (count_total s))))).total_messages
      ≡ s.total_messages + 1
unfolding count_status count_priority count_kind count_receiver count_total
total-count status priority kind to s = ground arith

length-add_text : (s : String) (set : List String) → length (add_text s set) ≤ length set + 1
unfolding add_text
length-add_text s set = ground arith

-- What the loop keeps true, after `n` messages that count.
record IsCounting (n : ℕ) (c : Counting) : Type 0 where
  adds_up : AddsUp c.stats
  total : c.stats.total_messages ≡ n
  sources : length c.unique_sources ≤ n
  intents : length c.unique_intents ≤ n

of_same : (n k : ℕ) (c : Counting) → n ≡ k → IsCounting n c → IsCounting k c
of_same n k c e h = subst (λ m. IsCounting m c) e h

module _ {V : Type 0} (by_id : Map (CommunicationIntent V)) (d : ℕ) where
  -- The message is delivered in this iteration, and its intent is known.
  abbrev pub counts : RoutedMessage → Bool
  counts m = m.delivery_iteration == d && is_some (get m.intent_id by_id)

  count_found-IsCounting :
      (n : ℕ) (m : RoutedMessage) (i : CommunicationIntent V) (c : Counting)
      → IsCounting n c
      → IsCounting (n + 1) (count_found m (some i) c)
  unfolding count_found
  count_found-IsCounting n m i c h = record {
    adds_up = count_total_lem m.status i.priority i.kind m.to c.stats h.adds_up;
    total = omega (arith, total-count m.status i.priority i.kind m.to c.stats, h.total);
    sources = omega (arith, length-add_text i.from_candidate_id c.unique_sources, h.sources);
    intents = omega (arith, length-add_text i.intent_id c.unique_intents, h.intents);
  }

  count_one-IsCounting :
      (n : ℕ) (m : RoutedMessage) (o : Option (CommunicationIntent V)) (c : Counting)
      → IsCounting n c
      → IsCounting
          (n + (if m.delivery_iteration == d && is_some o then 1 else 0))
          (if m.delivery_iteration == d then count_found m o c else c)
  count_one-IsCounting n m none c h = elim (Bool-cases (m.delivery_iteration == d)) [
    | inl e ↦ rw e (unfold count_found in of_same n (n + 0) c (omega arith) h)
    | inr e ↦ rw e (of_same n (n + 0) c (omega arith) h)
  ]
  count_one-IsCounting n m (some i) c h = elim (Bool-cases (m.delivery_iteration == d)) [
    | inl e ↦ rw e (count_found-IsCounting n m i c h)
    | inr e ↦ rw e (of_same n (n + 0) c (omega arith) h)
  ]

  count_messages-IsCounting :
      (n : ℕ) (ms : List RoutedMessage) (c : Counting)
      → IsCounting n c
      → IsCounting (n + length (filter counts ms)) (count_messages by_id d ms c)
  unfolding count_messages
  count_messages-IsCounting n [] c h = of_same n (n + 0) c (omega arith) h
  count_messages-IsCounting n (m ∷ ms) c h =
      let one = n + (if counts m then 1 else 0) in
      let next = if m.delivery_iteration == d then count_found m (get m.intent_id by_id) c else c in
      of_same (one + length (filter counts ms)) (n + length (filter counts (m ∷ ms)))
        (count_messages by_id d ms next) (ground arith)
        (count_messages-IsCounting one ms next
          (count_one-IsCounting n m (get m.intent_id by_id) c h))

-- The statistics count the messages of the iteration whose intent is known. Each has one kind and one
-- priority, at most one of the two receivers and at most one of the three last statuses, and there are
-- no more sources and intents than messages.
pub extract_message_stats_lem :
    {V : Type 0} (intents : List (CommunicationIntent V)) (messages : List RoutedMessage) (d : ℕ)
    → ((extract_message_stats intents messages d).total_messages
        ≡ length (filter (counts (index_intents intents []) d) messages))
      × AddsUp (extract_message_stats intents messages d)
      × ((extract_message_stats intents messages d).unique_sources
          ≤ (extract_message_stats intents messages d).total_messages)
      × ((extract_message_stats intents messages d).unique_intent_count
          ≤ (extract_message_stats intents messages d).total_messages)
unfolding extract_message_stats
extract_message_stats_lem intents messages d =
    let start : Counting = record {
      stats = no_stats d;
      unique_sources = [];
      unique_intents = [];
    } in
    let fresh : IsCounting 0 start =
      unfold no_stats in
      record {
        adds_up = record {
          receivers = omega arith;
          kinds = refl;
          priorities = refl;
          statuses = omega arith;
        };
        total = refl;
        sources = omega arith;
        intents = omega arith;
      } in
    let h = count_messages-IsCounting (index_intents intents []) d 0 messages start fresh in
    (
      omega (arith, h.total),
      record {
        receivers = h.adds_up.receivers;
        kinds = h.adds_up.kinds;
        priorities = h.adds_up.priorities;
        statuses = h.adds_up.statuses;
      },
      omega (arith, h.total, h.sources),
      omega (arith, h.total, h.intents),
    )
