-- ===== src/Orchestration/MessageBox/Stats.antt =====
-- src/orchestration/message_box.rs: the statistics of the messages of one iteration.
pub mod Totals
use void_control.Base.{
  ℕ, ◌+◌, Bool, true, Option, none, some, String, List, [], ◌∷◌, any, if◌then◌else◌, ◌==◌, length,
  str_eq,
}
use void_control.Base.Map.{Map, get}
use void_control.Orchestration.Types.{
  CommunicationIntent, CommunicationIntentKind, CommunicationIntentPriority, MessageStats,
  RoutedMessage, RoutedMessageStatus,
}
use void_control.Orchestration.MessageBox.Delivery.{index_intents}

-- `BTreeSet::insert`, for a set that is only counted.
unfoldable pub add_text : String → List String → List String
add_text s set = if any (λ t. str_eq t s) set then set else s ∷ set

-- What the loop of `extract_message_stats` changes.
pub record Counting : Type 0 where
  pub stats : MessageStats
  pub unique_sources : List String
  pub unique_intents : List String

-- The derived `Default`, but for the iteration.
unfoldable pub no_stats : ℕ → MessageStats
no_stats iteration = record {
  iteration = iteration;
  total_messages = 0;
  leader_messages = 0;
  broadcast_messages = 0;
  proposal_count = 0;
  signal_count = 0;
  evaluation_count = 0;
  high_priority_count = 0;
  normal_priority_count = 0;
  low_priority_count = 0;
  delivered_count = 0;
  dropped_count = 0;
  expired_count = 0;
  unique_sources = 0;
  unique_intent_count = 0;
}

-- The four `match`es of the loop.
count_receiver : String → MessageStats → MessageStats
count_receiver to s =
    if str_eq to "leader"
    then record s { leader_messages = s.leader_messages + 1 }
    else if str_eq to "broadcast"
    then record s { broadcast_messages = s.broadcast_messages + 1 }
    else s

count_kind : CommunicationIntentKind → MessageStats → MessageStats
count_kind CommunicationIntentKind.proposal s = record s { proposal_count = s.proposal_count + 1 }
count_kind CommunicationIntentKind.signal s = record s { signal_count = s.signal_count + 1 }
count_kind CommunicationIntentKind.evaluation s = record s {
  evaluation_count = s.evaluation_count + 1;
}

count_priority : CommunicationIntentPriority → MessageStats → MessageStats
count_priority CommunicationIntentPriority.high s = record s {
  high_priority_count = s.high_priority_count + 1;
}
count_priority CommunicationIntentPriority.normal s = record s {
  normal_priority_count = s.normal_priority_count + 1;
}
count_priority CommunicationIntentPriority.low s = record s {
  low_priority_count = s.low_priority_count + 1;
}

count_status : RoutedMessageStatus → MessageStats → MessageStats
count_status RoutedMessageStatus.delivered s = record s { delivered_count = s.delivered_count + 1 }
count_status RoutedMessageStatus.dropped s = record s { dropped_count = s.dropped_count + 1 }
count_status RoutedMessageStatus.expired s = record s { expired_count = s.expired_count + 1 }
count_status RoutedMessageStatus.routed s = s

count_total : MessageStats → MessageStats
count_total s = record s { total_messages = s.total_messages + 1 }

module _ {V : Type 0} where
  -- One message of the iteration, with the intent that it names. Without one it is passed over.
  count_found : RoutedMessage → Option (CommunicationIntent V) → Counting → Counting
  unfolding count_receiver count_kind count_priority count_status count_total
  count_found message none c = c
  count_found message (some intent) c = record {
    stats = count_status message.status (
        count_priority intent.priority
          (count_kind intent.kind (count_receiver message.to (count_total c.stats))));
    unique_sources = add_text intent.from_candidate_id c.unique_sources;
    unique_intents = add_text intent.intent_id c.unique_intents;
  }

  unfoldable pub count_messages :
      Map (CommunicationIntent V) → ℕ → List RoutedMessage → Counting → Counting
  unfolding count_found
  count_messages intents_by_id delivery_iteration [] c = c
  count_messages intents_by_id delivery_iteration (m ∷ ms) c =
      count_messages intents_by_id delivery_iteration ms (
        if m.delivery_iteration == delivery_iteration
        then count_found m (get m.intent_id intents_by_id) c
        else c)

  unfoldable pub extract_message_stats :
      List (CommunicationIntent V) → List RoutedMessage → ℕ → MessageStats
  extract_message_stats intents routed_messages delivery_iteration =
      let c = count_messages (index_intents intents []) delivery_iteration routed_messages (record {
        stats = no_stats delivery_iteration;
        unique_sources = [];
        unique_intents = [];
      }) in
      record (c.stats) {
        unique_sources = length c.unique_sources;
        unique_intent_count = length c.unique_intents;
      }
