-- ===== src/Orchestration/MessageBox.antt =====
-- src/orchestration/message_box.rs: the messages between the candidates of an execution.
-- This module: merging and checking what the candidates send.
-- The texts of JSON numbers and of JSON strings are serde_json's: parameters `number_text` and `quote`.
pub mod Merging
pub mod Intake
pub mod Delivery
pub mod Stats
pub mod Examples
use mathlib.Core.Option.{get_or}
use void_control.Base.{
  ℕ, zero, suc, ◌+◌, Bool, true, false, not, ◌&&◌, ◌||◌, Option, none, some, String, List, [], ◌∷◌,
  ◌++◌, map, any, filter, if◌then◌else◌, ltb, leb, ◌==◌, length, str_eq, ◌&◌, decimal, is_blank,
  add_u32, compare_text, sort_by, Ordering,
}
use void_control.Base.Map.{Map, get, insert, values}
use void_control.Orchestration.Json.{
  Value, Items, Members, null, bool, number, string, array, object, no_items, item, no_members,
  member, get_member, as_text,
}
use void_control.Orchestration.Types.{
  CandidateInbox, CommunicationIntent, CommunicationIntentAudience, CommunicationIntentKind,
  CommunicationIntentPriority, InboxEntry, InboxSnapshot, MessageStats, RoutedMessage,
  RoutedMessageStatus, new_inbox,
}

audience_key : CommunicationIntentAudience → String
audience_key CommunicationIntentAudience.leader = "leader"
audience_key CommunicationIntentAudience.broadcast = "broadcast"

-- The texts, with a comma between two.
join : List String → String
join [] = ""
join (s ∷ []) = s
join (s ∷ t ∷ ss) = s & "," & join (t ∷ ss)

after_key : String × String → String × String → Bool
after_key e f = elim (compare_text e.0 f.0) [
  | Ordering.lt ↦ false
  | Ordering.eq ↦ false
  | Ordering.gt ↦ true
]

module _ {N : Type 0} (number_text : N → String) (quote : String → String) where
  render_member : String × String → String
  render_member e = quote e.0 & ":" & e.1

  -- `append_normalized_value`, with the texts of an array's items and an object's members.
  unfoldable mutual
    unfolding join after_key render_member

    normalized : Value N → String
    normalized null = "null"
    normalized (bool b) = if b then "true" else "false"
    normalized (number n) = number_text n
    normalized (string s) = quote s
    normalized (array vs) = "[" & join (normalized_items vs) & "]"
    normalized (object ms) =
        "{" & join (map render_member (sort_by after_key (normalized_members ms))) & "}"

    normalized_items : Items N → List String
    normalized_items no_items = []
    normalized_items (item v vs) = normalized v ∷ normalized_items vs

    normalized_members : Members N → List (String × String)
    normalized_members no_members = []
    normalized_members (member k v ms) = (k, normalized v) ∷ normalized_members ms

  unfoldable pub message_dedup_key : CommunicationIntent (Value N) → String
  unfolding normalized audience_key
  message_dedup_key i =
      normalized i.payload & "|" & audience_key i.audience & "|" & decimal i.iteration

-- The loop of `merge_and_dedup`: `seen` holds the keys of the intents that were kept.
unfoldable pub dedup : {A : Type 0} → (A → String) → List String → List A → List A
dedup key seen [] = []
dedup key seen (x ∷ xs) =
    let there = any (λ k. str_eq k (key x)) seen in
    let rest = dedup key (if there then seen else key x ∷ seen) xs in
    if there then rest else x ∷ rest

unfoldable pub merge_and_dedup :
    {N : Type 0}
    → (N → String)
    → (String → String)
    → List (CommunicationIntent (Value N))
    → List (CommunicationIntent (Value N))
    → List (CommunicationIntent (Value N))
merge_and_dedup number_text quote sidecar_intents structured_output_intents =
    dedup (message_dedup_key number_text quote) [] (sidecar_intents ++ structured_output_intents)

has_text : Option String → Bool
has_text none = false
has_text (some value) = not (is_blank value)

unfoldable pub is_broadcast : CommunicationIntentAudience → Bool
is_broadcast CommunicationIntentAudience.broadcast = true
is_broadcast CommunicationIntentAudience.leader = false

-- What the loop of `normalize_intents` changes.
pub record Normalizing (N : Type 0) : Type 0 where
  pub valid : List (CommunicationIntent (Value N))
  pub rejected : ℕ
  pub broadcast_count : ℕ

module _ {N : Type 0} where
  unfoldable pub payload_has_summary_text : Value N → Bool
  unfolding has_text
  payload_has_summary_text payload = has_text (as_text (get_member "summary_text" payload))

  unfoldable pub summary_text : Value N → String
  summary_text payload = get_or (as_text (get_member "summary_text" payload)) ""

  -- The intent as the candidate's own, of this iteration.
  unfoldable pub stamp : String → ℕ → CommunicationIntent (Value N) → CommunicationIntent (Value N)
  stamp candidate_id iteration intent = record intent {
    from_candidate_id = candidate_id;
    iteration = iteration;
  }

  reject : Normalizing N → Normalizing N
  reject n = record n { rejected = n.rejected + 1 }

  push_valid : CommunicationIntent (Value N) → Normalizing N → Normalizing N
  push_valid intent n = record n { valid = n.valid ++ intent ∷ [] }

  count_broadcast : Normalizing N → Normalizing N
  count_broadcast n = record n { broadcast_count = n.broadcast_count + 1 }

  -- One round of the loop.
  unfoldable pub normalize_one :
      String → ℕ → CommunicationIntent (Value N) → Normalizing N → Normalizing N
  unfolding reject push_valid count_broadcast
  normalize_one candidate_id iteration intent n =
      if leb 3 (length n.valid)
      then reject n
      else if is_blank intent.intent_id || intent.ttl_iterations == 0
      then reject n
      else if not (payload_has_summary_text intent.payload)
      then reject n
      else if is_broadcast intent.audience
      then (if ltb 1 (n.broadcast_count + 1)
          then reject (count_broadcast n)
          else push_valid (stamp candidate_id iteration intent) (count_broadcast n))
      else push_valid (stamp candidate_id iteration intent) n

  unfoldable pub normalize_all :
      String → ℕ → List (CommunicationIntent (Value N)) → Normalizing N → Normalizing N
  normalize_all candidate_id iteration [] n = n
  normalize_all candidate_id iteration (i ∷ is) n =
      normalize_all candidate_id iteration is (normalize_one candidate_id iteration i n)

  unfoldable pub normalize_intents :
      String → ℕ → List (CommunicationIntent (Value N)) → List (CommunicationIntent (Value N)) × ℕ
  normalize_intents candidate_id iteration intents =
      let n =
        normalize_all candidate_id iteration intents
          (record { valid = []; rejected = 0; broadcast_count = 0 }) in
      (n.valid, n.rejected)
