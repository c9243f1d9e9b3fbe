-- ===== src/Orchestration/MessageBox/Delivery/Pending.antt =====
-- src/orchestration/message_box.rs: which messages are pending.
use void_control.Base.{
  ℕ, ◌≡◌, refl, sym, ap, ◌∙◌, subst, ◌⊎◌, inl, inr, true, false, Bool-cases, Option, none, some,
  String, List, [], ◌∷◌, ◌++◌, str_eq, str_eq_iff, All, In, arith, ◌≤◌, add_u32,
}
use void_control.Base.Map.{
  Map, get, insert, values, get-insert, insert-IsOrdered, IsOrdered, get-of_In,
}
use void_control.Orchestration.Types.{CommunicationIntent, RoutedMessage, RoutedMessageStatus}
use void_control.Orchestration.MessageBox.Delivery.{
  push_some, index_intents, latest_messages, is_routed, in_time, pending_one, pending_among,
  pending_delivery_messages,
}

pub In-values : {V : Type 0} (k : String) (v : V) (m : Map V) → In (k, v) m → In v (values m)
In-values k v [] i = absurd i.0
In-values k v ((j, w) ∷ m) (inl e) = inl (ap (λ x. x.1) e)
In-values k v ((j, w) ∷ m) (inr i) = inr (In-values k v m i)

pub In-of_values : {V : Type 0} (v : V) (m : Map V) → In v (values m) → (k : String) × In (k, v) m
In-of_values v [] i = absurd i.0
In-of_values v ((j, w) ∷ m) (inl e) = (j, inl (ap (λ x. (j, x)) e))
In-of_values v ((j, w) ∷ m) (inr i) = let r = In-of_values v m i in (r.0, inr r.1)

pub latest_messages-IsOrdered :
    (rs : List RoutedMessage) (m : Map RoutedMessage)
    → IsOrdered m
    → IsOrdered (latest_messages rs m)
unfolding latest_messages
latest_messages-IsOrdered [] m o = o
latest_messages-IsOrdered (r ∷ rs) m o =
    latest_messages-IsOrdered rs (insert r.message_id r m) (insert-IsOrdered r.message_id r m o)

pub latest_messages-append :
    (rs ts : List RoutedMessage) (m : Map RoutedMessage)
    → latest_messages (rs ++ ts) m ≡ latest_messages ts (latest_messages rs m)
unfolding latest_messages
latest_messages-append [] ts m = refl
latest_messages-append (r ∷ rs) ts m = latest_messages-append rs ts (insert r.message_id r m)

-- What is found under an id was there, and no later message has the id, or is one of the messages.
pub get-latest_messages :
    (rs : List RoutedMessage) (m : Map RoutedMessage) (k : String) (v : RoutedMessage)
    → get k (latest_messages rs m) ≡ some v
    → ((get k m ≡ some v) × All (λ r. str_eq r.message_id k ≡ false) rs)
      ⊎ (In v rs × (v.message_id ≡ k))
unfolding latest_messages
get-latest_messages [] m k v h = inl (h, tt)
get-latest_messages (r ∷ rs) m k v h =
    elim (get-latest_messages rs (insert r.message_id r m) k v h) [
      | inr (i, e) ↦ inr (inr i, e)
      | inl (g, a) ↦ elim (Bool-cases (str_eq r.message_id k)) [
        | inl e ↦
            let same : r ≡ v = ground (arith, get-insert r.message_id k r m) in
            inr (inl same, ap (λ x. x.message_id) (sym same) ∙ (str_eq_iff r.message_id k).0 e)
        | inr e ↦ inl (ground (arith, get-insert r.message_id k r m), (e, a))
      ]
    ]

In-push_some :
    {A : Type 0} (o : Option A) (a : A) (l : List A) → (o ≡ some a) ⊎ In a l → In a (push_some o l)
unfolding push_some
In-push_some none a l (inl e) = cc
In-push_some none a l (inr i) = i
In-push_some (some b) a l (inl e) = inl (ground arith)
In-push_some (some b) a l (inr i) = inr i

push_some-In :
    {A : Type 0} (o : Option A) (a : A) (l : List A) → In a (push_some o l) → (o ≡ some a) ⊎ In a l
unfolding push_some
push_some-In none a l i = inr i
push_some-In (some b) a l (inl e) = inl (ap some e)
push_some-In (some b) a l (inr i) = inr i

module _ {V : Type 0} (by_id : Map (CommunicationIntent V)) (d : ℕ) where
  pub In-pending_among :
      (ms : List RoutedMessage) (v : RoutedMessage) (p : CommunicationIntent V × RoutedMessage)
      → In v ms
      → pending_one by_id d v ≡ some p
      → In p (pending_among by_id d ms)
  unfolding pending_among
  In-pending_among [] v p i h = absurd i.0
  In-pending_among (m ∷ ms) v p (inl e) h =
      In-push_some (pending_one by_id d m) p (pending_among by_id d ms)
        (inl (ap (pending_one by_id d) e ∙ h))
  In-pending_among (m ∷ ms) v p (inr i) h =
      In-push_some (pending_one by_id d m) p (pending_among by_id d ms)
        (inr (In-pending_among ms v p i h))

  pub pending_among-In :
      (ms : List RoutedMessage) (p : CommunicationIntent V × RoutedMessage)
      → In p (pending_among by_id d ms)
      → (v : RoutedMessage) × In v ms × (pending_one by_id d v ≡ some p)
  unfolding pending_among
  pending_among-In [] p i = absurd i.0
  pending_among-In (m ∷ ms) p i =
      elim (push_some-In (pending_one by_id d m) p (pending_among by_id d ms) i) [
        | inl e ↦ (m, inl refl, e)
        | inr j ↦ let (v, a, b) = pending_among-In ms p j in (v, inr a, b)
      ]

  -- What a pending message is.
  pub pending_one_lem :
      (v : RoutedMessage) (p : CommunicationIntent V × RoutedMessage)
      → pending_one by_id d v ≡ some p
      → (p.1 ≡ v)
        × (v.delivery_iteration ≡ d)
        × (is_routed v.status ≡ true)
        × (get v.intent_id by_id ≡ some (p.0))
        × (d ≤ add_u32 p.0.iteration p.0.ttl_iterations)
  unfolding pending_one in_time
  pending_one_lem v p h = ground arith

routed_of : (s : RoutedMessageStatus) → is_routed s ≡ true → s ≡ RoutedMessageStatus.routed
unfolding is_routed
routed_of s h = ground arith

get-index_intents :
    {V : Type 0} (is : List (CommunicationIntent V)) (m : Map (CommunicationIntent V)) (k : String)
    (v : CommunicationIntent V)
    → get k (index_intents is m) ≡ some v
    → (get k m ≡ some v) ⊎ (In v is × (v.intent_id ≡ k))
unfolding index_intents
get-index_intents [] m k v h = inl h
get-index_intents (i ∷ is) m k v h = elim (get-index_intents is (insert i.intent_id i m) k v h) [
  | inr (j, e) ↦ inr (inr j, e)
  | inl g ↦ elim (Bool-cases (str_eq i.intent_id k)) [
    | inl e ↦
        let same : i ≡ v = ground (arith, get-insert i.intent_id k i m) in
        inr (inl same, ap (λ x. x.intent_id) (sym same) ∙ (str_eq_iff i.intent_id k).0 e)
    | inr e ↦ inl (ground (arith, get-insert i.intent_id k i m))
  ]
]

module _ {V : Type 0} (intents : List (CommunicationIntent V)) (messages : List RoutedMessage)
    (d : ℕ) where
  -- A pending message is one of the messages, routed for this iteration, together with an intent
  -- that it names and whose time, in iterations and as a u32, has not run out.
  pub pending_delivery_messages_lem :
      (p : CommunicationIntent V × RoutedMessage)
      → In p (pending_delivery_messages intents messages d)
      → In (p.1) messages
        × In (p.0) intents
        × (p.0.intent_id ≡ p.1.intent_id)
        × (p.1.delivery_iteration ≡ d)
        × (p.1.status ≡ RoutedMessageStatus.routed)
        × (d ≤ add_u32 p.0.iteration p.0.ttl_iterations)
  unfolding pending_delivery_messages
  pending_delivery_messages_lem p i =
      let (v, j, h) =
        pending_among-In (index_intents intents []) d (values (latest_messages messages [])) p i in
      let (same, at, routed, known, time) = pending_one_lem (index_intents intents []) d v p h in
      let (k, there) = In-of_values v (latest_messages messages []) j in
      let found =
        get-of_In k v (latest_messages messages []) (latest_messages-IsOrdered messages [] tt)
          there in
      let message : In v messages = elim (get-latest_messages messages [] k v found) [
        | inl (g, _) ↦ absurd (unfold get in ground arith)
        | inr (a, _) ↦ a
      ] in
      let (intent, named) : In (p.0) intents × (p.0.intent_id ≡ v.intent_id) =
        elim (get-index_intents intents [] v.intent_id (p.0) known) [
          | inl g ↦ absurd (unfold get in ground arith)
          | inr a ↦ a
        ] in
      (
        subst (λ m. In m messages) (sym same) message,
        intent,
        named ∙ ap (λ m. m.intent_id) (sym same),
        ap (λ m. m.delivery_iteration) same ∙ at,
        ap (λ m. m.status) same ∙ routed_of v.status routed,
        time,
      )
