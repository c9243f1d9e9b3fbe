-- ===== src/Orchestration/MessageBox/Delivery/Once.antt =====
-- src/orchestration/message_box.rs: nothing is delivered twice.
use void_control.Base.{
  In-append, In-filter, ℕ, zero, suc, ◌≡◌, refl, sym, ap, ◌∙◌, subst, inl, inr, false, Bool-cases,
  some, String, List, [], ◌∷◌, ◌++◌, map, filter, get_elem?, str_eq, str_eq_refl, All, All-In,
  All-append, In, arith,
}
use void_control.Base.Map.{get, values, In-of_get, get-of_In}
use void_control.Orchestration.Types.{
  CandidateInbox, CommunicationIntent, InboxSnapshot, RoutedMessage,
}
use void_control.Orchestration.MessageBox.Delivery.{
  index_intents, latest_messages, is_routed, pending_among, pending_delivery_messages,
  delivered_record, materialize_inbox_snapshots, empty_snapshot, deliver, deliver_all, push_entry,
}
use void_control.Orchestration.MessageBox.Delivery.Boxes.{reaches, materialize_inbox_snapshots_lem}
use void_control.Orchestration.MessageBox.Delivery.Pending.{
  In-values, In-of_values, latest_messages-IsOrdered, latest_messages-append, get-latest_messages,
  In-pending_among, pending_among-In, pending_one_lem,
}

-- What is appended to the messages once the snapshots are stored.
pub records : {V : Type 0} → List (InboxSnapshot V × List RoutedMessage) → List RoutedMessage
records [] = []
records ((s, rs) ∷ l) = rs ++ records l

In-map : {A B : Type 0} (f : A → B) (a : A) (xs : List A) → In a xs → In (f a) (map f xs)
In-map f a [] i = absurd i.0
In-map f a (x ∷ xs) (inl e) = inl (ap f e)
In-map f a (x ∷ xs) (inr i) = inr (In-map f a xs i)

In-records :
    {V : Type 0} (l : List (InboxSnapshot V × List RoutedMessage)) (i : ℕ) (s : InboxSnapshot V)
    (rs : List RoutedMessage) (r : RoutedMessage)
    → get_elem? l i ≡ some (s, rs)
    → In r rs
    → In r (records l)
unfolding records
In-records [] i s rs r h j = cc
In-records ((t, ts) ∷ l) zero s rs r h j =
    (In-append r ts (records l)).1 (inl (subst (λ x. In r x) (ground arith) j))
In-records ((t, ts) ∷ l) (suc i) s rs r h j =
    (In-append r ts (records l)).1 (inr (In-records l i s rs r h j))

-- Of the messages so far and others that are no longer routed, those are pending that were pending
-- and that none of the others stands for.
pending-append :
    {V : Type 0} (intents : List (CommunicationIntent V)) (messages others : List RoutedMessage)
    (d : ℕ) (p : CommunicationIntent V × RoutedMessage)
    → ((r : RoutedMessage) → In r others → is_routed r.status ≡ false)
    → In p (pending_delivery_messages intents (messages ++ others) d)
    → In p (pending_delivery_messages intents messages d)
      × All (λ r. str_eq r.message_id p.1.message_id ≡ false) others
unfolding pending_delivery_messages
pending-append intents messages others d p quiet i =
    let by_id = index_intents intents [] in
    let before = latest_messages messages [] in
    let both = latest_messages others before in
    let (v, j, h) = pending_among-In by_id d (values both) p (
      subst (λ m. In p (pending_among by_id d (values m)))
        (latest_messages-append messages others []) i) in
    let (same, _, routed, _, _) = pending_one_lem by_id d v p h in
    let (k, there) = In-of_values v both j in
    let ordered = latest_messages-IsOrdered messages [] tt in
    let found = get-of_In k v both (latest_messages-IsOrdered others before ordered) there in
    elim (get-latest_messages others before k v found) [
      | inr (o, _) ↦ absurd (ground (arith, quiet v o))
      | inl (g, none_there) ↦
          let id : v.message_id ≡ k = elim (get-latest_messages messages [] k v g) [
            | inl (e, _) ↦ absurd (unfold get in ground arith)
            | inr (_, e) ↦ e
          ] in
          let id' : k ≡ p.1.message_id = sym id ∙ ap (λ m. m.message_id) (sym same) in
          (
            In-pending_among by_id d (values before) v p
                (In-values k v before (In-of_get k v before g)) h,
            subst (λ t. All (λ r. str_eq r.message_id t ≡ false) others) id' none_there,
          )
    ]

-- No message of a box is routed any more.
abbrev IsQuiet : {V : Type 0} → InboxSnapshot V × List RoutedMessage → Type 0
IsQuiet (s, rs) = All (λ r. is_routed r.status ≡ false) rs

push_entry-IsQuiet :
    {V : Type 0} (p : CommunicationIntent V × RoutedMessage)
    (b : InboxSnapshot V × List RoutedMessage)
    → IsQuiet b
    → IsQuiet (push_entry p b)
unfolding push_entry delivered_record is_routed
push_entry-IsQuiet p (s, rs) q =
    All-append (λ r. is_routed r.status ≡ false) rs (delivered_record p ∷ []) q (refl, tt)

map-IsQuiet :
    {V : Type 0} (p : CommunicationIntent V × RoutedMessage)
    (bs : List (InboxSnapshot V × List RoutedMessage))
    → All IsQuiet bs
    → All IsQuiet (map (push_entry p) bs)
map-IsQuiet p [] q = tt
map-IsQuiet p (b ∷ bs) q = (push_entry-IsQuiet p b q.0, map-IsQuiet p bs q.1)

deliver-IsQuiet :
    {V : Type 0} (p : CommunicationIntent V × RoutedMessage)
    (bs : List (InboxSnapshot V × List RoutedMessage))
    → All IsQuiet bs
    → All IsQuiet (deliver push_entry p bs)
unfolding deliver
deliver-IsQuiet p [] q = tt
deliver-IsQuiet p (b ∷ bs) q = elim (Bool-cases (str_eq p.1.to "broadcast")) [
  | inl e ↦ rw e (map-IsQuiet p (b ∷ bs) q)
  | inr e ↦ rw e (push_entry-IsQuiet p b q.0, q.1)
]

deliver_all-IsQuiet :
    {V : Type 0} (ps : List (CommunicationIntent V × RoutedMessage))
    (bs : List (InboxSnapshot V × List RoutedMessage))
    → All IsQuiet bs
    → All IsQuiet (deliver_all push_entry ps bs)
unfolding deliver_all
deliver_all-IsQuiet [] bs q = q
deliver_all-IsQuiet (p ∷ ps) bs q =
    deliver_all-IsQuiet ps (deliver push_entry p bs) (deliver-IsQuiet p bs q)

empty_snapshots-IsQuiet :
    (V : Type 0) (execution_id : String) (d : ℕ) (inboxes : List CandidateInbox)
    → All (IsQuiet {V = V}) (map (empty_snapshot execution_id d) inboxes)
unfolding empty_snapshot
empty_snapshots-IsQuiet V execution_id d [] = tt
empty_snapshots-IsQuiet V execution_id d (b ∷ bs) =
    (tt, empty_snapshots-IsQuiet V execution_id d bs)

quiet-records :
    {V : Type 0} (l : List (InboxSnapshot V × List RoutedMessage)) (r : RoutedMessage)
    → All IsQuiet l
    → In r (records l)
    → is_routed r.status ≡ false
unfolding records
quiet-records [] r q i = absurd i.0
quiet-records ((s, rs) ∷ l) r q i = elim ((In-append r rs (records l)).0 i) [
  | inl j ↦ All-In (λ x. is_routed x.status ≡ false) r rs q.0 j
  | inr j ↦ quiet-records l r q.1 j
]

empty_of_none : {A : Type 0} (l : List A) → ((a : A) → In a l → ⊥) → l ≡ []
empty_of_none [] h = refl
empty_of_none (x ∷ xs) h = absurd (h x (inl refl))

made-IsQuiet :
    {V : Type 0} (execution_id : String) (d : ℕ) (bs : List CandidateInbox)
    (intents : List (CommunicationIntent V)) (messages : List RoutedMessage)
    → All IsQuiet (materialize_inbox_snapshots execution_id d bs intents messages)
unfolding materialize_inbox_snapshots
made-IsQuiet execution_id d bs intents messages =
    deliver_all-IsQuiet (pending_delivery_messages intents messages d)
      (map (empty_snapshot execution_id d) bs) (empty_snapshots-IsQuiet _ execution_id d bs)

-- Once the snapshots of an iteration's inboxes are made, of which there is at least one, and the
-- delivered records are appended to the messages, nothing is pending for that iteration any more.
pub delivered_once :
    {V : Type 0} (execution_id : String) (d : ℕ) (b : CandidateInbox) (bs : List CandidateInbox)
    (intents : List (CommunicationIntent V)) (messages : List RoutedMessage)
    → pending_delivery_messages intents
        (messages ++ records (materialize_inbox_snapshots execution_id d (b ∷ bs) intents messages))
        d
      ≡ []
delivered_once {V} execution_id d b bs intents messages =
    empty_of_none _ (λ p i. again p (pending-append intents messages appended d p quiet i))
  where
    made : List (InboxSnapshot V × List RoutedMessage)
    made = materialize_inbox_snapshots execution_id d (b ∷ bs) intents messages

    appended : List RoutedMessage
    appended = records made

    quiet : (r : RoutedMessage) → In r appended → is_routed r.status ≡ false
    quiet r i = quiet-records made r (made-IsQuiet execution_id d (b ∷ bs) intents messages) i

    -- The first box holds a record of the message.
    again :
        (p : CommunicationIntent V × RoutedMessage)
        → In p (pending_delivery_messages intents messages d)
          × All (λ r. str_eq r.message_id p.1.message_id ≡ false) appended
        → ⊥
    again p (i, a) =
        let there : In (delivered_record p) (
            map delivered_record
              (filter (reaches 0) (pending_delivery_messages intents messages d))) =
          In-map delivered_record p _ ((In-filter (reaches 0) p _).1 (i, ground arith)) in
        let record_there : In (delivered_record p) appended =
          In-records made 0 _ _ (delivered_record p)
            (materialize_inbox_snapshots_lem execution_id d (b ∷ bs) intents messages 0 b refl)
            there in
        let other =
          All-In (λ r. str_eq r.message_id p.1.message_id ≡ false) (delivered_record p) appended a
            record_there in
        unfold delivered_record in ground (arith, str_eq_refl p.1.message_id)
