-- ===== src/Orchestration/MessageBox/Delivery/Boxes.antt =====
-- src/orchestration/message_box.rs: what each candidate's box receives.
use void_control.Base.{
  ℕ, zero, suc, ◌+◌, ◌<◌, ◌≡◌, refl, ap, ◌∙◌, inl, inr, Bool, ◌||◌, Bool-cases, some, String, List,
  [], ◌∷◌, ◌++◌, map, filter, append-nil, append_assoc, if◌then◌else◌, ◌==◌, get_elem?, str_eq, ◌&◌,
  decimal, arith,
}
use void_control.Orchestration.Json.{Value}
use void_control.Orchestration.Types.{
  CandidateInbox, CommunicationIntent, InboxSnapshot, RoutedMessage, new_inbox,
}
use void_control.Orchestration.MessageBox.{summary_text}
use void_control.Orchestration.MessageBox.Delivery.{
  pending_delivery_messages, deliver, deliver_all, entry_of, delivered_record, push_entry,
  empty_snapshot, materialize_inbox_snapshots, numbered_inboxes, or_first_candidate, push_summary,
  build_candidate_inboxes,
}

-- The message reaches the box at this place: a broadcast every box, another one only the first.
abbrev pub reaches : {V : Type 0} → ℕ → CommunicationIntent V × RoutedMessage → Bool
reaches i p = str_eq p.1.to "broadcast" || i == 0

get_elem?-map-some :
    {A B : Type 0} (f : A → B) (bs : List A) (i : ℕ) (b : A)
    → get_elem? bs i ≡ some b
    → get_elem? (map f bs) i ≡ some (f b)
get_elem?-map-some f [] i b h = cc
get_elem?-map-some f (c ∷ bs) zero b h = ground arith
get_elem?-map-some f (c ∷ bs) (suc i) b h = get_elem?-map-some f bs i b h

module _ {V A : Type 0} (push : CommunicationIntent V × RoutedMessage → A → A) where
  push_all : List (CommunicationIntent V × RoutedMessage) → A → A
  push_all [] b = b
  push_all (p ∷ ps) b = push_all ps (push p b)

  get_elem?-deliver :
      (p : CommunicationIntent V × RoutedMessage) (bs : List A) (i : ℕ) (b : A)
      → get_elem? bs i ≡ some b
      → get_elem? (deliver push p bs) i ≡ some (if reaches i p then push p b else b)
  unfolding deliver
  get_elem?-deliver p [] i b h = cc
  get_elem?-deliver p (c ∷ bs) zero b h =
      ground (arith, get_elem?-map-some (push p) (c ∷ bs) zero b h)
  get_elem?-deliver p (c ∷ bs) (suc i) b h =
      ground (arith, get_elem?-map-some (push p) (c ∷ bs) (suc i) b h)

  -- A box gets the messages that reach its place, in their order.
  get_elem?-deliver_all :
      (ps : List (CommunicationIntent V × RoutedMessage)) (bs : List A) (i : ℕ) (b : A)
      → get_elem? bs i ≡ some b
      → get_elem? (deliver_all push ps bs) i ≡ some (push_all (filter (reaches i) ps) b)
  unfolding deliver_all push_all
  get_elem?-deliver_all [] bs i b h = h
  get_elem?-deliver_all (p ∷ ps) bs i b h = elim (Bool-cases (reaches i p)) [
    | inl e ↦ rw e (
        get_elem?-deliver_all ps (deliver push p bs) i (push p b)
          (get_elem?-deliver p bs i b h ∙ rw e refl))
    | inr e ↦ rw e (
        get_elem?-deliver_all ps (deliver push p bs) i b (get_elem?-deliver p bs i b h ∙ rw e refl))
  ]

module _ {V : Type 0} where
  push_all-push_entry :
      (ps : List (CommunicationIntent V × RoutedMessage)) (s : InboxSnapshot V)
      (rs : List RoutedMessage)
      → push_all push_entry ps (s, rs)
        ≡ (record s { entries = s.entries ++ map entry_of ps }, rs ++ map delivered_record ps)
  unfolding push_all push_entry
  push_all-push_entry [] s rs = ground (arith, append-nil s.entries, append-nil rs)
  push_all-push_entry (p ∷ ps) s rs =
      push_all-push_entry ps (record s { entries = s.entries ++ entry_of p ∷ [] })
        (rs ++ delivered_record p ∷ [])
      ∙ rw
          (
            append_assoc s.entries (entry_of p ∷ []) (map entry_of ps),
            append_assoc rs (delivered_record p ∷ []) (map delivered_record ps),
          )
          refl

  -- The snapshot of an inbox holds the pending messages that reach its place, in their order, and
  -- its delivered records are those messages with their status changed.
  pub materialize_inbox_snapshots_lem :
      (execution_id : String) (d : ℕ) (inboxes : List CandidateInbox)
      (intents : List (CommunicationIntent V)) (messages : List RoutedMessage) (i : ℕ)
      (b : CandidateInbox)
      → get_elem? inboxes i ≡ some b
      → get_elem? (materialize_inbox_snapshots execution_id d inboxes intents messages) i
        ≡ some (
          record {
            execution_id = execution_id;
            candidate_id = b.candidate_id;
            iteration = d;
            entries =
                map entry_of (filter (reaches i) (pending_delivery_messages intents messages d));
          },
          map delivered_record (filter (reaches i) (pending_delivery_messages intents messages d)),
        )
  unfolding materialize_inbox_snapshots empty_snapshot
  materialize_inbox_snapshots_lem execution_id d inboxes intents messages i b h =
      let pending = pending_delivery_messages intents messages d in
      get_elem?-deliver_all push_entry pending (map (empty_snapshot execution_id d) inboxes) i
        (empty_snapshot execution_id d b)
        (get_elem?-map-some (empty_snapshot execution_id d) inboxes i b h)
      ∙ ap some
          (push_all-push_entry (filter (reaches i) pending) (empty_snapshot execution_id d b).0 [])

module _ {N : Type 0} where
  push_all-push_summary :
      (ps : List (CommunicationIntent (Value N) × RoutedMessage)) (b : CandidateInbox)
      → push_all push_summary ps b
        ≡ record b { messages = b.messages ++ map (λ p. summary_text (p.0.payload)) ps }
  unfolding push_all push_summary
  push_all-push_summary [] b = ground (arith, append-nil b.messages)
  push_all-push_summary (p ∷ ps) b =
      push_all-push_summary ps
        (record b { messages = b.messages ++ summary_text (p.0.payload) ∷ [] })
      ∙ rw
          (append_assoc b.messages (summary_text (p.0.payload) ∷ [])
            (map (λ q. summary_text (q.0.payload)) ps))
          refl

get_elem?-numbered_inboxes :
    (idx n i : ℕ)
    → i < n
    → get_elem? (numbered_inboxes idx n) i ≡ some (new_inbox ("candidate-" & decimal (idx + i + 1)))
unfolding numbered_inboxes
get_elem?-numbered_inboxes idx zero i h = absurd (omega arith)
get_elem?-numbered_inboxes idx (suc n) zero h =
    let e : idx + 0 + 1 ≡ idx + 1 = omega arith in rw e refl
get_elem?-numbered_inboxes idx (suc n) (suc i) h =
    let e : idx + suc i + 1 ≡ suc idx + i + 1 = omega arith in
    rw e (get_elem?-numbered_inboxes (suc idx) n i (omega arith))

or_first_candidate-some :
    (bs : List CandidateInbox) (i : ℕ) (b : CandidateInbox)
    → get_elem? bs i ≡ some b
    → get_elem? (or_first_candidate bs) i ≡ some b
unfolding or_first_candidate
or_first_candidate-some [] i b h = cc
or_first_candidate-some (c ∷ bs) i b h = h

module _ {N : Type 0} (d candidate_count : ℕ) (intents : List (CommunicationIntent (Value N)))
    (messages : List RoutedMessage) where
  -- The inbox at a place below the number of candidates has the candidate's name and the summaries
  -- of the pending messages that reach the place, in their order.
  pub build_candidate_inboxes_lem :
      (i : ℕ)
      → i < candidate_count
      → get_elem? (build_candidate_inboxes d candidate_count intents messages) i
        ≡ some (record {
          candidate_id = "candidate-" & decimal (i + 1);
          messages =
              map
                (λ p. summary_text (p.0.payload))
                (filter (reaches i) (pending_delivery_messages intents messages d));
        })
  unfolding build_candidate_inboxes new_inbox
  build_candidate_inboxes_lem i h =
      let pending = pending_delivery_messages intents messages d in
      let fresh = new_inbox ("candidate-" & decimal (i + 1)) in
      let zero_more : 0 + i + 1 ≡ i + 1 = omega arith in
      or_first_candidate-some
        (deliver_all push_summary pending (numbered_inboxes 0 candidate_count)) i
        (push_all push_summary (filter (reaches i) pending) fresh)
        (get_elem?-deliver_all push_summary pending (numbered_inboxes 0 candidate_count) i fresh
          (get_elem?-numbered_inboxes 0 candidate_count i h ∙ rw zero_more refl))
      ∙ ap some (push_all-push_summary (filter (reaches i) pending) fresh)

  summaries-entries :
      (ps : List (CommunicationIntent (Value N) × RoutedMessage))
      → map (λ e. summary_text e.payload) (map entry_of ps)
        ≡ map (λ p. summary_text (p.0.payload)) ps
  unfolding entry_of
  summaries-entries [] = refl
  summaries-entries (p ∷ ps) = ap (◌∷◌ (summary_text (p.0.payload))) (summaries-entries ps)

  -- The snapshots that are stored for the inboxes of an iteration agree with these: at each place
  -- below the number of candidates the snapshot is of the inbox's candidate, and the summaries of
  -- its entries are the inbox's messages.
  pub snapshots_agree_with_inboxes :
      (execution_id : String) (i : ℕ)
      → i < candidate_count
      → (b : CandidateInbox) × (s : InboxSnapshot (Value N)) × (records : List RoutedMessage)
        × (get_elem? (build_candidate_inboxes d candidate_count intents messages) i ≡ some b)
        × (get_elem?
              (materialize_inbox_snapshots execution_id d
                (build_candidate_inboxes d candidate_count intents messages)
                intents
                messages)
              i
            ≡ some (s, records))
        × (s.candidate_id ≡ b.candidate_id)
        × (map (λ e. summary_text e.payload) s.entries ≡ b.messages)
  snapshots_agree_with_inboxes execution_id i h =
      let there = build_candidate_inboxes_lem i h in
      let inboxes = build_candidate_inboxes d candidate_count intents messages in
      (
        _,
        _,
        _,
        there,
        materialize_inbox_snapshots_lem execution_id d inboxes intents messages i _ there,
        refl,
        summaries-entries _,
      )
