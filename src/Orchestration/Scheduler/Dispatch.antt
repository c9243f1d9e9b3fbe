-- ===== src/Orchestration/Scheduler/Dispatch.antt =====
-- src/orchestration/scheduler.rs: which candidate is dispatched next.
use void_control.Base.{
  ◌≤◌, ◌<◌, ◌≡◌, refl, ◌⊎◌, inl, inr, false, Option, none, some, String, List, [], ◌∷◌, arith, ap,
  leb, Option-cases, Bool-cases, ◌∙◌, sym, subst, add_u64, All, All-In, str_eq_refl, In, u64_mod,
}
use void_control.Base.Map.{Map, get, update, IsOrdered, get-update, get-of_In, In-of_get}
use void_control.Orchestration.Scheduler.{
  QueuedCandidate, DispatchGrant, ExecutionQueue, GlobalScheduler, Offer, next_dispatch,
  mark_running, offer, best_offer, earlier, grant, pop_front, start_one,
}

-- The queue `q` can be served, and `c` is the candidate at its front.
pub record IsReady (q : ExecutionQueue) (c : QueuedCandidate) (rest : List QueuedCandidate)
    : Type 0 where
  pub unpaused : q.paused ≡ false
  pub below : q.running < q.max_concurrent
  pub front : q.queued ≡ c ∷ rest

offer-some :
    (k : String) (q : ExecutionQueue) (o : Offer)
    → offer k q ≡ some o
    → (c : QueuedCandidate) × (rest : List QueuedCandidate) × IsReady q c rest
      × (o
          ≡ record { created_seq = c.created_seq; execution_id = k; candidate_id = c.candidate_id })
unfolding offer
offer-some k q o h = by_queue q.queued refl
  where
    by_queue :
        (l : List QueuedCandidate)
        → q.queued ≡ l
        → (c : QueuedCandidate) × (rest : List QueuedCandidate) × IsReady q c rest
          × (o ≡ record {
            created_seq = c.created_seq;
            execution_id = k;
            candidate_id = c.candidate_id;
          })
    by_queue [] e = absurd (ground arith)
    by_queue (c ∷ rest) e =
        (c, rest, record { unpaused = ground arith; below = ground arith; front = e }, ground arith)

offer_ready :
    (k : String) (q : ExecutionQueue) (c : QueuedCandidate) (rest : List QueuedCandidate)
    → IsReady q c rest
    → offer k q
      ≡ some
          (record { created_seq = c.created_seq; execution_id = k; candidate_id = c.candidate_id })
unfolding offer
offer_ready k q c rest r = ground arith

best_offer-In :
    (m : Map ExecutionQueue) (o : Offer)
    → best_offer m ≡ some o
    → (k : String) × (q : ExecutionQueue) × In (k, q) m × (offer k q ≡ some o)
unfolding best_offer
best_offer-In [] o h = cc
best_offer-In ((k, q) ∷ m) o h = elim (earlier_cases (offer k q) (best_offer m) h) [
  | inl e ↦ (k, q, inl refl, e)
  | inr e ↦ let (j, p, i, f) = best_offer-In m o e in (j, p, inr i, f)
]
  where
    earlier_cases : (a b : Option Offer) → earlier a b ≡ some o → (a ≡ some o) ⊎ (b ≡ some o)
    earlier_cases a b e = ground arith

earlier_left :
    (a b : Option Offer) (p : Offer)
    → a ≡ some p
    → (o : Offer) × (earlier a b ≡ some o) × (o.created_seq ≤ p.created_seq)
unfolding earlier
earlier_left none b p e = cc
earlier_left (some a) none p e = (a, refl, ground arith)
earlier_left (some a) (some b) p e = elim (Bool-cases (leb a.created_seq b.created_seq)) [
  | inl t ↦ (a, rw t, ground arith)
  | inr f ↦ (b, rw f, ground arith)
]

earlier_right :
    (a b : Option Offer) (p : Offer)
    → b ≡ some p
    → (o : Offer) × (earlier a b ≡ some o) × (o.created_seq ≤ p.created_seq)
unfolding earlier
earlier_right none b p e = (p, e, ground arith)
earlier_right (some a) none p e = cc
earlier_right (some a) (some b) p e = elim (Bool-cases (leb a.created_seq b.created_seq)) [
  | inl t ↦ (a, rw t, ground arith)
  | inr f ↦ (b, rw f, ground arith)
]

best_offer_least :
    (m : Map ExecutionQueue) (k : String) (q : ExecutionQueue) (p : Offer)
    → In (k, q) m
    → offer k q ≡ some p
    → (o : Offer) × (best_offer m ≡ some o) × (o.created_seq ≤ p.created_seq)
unfolding best_offer
best_offer_least [] k q p i h = absurd i.0
best_offer_least ((j, r) ∷ m) k q p (inl e) h =
    earlier_left (offer j r) (best_offer m) p (ap (λ t. offer t.0 t.1) e ∙ h)
best_offer_least ((j, r) ∷ m) k q p (inr i) h =
    let (o, b, l) = best_offer_least m k q p i h in
    let (o', b', l') = earlier_right (offer j r) (best_offer m) o b in (o', b', omega arith)

grant_some :
    (s : GlobalScheduler) (g : DispatchGrant)
    → (next_dispatch s).1 ≡ some g
    → (s.active_slots < s.max_concurrent_child_runs)
      × ((o : Offer) × (best_offer s.executions ≡ some o)
          × (g ≡ record { execution_id = o.execution_id; candidate_id = o.candidate_id })
          × ((next_dispatch s).0.executions ≡ update o.execution_id pop_front s.executions))
unfolding next_dispatch
grant_some s g h = elim (Option-cases (best_offer s.executions)) [
  | inl e ↦ absurd (ground arith)
  | inr (o, e) ↦ (ground arith, (o, e, ground arith, rw (e, grant) (ground arith)))
]

get-popped :
    (k : String) (q : ExecutionQueue) (c : QueuedCandidate) (rest : List QueuedCandidate)
    (m : Map ExecutionQueue)
    → IsReady q c rest
    → get k m ≡ some q
    → get k (update k pop_front m) ≡ some (record q { queued = rest })
unfolding pop_front
get-popped k q c rest m r h = ground (arith, get-update k k pop_front m, str_eq_refl k)

-- A grant names the candidate at the front of the queue of an execution that is not paused and is
-- below its own limit, while a slot is free. The dispatch takes that candidate off its queue.
pub next_dispatch_serves_front :
    (s : GlobalScheduler) (g : DispatchGrant)
    → IsOrdered s.executions
    → (next_dispatch s).1 ≡ some g
    → (q : ExecutionQueue) × (c : QueuedCandidate) × (rest : List QueuedCandidate) × (s.active_slots
        < s.max_concurrent_child_runs)
      × (get g.execution_id s.executions ≡ some q)
      × IsReady q c rest
      × (g.candidate_id ≡ c.candidate_id)
      × (get g.execution_id (next_dispatch s).0.executions ≡ some (record q { queued = rest }))
next_dispatch_serves_front s g ord h =
    let (free, (o, best, eg, after)) = grant_some s g h in
    let (k, q, i, off) = best_offer-In s.executions o best in
    let (c, rest, ready, eo) = offer-some k q o off in
    let found = get-of_In k q s.executions ord i in
    let id : g.execution_id ≡ k = ap (λ t. t.execution_id) eg ∙ ap (λ t. t.execution_id) eo in
    let oid : o.execution_id ≡ k = ap (λ t. t.execution_id) eo in
    (
      q,
      c,
      rest,
      free,
      ap (λ t. get t s.executions) id ∙ found,
      ready,
      ap (λ t. t.candidate_id) eg ∙ ap (λ t. t.candidate_id) eo,
      ap (λ t. get g.execution_id t) after
          ∙ ap (λ t. get t (update o.execution_id pop_front s.executions)) id
          ∙ ap (λ t. get k (update t pop_front s.executions)) oid
          ∙ get-popped k q c rest s.executions ready found,
    )

-- While a slot is free and some execution can be served, a candidate is dispatched, and the oldest
-- one at that: no candidate at the front of such a queue has a lower sequence number.
pub next_dispatch_oldest :
    (s : GlobalScheduler) (k : String) (q : ExecutionQueue) (c : QueuedCandidate)
    (rest : List QueuedCandidate)
    → s.active_slots < s.max_concurrent_child_runs
    → In (k, q) s.executions
    → IsReady q c rest
    → (g : DispatchGrant) × (p : ExecutionQueue) × (d : QueuedCandidate) × (others : List
        QueuedCandidate)
      × ((next_dispatch s).1 ≡ some g)
      × In (g.execution_id, p) s.executions
      × IsReady p d others
      × (g.candidate_id ≡ d.candidate_id)
      × (d.created_seq ≤ c.created_seq)
unfolding next_dispatch
next_dispatch_oldest s k q c rest free i ready =
    let (o, best, least) = best_offer_least s.executions k q _ i (offer_ready k q c rest ready) in
    let (j, p, i', off) = best_offer-In s.executions o best in
    let (d, others, ready', eo) = offer-some j p o off in
    (
      record { execution_id = o.execution_id; candidate_id = o.candidate_id },
      p,
      d,
      others,
      rw best (ground arith),
      subst (λ t. In (t, p) s.executions) (sym (ap (λ t. t.execution_id) eo)) i',
      ready',
      ap (λ t. t.candidate_id) eo,
      ground arith,
    )

get-started :
    (k : String) (q : ExecutionQueue) (m : Map ExecutionQueue)
    → get k m ≡ some q
    → get k (update k start_one m) ≡ some (record q { running = add_u64 q.running 1 })
unfolding start_one
get-started k q m h = ground (arith, get-update k k start_one m, str_eq_refl k)

next_dispatch_slots :
    (s : GlobalScheduler)
    → ((next_dispatch s).0.active_slots ≡ s.active_slots)
      × ((next_dispatch s).0.max_concurrent_child_runs ≡ s.max_concurrent_child_runs)
unfolding next_dispatch
next_dispatch_slots s = elim (Option-cases (best_offer s.executions)) [
  | inl e ↦ rw e (ground arith)
  | inr (o, e) ↦ rw e (ground arith)
]

mark_running_found :
    (s : GlobalScheduler) (g : DispatchGrant) (q : ExecutionQueue)
    → get g.execution_id s.executions ≡ some q
    → ((mark_running s g).active_slots ≡ add_u64 s.active_slots 1)
      × ((mark_running s g).max_concurrent_child_runs ≡ s.max_concurrent_child_runs)
      × (get g.execution_id (mark_running s g).executions
          ≡ some (record q { running = add_u64 q.running 1 }))
unfolding mark_running
mark_running_found s g q h = ground (arith, get-started g.execution_id q s.executions h)

-- A dispatch that is marked as running keeps within both limits, the scheduler's and that of the
-- execution, which is not paused, where these limits are below 2^64.
pub marked_within_limits :
    (s : GlobalScheduler) (g : DispatchGrant)
    → IsOrdered s.executions
    → s.max_concurrent_child_runs < u64_mod
    → All (λ e. e.1.max_concurrent < u64_mod) s.executions
    → (next_dispatch s).1 ≡ some g
    → (q : ExecutionQueue) × (get g.execution_id (mark_running (next_dispatch s).0 g).executions
        ≡ some q)
      × ((mark_running (next_dispatch s).0 g).active_slots ≤ s.max_concurrent_child_runs)
      × (q.running ≤ q.max_concurrent)
      × (q.paused ≡ false)
marked_within_limits s g ord m ms h =
    let (q, c, rest, free, found, ready, _, popped) = next_dispatch_serves_front s g ord h in
    let (slots, _, got) = mark_running_found (next_dispatch s).0 g _ popped in
    let small : q.max_concurrent < u64_mod =
      All-In (λ e. e.1.max_concurrent < u64_mod) (g.execution_id, q) s.executions ms
        (In-of_get g.execution_id q s.executions found) in
    (
      record q { queued = rest; running = add_u64 q.running 1 },
      got,
      omega (arith, slots, next_dispatch_slots s),
      omega (arith, ready.below),
      ready.unpaused,
    )
