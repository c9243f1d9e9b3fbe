-- ===== src/Orchestration/Strategy/Planning.antt =====
-- src/orchestration/strategy.rs: the candidates that are planned.
use void_control.Base.{
  ℕ, zero, suc, sym, take-length, get_elem?-take, ◌*◌, ◌+◌, ◌/◌, ◌≤◌, ◌<◌, ◌≡◌, refl, ap, ◌∙◌, inl,
  inr, Option, none, some, List, [], ◌∷◌, length, take, get_elem?, arith, length-take, Bool-cases,
  ltb, ◌&&◌,
}
use native.Mathlib.Nat.{zero-add}
use void_control.Float.{FloatOps}
use void_control.Orchestration.Types.{
  CandidateInbox, CandidateSpec, ExecutionAccumulator, MessageStats, VariationProposal,
}
use void_control.Orchestration.Variation.{generate}
use void_control.Orchestration.Variation.Proposals.{length-generate-le}
use void_control.Orchestration.Strategy.{
  SwarmStrategy, name_candidates, candidate_name, advisory_message_stats, half_up, limit_by_stats,
  plan_swarm,
}

length-name_candidates :
    (inboxes : List CandidateInbox) (idx : ℕ) (ps : List VariationProposal)
    → length (name_candidates inboxes idx ps) ≡ length ps
unfolding name_candidates
length-name_candidates inboxes idx [] = refl
length-name_candidates inboxes idx (p ∷ ps) = ap suc (length-name_candidates inboxes (suc idx) ps)

-- Candidate `i` has the overrides of proposal `i`, and the id of inbox `i` where there is one.
get_elem?-name_candidates :
    (inboxes : List CandidateInbox) (idx : ℕ) (ps : List VariationProposal) (i : ℕ)
    (p : VariationProposal)
    → get_elem? ps i ≡ some p
    → get_elem? (name_candidates inboxes idx ps) i
      ≡ some (record {
        candidate_id = candidate_name (get_elem? inboxes (idx + i)) (idx + i);
        overrides = p.overrides;
      })
unfolding name_candidates
get_elem?-name_candidates inboxes idx [] i p h = cc
get_elem?-name_candidates inboxes idx (q ∷ ps) zero p h =
    let e : idx + 0 ≡ idx = omega arith in rw e (ground arith)
get_elem?-name_candidates inboxes idx (q ∷ ps) (suc i) p h =
    let e : idx + suc i ≡ suc idx + i = omega arith in
    rw e (get_elem?-name_candidates inboxes (suc idx) ps i p h)

-- The limit keeps a first part of the candidates: all, or half, rounded up.
limit_by_stats_lem :
    (stats : Option MessageStats) (cs : List CandidateSpec)
    → (n : ℕ) × (limit_by_stats stats cs ≡ take n cs) × (length cs ≤ 2 * n) × (n ≤ length cs)
unfolding limit_by_stats half_up
limit_by_stats_lem none cs = (length cs, sym (take-length cs), omega arith, omega arith)
limit_by_stats_lem (some stats) cs = elim (Bool-cases (ltb explore converge && ltb 1 (length cs))) [
  | inl e ↦ ((length cs + 1) / 2, rw e, omega arith, ground arith)
  | inr e ↦ (length cs, rw e (sym (take-length cs)), omega arith, omega arith)
]
  where
    explore : ℕ
    explore =
        stats.proposal_count + stats.signal_count + stats.unique_sources + stats.leader_messages

    converge : ℕ
    converge = stats.broadcast_messages + stats.dropped_count + stats.expired_count

-- A swarm plans a first part of its named proposals, of at least half of them: so none are planned
-- only where none are proposed, and never more than an iteration asks for.
pub plan_swarm_lem :
    {F : Type 0} (fl : FloatOps F) (s : SwarmStrategy F) (a : ExecutionAccumulator)
    (inboxes : List CandidateInbox) (stats : Option MessageStats)
    → (n : ℕ) × (plan_swarm fl s a inboxes stats
        ≡ take n (name_candidates inboxes 0 (generate s.variation a)))
      × (length (plan_swarm fl s a inboxes stats) ≡ n)
      × (length (generate s.variation a) ≤ 2 * n)
      × (n ≤ s.variation.candidates_per_iteration)
unfolding plan_swarm
plan_swarm_lem fl s a inboxes stats =
    let named = name_candidates inboxes 0 (generate s.variation a) in
    let total = length-name_candidates inboxes 0 (generate s.variation a) in
    let (n, e, half, le) = limit_by_stats_lem (advisory_message_stats s.variation stats) named in
    let few = length-generate-le s.variation a in
    (n, e, rw e (omega (arith, length-take n named)), omega arith, omega arith)

-- Candidate `i` of a swarm's plan has the overrides of proposal `i`, and the id of the inbox at
-- that place where there is one.
pub plan_swarm_candidate :
    {F : Type 0} (fl : FloatOps F) (s : SwarmStrategy F) (a : ExecutionAccumulator)
    (inboxes : List CandidateInbox) (stats : Option MessageStats) (i : ℕ) (p : VariationProposal)
    (b : CandidateInbox)
    → i < length (plan_swarm fl s a inboxes stats)
    → get_elem? (generate s.variation a) i ≡ some p
    → get_elem? inboxes i ≡ some b
    → get_elem? (plan_swarm fl s a inboxes stats) i
      ≡ some (record { candidate_id = b.candidate_id; overrides = p.overrides })
unfolding candidate_name
plan_swarm_candidate fl s a inboxes stats i p b short hp hb =
    let (n, e, len, _, _) = plan_swarm_lem fl s a inboxes stats in
    let named = name_candidates inboxes 0 (generate s.variation a) in
    ap (λ t. get_elem? t i) e
    ∙ get_elem?-take n i named (omega arith)
    ∙ get_elem?-name_candidates inboxes 0 (generate s.variation a) i p hp
    ∙ named_by (get_elem? inboxes (0 + i)) (rw zero-add hb)
  where
    named_by :
        (o : Option CandidateInbox)
        → o ≡ some b
        → ◌≡◌ {A = Option CandidateSpec}
            (some (record { candidate_id = candidate_name o (0 + i); overrides = p.overrides }))
            (some (record { candidate_id = b.candidate_id; overrides = p.overrides }))
    named_by none h = cc
    named_by (some c) h = ground arith
