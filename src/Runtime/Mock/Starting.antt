-- ===== src/Runtime/Mock/Starting.antt =====
-- src/runtime/mock.rs: starting a run twice.
use void_control.Base.{
  ◌≡◌, refl, ap, ◌∙◌, inl, inr, Bool, Bool-cases, true, Option, none, some, Option-cases, String,
  List, [], ◌∷◌, ◌++◌, find, str_eq, str_eq_refl, arith,
}
use void_control.Base.Map.{get}
use void_control.Contract.State.{is_terminal}
use void_control.Contract.Event.{EventType}
use void_control.Contract.Policy.{validate}
use void_control.Contract.Api.{StartRequest}
use void_control.Runtime.Mock.{
  MockRuntime, RunRecord, SeededOutcome, new_run, push_event, play_outcome, fail_run, first_record,
  start, start_valid, start_found,
}

run_id-play_outcome :
    {F V : Type 0} (o : Option (SeededOutcome F V)) (now : String) (r : RunRecord)
    → (play_outcome o now r).run_id ≡ r.run_id
unfolding play_outcome fail_run push_event
run_id-play_outcome none now r = refl
run_id-play_outcome (some (SeededOutcome.success output)) now r = refl
run_id-play_outcome (some SeededOutcome.failure) now r = refl
run_id-play_outcome (some SeededOutcome.missing_output) now r = refl
run_id-play_outcome (some SeededOutcome.malformed_output) now r = refl

run_id-first_record :
    {F V : Type 0} (rt : MockRuntime F V) (run_id c b f : String)
    → (first_record rt run_id c b f).run_id ≡ run_id
unfolding first_record
run_id-first_record rt run_id c b f =
    run_id-play_outcome (get run_id rt.seeded) f
      (push_event EventType.run_started [] b (new_run run_id c))
    ∙ unfold push_event new_run in refl

find-append :
    (p : RunRecord → Bool) (rs : List RunRecord) (r : RunRecord)
    → find p rs ≡ none
    → p r ≡ true
    → find p (rs ++ r ∷ []) ≡ some r
find-append p [] r e h = rw h refl
find-append p (x ∷ rs) r e h = elim (Bool-cases (p x)) [
  | inl b ↦ absurd (ground arith)
  | inr b ↦ rw b (find-append p rs r (ground arith) h)
]

module _ {F V : Type 0} where
  start_found-kept :
      (rt : MockRuntime F V) (q : StartRequest) (c b f : String) (r : RunRecord)
      → (start_found rt q c b f (some r)).0 ≡ rt
  unfolding start_found
  start_found-kept rt q c b f r = ground arith

  start_found-finds :
      (rt : MockRuntime F V) (q : StartRequest) (c b f : String) (o : Option RunRecord)
      → find (λ r. str_eq r.run_id q.run_id) rt.runs ≡ o
      → (r : RunRecord) × (find (λ x. str_eq x.run_id q.run_id) (start_found rt q c b f o).0.runs
          ≡ some r)
  unfolding start_found
  start_found-finds rt q c b f none e =
      let r = first_record rt q.run_id c b f in
      (
        r,
        find-append (λ x. str_eq x.run_id q.run_id) rt.runs r e
            (ap (λ id. str_eq id q.run_id) (run_id-first_record rt q.run_id c b f)
              ∙ str_eq_refl q.run_id),
      )
  start_found-finds rt q c b f (some r) e = elim (Bool-cases (is_terminal r.state)) [
    | inl t ↦ (r, rw t e)
    | inr t ↦ (r, rw t e)
  ]

  -- Starting a run again, whenever, leaves the runtime as the first start left it: a run is never
  -- replaced, and no second one of its id is made.
  pub start_twice :
      (rt : MockRuntime F V) (q : StartRequest) (c b f c' b' f' : String)
      → (start (start rt q c b f).0 q c' b' f').0 ≡ (start rt q c b f).0
  unfolding start start_valid
  start_twice rt q c b f c' b' f' = elim (Option-cases (validate q.policy)) [
    | inr (m, e) ↦ rw e refl
    | inl e ↦
        let (r, there) =
          start_found-finds rt q c b f (find (λ x. str_eq x.run_id q.run_id) rt.runs) refl in
        rw (e, there) (start_found-kept _ q c' b' f' r)
  ]
