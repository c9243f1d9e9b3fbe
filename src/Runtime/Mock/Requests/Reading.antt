-- ===== src/Runtime/Mock/Requests/Reading.antt =====
-- src/runtime/mock.rs: reading a run's events from one of them on.
use void_control.Base.{◌≡◌, refl, false, some, List, [], ◌∷◌, ◌++◌, All, str_eq, str_eq_refl}
use void_control.Contract.Event.{EventEnvelope}
use void_control.Contract.Error.{ok}
use void_control.Contract.Api.{SubscribeEventsRequest}
use void_control.Runtime.Mock.{MockRuntime, RunRecord}
use void_control.Runtime.Mock.Requests.{
  events_after, events_from, find_run, subscribe_events, subscribe_found,
}

events_after-named :
    (before after : List EventEnvelope) (e : EventEnvelope)
    → All (λ x. str_eq x.event_id e.event_id ≡ false) before
    → events_after e.event_id (before ++ e ∷ after) ≡ some after
unfolding events_after
events_after-named [] after e h = rw (str_eq_refl e.event_id) refl
events_after-named (x ∷ before) after e h = rw h.0 (events_after-named before after e h.1)

-- A subscription from an event of a run on gives the events behind it: behind the first one of its
-- id, should several have it.
pub subscribe_resumes :
    {F V : Type 0} (rt : MockRuntime F V) (q : SubscribeEventsRequest) (r : RunRecord)
    (before after : List EventEnvelope) (e : EventEnvelope)
    → find_run rt q.handle ≡ some r
    → q.from_event_id ≡ some e.event_id
    → r.events ≡ before ++ e ∷ after
    → All (λ x. str_eq x.event_id e.event_id ≡ false) before
    → subscribe_events rt q ≡ ok after
unfolding subscribe_events subscribe_found events_from
subscribe_resumes rt q r before after e found from split h =
    rw (found, from, split, events_after-named before after e h) refl
