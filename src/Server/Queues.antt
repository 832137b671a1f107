-- ===== src/Server/Queues.antt =====
-- The events of a polling session of server/hoxSession.cpp, as a queue: what is posted is read once, in
-- the order in which it was posted.
use hox_server.Prelude.{
  ◌≡◌, refl, sym, ◌∙◌, ap, arith, true, List, [], ◌∷◌, ◌++◌, append_assoc, map,
}
use mathlib.Core.List.{append-nil}
use hox_server.Response.State.{Response}
use hox_server.Response.Events.{create_event_poll}
use hox_server.Server.State.{Session, add_response}
use hox_server.Server.Sessions.{is_polling, get_pending_events}

-- What happens to a session: an event is posted, or the client polls.
pub data Use : Type 0 where
  posts : Response → Use
  polls : Use

-- The answers to the polls, and the session that is left.
unfoldable pub use_session : List Use → Session → List Response × Session
unfolding add_response get_pending_events
use_session [] x = ([], x)
use_session (posts r ∷ us) x = use_session us (add_response r x)
use_session (polls ∷ us) x =
    let polled = get_pending_events x in
    let rest = use_session us polled.1 in (polled.0 ∷ rest.0, rest.1)

unfoldable pub posted : List Use → List Response
posted [] = []
posted (posts r ∷ us) = r ∷ posted us
posted (polls ∷ us) = posted us

unfoldable pub joined : List (List Response) → List Response
joined [] = []
joined (b ∷ bs) = b ++ joined bs

-- The answers as batches of events.
pub record Refines (us : List Use) (x : Session) : Type 0 where
  pub batches : List (List Response)
  pub answers : (use_session us x).0 ≡ map create_event_poll batches
  pub queue : joined batches ++ (use_session us x).1.responses ≡ x.responses ++ posted us

add_response-responses :
    (r : Response) (x : Session)
    → is_polling x.type ≡ true
    → (add_response r x).responses ≡ x.responses ++ r ∷ []
unfolding add_response
add_response-responses r x h = ground (arith, h)

add_response-type : (r : Response) (x : Session) → (add_response r x).type ≡ x.type
unfolding add_response
add_response-type r x = ground arith

-- However posts and polls follow one another, the polls of a polling session are answered with events in
-- batches such that the batches, joined, and the events that are left are the events that waited and the
-- posted ones: none is lost, read twice, or out of order.
pub use_session-Refines : (us : List Use) (x : Session) → is_polling x.type ≡ true → Refines us x
unfolding use_session posted joined
use_session-Refines [] x h = record {
  batches = [];
  answers = refl;
  queue = sym (append-nil x.responses);
}
use_session-Refines (posts r ∷ us) x h =
    let rest =
      use_session-Refines us (add_response r x) (ap is_polling (add_response-type r x) ∙ h) in
    record {
      batches = rest.batches;
      answers = rest.answers;
      queue =
          rest.queue
          ∙ ap (λ rs. rs ++ posted us) (add_response-responses r x h)
          ∙ append_assoc x.responses (r ∷ []) (posted us);
    }
use_session-Refines (polls ∷ us) x h =
    let rest = use_session-Refines us (record x { responses = [] }) h in
    record {
      batches = x.responses ∷ rest.batches;
      answers = ap (λ rs. create_event_poll x.responses ∷ rs) rest.answers;
      queue =
          append_assoc x.responses (joined rest.batches) _
          ∙ ap (λ rs. x.responses ++ rs) rest.queue;
    }
