-- ===== src/Tests/Response.antt =====
-- The theorems on the responses of server/hoxTypes.cpp at two events.
use hox_server.Prelude.{◌≡◌, refl, true, false, [], ◌∷◌, contains, length, pos}
use hox_server.Table.State.{Player, normal}
use hox_server.Response.State.{response_to_string}
use hox_server.Response.Events.{
  create_event_ping, create_event_logout, create_event_poll, poll_texts,
}
use hox_server.Response.Frames.{is_line, read_frames}
use hox_server.Response.Poll.{
  no_events, more_events, ping_event, logout_event, read_frames-create_event_poll,
}

abbrev ann : Player
ann = record {
  id = b'a' ∷ b'n' ∷ b'n' ∷ [];
  type = normal;
  score = pos 1500;
  wins = 3;
  draws = 0;
  losses = 1;
}

ann-line : is_line ann.id ≡ true
unfolding contains
ann-line = refl

read_frames-create_event_poll_example :
    read_frames (length (create_event_ping ∷ create_event_logout ann ∷ [])) (
      response_to_string false
        (create_event_poll (create_event_ping ∷ create_event_logout ann ∷ [])))
    ≡ (poll_texts (create_event_ping ∷ create_event_logout ann ∷ []), [])
read_frames-create_event_poll_example =
    read_frames-create_event_poll false create_event_ping (create_event_logout ann ∷ []) ping_event
      (more_events (logout_event ann ann-line) no_events)
