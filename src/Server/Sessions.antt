-- ===== src/Server/Sessions.antt =====
-- hoxSessionMgr of server/hoxSessionMgr.cpp, and the methods of hoxSession in server/hoxSession.cpp that
-- it calls. `thread_ok` says whether st_thread_create gives a thread for writing, `now` is the time.
use hox_server.Prelude.{
  ℕ, zero, suc, Bool, true, false, not, ◌&&◌, ◌==◌, Option, none, some, List, [], ◌∷◌, ◌++◌,
  if◌then◌else◌, is_some, ℤ, pos, ◌-ℤ◌, ltb_ℤ,
}
use hox_server.Table.State.{Text, Player, is_text}
use hox_server.Table.Elo.{Scale}
use hox_server.TableMgr.State.{run_cleanup}
use hox_server.Util.Numbers.{int_to_string, decimal}
use hox_server.Util.Messages.{before_text}
use hox_server.Response.State.{Response}
use hox_server.Response.Events.{create_event_logout, create_event_poll}
use hox_server.Server.State
use hox_server.Server.State.{
  Server, Session, Sessions, SessionType, SessionState, ClientType, Outcome, done, throws, aborts,
  after_done, find_session_of_id, update_session, add_response,
}
use hox_server.Server.Players.{leave_all_tables}

abbrev pub is_shutdown : SessionState → Bool
is_shutdown x = elim x [ State.shutdown ↦ true | _ ↦ false ]

abbrev pub is_active : SessionState → Bool
is_active x = elim x [ State.active ↦ true | _ ↦ false ]

abbrev pub is_polling : SessionType → Bool
is_polling x = elim x [ State.polling ↦ true | _ ↦ false ]

abbrev pub set_state : SessionState → Session → Session
set_state state x = record x { state = state }

abbrev pub on_session : Text → (Session → Session) → Server → Server
on_session i f s = record s { sessions = update_session i f s.sessions }

-- hoxSession::updateTimeStamp.
unfoldable pub update_time_stamp : ℤ → Session → Session
update_time_stamp now x = record x { update_time = now }

-- closeIO: a polling session has nothing to close.
unfoldable pub close_io : Session → Session
close_io x = if is_polling x.type then x else record x { has_io = false }

-- onDisconnected, which does nothing for a polling session.
unfoldable pub on_disconnected : Session → Session
unfolding close_io
on_disconnected x = if is_polling x.type then x else close_io (set_state State.disconnect x)

-- resumeConnection: a polling session cannot be resumed. Whether it was, and the session, which the
-- close of the old connection may have changed.
abbrev pub is_hoxchess : ClientType → Bool
is_hoxchess c = elim c [ State.hoxchess ↦ true | _ ↦ false ]

abbrev pub reconnected : Bool → Session → Session
reconnected thread_ok x = record x {
  has_io = true;
  responses = [];
  state = if thread_ok then State.active else State.shutdown;
}

unfoldable pub resume_connection : Bool → ClientType → Session → Session × Bool
resume_connection thread_ok client x =
    if not (is_polling x.type) && is_hoxchess client
    then (reconnected thread_ok x, thread_ok)
    else (x, false)

-- getPendingEvents of a polling session: the answer, and the session without the events.
unfoldable pub get_pending_events : Session → Response × Session
get_pending_events x = (create_event_poll x.responses, record x { responses = [] })

-- findSession: the first session of the player's id that is not shut down.
abbrev pub is_session_of : (ℕ → Player) → Text → Session → Bool
is_session_of players pid x = not (is_shutdown x.state) && is_text (players x.player).id pid

unfoldable pub find_session : (ℕ → Player) → Text → Sessions → Option (Text × Session)
find_session players pid [] = none
find_session players pid ((i, x) ∷ xs) =
    let rest = find_session players pid xs in
    if is_session_of players pid x then some (i, x) else rest

-- postEventToAll: without an excluded session the event is posted to nobody.
unfoldable pub tell : Response → Option Text → Text → Session → Session
unfolding add_response
tell r none i x = x
tell r (some j) i x = if is_text j i then x else add_response r x

unfoldable pub post_event_to_all : Response → Option Text → Sessions → Sessions
unfolding tell
post_event_to_all r excluded [] = []
post_event_to_all r excluded ((i, x) ∷ xs) =
    let rest = post_event_to_all r excluded xs in (i, tell r excluded i x) ∷ rest

unfoldable pub build_event_i_players : (ℕ → Player) → Sessions → Text
build_event_i_players players [] = []
build_event_i_players players ((i, x) ∷ xs) =
    let p = players x.player in
    p.id ++ b';' ∷ (int_to_string p.score ++ b'\n' ∷ build_event_i_players players xs)

-- `_sessions[id] = session`.
unfoldable pub insert_session : Text → Session → Sessions → Sessions
insert_session i x [] = (i, x) ∷ []
insert_session i x ((j, y) ∷ xs) =
    let rest = insert_session i x xs in
    if is_text i j
    then (j, x) ∷ xs
    else if before_text i j
    then (i, x) ∷ (j, y) ∷ xs
    else (j, y) ∷ rest

unfoldable pub erase_session : Text → Sessions → Sessions
erase_session i [] = []
erase_session i ((j, x) ∷ xs) =
    let rest = erase_session i xs in if is_text i j then xs else (j, x) ∷ rest

-- _generateNewSessionId, on fuel: the numbers that generateRandomNumber gives are `random`.
unfoldable pub generate_new_session_id : ℕ → (ℕ → ℕ) → Sessions → Option Text
unfolding find_session_of_id
generate_new_session_id zero random xs = none
generate_new_session_id (suc fuel) random xs =
    let rest = generate_new_session_id fuel (λ k. random (suc k)) xs in
    if is_some (find_session_of_id (decimal (random 0)) xs) then rest else some (decimal (random 0))

unfoldable pub session_type : ClientType → SessionType
session_type State.hoxchess = State.persistent
session_type State.test = State.persistent
session_type State.flash_client = State.flash
session_type State.http = State.polling

-- The constructors: a session that writes is shut down if there is no thread.
unfoldable pub new_session : Bool → ℤ → SessionType → ℕ → Session
new_session thread_ok now type p = record {
  type = type;
  state =
      if is_polling type then State.active else if thread_ok then State.active else State.shutdown;
  has_io = true;
  player = p;
  responses = [];
  update_time = now;
}

abbrev pub set_session_of : (ℕ → Option Text) → ℕ → Option Text → ℕ → Option Text
set_session_of f p o = λ q. if q == p then o else f q

abbrev pub add_session : Server → Text → Session → Server
add_session s i x = record s {
  session_of = set_session_of s.session_of x.player (some i);
  sessions = insert_session i x s.sessions;
}

-- createSession, with the id that was generated.
unfoldable pub create_session : Bool → ℤ → ClientType → ℕ → Text → Server → Server × Option Text
unfolding new_session insert_session session_type
create_session thread_ok now client p i s =
    let x = new_session thread_ok now (session_type client) p in
    if is_active x.state then (add_session s i x, some i) else (s, none)

-- onDeleted: the player's pointer is cleared.
unfoldable pub on_deleted : Session → (ℕ → Option Text) → ℕ → Option Text
on_deleted x f = set_session_of f x.player none

-- _deleteSession.
unfoldable pub delete_session : Text → Session → Server → Server
unfolding on_deleted erase_session
delete_session i x s = record s {
  session_of = on_deleted x s.session_of;
  sessions = erase_session i s.sessions;
}

abbrev pub cleaned : Server → Server
cleaned s = record s { manager = run_cleanup s.manager }

abbrev pub close_if_open : Session → Session
close_if_open x = if x.has_io then close_io x else x

-- handleShutdown of the session with the id, after the tables and before the connection is closed.
abbrev pub tell_logout : Text → ℕ → Server → Server
tell_logout i p s = record s {
  sessions =
      post_event_to_all (create_event_logout (s.players p)) (some i)
        (update_session i (set_state State.shutdown) s.sessions);
}

-- closeIO of a connection with a write thread waits for that thread, and other threads run.
abbrev pub waits : Session → Bool
waits x = x.has_io && not (is_polling x.type)

-- The first loop of manageSessions: the sessions that are left, and the players' pointers.
unfoldable pub purge : Sessions → (ℕ → Option Text) → Sessions × (ℕ → Option Text)
unfolding on_deleted
purge [] f = ([], f)
purge ((i, x) ∷ xs) f =
    let rest = purge xs (if is_shutdown x.state then on_deleted x f else f) in
    (if is_shutdown x.state then rest.0 else (i, x) ∷ rest.0, rest.1)

unfoldable pub purge_sessions : Server → Server
unfolding purge
purge_sessions s =
    let purged = purge s.sessions s.session_of in
    record s { sessions = purged.0; session_of = purged.1 }

abbrev pub session_expiry : ℤ
session_expiry = pos 600

abbrev pub is_expired : ℤ → Session → Bool
is_expired now x = ltb_ℤ session_expiry (now -ℤ x.update_time)

-- The ids of the sessions, in their order.
abbrev pub ids : Sessions → List Text
ids [] = []
ids ((i, x) ∷ xs) = i ∷ ids xs

module _ (scale : Scale) where
  -- handleShutdown up to the closing of the connection.
  unfoldable pub begin_shutdown : Text → ℕ → Server → Outcome Bool
  unfolding leave_all_tables update_session post_event_to_all
  begin_shutdown i p s =
      after_done (leave_all_tables scale p s) (λ s' b. done (tell_logout i p s') true)

  unfoldable pub handle_shutdown : Text → ℕ → Server → Outcome Bool
  unfolding begin_shutdown close_io
  handle_shutdown i p s =
      after_done (begin_shutdown i p s) (λ s' b. done (on_session i close_if_open s') true)

  unfoldable pub close_and_delete_session : Text → Session → Server → Outcome Bool
  unfolding handle_shutdown run_cleanup delete_session
  close_and_delete_session i x s =
      after_done (handle_shutdown i x.player s)
        (λ s' b. done (delete_session i x (cleaned s')) true)

  -- A round of the second loop: a session that is long idle when the loop comes to it is shut down.
  -- The result is whether closeIO waits then.
  unfoldable pub test_session : ℤ → Text → Server → Outcome Bool
  unfolding begin_shutdown find_session_of_id
  test_session now i s = elim (find_session_of_id i s.sessions) [
    | none ↦ done s false
    | some x ↦ elim (is_expired now x) [
      | true ↦ after_done (begin_shutdown i x.player s) (λ s' b. done s' (waits x))
      | false ↦ done s false
    ]
  ]

  -- What the other threads make of the server while closeIO waits, and the end of closeIO. The next
  -- step of the loop's iterator is undefined if they have erased the session.
  unfoldable pub end_shutdown : (Server → Server) → Text → Server → Bool → Outcome Bool
  unfolding find_session_of_id update_session close_io
  end_shutdown meanwhile i s waits = elim waits [
    | false ↦ done s true
    | true ↦ elim (is_some (find_session_of_id i (meanwhile s).sessions)) [
      | true ↦ done (on_session i close_io (meanwhile s)) true
      | false ↦ aborts
    ]
  ]

  -- The second loop. `meanwhile` is what the other threads do while the session with the id is shut
  -- down; sessions that they open are younger than `now` and pass the test.
  unfoldable pub expire : (Text → Server → Server) → ℤ → List Text → Server → Outcome Bool
  unfolding test_session end_shutdown
  expire meanwhile now [] s = done s true
  expire meanwhile now (i ∷ is) s = after_done (test_session now i s) (λ s' waits.
      after_done (end_shutdown (meanwhile i) i s' waits) (λ s'' b. expire meanwhile now is s''))

  unfoldable pub manage_sessions : (Text → Server → Server) → ℤ → Server → Outcome Bool
  unfolding purge_sessions expire
  manage_sessions meanwhile now s =
      expire meanwhile now (ids (purge_sessions s).sessions) (purge_sessions s)
