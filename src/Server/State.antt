-- ===== src/Server/State.antt =====
-- The state of the server: the sessions of server/hoxSession.h and server/hoxSessionMgr.cpp, the
-- players' pointers of server/hoxPlayer.h, and the tables. A shared pointer to a player is an address,
-- one to a table the number that is its id, and one to a session its id.
use hox_server.Prelude.{ℕ, Bool, ◌==◌, Option, none, some, List, [], ◌∷◌, ◌++◌, if◌then◌else◌, ℤ}
use hox_server.Table.State.{Text, Code, Player, Table, World, GameResult, Event, is_text}
use hox_server.Table.State
use hox_server.TableMgr.State.{TableMgr, find_table}
use hox_server.Response.State.{Response}
use hox_server.Response.Events

pub data ClientType : Type 0 where
  hoxchess http flash_client test : ClientType

pub data SessionType : Type 0 where
  persistent flash polling : SessionType

pub data SessionState : Type 0 where
  active disconnect shutdown : SessionState

-- `has_io` says that _nfd is no null pointer; `responses` is _responseList.
pub record Session : Type 0 where
  pub type : SessionType
  pub state : SessionState
  pub has_io : Bool
  pub player : ℕ
  pub responses : List Response
  pub update_time : ℤ

abbrev pub Sessions : Type 0
Sessions = List (Text × Session)

-- The sessions are in the order of their ids. `session_of` is _session of a player and `tables_of` his
-- _tables; the addresses from `next` on are no player's yet.
pub record Server : Type 0 where
  pub sessions : Sessions
  pub manager : TableMgr
  pub players : ℕ → Player
  pub session_of : ℕ → Option Text
  pub tables_of : ℕ → List ℕ
  pub next : ℕ
  pub saved : List (ℕ × GameResult)

-- hoxError, and hoxTableError, which has the id of a table too.
pub record Error : Type 0 where
  pub code : Code
  pub tid : Option Text
  pub what : Text

-- A method returns, throws, or aborts the server.
pub data Outcome {ℓ} (A : Type ℓ) : Type ℓ where
  done : Server → A → Outcome A
  throws : Server → Error → Outcome A
  aborts : Outcome A

abbrev pub after_done {ℓ κ} :
    {A : Type ℓ} {B : Type κ} → Outcome A → (Server → A → Outcome B) → Outcome B
after_done (done s a) f = f s a
after_done (throws s e) f = throws s e
after_done aborts f = aborts

abbrev pub Nothing : Type 0
Nothing = Option Response

-- hoxPersistentSession::addResponse, which keeps events of active sessions only, and
-- hoxPollingSession::addResponse.
unfoldable pub add_response : Response → Session → Session
add_response r x = elim x.type [
  | polling ↦ record x { responses = x.responses ++ r ∷ [] }
  | _ ↦ elim x.state [ active ↦ record x { responses = x.responses ++ r ∷ [] } | _ ↦ x ]
]

unfoldable pub find_session_of_id : Text → Sessions → Option Session
find_session_of_id i [] = none
find_session_of_id i ((j, x) ∷ xs) = if is_text i j then some x else find_session_of_id i xs

-- A change of the session that has the id; the sessions have different ids.
unfoldable pub update_session : Text → (Session → Session) → Sessions → Sessions
update_session i f [] = []
update_session i f ((j, x) ∷ xs) = (j, if is_text i j then f x else x) ∷ update_session i f xs

-- hoxPlayer::onNewEvent.
unfoldable pub on_new_event : (ℕ → Option Text) → ℕ → Response → Sessions → Sessions
unfolding update_session add_response
on_new_event session_of p r xs = elim (session_of p) [
  | none ↦ xs
  | some i ↦ update_session i (add_response r) xs
]

-- The response that an event of a table is. The ids in it never change; E_JOIN and I_TABLE write the
-- seats and the scores as they are, which no method changes between such an event and its end.
unfoldable pub event_response : Table → (ℕ → Player) → Event → Response
event_response t players (State.e_join p c) = Events.create_event_e_join t (players p) c
event_response t players (State.leave p) = Events.create_event_leave t (players p)
event_response t players (State.move p s status) = Events.create_event_move t (players p) s status
event_response t players (State.draw p) = Events.create_event_draw State.ok t (players p)
event_response t players (State.e_end status reason) =
    Events.create_event_end t status (Events.reason_text reason)
event_response t players State.reset = Events.create_event_reset t
event_response t players (State.e_score p score) =
    Events.create_event_e_score t (record (players p) { score = score })
event_response t players (State.update p g time) = Events.create_event_update t (players p) g time
event_response t players (State.i_table red_time black_time) =
    Events.table_response players t red_time black_time
event_response t players (State.i_moves moves) = Events.create_event_i_moves t moves

-- The events that a table has posted reach the players' sessions in their order.
unfoldable pub deliver :
    (ℕ → Option Text) → Table → (ℕ → Player) → List (ℕ × Event) → Sessions → Sessions
unfolding on_new_event event_response
deliver session_of t players [] xs = xs
deliver session_of t players ((p, e) ∷ es) xs =
    deliver session_of t players es (on_new_event session_of p (event_response t players e) xs)

-- A change of the table that has the id.
unfoldable pub update_table : ℕ → Table → List (ℕ × Table) → List (ℕ × Table)
update_table i t [] = []
update_table i t ((j, u) ∷ ts) =
    let rest = update_table i t ts in (if i == j then (j, t) ∷ ts else (j, u) ∷ rest)

abbrev pub set_tables : TableMgr → List (ℕ × Table) → TableMgr
set_tables m ts = record m { tables = ts }

abbrev pub world_at : Server → Table → World
world_at s t = record { table = t; players = s.players; sent = []; saved = [] }

-- What a method of a table makes of the server: the table and the players are changed, the events
-- delivered, and the results handed to the database client.
abbrev pub with_world : Server → ℕ → World → Server
with_world s i w = record s {
  manager = set_tables s.manager (update_table i w.table s.manager.tables);
  players = w.players;
  sessions = deliver s.session_of w.table w.players w.sent s.sessions;
  saved = s.saved ++ w.saved;
}

-- A method of the table that a pointer is to. That a table of a player is one of the manager's is a
-- theorem; without one nothing happens.
unfoldable pub at_table : ℕ → (World → Option (World × Code)) → Server → Outcome Code
unfolding find_table update_table deliver
at_table i f s = elim (find_table i s.manager.tables) [
  | none ↦ done s State.ok
  | some t ↦ elim (f (world_at s t)) [ none ↦ aborts | some (w, c) ↦ done (with_world s i w) c ]
]
