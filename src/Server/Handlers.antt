-- ===== src/Server/Handlers.antt =====
-- The handlers of a session's requests in server/hoxSession.cpp. A handler gives a response or nothing;
-- `tokens` is what stringToTimeInfo's tokenizer makes of a text.
use hox_server.Prelude.{
  ℕ, Bool, true, ◌==◌, Option, none, some, List, [], ◌∷◌, ◌++◌, if◌then◌else◌, ℤ, ◌>>=◌,
}
use hox_server.Move.{Color, red, no_color}
use hox_server.Table.Requests.{check_timeout_on_move}
use hox_server.Table.State.{Text, Code, Table, World, ok, not_found, not_supported, is_text}
use hox_server.Table.Elo.{Scale}
use hox_server.TableMgr.State.{create_table, generate_new_table_id, run_cleanup, find_table}
use hox_server.Util.Names.{RequestType, string_to_color}
use hox_server.Util.Names
use hox_server.Util.Numbers.{decimal, is_empty_text}
use hox_server.Util.Times.{string_to_time_info}
use hox_server.Util.Messages.{Request, get_param, before_text}
use hox_server.Response.State.{Response, newline}
use hox_server.Response.Events.{
  create_event_login, create_event_i_players, create_event_list, create_event_msg,
  create_event_invite, create_event_player_info, create_event_ping,
}
use hox_server.Server.State.{
  Server, Session, Sessions, Outcome, done, throws, aborts, after_done, Error, update_session,
  add_response, on_new_event, at_table,
}
use hox_server.Server.State
use hox_server.Server.Players.{
  join_table_as, leave_table, do_move, offer_resign, offer_draw, reset_table, update_own_table,
  resume_playing, error, not_found_text,
}
use hox_server.Server.Sessions.{
  on_session, set_state, update_time_stamp, find_session, post_event_to_all, build_event_i_players,
  cleaned,
}

abbrev pub Handled : Type 0
Handled = Outcome (Option Response)

-- `pResponse.reset()`.
abbrev pub nothing : Outcome Bool → Handled
nothing o = after_done o (λ s b. done s none)

abbrev pub param : Request → Text → Text
param r k = (get_param r k).0

abbrev pub tid_key : Text
tid_key = (b't' ∷ b'i' ∷ b'd' ∷ [])

abbrev pub oid_key : Text
oid_key = (b'o' ∷ b'i' ∷ b'd' ∷ [])

abbrev pub color_key : Text
color_key = (b'c' ∷ b'o' ∷ b'l' ∷ b'o' ∷ b'r' ∷ [])

abbrev pub itimes_key : Text
itimes_key = (b'i' ∷ b't' ∷ b'i' ∷ b'm' ∷ b'e' ∷ b's' ∷ [])

-- hoxTableMgr::findTable by the text of an id, and hoxTableMgr::getTables.
unfoldable pub find_table_of_text : Text → List (ℕ × Table) → Option ℕ
find_table_of_text tid [] = none
find_table_of_text tid ((i, t) ∷ ts) =
    let rest = find_table_of_text tid ts in if is_text (decimal i) tid then some i else rest

unfoldable pub get_tables : List (ℕ × Table) → List Table
get_tables [] = []
get_tables ((i, t) ∷ ts) = t ∷ get_tables ts

-- The order of hoxTableMgr's map, by the texts of the ids.
abbrev pub before_id : ℕ → ℕ → Bool
before_id i j = before_text (decimal i) (decimal j)

abbrev pub on_sessions : (Sessions → Sessions) → Server → Server
on_sessions f s = record s { sessions = f s.sessions }

abbrev pub post_to_player : ℕ → Response → Server → Server
post_to_player p r s = on_sessions (on_new_event s.session_of p r) s

-- The requested color, or the one that an unknown color stands for.
abbrev pub requested_color : Text → Color → Color
requested_color s d = elim (string_to_color s) [
  | Color.unknown ↦ d
  | red ↦ red
  | Color.black ↦ Color.black
  | no_color ↦ no_color
]

-- hoxTable::onMessage_FromPlayer: everybody at the table but the sender.
unfoldable pub on_message_from_player :
    (ℕ → Option Text) → List ℕ → ℕ → Response → Sessions → Sessions
unfolding on_new_event
on_message_from_player session_of [] sender m xs = xs
on_message_from_player session_of (q ∷ qs) sender m xs =
    on_message_from_player session_of qs sender m
      (if q == sender then xs else on_new_event session_of q m xs)

-- The player of a session that is found by its player's id.
abbrev pub with_player_of : Text → Text → Server → (ℕ → Handled) → Handled
with_player_of pid what s f = elim (find_session s.players pid s.sessions) [
  | none ↦ throws s (error not_found what)
  | some (j, y) ↦ f y.player
]

unfoldable pub handle_logout : Text → Server → Handled
handle_logout i s = done (on_session i (set_state State.shutdown) s) none

unfoldable pub handle_list : Server → Handled
unfolding get_tables create_event_list
handle_list s = done s (some (create_event_list s.players (get_tables s.manager.tables)))

unfoldable pub handle_ping : Server → Handled
unfolding create_event_ping
handle_ping s = done s (some create_event_ping)

unfoldable pub handle_msg : ℕ → Request → Server → Handled
unfolding on_message_from_player find_session find_table_of_text find_table
handle_msg p r s =
    let tid = param r tid_key in
    let message = create_event_msg (s.players p) (param r (b'm' ∷ b's' ∷ b'g' ∷ [])) tid in
    if is_empty_text tid
    then with_player_of (param r oid_key)
        (b'P' ∷ b'l' ∷ b'a' ∷ b'y' ∷ b'e' ∷ b'r' ∷ b' ' ∷ b'n' ∷ b'o' ∷ b't' ∷ b' ' ∷ b'f' ∷ b'o'
          ∷ b'u' ∷ b'n' ∷ b'd' ∷ [])
        s (λ q. done (post_to_player q message s) none)
    else (elim (find_table_of_text tid s.manager.tables) [
      | none ↦ throws s (error not_found not_found_text)
      | some i ↦ elim (find_table i s.manager.tables) [
        | none ↦ throws s (error not_found not_found_text)
        | some t ↦
            done (on_sessions (on_message_from_player s.session_of t.all_players p message) s) none
      ]
    ])

unfoldable pub handle_invite : ℕ → Request → Server → Handled
unfolding find_session on_new_event
handle_invite p r s =
    let other = param r oid_key in
    let me = s.players p in
    with_player_of other
      (b'I' ∷ b'n' ∷ b'v' ∷ b'i' ∷ b't' ∷ b'e' ∷ b'e' ∷ b' ' ∷ b'n' ∷ b'o' ∷ b't' ∷ b' ' ∷ b'f'
        ∷ b'o' ∷ b'u' ∷ b'n' ∷ b'd' ∷ [])
      s
      (λ q.
        done (post_to_player q (create_event_invite me.id me.score other (param r tid_key)) s) none)

unfoldable pub handle_player_info : Request → Server → Handled
unfolding find_session
handle_player_info r s =
    with_player_of (param r oid_key)
      (b'P' ∷ b'l' ∷ b'a' ∷ b'y' ∷ b'e' ∷ b'r' ∷ b' ' ∷ b'n' ∷ b'o' ∷ b't' ∷ b' ' ∷ b'f' ∷ b'o'
        ∷ b'u' ∷ b'n' ∷ b'd' ∷ [])
      s (λ q. done s (some (create_event_player_info (s.players q) (param r tid_key))))

module _ (tokens : Text → List Text) (scale : Scale) (now : ℤ) where
  -- The events of LOGIN: to the others, to the player, the players online, and his tables.
  unfoldable pub handle_login : Text → ℕ → Server → Handled
  unfolding post_event_to_all on_new_event resume_playing
  handle_login i p s =
      let me = s.players p in
      let others =
        on_sessions (post_event_to_all (create_event_login me.id me.score []) (some i)) s in
      let own = post_to_player p (create_event_login me.id me.score i) others in
      let online = create_event_i_players (build_event_i_players own.players own.sessions) in
      nothing (resume_playing now p (s.tables_of p) (post_to_player p online own))

  unfoldable pub handle_new : ℕ → Request → Server → Handled
  unfolding create_table generate_new_table_id join_table_as
  handle_new p r s =
      let time = string_to_time_info tokens (param r itimes_key) in
      let i = (generate_new_table_id s.manager).0 in
      nothing (
        join_table_as now p i (requested_color (param r color_key) red)
          (record s { manager = create_table before_id decimal time s.manager }))

  unfoldable pub handle_join : ℕ → Request → Server → Handled
  unfolding find_table_of_text join_table_as
  handle_join p r s = elim (find_table_of_text (param r tid_key) s.manager.tables) [
    | none ↦ throws s (error not_found not_found_text)
    | some i ↦ nothing (join_table_as now p i (requested_color (param r color_key) no_color) s)
  ]

  unfoldable pub handle_leave : ℕ → Request → Server → Handled
  unfolding find_table_of_text leave_table run_cleanup
  handle_leave p r s = elim (find_table_of_text (param r tid_key) s.manager.tables) [
    | none ↦ throws s (error not_found not_found_text)
    | some i ↦ after_done (leave_table scale p i s) (λ s' b. done (cleaned s') none)
  ]

  unfoldable pub handle_update : ℕ → Request → Server → Handled
  unfolding update_own_table
  handle_update p r s = nothing (
      update_own_table p (param r tid_key)
        (is_text (param r (b'r' ∷ b'a' ∷ b't' ∷ b'e' ∷ b'd' ∷ [])) (b'1' ∷ []))
        (string_to_time_info tokens (param r itimes_key)) s)

  unfoldable pub handle_move : ℕ → Request → Server → Handled
  unfolding do_move
  handle_move p r s =
      nothing (do_move scale now p (param r tid_key) (param r (b'm' ∷ b'o' ∷ b'v' ∷ b'e' ∷ [])) s)

  unfoldable pub handle_resign : ℕ → Request → Server → Handled
  unfolding offer_resign
  handle_resign p r s = nothing (offer_resign scale p (param r tid_key) s)

  unfoldable pub handle_draw : ℕ → Request → Server → Handled
  unfolding offer_draw
  handle_draw p r s = nothing (offer_draw scale p (param r tid_key) s)

  unfoldable pub handle_reset : ℕ → Request → Server → Handled
  unfolding reset_table
  handle_reset p r s = nothing (reset_table p (param r tid_key) s)

  -- The switch of handleRequest.
  unfoldable pub dispatch : Text → ℕ → Request → Server → Handled
  unfolding handle_login handle_logout handle_list handle_new handle_join handle_leave handle_update
      handle_msg handle_ping handle_move handle_resign handle_draw handle_reset handle_invite
      handle_player_info
  dispatch i p r s = elim r.type [
    | Names.login ↦ handle_login i p s
    | Names.logout ↦ handle_logout i s
    | Names.list ↦ handle_list s
    | Names.req_new ↦ handle_new p r s
    | Names.join ↦ handle_join p r s
    | Names.leave ↦ handle_leave p r s
    | Names.update ↦ handle_update p r s
    | Names.msg ↦ handle_msg p r s
    | Names.ping ↦ handle_ping s
    | Names.req_move ↦ handle_move p r s
    | Names.resign ↦ handle_resign p r s
    | Names.req_draw ↦ handle_draw p r s
    | Names.req_reset ↦ handle_reset p r s
    | Names.invite ↦ handle_invite p r s
    | Names.player_info ↦ handle_player_info r s
    | Names.poll ↦ done s none
    | _ ↦ throws s (
        error not_supported (
          b'U' ∷ b'n' ∷ b's' ∷ b'u' ∷ b'p' ∷ b'p' ∷ b'o' ∷ b'r' ∷ b't' ∷ b'e' ∷ b'd' ∷ b' ' ∷ b'R'
          ∷ b'e' ∷ b'q' ∷ b'u' ∷ b'e' ∷ b's' ∷ b't' ∷ []))
  ]

  -- The two catch clauses: the response to an error.
  unfoldable pub error_response : RequestType → Error → Response
  error_response t e = record {
    type = t;
    code = e.code;
    tid = elim e.tid [ none ↦ [] | some tid ↦ tid ];
    content = e.what ++ newline;
  }

  -- A response goes to the session itself; `none` is an abort of the server.
  unfoldable pub finish_request : Text → RequestType → Handled → Option Server
  unfolding error_response update_session add_response
  finish_request i t (done s none) = some s
  finish_request i t (done s (some a)) = some (on_session i (add_response a) s)
  finish_request i t (throws s e) = some (on_session i (add_response (error_response t e)) s)
  finish_request i t aborts = none

  -- hoxSession::handleRequest of the session i of the player p.
  unfoldable pub handle_request : Text → ℕ → Request → Server → Option Server
  unfolding dispatch finish_request
  handle_request i p r s =
      finish_request i r.type (dispatch i p r (on_session i (update_time_stamp now) s))

abbrev pub checking : Scale → ℤ → World → Option (World × Code)
checking scale now w = check_timeout_on_move scale now w >>= (λ w'. some (w', ok))

-- hoxTableMgr::manageTables: the timer of every table.
unfoldable pub manage_tables : Scale → ℤ → List (ℕ × Table) → Server → Outcome Bool
unfolding at_table check_timeout_on_move
manage_tables scale now [] s = done s true
manage_tables scale now ((i, t) ∷ ts) s =
    after_done (at_table i (checking scale now) s) (λ s' c. manage_tables scale now ts s')
