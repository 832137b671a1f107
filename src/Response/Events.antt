-- ===== src/Response/Events.antt =====
-- The static functions create_event_… of hoxResponse in server/hoxTypes.cpp, the event in lower case;
-- getObservers of server/hoxTable.cpp, which I_TABLE calls.
use hox_server.Prelude.{
  ℕ, true, false, ◌||◌, List, [], ◌∷◌, ◌++◌, Option, none, some, if◌then◌else◌, ℤ, pos, negsuc,
}
use hox_server.Move.{Color, GameStatus}
use hox_server.Table.State.{
  Text, Code, ok, Player, Table, TimeInfo, GameType, rated, nonrated, solo, Reason,
}
use hox_server.Table.State.{
  unspecified, left_game, game_ended, last_move, resigned, agreed, timeout, perpetual_check,
  long_game, is_seat,
}
use hox_server.Table.Clock.{get_current_timers}
use hox_server.Table.Ending.{is_rated}
use hox_server.Util.Names.{
  RequestType, login, logout, poll, req_move, list, leave, update, req_draw, req_reset, e_join,
  e_end, e_score, i_players, i_table, i_moves, invite, player_info, msg, ping, color_to_string,
}
use hox_server.Util.Numbers.{int_to_string, is_empty_text}
use hox_server.Util.Statuses.{game_status_to_string}
use hox_server.Util.Times.{time_info_to_string}
use hox_server.Response.State.{Response, stream, semicolon, newline, response_to_string}

abbrev pub respond : RequestType → List Text → Response
respond t pieces = record { type = t; code = ok; tid = []; content = stream pieces }

unfoldable pub create_event_login : Text → ℤ → Text → Response
create_event_login player_id score session_id = respond login (
    player_id
    ∷ semicolon
    ∷ int_to_string score
    ∷ (if is_empty_text session_id then [] else semicolon ++ session_id)
    ∷ newline
    ∷ [])

unfoldable pub create_event_logout : Player → Response
create_event_logout p = respond logout (p.id ∷ newline ∷ [])

-- The table's id is set if there is one.
unfoldable pub create_event_invite : Text → ℤ → Text → Text → Response
create_event_invite inviter_id score invitee_id table_id =
    record (respond invite
      (inviter_id ∷ semicolon ∷ int_to_string score ∷ semicolon ∷ invitee_id ∷ newline ∷ [])) {
        tid = table_id;
      }

abbrev pub count_text : ℕ → Text
count_text n = int_to_string (pos n)

unfoldable pub create_event_player_info : Player → Text → Response
create_event_player_info p table_id =
    record (respond player_info (
      p.id
      ∷ semicolon
      ∷ int_to_string p.score
      ∷ semicolon
      ∷ count_text p.wins
      ∷ semicolon
      ∷ count_text p.draws
      ∷ semicolon
      ∷ count_text p.losses
      ∷ semicolon
      ∷ newline
      ∷ [])) { tid = table_id }

unfoldable pub create_event_i_players : Text → Response
create_event_i_players content =
    respond i_players ((if is_empty_text content then newline else content) ∷ [])

-- hoxGAME_GROUP_PUBLIC, the group of every table, and the numbers of hoxGameType.
abbrev pub group_text : Text
group_text = b'0' ∷ []

unfoldable pub game_type_number : GameType → ℤ
game_type_number GameType.unknown = negsuc 0
game_type_number rated = pos 0
game_type_number nonrated = pos 1
game_type_number solo = pos 2

-- The id and the score of a seat; an empty one has none, and 0.
abbrev pub seat_id : (ℕ → Player) → Option ℕ → Text
seat_id players none = []
seat_id players (some p) = (players p).id

abbrev pub seat_score : (ℕ → Player) → Option ℕ → ℤ
seat_score players none = pos 0
seat_score players (some p) = (players p).score

-- What I_TABLE and LIST write of a table, with the times of its players.
unfoldable pub table_row : (ℕ → Player) → Table → TimeInfo → TimeInfo → Text
table_row players t red_time black_time = stream (
    t.id
    ∷ semicolon
    ∷ group_text
    ∷ semicolon
    ∷ int_to_string (game_type_number t.game_type)
    ∷ semicolon
    ∷ time_info_to_string t.initial_time
    ∷ semicolon
    ∷ time_info_to_string red_time
    ∷ semicolon
    ∷ time_info_to_string black_time
    ∷ semicolon
    ∷ seat_id players t.red_player
    ∷ semicolon
    ∷ int_to_string (seat_score players t.red_player)
    ∷ semicolon
    ∷ seat_id players t.black_player
    ∷ semicolon
    ∷ int_to_string (seat_score players t.black_player)
    ∷ semicolon
    ∷ [])

-- hoxTable::getObservers.
unfoldable pub get_observers : Option ℕ → Option ℕ → List ℕ → List ℕ
get_observers r b [] = []
get_observers r b (p ∷ ps) =
    let rest = get_observers r b ps in if is_seat r p || is_seat b p then rest else p ∷ rest

unfoldable pub observer_ids : (ℕ → Player) → List ℕ → Text
observer_ids players [] = []
observer_ids players (p ∷ ps) = (players p).id ++ b';' ∷ observer_ids players ps

unfoldable pub table_response : (ℕ → Player) → Table → TimeInfo → TimeInfo → Response
table_response players t red_time black_time = respond i_table (
    table_row players t red_time black_time
    ∷ observer_ids players (get_observers t.red_player t.black_player t.all_players)
    ∷ newline
    ∷ [])

unfoldable pub create_event_i_table : ℤ → (ℕ → Player) → Table → Response
unfolding table_response
create_event_i_table now players t =
    let times = get_current_timers now t in table_response players t times.0 times.1

unfoldable pub table_rows : (ℕ → Player) → List Table → Text
table_rows players [] = []
table_rows players (t ∷ ts) =
    table_row players t t.red_time t.black_time ++ b'\n' ∷ table_rows players ts

unfoldable pub create_event_list : (ℕ → Player) → List Table → Response
create_event_list players ts =
    respond list (elim ts [ [] ↦ newline ∷ [] | t ∷ rest ↦ table_rows players (t ∷ rest) ∷ [] ])

unfoldable pub create_event_e_join : Table → Player → Color → Response
create_event_e_join t p c = respond e_join (
    t.id
    ∷ semicolon
    ∷ p.id
    ∷ semicolon
    ∷ int_to_string p.score
    ∷ semicolon
    ∷ color_to_string c
    ∷ newline
    ∷ [])

unfoldable pub create_event_leave : Table → Player → Response
create_event_leave t p = respond leave (t.id ∷ semicolon ∷ p.id ∷ newline ∷ [])

unfoldable pub create_event_msg : Player → Text → Text → Response
create_event_msg p message table_id =
    record (respond msg (p.id ∷ semicolon ∷ message ∷ newline ∷ [])) { tid = table_id }

unfoldable pub create_event_ping : Response
create_event_ping = respond ping ((b'P' ∷ b'O' ∷ b'N' ∷ b'G' ∷ []) ∷ newline ∷ [])

unfoldable pub create_event_move : Table → Player → Text → GameStatus → Response
create_event_move t p move status = respond req_move (
    t.id
    ∷ semicolon
    ∷ p.id
    ∷ semicolon
    ∷ move
    ∷ semicolon
    ∷ game_status_to_string status
    ∷ newline
    ∷ [])

unfoldable pub create_event_draw : Code → Table → Player → Response
create_event_draw c t p = record (respond req_draw (t.id ∷ semicolon ∷ p.id ∷ newline ∷ [])) {
  code = c;
}

-- The texts of the reasons, where hoxTable gives them.
unfoldable pub reason_text : Reason → Text
reason_text unspecified = []
reason_text left_game =
    b'P' ∷ b'l' ∷ b'a' ∷ b'y' ∷ b'e' ∷ b'r' ∷ b' ' ∷ b'l' ∷ b'e' ∷ b'f' ∷ b't' ∷ b' ' ∷ b't' ∷ b'h'
    ∷ b'e' ∷ b' ' ∷ b'g' ∷ b'a' ∷ b'm' ∷ b'e' ∷ []
reason_text game_ended = b'G' ∷ b'a' ∷ b'm' ∷ b'e' ∷ b' ' ∷ b'e' ∷ b'n' ∷ b'd' ∷ b'e' ∷ b'd' ∷ []
reason_text last_move =
    b'G' ∷ b'a' ∷ b'm' ∷ b'e' ∷ b' ' ∷ b'e' ∷ b'n' ∷ b'd' ∷ b'e' ∷ b'd' ∷ b' ' ∷ b'a' ∷ b'f' ∷ b't'
    ∷ b'e' ∷ b'r' ∷ b' ' ∷ b't' ∷ b'h' ∷ b'e' ∷ b' ' ∷ b'l' ∷ b'a' ∷ b's' ∷ b't' ∷ b' ' ∷ b'M'
    ∷ b'o' ∷ b'v' ∷ b'e' ∷ []
reason_text resigned =
    b'P' ∷ b'l' ∷ b'a' ∷ b'y' ∷ b'e' ∷ b'r' ∷ b' ' ∷ b'r' ∷ b'e' ∷ b's' ∷ b'i' ∷ b'g' ∷ b'n' ∷ b'e'
    ∷ b'd' ∷ []
reason_text agreed =
    b'P' ∷ b'l' ∷ b'a' ∷ b'y' ∷ b'e' ∷ b'r' ∷ b's' ∷ b' ' ∷ b'a' ∷ b'g' ∷ b'r' ∷ b'e' ∷ b'e' ∷ b'd'
    ∷ b' ' ∷ b't' ∷ b'o' ∷ b' ' ∷ b'd' ∷ b'r' ∷ b'a' ∷ b'w' ∷ []
reason_text timeout =
    b'M' ∷ b'o' ∷ b'v' ∷ b'e' ∷ b' ' ∷ b't' ∷ b'i' ∷ b'm' ∷ b'e' ∷ b'o' ∷ b'u' ∷ b't' ∷ []
reason_text perpetual_check =
    b'P' ∷ b'e' ∷ b'r' ∷ b'p' ∷ b'e' ∷ b't' ∷ b'u' ∷ b'a' ∷ b'l' ∷ b' ' ∷ b'C' ∷ b'h' ∷ b'e' ∷ b'c'
    ∷ b'k' ∷ b' ' ∷ b'd' ∷ b'e' ∷ b't' ∷ b'e' ∷ b'c' ∷ b't' ∷ b'e' ∷ b'd' ∷ []
reason_text long_game =
    b'L' ∷ b'o' ∷ b'n' ∷ b'g' ∷ b' ' ∷ b'G' ∷ b'a' ∷ b'm' ∷ b'e' ∷ b' ' ∷ b'd' ∷ b'e' ∷ b't' ∷ b'e'
    ∷ b'c' ∷ b't' ∷ b'e' ∷ b'd' ∷ []

unfoldable pub create_event_end : Table → GameStatus → Text → Response
create_event_end t status reason =
    respond e_end
      (t.id ∷ semicolon ∷ game_status_to_string status ∷ semicolon ∷ reason ∷ newline ∷ [])

unfoldable pub create_event_reset : Table → Response
create_event_reset t = respond req_reset (t.id ∷ newline ∷ [])

unfoldable pub create_event_e_score : Table → Player → Response
create_event_e_score t p =
    respond e_score (t.id ∷ semicolon ∷ p.id ∷ semicolon ∷ int_to_string p.score ∷ newline ∷ [])

-- sMoves: the moves with a slash before each but the first that is written to a text not empty.
unfoldable pub join_moves : Text → List Text → Text
join_moves written [] = written
join_moves written (m ∷ ms) =
    join_moves ((if is_empty_text written then [] else written ++ b'/' ∷ []) ++ m) ms

unfoldable pub create_event_i_moves : Table → List Text → Response
create_event_i_moves t moves =
    respond i_moves (t.id ∷ semicolon ∷ join_moves [] moves ∷ newline ∷ [])

unfoldable pub create_event_update : Table → Player → GameType → TimeInfo → Response
create_event_update t p g time = respond update (
    t.id
    ∷ semicolon
    ∷ p.id
    ∷ semicolon
    ∷ (if is_rated g then b'1' ∷ [] else b'0' ∷ [])
    ∷ semicolon
    ∷ time_info_to_string time
    ∷ newline
    ∷ [])

-- The loop of create_event_POLL: every response but the last one says that more follow.
unfoldable pub poll_texts : List Response → List Text
poll_texts [] = []
poll_texts (r ∷ []) = response_to_string false r ∷ []
poll_texts (r ∷ q ∷ rs) = response_to_string true r ∷ poll_texts (q ∷ rs)

unfoldable pub create_event_poll : List Response → Response
create_event_poll rs = respond poll (poll_texts rs)
