-- ===== src/Table/State.antt =====
-- The state of hoxTable in server/hoxTable.h, the players of server/hoxPlayer.h as far as a table
-- reads and writes them, and the events that a table posts. A shared pointer to a player is an
-- address, a number; texts are lists of bytes. What a table posts is kept in `sent` in its order,
-- each event with its receiver, and the calls of hoxDbClient::set_player_info in `saved`.
use hox_server.Prelude.{
  ℕ, Bool, true, false, not, ◌==◌, ◌+◌, Option, none, some, List, [], ◌∷◌, ◌++◌,
}
use hox_server.Prelude.{ℤ, pos, if◌then◌else◌}
use hox_server.Move.{Color, GameStatus, opened, ready, in_progress}
use hox_server.Referee.Board.{Board}
use hox_server.Referee.Game.{reset_game}

abbrev pub Text : Type 0
Text = List ℕ

pub data PlayerType : Type 0 where
  normal guest : PlayerType

pub data GameType : Type 0 where
  unknown rated nonrated solo : GameType

-- hoxResult.
pub data Code : Type 0 where
  rc_unknown ok err rc_timeout eintr handled closed not_valid not_found not_allowed not_supported :
      Code

-- hoxTimeInfo: seconds, which the clients choose.
pub record TimeInfo : Type 0 where
  pub game : ℤ
  pub move : ℤ
  pub free : ℤ

pub record Player : Type 0 where
  pub id : Text
  pub type : PlayerType
  pub score : ℤ
  pub wins : ℕ
  pub draws : ℕ
  pub losses : ℕ

-- The reasons of _onGameEnded; `unspecified` is the empty text.
pub data Reason : Type 0 where
  unspecified left_game game_ended last_move resigned agreed timeout perpetual_check long_game :
      Reason

pub data Event : Type 0 where
  e_join : ℕ → Color → Event
  leave : ℕ → Event
  move : ℕ → Text → GameStatus → Event
  draw : ℕ → Event
  e_end : GameStatus → Reason → Event
  reset : Event
  e_score : ℕ → ℤ → Event
  update : ℕ → GameType → TimeInfo → Event
  i_table : TimeInfo → TimeInfo → Event
  i_moves : List Text → Event

-- sResult of _recordGameResult: "W", "L", "D" and the empty text.
pub data GameResult : Type 0 where
  won lost tied unsaid : GameResult

pub record Table : Type 0 where
  pub id : Text
  pub game_type : GameType
  pub initial_time : TimeInfo
  pub red_time : TimeInfo
  pub black_time : TimeInfo
  pub red_player : Option ℕ
  pub black_player : Option ℕ
  pub all_players : List ℕ
  pub referee : Board
  pub status : GameStatus
  pub moves : List Text
  pub draw_player_id : Text
  pub last_move_time : ℤ
  pub next_move_expiry : ℤ
  pub is_prev_move_check : Bool
  pub effective_moves : ℕ
  pub red_checks : ℕ
  pub black_checks : ℕ

-- A table among the players of the server.
pub record World : Type 0 where
  pub table : Table
  pub players : ℕ → Player
  pub sent : List (ℕ × Event)
  pub saved : List (ℕ × GameResult)

-- hoxTable::hoxTable.
unfoldable pub new_table : Text → TimeInfo → Table
new_table id time = record {
  id = id;
  game_type = rated;
  initial_time = time;
  red_time = time;
  black_time = time;
  red_player = none;
  black_player = none;
  all_players = [];
  referee = reset_game;
  status = opened;
  moves = [];
  draw_player_id = [];
  last_move_time = pos 0;
  next_move_expiry = pos 0;
  is_prev_move_check = false;
  effective_moves = 0;
  red_checks = 0;
  black_checks = 0;
}

-- hoxPlayer::getPlayedGames.
abbrev pub played_games : Player → ℕ
played_games p = p.wins + p.draws + p.losses

-- `_redPlayer == player`.
abbrev pub is_seat : Option ℕ → ℕ → Bool
is_seat none p = false
is_seat (some q) p = q == p

abbrev pub is_text : Text → Text → Bool
is_text [] [] = true
is_text [] (d ∷ t) = false
is_text (c ∷ s) [] = false
is_text (c ∷ s) (d ∷ t) = if c == d then is_text s t else false

-- The loops of _postAll_…Event, over everybody at the table or everybody but the sender.
receivers : (ℕ → Bool) → List ℕ → Event → List (ℕ × Event)
receivers p [] e = []
receivers p (q ∷ qs) e = if p q then (q, e) ∷ receivers p qs e else receivers p qs e

unfoldable pub post_all : World → Event → World
unfolding receivers
post_all w e = record w { sent = w.sent ++ receivers (λ _. true) w.table.all_players e }

unfoldable pub post_others : World → ℕ → Event → World
unfolding receivers
post_others w sender e = record w {
  sent = w.sent ++ receivers (λ q. not (q == sender)) w.table.all_players e;
}

abbrev pub post_to : World → ℕ → Event → World
post_to w p e = record w { sent = w.sent ++ (p, e) ∷ [] }

abbrev pub set_status : Table → GameStatus → Table
set_status t s = record t { status = s }

abbrev pub is_in_progress : GameStatus → Bool
is_in_progress s = elim s [ in_progress ↦ true | _ ↦ false ]

abbrev pub is_ready : GameStatus → Bool
is_ready s = elim s [ ready ↦ true | _ ↦ false ]

abbrev pub is_open : GameStatus → Bool
is_open s = elim s [ opened ↦ true | _ ↦ false ]

-- A method that changes the table alone, and posts nothing.
abbrev pub on_table : World → (Table → Table) → World
on_table w f = record w { table = f w.table }
