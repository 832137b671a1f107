-- ===== src/Table/Ending.antt =====
-- The end of a game and its reset in server/hoxTable.cpp: _recordGameResult, _onGameEnded and
-- _onGameReset. `none` is a dereference of an empty seat, which aborts the server.
use hox_server.Prelude.{ℕ, Bool, true, false, ◌||◌, ◌+◌, ◌==◌, Option, some, [], ◌∷◌, ◌++◌}
use hox_server.Prelude.{if◌then◌else◌, ◌>>=◌}
use hox_server.Move.{GameStatus, red_win, black_win, drawn, opened}
use hox_server.Referee.Game.{reset_game}
use hox_server.Table.State.{
  Table, World, Player, guest, GameType, rated, Reason, e_end, e_score, reset,
}
use hox_server.Table.State.{GameResult, won, lost, tied, unsaid, post_all, on_table}
use hox_server.Table.Elo.{Scale, calculate_new_scores}
use hox_server.Table.Seats.{update_status}

abbrev pub add_win : Player → Player
add_win p = record p { wins = p.wins + 1 }

abbrev pub add_loss : Player → Player
add_loss p = record p { losses = p.losses + 1 }

abbrev pub add_draw : Player → Player
add_draw p = record p { draws = p.draws + 1 }

-- The switch of _recordGameResult: the players, their results, and whether the score counts as
-- changed. The case of a draw falls through to the default.
pub record Recorded : Type 0 where
  pub red_player : Player
  pub black_player : Player
  pub red_result : GameResult
  pub black_result : GameResult
  pub score_changed : Bool

unfoldable pub count_game : GameStatus → Player → Player → Recorded
count_game status r b = elim status [
  | red_win ↦ record {
    red_player = add_win r;
    black_player = add_loss b;
    red_result = won;
    black_result = lost;
    score_changed = true;
  }
  | black_win ↦ record {
    red_player = add_loss r;
    black_player = add_win b;
    red_result = lost;
    black_result = won;
    score_changed = true;
  }
  | drawn ↦ record {
    red_player = add_draw r;
    black_player = add_draw b;
    red_result = tied;
    black_result = tied;
    score_changed = false;
  }
  | _ ↦ record {
    red_player = r;
    black_player = b;
    red_result = unsaid;
    black_result = unsaid;
    score_changed = false;
  }
]

-- What the shared players become: two addresses, two values.
abbrev pub store : (ℕ → Player) → ℕ → Player → ℕ → Player
store players p v = λ q. if q == p then v else players q

-- hoxTable::_recordGameResult.
unfoldable pub record_game_result : Scale → World → ℕ → ℕ → World × Bool
unfolding count_game
record_game_result scale w r b =
    let scores = calculate_new_scores scale w.table.status (w.players r) (w.players b) in
    let c = count_game w.table.status scores.0 scores.1 in
    (
      record w {
        players = store (store w.players r c.red_player) b c.black_player;
        saved = w.saved ++ (r, c.red_result) ∷ (b, c.black_result) ∷ [];
      },
      c.score_changed,
    )

abbrev pub is_guest : Player → Bool
is_guest p = elim p.type [ guest ↦ true | _ ↦ false ]

abbrev pub is_rated : GameType → Bool
is_rated g = elim g [ rated ↦ true | _ ↦ false ]

-- The scores of a rated game without guests, and their events.
unfoldable pub score_game : Scale → World → ℕ → ℕ → World
unfolding record_game_result
score_game scale w r b =
    let recorded = record_game_result scale w r b in
    let told_red = post_all recorded.0 (e_score r (recorded.0.players r).score) in
    let told = post_all told_red (e_score b (recorded.0.players b).score) in
    if is_rated w.table.game_type
    then (if is_guest (w.players r) || is_guest (w.players b)
        then w
        else if recorded.1
        then told
        else recorded.0)
    else w

-- hoxTable::_onGameEnded. The events of the end are posted before the seats are read; an abort
-- loses the world that has them.
abbrev pub tell_end : World → GameStatus → Reason → World
tell_end w status reason =
    post_all (on_table w (λ t. record t { status = status; draw_player_id = [] }))
      (e_end status reason)

-- A guest at the red seat decides the test of the guests, and the black seat is not read.
unfoldable pub on_game_ended : Scale → World → GameStatus → Reason → Option World
unfolding score_game
on_game_ended scale w status reason = do
  r ← w.table.red_player
  elim (is_guest (w.players r)) [
    | true ↦ some (tell_end w status reason)
    | false ↦ w.table.black_player >>= (λ b. some (score_game scale (tell_end w status reason) r b))
  ]

-- hoxTable::_onGameReset.
abbrev pub reopen : Table → Table
reopen t = record t { status = opened; draw_player_id = [] }

abbrev pub clear_game : Table → Table
clear_game t = record t {
  red_time = t.initial_time;
  black_time = t.initial_time;
  referee = reset_game;
  moves = [];
  is_prev_move_check = false;
  effective_moves = 0;
  red_checks = 0;
  black_checks = 0;
}

unfoldable pub on_game_reset : World → World
unfolding update_status
on_game_reset w = post_all (on_table w (λ t. clear_game (update_status (reopen t)))) reset
