-- ===== src/Table/Requests.antt =====
-- The requests of a player to a table in server/hoxTable.cpp: onLeave_FromPlayer, the requests to
-- resign, draw, reset and update, and checkTimeoutOnMove.
use hox_server.Prelude.{ℕ, Bool, true, false, not, ◌&&◌, ◌||◌, Option, none, some, [], ◌∷◌}
use hox_server.Prelude.{ℤ, if◌then◌else◌, ltb, leb_ℤ, length, is_some, ◌>>=◌}
use hox_server.Move.{red, black, no_color, GameStatus, red_win, black_win, drawn}
use hox_server.Table.State.{
  Table, World, Text, Code, ok, not_allowed, TimeInfo, GameType, rated, nonrated,
}
use hox_server.Table.State.{left_game, resigned, agreed, timeout, e_join, draw, update}
use hox_server.Table.State.{
  is_in_progress, is_ready, is_open, is_seat, is_text, post_all, post_others, on_table,
}
use hox_server.Table.Elo.{Scale}
use hox_server.Table.Seats.{unassign_player}
use hox_server.Table.Ending.{on_game_ended, on_game_reset}
use hox_server.Table.Moves.{loss_of}

-- bGameStarted.
abbrev pub is_game_started : Table → Bool
is_game_started t = ltb 1 (length t.moves)

-- The game is over if a player of it leaves or resigns: the other one has won.
abbrev pub loser_status : Table → ℕ → Option GameStatus
loser_status t p =
    if is_seat t.red_player p
    then some black_win
    else if is_seat t.black_player p
    then some red_win
    else none

-- hoxTable::onLeave_FromPlayer.
unfoldable pub on_leave_from_player : Scale → World → ℕ → Option World
unfolding unassign_player on_game_ended
on_leave_from_player scale w p = do
  let new_status =
      (if is_in_progress w.table.status && is_game_started w.table
        then loser_status w.table p
        else none)
  let ended : Option World = elim new_status [
    | none ↦ some w
    | some s ↦ on_game_ended scale w s left_game
  ]
  w' ← ended
  some (unassign_player w' p)

-- hoxTable::handleResignRequest.
unfoldable pub handle_resign_request : Scale → World → ℕ → Option (World × Code)
unfolding on_game_ended
handle_resign_request scale w p =
    if is_in_progress w.table.status
    then (elim (loser_status w.table p) [
      | none ↦ some (w, not_allowed)
      | some s ↦ on_game_ended scale w s resigned >>= (λ w'. some (w', ok))
    ])
    else some (w, not_allowed)

abbrev pub is_playing : Table → ℕ → Bool
is_playing t p = is_seat t.red_player p || is_seat t.black_player p

abbrev pub is_nobody : Text → Bool
is_nobody s = elim s [ [] ↦ true | _ ∷ _ ↦ false ]

-- The three cases of a request that counts: the first one, the same again, and the other player's.
unfoldable pub request_draw : Scale → World → ℕ → Option World
unfolding on_game_ended
request_draw scale w p =
    let id = (w.players p).id in
    let asked = post_others (on_table w (λ t. record t { draw_player_id = id })) p (draw p) in
    if is_nobody w.table.draw_player_id
    then some asked
    else if is_text id w.table.draw_player_id
    then some w
    else on_game_ended scale w drawn agreed

-- hoxTable::handleDrawRequest.
unfoldable pub handle_draw_request : Scale → World → ℕ → Option (World × Code)
unfolding request_draw
handle_draw_request scale w p =
    if is_in_progress w.table.status
    then (if is_playing w.table p
        then request_draw scale w p >>= (λ w'. some (w', ok))
        else some (w, not_allowed))
    else some (w, not_allowed)

-- The red player gives up the right to move first: both leave their seats and join again.
unfoldable pub switch_roles : World → ℕ → ℕ → World
switch_roles w p q =
    let switched = on_table w (λ t. record t { red_player = some q; black_player = some p }) in
    let left_red = post_all switched (e_join q no_color) in
    let left_black = post_all left_red (e_join p no_color) in
    post_all (post_all left_black (e_join q red)) (e_join p black)

-- hoxTable::handleResetRequest.
unfoldable pub handle_reset_request : World → ℕ → Option (World × Code)
unfolding switch_roles on_game_reset
handle_reset_request w p =
    let t = w.table in
    if is_in_progress t.status && is_game_started t
    then some (w, not_allowed)
    else if not (is_playing t p)
    then some (w, not_allowed)
    else if is_seat t.red_player p && is_ready t.status
    then t.black_player >>= (λ q. some (switch_roles w p q, ok))
    else if is_ready t.status || is_open t.status
    then some (w, ok)
    else some (on_game_reset w, ok)

abbrev pub update_options : Table → GameType → TimeInfo → Table
update_options t g time = record t {
  game_type = g;
  initial_time = time;
  red_time = time;
  black_time = time;
}

-- hoxTable::handleUpdateRequest.
unfoldable pub handle_update_request : World → ℕ → Bool → TimeInfo → World × Code
handle_update_request w p is_rated time =
    let t = w.table in
    let g = if is_rated then rated else nonrated in
    let allowed =
      is_seat t.red_player p || (is_seat t.black_player p && not (is_some t.red_player)) in
    if is_open t.status || is_ready t.status
    then (if allowed
        then (post_all (on_table w (λ t'. update_options t' g time)) (update p g time), ok)
        else (w, not_allowed))
    else (w, not_allowed)

-- hoxTable::checkTimeoutOnMove.
unfoldable pub check_timeout_on_move : Scale → ℤ → World → Option World
unfolding on_game_ended
check_timeout_on_move scale now w =
    let t = w.table in
    if is_in_progress t.status && is_game_started t
    then (if leb_ℤ now t.next_move_expiry
        then some w
        else on_game_ended scale w (loss_of t.referee.next_color) timeout)
    else some w
