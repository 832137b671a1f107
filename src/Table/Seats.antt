-- ===== src/Table/Seats.antt =====
-- Who sits where, in server/hoxTable.cpp: _addPlayer, _removePlayer, _updateStatus, and the methods
-- on them: assignPlayerAs, sendInfoToPlayer and _unassignPlayer. getObservers too.
use hox_server.Prelude.{ℕ, Bool, true, false, not, ◌&&◌, Option, none, some, List, [], ◌∷◌, ◌++◌}
use hox_server.Prelude.{ℤ, if◌then◌else◌, contains, remove, is_some}
use hox_server.Move.{
  Color, GameStatus, red, black, no_color, opened, ready, red_win, black_win, drawn,
}
use hox_server.Table.State.{
  Table, World, Code, ok, err, e_join, leave, e_end, i_table, i_moves, game_ended,
}
use hox_server.Table.State.{is_seat, post_all, post_to, set_status, on_table}
use hox_server.Table.Clock.{get_current_timers}

-- `if (seat == player) seat.reset()`.
abbrev pub leave_seat : Option ℕ → ℕ → Option ℕ
leave_seat seat p = if is_seat seat p then none else seat

-- The cached seats after _addPlayer.
unfoldable pub take_seat : Table → ℕ → Color → Table
take_seat t p red = record t { red_player = some p; black_player = leave_seat t.black_player p }
take_seat t p black = record t { black_player = some p; red_player = leave_seat t.red_player p }
take_seat t p _ = record t {
  red_player = leave_seat t.red_player p;
  black_player = leave_seat t.black_player p;
}

abbrev pub list_player : List ℕ → ℕ → List ℕ
list_player ps p = if contains p ps then ps else ps ++ p ∷ []

-- hoxTable::_addPlayer, and whether the player is new at the table.
unfoldable pub add_player : Table → ℕ → Color → Table × Bool
unfolding take_seat
add_player t p role =
    let listed = record t { all_players = list_player t.all_players p } in
    (take_seat listed p role, not (contains p t.all_players))

-- hoxTable::_removePlayer.
unfoldable pub remove_player : Table → ℕ → Table
remove_player t p = record t {
  all_players = remove p t.all_players;
  red_player = leave_seat t.red_player p;
  black_player = if is_seat t.red_player p then t.black_player else leave_seat t.black_player p;
}

abbrev pub both_seated : Table → Bool
both_seated t = is_some t.red_player && is_some t.black_player

-- hoxTable::_updateStatus: the status of a table that waits, by whether both seats are taken.
unfoldable pub seated_status : Bool → GameStatus → GameStatus
seated_status seated opened = if seated then ready else opened
seated_status seated ready = if seated then ready else opened
seated_status seated status = status

unfoldable pub update_status : Table → Table
unfolding seated_status
update_status t = set_status t (seated_status (both_seated t) t.status)

abbrev pub is_over : GameStatus → Bool
is_over s = elim s [ red_win ↦ true | black_win ↦ true | drawn ↦ true | _ ↦ false ]

-- hoxTable::sendInfoToPlayer, at the time `now`.
unfoldable pub send_info_to_player : ℤ → World → ℕ → World
send_info_to_player now w p =
    let t = w.table in
    let timers = get_current_timers now t in
    let told = post_to w p (i_table timers.0 timers.1) in
    let listed : World = (elim t.moves [ [] ↦ told | _ ∷ _ ↦ post_to told p (i_moves t.moves) ]) in
    if is_over t.status then post_to listed p (e_end t.status game_ended) else listed

-- hoxTable::assignPlayerAs.
abbrev pub is_request_ok : Table → Color → Bool
is_request_ok t c = elim c [
  | red ↦ not (is_some t.red_player)
  | black ↦ not (is_some t.black_player)
  | no_color ↦ true
  | _ ↦ false
]

-- A player who is new at the table is told about it.
unfoldable pub inform : ℤ → World → ℕ → Bool → World
inform now w p newly_added = if newly_added then send_info_to_player now w p else w

abbrev pub join_player : World → ℕ → Color → World × Bool
join_player w p c =
    let added = add_player w.table p c in
    (record (post_all w (e_join p c)) { table = added.0 }, added.1)

unfoldable pub assign_player_as : ℤ → World → ℕ → Color → World × Code
unfolding inform
assign_player_as now w p c =
    let joined = join_player w p c in
    if is_request_ok w.table c
    then (on_table (inform now joined.0 p joined.1) update_status, ok)
    else (w, err)

-- hoxTable::_unassignPlayer.
unfoldable pub unassign_player : World → ℕ → World
unassign_player w p = on_table (post_all w (leave p)) (λ t. update_status (remove_player t p))
