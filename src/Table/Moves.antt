-- ===== src/Table/Moves.antt =====
-- hoxTable::_detectLongGameAndPerpetualCheck and acceptMove of server/hoxTable.cpp.
use hox_server.Prelude.{ℕ, Bool, true, false, not, ◌&&◌, ◌+◌, Option, none, some, [], ◌∷◌, ◌++◌}
use hox_server.Prelude.{ℤ, if◌then◌else◌, ltb, ◌>>=◌}
use hox_server.Move.{
  Color, red, black, eqb_color, GameStatus, ready, in_progress, red_win, black_win, drawn,
  has_piece,
}
use hox_server.Referee.Board.{Board}
use hox_server.Referee.Rules.{Verdict, validate_move, is_last_move_check}
use hox_server.Referee.Game.{string_to_move}
use hox_server.Table.State.{
  Table, World, Text, Code, ok, not_valid, not_allowed, Reason, unspecified, last_move,
  perpetual_check, long_game, move,
}
use hox_server.Table.State.{is_seat, post_others, on_table}
use hox_server.Table.Elo.{Scale}
use hox_server.Table.Clock.{reset_move_timers}
use hox_server.Table.Seats.{is_over}
use hox_server.Table.Ending.{on_game_ended}

-- hoxPERPETUAL_CHECKS_MAX and hoxEFFECTIVE_MOVES_MAX.
abbrev pub perpetual_checks_max : ℕ
perpetual_checks_max = 6

abbrev pub effective_moves_max : ℕ
effective_moves_max = 200

abbrev pub win_of : Color → GameStatus
win_of c = if eqb_color c red then red_win else black_win

abbrev pub loss_of : Color → GameStatus
loss_of c = if eqb_color c red then black_win else red_win

abbrev pub checks_of : Table → Color → ℕ
checks_of t c = if eqb_color c red then t.red_checks else t.black_checks

abbrev pub set_checks : Table → Color → ℕ → Table
set_checks t c n = record t {
  red_checks = if eqb_color c red then n else t.red_checks;
  black_checks = if eqb_color c red then t.black_checks else n;
}

-- What a move that gives check counts, and what another does.
unfoldable pub count_check : Table → Color → GameStatus → Table × GameStatus × Reason
count_check t c status =
    let n = checks_of t c + 1 in
    let perpetual = ltb perpetual_checks_max n in
    (
      record (set_checks t c n) { is_prev_move_check = true },
      if perpetual then loss_of c else status,
      if perpetual then perpetual_check else unspecified,
    )

unfoldable pub count_quiet : Table → Color → GameStatus → Table × GameStatus × Reason
count_quiet t c status =
    let n = if t.is_prev_move_check then t.effective_moves else t.effective_moves + 1 in
    let long = not t.is_prev_move_check && ltb effective_moves_max n in
    (
      record (set_checks t c 0) { effective_moves = n; is_prev_move_check = false },
      if long then drawn else status,
      if long then long_game else unspecified,
    )

-- hoxTable::_detectLongGameAndPerpetualCheck.
unfoldable pub detect_long_game_and_perpetual_check :
    Table → Color → GameStatus → Option (Table × GameStatus × Reason)
unfolding count_check count_quiet
detect_long_game_and_perpetual_check t c status = do
  check ← is_last_move_check t.referee
  some (if check then count_check t c status else count_quiet t c status)

-- The move is fine: from the detection on.
abbrev pub is_win : GameStatus → Bool
is_win s = elim s [ red_win ↦ true | black_win ↦ true | _ ↦ false ]

unfoldable pub judge : Table → Color → GameStatus → Option (Table × GameStatus × Reason)
unfolding detect_long_game_and_perpetual_check
judge t c status =
    if is_win status
    then some (t, status, last_move)
    else detect_long_game_and_perpetual_check t c status

abbrev pub push_move : Table → Text → GameStatus → Table
push_move t s status = record t { status = status; moves = t.moves ++ s ∷ [] }

unfoldable pub note_move : ℤ → Table → Color → Text → GameStatus → Table
unfolding reset_move_timers
note_move now t c s status = reset_move_timers now (push_move t s status) c

-- Record the move, and inform the other players.
abbrev pub tell_move : ℤ → World → ℕ → Text → Color → Table × GameStatus × Reason → World
tell_move now w p s c j = post_others (on_table w (λ t. note_move now j.0 c s j.1)) p (move p s j.1)

unfoldable pub finish_move :
    Scale → ℤ → World → ℕ → Text → Color → GameStatus → Option (World × Code)
unfolding judge note_move on_game_ended
finish_move scale now w p s c status = do
  j ← judge w.table c status
  let told = tell_move now w p s c j
  if is_over j.1
      then (on_game_ended scale told j.1 j.2 >>= (λ w'. some (w', ok)))
      else some (told, ok)

abbrev pub is_turn : Table → ℕ → Bool
is_turn t p = elim t.referee.next_color [
  | red ↦ is_seat t.red_player p
  | black ↦ is_seat t.black_player p
  | _ ↦ true
]

-- The answer of the referee: the move is refused, or the game goes on from its board.
unfoldable pub answer_move :
    Scale → ℤ → World → ℕ → Text → Color → Board × Verdict → Option (World × Code)
unfolding finish_move
answer_move scale now w p s c (b, none) =
    some (on_table w (λ t. record t { referee = b }), not_valid)
answer_move scale now w p s c (b, some v) =
    finish_move scale now (on_table w (λ t. record t { referee = b })) p s c v.1

abbrev pub can_move : GameStatus → Bool
can_move s = elim s [ ready ↦ true | in_progress ↦ true | _ ↦ false ]

-- hoxTable::acceptMove.
unfoldable pub accept_move : Scale → ℤ → World → ℕ → Text → Option (World × Code)
unfolding answer_move
accept_move scale now w p s =
    let c = w.table.referee.next_color in
    let m = string_to_move w.table.referee s in
    let answer = validate_move w.table.referee m >>= answer_move scale now w p s c in
    if can_move w.table.status
    then (if is_turn w.table p
        then (if has_piece m.piece then answer else some (w, not_valid))
        else some (w, not_allowed))
    else some (w, not_allowed)
