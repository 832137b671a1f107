-- ===== src/Table/Clock.antt =====
-- The clock of server/hoxTable.cpp: getCurrentTimers and _resetMoveTimers. The value of st_time()
-- is an argument. Times are `int`s in the source, far from their bounds.
use hox_server.Prelude.{if◌then◌else◌, ltb, length}
use hox_server.Prelude.{ℤ, pos, ◌+ℤ◌, ◌-ℤ◌, ltb_ℤ, eqb_ℤ}
use hox_server.Move.{Color, red, eqb_color}
use hox_server.Table.State.{Table, TimeInfo, is_in_progress}

-- `if ( x < 0 ) x = 0`.
abbrev pub at_least_0 : ℤ → ℤ
at_least_0 a = if ltb_ℤ a (pos 0) then pos 0 else a

-- The time since the last move, once both players have moved.
unfoldable pub elapse_time : ℤ → Table → ℤ
elapse_time now t = if ltb 2 (length t.moves) then now -ℤ t.last_move_time else pos 0

-- The game time runs; what is missing is consumed from the free time.
unfoldable pub consume : ℤ → TimeInfo → TimeInfo
consume elapsed i =
    let game = i.game -ℤ elapsed in
    if ltb_ℤ game (pos 0)
    then record i { free = at_least_0 (i.free +ℤ game); game = pos 0 }
    else record i { game = game }

-- In getCurrentTimers the time of the move runs too.
unfoldable pub run_timer : ℤ → TimeInfo → TimeInfo
unfolding consume
run_timer elapsed i =
    let c = consume elapsed i in record c { move = at_least_0 (c.move -ℤ elapsed) }

-- hoxTable::getCurrentTimers: red's, black's.
unfoldable pub get_current_timers : ℤ → Table → TimeInfo × TimeInfo
get_current_timers now t =
    let elapsed = elapse_time now t in
    if eqb_color t.referee.next_color red
    then (run_timer elapsed t.red_time, t.black_time)
    else (t.red_time, run_timer elapsed t.black_time)

-- The `next` player's time: without game time the free time starts anew, else the time of the move.
unfoldable pub refill : TimeInfo → TimeInfo → TimeInfo
refill initial i =
    if eqb_ℤ i.game (pos 0)
    then record i { free = initial.free }
    else record i { move = initial.move }

-- nRemain.
unfoldable pub remain : TimeInfo → ℤ
remain i = let r = i.game +ℤ i.free in if ltb_ℤ i.move r then i.move else r

-- The part of _resetMoveTimers from the start of the timers on.
unfoldable pub switch_timers : ℤ → ℤ → Table → Color → Table
unfolding consume refill remain
switch_timers now elapsed t color =
    let next_red = refill t.initial_time t.red_time in
    let next_black = refill t.initial_time t.black_time in
    if eqb_color color red
    then record t {
      red_time = consume elapsed t.red_time;
      black_time = next_black;
      next_move_expiry = now +ℤ remain next_black;
    }
    else record t {
      black_time = consume elapsed t.black_time;
      red_time = next_red;
      next_move_expiry = now +ℤ remain next_red;
    }

-- hoxTable::_resetMoveTimers.
unfoldable pub reset_move_timers : ℤ → Table → Color → Table
unfolding switch_timers elapse_time
reset_move_timers now t color =
    let stamped = record t { last_move_time = now } in
    if is_in_progress t.status
    then (if ltb 1 (length t.moves)
        then switch_timers now (elapse_time now t) stamped color
        else stamped)
    else t
