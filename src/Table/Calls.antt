-- ===== src/Table/Calls.antt =====
-- The calls of a table by the players' handlers and by the timer, as one function.
use hox_server.Prelude.{ℕ, Bool, Option, some, ◌>>=◌}
use hox_server.Prelude.{ℤ}
use hox_server.Move.{Color}
use hox_server.Table.State.{World, Text, Code, TimeInfo}
use hox_server.Table.Elo.{Scale}
use hox_server.Table.Seats.{assign_player_as}
use hox_server.Table.Moves.{accept_move}
use hox_server.Table.Requests.{on_leave_from_player, handle_resign_request, handle_draw_request}
use hox_server.Table.Requests.{handle_reset_request, handle_update_request, check_timeout_on_move}

-- A call by a player, or the check of the timer.
pub data Call : Type 0 where
  joins : ℕ → Color → Call
  leaves : ℕ → Call
  moves : ℕ → Text → Call
  resigns : ℕ → Call
  draws : ℕ → Call
  resets : ℕ → Call
  updates : ℕ → Bool → TimeInfo → Call
  ticks : Call

abbrev pub world_of : Option (World × Code) → Option World
world_of r = r >>= (λ a. some a.0)

-- What a call makes of the world at the time `now`; `none` if it aborts the server.
unfoldable pub serve : Scale → ℤ → World → Call → Option World
unfolding assign_player_as on_leave_from_player accept_move handle_resign_request
    handle_draw_request handle_reset_request handle_update_request check_timeout_on_move
serve scale now w (joins p c) = some (assign_player_as now w p c).0
serve scale now w (leaves p) = on_leave_from_player scale w p
serve scale now w (moves p s) = world_of (accept_move scale now w p s)
serve scale now w (resigns p) = world_of (handle_resign_request scale w p)
serve scale now w (draws p) = world_of (handle_draw_request scale w p)
serve scale now w (resets p) = world_of (handle_reset_request w p)
serve scale now w (updates p rated time) = some (handle_update_request w p rated time).0
serve scale now w ticks = check_timeout_on_move scale now w
