-- ===== src/Table/Served.antt =====
-- Every call of a table keeps its invariant, and aborts the server only where a game goes on with an
-- empty seat.
use hox_server.Prelude.{
  ℕ, ◌≡◌, subst, arith, ◌&&◌, Option, none, some, [], Option-cases, Bool-cases, inl, inr, ◌>>=◌, ℤ,
}
use hox_server.Table.State.{
  Table, World, Text, TimeInfo, left_game, is_in_progress, new_table, Player,
}
use hox_server.Table.Elo.{Scale}
use hox_server.Table.Seats.{unassign_player}
use hox_server.Table.Requests.{is_game_started, loser_status, on_leave_from_player}
use hox_server.Table.Calls
use hox_server.Table.Invariant.{IsTable, new_table-IsTable}
use hox_server.Table.Ended.{Kept, aborts, keeps}
use hox_server.Table.Kept.{
  unassign_player-IsTable, game_over-Kept, unchanged, assign_player_as-IsTable,
  handle_resign_request-Kept, handle_draw_request-Kept, handle_reset_request-Kept,
  handle_update_request-IsTable, check_timeout_on_move-Kept,
}
use hox_server.Table.Accepted.{accept_move-Kept}

module _ (scale : Scale) (now : ℤ) (w : World) (v : IsTable w.table) where
  unassigned-Kept :
      (p : ℕ) (o : Option World)
      → Kept w.table o
      → Kept w.table (o >>= (λ w'. some (unassign_player w' p)))
  unassigned-Kept p none (aborts e f) = Kept.aborts e f
  unassigned-Kept p (some w') (keeps _ k) = keeps _ (unassign_player-IsTable scale now w' k p)

  pub on_leave_from_player-Kept : (p : ℕ) → Kept w.table (on_leave_from_player scale w p)
  unfolding on_leave_from_player
  on_leave_from_player-Kept p =
      elim (Bool-cases (is_in_progress w.table.status && is_game_started w.table)) [
        | inr idle ↦
            rw (idle, on_leave_from_player) (unassigned-Kept p (some w) (unchanged scale now w v))
        | inl started ↦ elim (Option-cases (loser_status w.table p)) [
          | inl other ↦
              rw (started, on_leave_from_player, other)
                (unassigned-Kept p (some w) (unchanged scale now w v))
          | inr (s, lost) ↦
              rw (started, on_leave_from_player, lost)
                (unassigned-Kept p _ (
                  game_over-Kept scale now w v s left_game (ground (arith, started))
                    (ground (arith, lost))))
        ]
      ]

  -- Every call at every time, whatever float arithmetic gives, leaves a table within its invariant;
  -- or it aborts, and then a game was in progress and a seat empty.
  pub serve-Kept : (call : Calls.Call) → Kept w.table (Calls.serve scale now w call)
  unfolding Calls.serve
  serve-Kept (Calls.joins p c) = keeps _ (assign_player_as-IsTable scale now w v p c)
  serve-Kept (Calls.leaves p) = on_leave_from_player-Kept p
  serve-Kept (Calls.moves p s) = accept_move-Kept scale now w v p s
  serve-Kept (Calls.resigns p) = handle_resign_request-Kept scale now w v p
  serve-Kept (Calls.draws p) = handle_draw_request-Kept scale now w v p
  serve-Kept (Calls.resets p) = handle_reset_request-Kept scale now w v p
  serve-Kept (Calls.updates p rated time) =
      keeps _ (handle_update_request-IsTable scale now w v p rated time)
  serve-Kept Calls.ticks = check_timeout_on_move-Kept scale now w v

-- The worlds that the calls of a new table lead to.
pub data Serves (scale : Scale) : World → Type 0 where
  opens :
      (id : Text) (time : TimeInfo) (players : ℕ → Player)
      → Serves scale
          (record { table = new_table id time; players = players; sent = []; saved = [] })
  serves :
      {w w' : World} (now : ℤ) (call : Calls.Call)
      → Serves scale w
      → Calls.serve scale now w call ≡ some w'
      → Serves scale w'

pub Kept-IsTable :
    (t : Table) (o : Option World) (w : World) → Kept t o → o ≡ some w → IsTable w.table
Kept-IsTable t none w (aborts _ _) e = cc
Kept-IsTable t (some w') w (keeps _ k) e =
    let same : w' ≡ w = ground (arith, e) in subst (λ (x : World). IsTable x.table) same k

-- Whatever calls come in whatever order, the table stays within its invariant.
pub Serves-IsTable : {scale : Scale} {w : World} → Serves scale w → IsTable w.table
Serves-IsTable (opens id time players) = new_table-IsTable id time
Serves-IsTable {scale} (serves {w = w} {w' = w'} now call old e) =
    Kept-IsTable w.table _ w' (serve-Kept scale now w (Serves-IsTable old) call) e
