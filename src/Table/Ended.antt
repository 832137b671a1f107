-- ===== src/Table/Ended.antt =====
-- What _onGameEnded and _onGameReset of server/hoxTable.cpp make of a table.
use hox_server.Prelude.{
  ℕ, ◌≡◌, refl, arith, true, false, Option, none, some, List, [], Option-cases, Bool-cases, inl,
  inr,
}
use hox_server.Move.{GameStatus}
use hox_server.Referee.Board.{Board}
use hox_server.Referee.Games.{Plays}
use hox_server.Table.State.{Table, World, Text, Reason, post_all}
use hox_server.Table.Elo.{Scale}
use hox_server.Table.Seats.{both_seated, is_over, update_status}
use hox_server.Table.Ending.{
  score_game, is_guest, reopen, clear_game, record_game_result, tell_end, on_game_ended,
  on_game_reset,
}
use hox_server.Table.State.{is_in_progress}
use hox_server.Table.Invariant.{IsTable, IsGame, IsSeated, new-IsGame, update_status-IsTable}

-- Scores are the players' and never the table's.
score_game-table : (scale : Scale) (w : World) (r b : ℕ) → (score_game scale w r b).table ≡ w.table
unfolding score_game record_game_result post_all
score_game-table scale w r b = ground arith

abbrev pub end_table : Table → GameStatus → Table
end_table t s = record t { status = s; draw_player_id = [] }

-- What a call leaves: a table within its invariant, or nothing if a seat is empty in a game.
pub data Kept (t : Table) : Option World → Type 0 where
  aborts : both_seated t ≡ false → is_in_progress t.status ≡ true → Kept t none
  keeps : (w : World) → IsTable w.table → Kept t (some w)

pub data Ended (t : Table) (s : GameStatus) : Option World → Type 0 where
  aborts : both_seated t ≡ false → Ended t s none
  ends : (w : World) → w.table ≡ end_table t s → Ended t s (some w)

pub on_game_ended-no_red :
    (scale : Scale) (w : World) (s : GameStatus) (reason : Reason)
    → w.table.red_player ≡ none
    → on_game_ended scale w s reason ≡ none
unfolding on_game_ended
on_game_ended-no_red scale w s reason e = rw (e, on_game_ended) refl

on_game_ended-guest :
    (scale : Scale) (w : World) (s : GameStatus) (reason : Reason) (r : ℕ)
    → w.table.red_player ≡ some r
    → is_guest (w.players r) ≡ true
    → on_game_ended scale w s reason ≡ some (tell_end w s reason)
unfolding on_game_ended
on_game_ended-guest scale w s reason r red_sits plays_free = ground (arith, red_sits, plays_free)

on_game_ended-no_black :
    (scale : Scale) (w : World) (s : GameStatus) (reason : Reason) (r : ℕ)
    → w.table.red_player ≡ some r
    → is_guest (w.players r) ≡ false
    → w.table.black_player ≡ none
    → on_game_ended scale w s reason ≡ none
unfolding on_game_ended
on_game_ended-no_black scale w s reason r red_sits rated no_black =
    ground (arith, red_sits, rated, no_black)

on_game_ended-some :
    (scale : Scale) (w : World) (s : GameStatus) (reason : Reason) (r b : ℕ)
    → w.table.red_player ≡ some r
    → is_guest (w.players r) ≡ false
    → w.table.black_player ≡ some b
    → on_game_ended scale w s reason ≡ some (score_game scale (tell_end w s reason) r b)
unfolding on_game_ended
on_game_ended-some scale w s reason r b red_sits rated black_sits =
    ground (arith, red_sits, rated, black_sits)

pub on_game_ended-Ended :
    (scale : Scale) (w : World) (s : GameStatus) (reason : Reason)
    → Ended w.table s (on_game_ended scale w s reason)
unfolding post_all
on_game_ended-Ended scale w s reason = elim (Option-cases w.table.red_player) [
  | inl no_red ↦
      rw (on_game_ended-no_red scale w s reason no_red) (Ended.aborts (ground (arith, no_red)))
  | inr (r, red_sits) ↦ elim (Bool-cases (is_guest (w.players r))) [
    | inl free ↦ rw (on_game_ended-guest scale w s reason r red_sits free) (ends _ refl)
    | inr rated ↦ elim (Option-cases w.table.black_player) [
      | inl no_black ↦
          rw (on_game_ended-no_black scale w s reason r red_sits rated no_black)
            (Ended.aborts (ground (arith, no_black)))
      | inr (b, black_sits) ↦
          rw (on_game_ended-some scale w s reason r b red_sits rated black_sits)
            (ends _ (score_game-table scale (tell_end w s reason) r b))
    ]
  ]
]

pub over-IsGame :
    (board : Board) (s : GameStatus) (moves : List Text) (e r b : ℕ)
    → Plays board
    → is_over s ≡ true
    → IsGame board s moves e r b []
over-IsGame board s moves e r b p o = record {
  plays = p;
  fresh = λ h. ground (arith, o, h);
  unmoved = λ h. ground (arith, o, h);
  uncounted = λ h. ground (arith, o, h);
  red_checked = λ h. cc;
  black_checked = λ h. cc;
  counted = λ h. cc;
  unasked = λ h. refl;
}

pub end_table-IsTable :
    (t : Table) (s : GameStatus)
    → IsSeated t.red_player t.black_player t.all_players
    → Plays t.referee
    → is_over s ≡ true
    → IsTable (end_table t s)
end_table-IsTable t s seats p o = record {
  seats = seats;
  game = over-IsGame _ s _ _ _ _ p o;
  is_ready = λ h. ground (arith, o, h);
  is_open = λ h. ground (arith, o, h);
}

pub on_game_reset-IsTable :
    (w : World)
    → IsSeated w.table.red_player w.table.black_player w.table.all_players
    → IsTable (on_game_reset w).table
unfolding on_game_reset post_all update_status
on_game_reset-IsTable w seats =
    update_status-IsTable (clear_game (reopen w.table)) (seats, new-IsGame)
