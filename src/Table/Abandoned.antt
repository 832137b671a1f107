-- ===== src/Table/Abandoned.antt =====
-- _onGameEnded of server/hoxTable.cpp with an empty seat.
use hox_server.Prelude.{
  ℕ, ◌≡◌, refl, ◌&&◌, Option-cases, arith, true, false, none, some, ◌>>=◌, inl, inr, ==_refl, ◌==◌,
}
use hox_server.Table.State.{World, is_in_progress, post_all, resigned}
use hox_server.Table.Elo.{Scale}
use hox_server.Table.Seats.{unassign_player, remove_player, update_status, seated_status}
use hox_server.Table.Ended.{on_game_ended-no_red}
use hox_server.Table.Requests.{
  is_game_started, loser_status, is_playing, on_leave_from_player, handle_resign_request,
}

-- A player who resigns a game in progress with the red seat empty aborts the server.
abandoned :
    (scale : Scale) (w : World) (p : ℕ)
    → is_in_progress w.table.status ≡ true
    → is_playing w.table p ≡ true
    → w.table.red_player ≡ none
    → handle_resign_request scale w p ≡ none
unfolding handle_resign_request
abandoned scale w p playing mine empty = elim (Option-cases (loser_status w.table p)) [
  | inl nobody ↦ ground (arith, mine, nobody)
  | inr (s, lost) ↦
      rw (playing, handle_resign_request, lost, on_game_ended-no_red scale w s resigned empty) refl
]

leaves_early :
    (scale : Scale) (w : World) (p : ℕ)
    → is_game_started w.table ≡ false
    → on_leave_from_player scale w p ≡ some (unassign_player w p)
unfolding on_leave_from_player
leaves_early scale w p early =
    let idle : (is_in_progress w.table.status && is_game_started w.table) ≡ false =
      ground (arith, early) in
    rw (idle, on_leave_from_player) refl

-- If the red player leaves a game in progress before both players have moved, the game stays in
-- progress with an empty seat, and the server aborts when the black player then resigns.
pub leave-resign :
    (scale : Scale) (w : World) (r b : ℕ)
    → is_in_progress w.table.status ≡ true
    → is_game_started w.table ≡ false
    → w.table.red_player ≡ some r
    → w.table.black_player ≡ some b
    → (r == b) ≡ false
    → (on_leave_from_player scale w r >>= (λ w'. handle_resign_request scale w' b)) ≡ none
unfolding unassign_player remove_player post_all update_status seated_status
leave-resign scale w r b playing early red_sits black_sits ne = rw (leaves_early scale w r early) (
    abandoned scale (unassign_player w r) b (ground (arith, playing))
      (ground (arith, red_sits, black_sits, ==_refl r, ==_refl b))
      (ground (arith, red_sits, ==_refl r)))
