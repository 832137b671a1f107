-- ===== src/Table/Kept.antt =====
-- Every call of a table in server/hoxTable.cpp keeps its invariant.
use hox_server.Prelude.{
  ℕ, ◌≡◌, refl, sym, subst, arith, Bool, true, not, ◌&&◌, ◌||◌, Option, none, some, List,
}
use hox_server.Prelude.{Bool-cases, Option-cases, inl, inr, ◌>>=◌, ℤ, leb_ℤ, is_some, ==→≡}
use hox_server.Move.{Color, GameStatus, drawn}
use hox_server.Referee.Board.{Board}
use hox_server.Table.State.{
  World, Text, Code, ok, resigned, agreed, timeout, is_text, TimeInfo, Reason, is_seat, post_all,
  post_others,
}
use hox_server.Table.Elo.{Scale}
use hox_server.Table.Seats.{
  is_over, send_info_to_player, is_request_ok, inform, join_player, assign_player_as,
  unassign_player,
}
use hox_server.Table.Ending.{on_game_ended}
use hox_server.Table.Moves
use hox_server.Table.State.{is_in_progress, is_open, is_ready}
use hox_server.Table.Requests.{
  is_game_started, is_nobody, is_playing, switch_roles, loser_status, handle_resign_request,
  request_draw, handle_draw_request, handle_reset_request, handle_update_request,
  check_timeout_on_move,
}
use hox_server.Table.Calls.{world_of}
use hox_server.Table.Invariant.{
  IsTable, IsGame, add_player-Parts, remove_player-Parts, update_status-IsTable,
}
use hox_server.Table.Ended.{
  Kept, Ended, aborts, ends, keeps, on_game_ended-Ended, end_table-IsTable, on_game_reset-IsTable,
}

asked-IsGame :
    (board : Board) (s : GameStatus) (moves : List Text) (e r b : ℕ) (asked asks : Text)
    → is_in_progress s ≡ true
    → IsGame board s moves e r b asked
    → IsGame board s moves e r b asks
asked-IsGame board s moves e r b asked asks playing g = record {
  plays = g.plays;
  fresh = g.fresh;
  unmoved = g.unmoved;
  uncounted = g.uncounted;
  red_checked = g.red_checked;
  black_checked = g.black_checked;
  counted = g.counted;
  unasked = λ h. cc;
}

module _ (scale : Scale) (now : ℤ) (w : World) (v : IsTable w.table) where
  pub unchanged : Kept w.table (some w)
  unchanged = keeps w v

  -- The end of a game in progress, as the result of a call.
  Ended-Kept :
      (s : GameStatus) (o : Option World)
      → is_in_progress w.table.status ≡ true
      → is_over s ≡ true
      → Ended w.table s o
      → Kept w.table o
  Ended-Kept s o playing over (aborts e) = Kept.aborts e playing
  Ended-Kept s o playing over (ends w' e) =
      keeps w' (subst IsTable (sym e) (end_table-IsTable w.table s v.seats v.game.plays over))

  pub game_over-Kept :
      (s : GameStatus) (reason : Reason)
      → is_in_progress w.table.status ≡ true
      → is_over s ≡ true
      → Kept w.table (on_game_ended scale w s reason)
  game_over-Kept s reason playing over =
      Ended-Kept s _ playing over (on_game_ended-Ended scale w s reason)

  -- An answer is as good as its world.
  pub with_code :
      (o : Option World) (c : Code)
      → Kept w.table o
      → Kept w.table (world_of (o >>= (λ w'. some (w', c))))
  with_code none c k = k
  with_code (some w') c k = k

  pub check_timeout_on_move-Kept : Kept w.table (check_timeout_on_move scale now w)
  unfolding check_timeout_on_move
  check_timeout_on_move-Kept =
      elim (Bool-cases (is_in_progress w.table.status && is_game_started w.table)) [
        | inr idle ↦ rw (idle, check_timeout_on_move) unchanged
        | inl started ↦ elim (Bool-cases (leb_ℤ now w.table.next_move_expiry)) [
          | inl early ↦ rw (started, check_timeout_on_move, early) unchanged
          | inr late ↦
              rw (started, check_timeout_on_move, late)
                (game_over-Kept (Moves.loss_of w.table.referee.next_color) timeout
                  (ground (arith, started)) (ground arith))
        ]
      ]

  pub handle_update_request-IsTable :
      (p : ℕ) (rated : Bool) (time : TimeInfo)
      → IsTable (handle_update_request w p rated time).0.table
  unfolding handle_update_request post_all
  handle_update_request-IsTable p rated time =
      elim (Bool-cases (is_open w.table.status || is_ready w.table.status)) [
        | inr started ↦ rw (started, handle_update_request) v
        | inl waits ↦
            elim (Bool-cases (
              is_seat w.table.red_player p
              || (is_seat w.table.black_player p && not (is_some w.table.red_player)))) [
                | inr other ↦ rw (waits, handle_update_request, other) v
                | inl allowed ↦
                    rw (waits, handle_update_request, allowed)
                      (record {
                        seats = v.seats;
                        game = v.game;
                        is_ready = v.is_ready;
                        is_open = v.is_open;
                      })
              ]
      ]

  inform-table : (w' : World) (p : ℕ) (new : Bool) → (inform now w' p new).table ≡ w'.table
  unfolding inform send_info_to_player
  inform-table w' p new = ground arith

  pub assign_player_as-IsTable : (p : ℕ) (c : Color) → IsTable (assign_player_as now w p c).0.table
  unfolding assign_player_as
  assign_player_as-IsTable p c = elim (Bool-cases (is_request_ok w.table c)) [
    | inr refused ↦ rw (refused, assign_player_as) v
    | inl allowed ↦
        let j = join_player w p c in
        rw (allowed, assign_player_as, inform-table j.0 p j.1)
          (update_status-IsTable _ (add_player-Parts w.table p c (v.seats, v.game)))
  ]

  pub unassign_player-IsTable : (p : ℕ) → IsTable (unassign_player w p).table
  unfolding unassign_player post_all
  unassign_player-IsTable p =
      update_status-IsTable _ (remove_player-Parts w.table p (v.seats, v.game))

  pub handle_resign_request-Kept :
      (p : ℕ) → Kept w.table (world_of (handle_resign_request scale w p))
  unfolding handle_resign_request
  handle_resign_request-Kept p = elim (Bool-cases (is_in_progress w.table.status)) [
    | inr idle ↦ rw (idle, handle_resign_request) unchanged
    | inl playing ↦ elim (Option-cases (loser_status w.table p)) [
      | inl other ↦ rw (playing, handle_resign_request, other) unchanged
      | inr (s, lost) ↦
          rw (playing, handle_resign_request, lost)
            (with_code _ ok (game_over-Kept s resigned playing (ground (arith, lost))))
    ]
  ]

  asked-IsTable :
      (id : Text)
      → is_in_progress w.table.status ≡ true
      → IsTable (record w.table { draw_player_id = id })
  asked-IsTable id playing = record {
    seats = v.seats;
    game = asked-IsGame _ _ _ _ _ _ _ id playing v.game;
    is_ready = v.is_ready;
    is_open = v.is_open;
  }

  request_draw-Kept :
      (p : ℕ) → is_in_progress w.table.status ≡ true → Kept w.table (request_draw scale w p)
  unfolding request_draw post_others
  request_draw-Kept p playing = elim (Bool-cases (is_nobody w.table.draw_player_id)) [
    | inl first ↦ rw (first, request_draw) (keeps _ (asked-IsTable (w.players p).id playing))
    | inr second ↦ elim (Bool-cases (is_text (w.players p).id w.table.draw_player_id)) [
      | inl again ↦ rw (second, request_draw, again) unchanged
      | inr both ↦ rw (second, request_draw, both) (game_over-Kept drawn agreed playing refl)
    ]
  ]

  pub handle_draw_request-Kept : (p : ℕ) → Kept w.table (world_of (handle_draw_request scale w p))
  unfolding handle_draw_request
  handle_draw_request-Kept p = elim (Bool-cases (is_in_progress w.table.status)) [
    | inr idle ↦ rw (idle, handle_draw_request) unchanged
    | inl playing ↦ elim (Bool-cases (is_playing w.table p)) [
      | inr other ↦ rw (playing, handle_draw_request, other) unchanged
      | inl mine ↦
          rw (playing, handle_draw_request, mine) (with_code _ ok (request_draw-Kept p playing))
    ]
  ]

  switch_roles-IsTable :
      (p q : ℕ)
      → is_seat w.table.red_player p ≡ true
      → is_ready w.table.status ≡ true
      → w.table.black_player ≡ some q
      → IsTable (switch_roles w p q).table
  unfolding switch_roles post_all
  switch_roles-IsTable p q sits waits e = record {
    seats = record {
      distinct = λ i h. ground (arith, v.seats.distinct p, ==→≡ q i, ==→≡ p q, ==→≡ p i, e);
      red_listed = λ i h. v.seats.black_listed i (rw e h);
      black_listed = λ i h. ground (arith, v.seats.red_listed p, ==→≡ p i, h);
      once = v.seats.once;
    };
    game = v.game;
    is_ready = λ h. refl;
    is_open = λ h. ground (arith, h, waits);
  }

  pub handle_reset_request-Kept : (p : ℕ) → Kept w.table (world_of (handle_reset_request w p))
  unfolding handle_reset_request
  handle_reset_request-Kept p =
      elim (Bool-cases (is_in_progress w.table.status && is_game_started w.table)) [
        | inl started ↦ rw (started, handle_reset_request) unchanged
        | inr idle ↦ elim (Bool-cases (is_playing w.table p)) [
          | inr other ↦ rw (idle, handle_reset_request, other) unchanged
          | inl mine ↦ elim (Bool-cases (is_seat w.table.red_player p && is_ready w.table.status)) [
            | inl switches ↦ elim (Option-cases w.table.black_player) [
              | inl nobody ↦ ground (arith, v.is_ready, switches, nobody)
              | inr (q, e) ↦
                  rw (idle, handle_reset_request, mine, switches, e)
                    (keeps _ (
                      switch_roles-IsTable p q (ground (arith, switches)) (ground (arith, switches))
                        e))
            ]
            | inr stays ↦ elim (Bool-cases (is_ready w.table.status || is_open w.table.status)) [
              | inl waits ↦ rw (idle, handle_reset_request, mine, stays, waits) unchanged
              | inr over ↦
                  rw (idle, handle_reset_request, mine, stays, over)
                    (keeps _ (on_game_reset-IsTable w v.seats))
            ]
          ]
        ]
      ]
