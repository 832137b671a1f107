-- ===== src/Table/Accepted.antt =====
-- hoxTable::acceptMove of server/hoxTable.cpp keeps the table's invariant.
use hox_server.Prelude.{
  ℕ, ◌≡◌, refl, sym, ap, ◌∙◌, subst, arith, Bool, true, false, ◌||◌, Option, none, some, List,
}
use hox_server.Prelude.{Bool-cases, inl, inr, ◌>>=◌, ℤ}
use hox_server.Move.{Color, GameStatus, in_progress, has_piece}
use hox_server.Referee.Board.{Board}
use hox_server.Referee.Rules.{Verdict}
use hox_server.Referee.Game.{string_to_move}
use hox_server.Referee.Reorder.{reordered}
use hox_server.Referee.Turned.{Turned}
use hox_server.Referee.Games.{Plays}
use hox_server.Table.State.{Table, World, Text, ok, is_in_progress, on_table, post_others}
use hox_server.Table.Elo.{Scale}
use hox_server.Table.Seats.{is_over, both_seated}
use hox_server.Table.Moves.{
  can_move, is_turn, is_win, push_move, note_move, tell_move, finish_move, answer_move, accept_move,
}
use hox_server.Table.Calls.{world_of}
use hox_server.Table.Invariant.{IsTable, IsSeated}
use hox_server.Table.Ended.{
  Kept, Ended, aborts, ends, keeps, on_game_ended-Ended, end_table-IsTable,
}
use hox_server.Table.Answered.{goes_on_or_won, validate_move-Answered}
use hox_server.Table.Counted.{IsCounted, counts, judge-Judged, reset_move_timers-timed}

-- The table with the referee's board.
abbrev pub set_referee : Table → Board → Table
set_referee t b = record t { referee = b }

-- What remains true of a table whose game has just been ended by a move.
abbrev pub Over : Table → Table → Type 0
Over t u =
    IsSeated u.red_player u.black_player u.all_players
    × Plays u.referee
    × (both_seated u ≡ both_seated t)

module _ (scale : Scale) (now : ℤ) (w : World) (v : IsTable w.table)
    (can : can_move w.table.status ≡ true) where
  pub limits : IsCounted in_progress w.table.effective_moves w.table.red_checks w.table.black_checks
  limits h =
      let open_end : is_over w.table.status ≡ false = ground (arith, can) in
      (v.game.counted open_end, v.game.red_checked open_end, v.game.black_checked open_end)

  -- An empty seat is possible in a game in progress only.
  abort : both_seated w.table ≡ false → Kept w.table none
  abort e = Kept.aborts e (ground (arith, e, can, v.is_ready))

  module _ (p : ℕ) (s : Text) (c : Color) (b : Board) (plays : Plays b) where
    abbrev pub before : World
    before = on_table w (λ t. set_referee t b)

    noted-IsTable :
        (st : GameStatus) (e r bl : ℕ) (check : Bool)
        → is_over st ≡ false
        → is_in_progress st ≡ true
        → IsCounted st e r bl
        → IsTable (note_move now (counts before.table e r bl check) c s st)
    unfolding note_move
    noted-IsTable st e r bl check goes playing within =
        reset_move_timers-timed IsTable
          (λ t red black last expiry k. record {
            seats = k.seats;
            game = k.game;
            is_ready = k.is_ready;
            is_open = k.is_open;
          })
          now (push_move (counts before.table e r bl check) s st) c
          (record {
            seats = v.seats;
            game = record {
              plays = plays;
              fresh = λ h. ground (arith, h, playing);
              unmoved = λ h. ground (arith, h, playing);
              uncounted = λ h. ground (arith, h, playing);
              red_checked = λ h. (within h).1;
              black_checked = λ h. (within h).2;
              counted = λ h. (within h).0;
              unasked = λ h. cc;
            };
            is_ready = λ h. ground (arith, h, playing);
            is_open = λ h. ground (arith, h, playing);
          })

    noted-Over :
        (st : GameStatus) (e r bl : ℕ) (check : Bool)
        → Over w.table (note_move now (counts before.table e r bl check) c s st)
    unfolding note_move
    noted-Over st e r bl check =
        reset_move_timers-timed (Over w.table) (λ t red black last expiry k. k) now
          (push_move (counts before.table e r bl check) s st) c (v.seats, plays, refl)

    Ended-Kept :
        (u : World) (st : GameStatus) (o : Option World)
        → Over w.table u.table
        → is_over st ≡ true
        → Ended u.table st o
        → Kept w.table (world_of (o >>= (λ w'. some (w', ok))))
    Ended-Kept u st o (seats, game, same) over (aborts e) = abort (ground (arith, same, e))
    Ended-Kept u st o (seats, game, same) over (ends w' e) =
        keeps w' (subst IsTable (sym e) (end_table-IsTable u.table st seats game over))

    finish_move-Kept :
        (st : GameStatus)
        → (is_win st || is_in_progress st) ≡ true
        → Kept w.table (world_of (finish_move scale now before p s c st))
    unfolding finish_move post_others note_move
    finish_move-Kept st playing =
        let j = judge-Judged before.table c st playing limits plays in
        elim (Bool-cases (is_over j.status)) [
          | inl over ↦
              rw (j.returns, finish_move, over)
                (Ended-Kept
                  (tell_move now before p s c
                    (counts before.table j.effective j.red j.black j.check, j.status, j.reason))
                  j.status _ (noted-Over j.status j.effective j.red j.black j.check) over
                  (on_game_ended-Ended scale _ j.status j.reason))
          | inr goes ↦
              rw (j.returns, finish_move, goes)
                (keeps _ (
                  noted-IsTable j.status j.effective j.red j.black j.check goes
                    (ground (arith, j.plays_or_over, goes)) j.limits))
        ]

  refused-IsTable :
      (b : Board)
      → Plays b
      → (d : List ℕ) × (b ≡ reordered w.table.referee d) × Turned w.table.referee d
      → IsTable (set_referee w.table b)
  refused-IsTable b plays (d, e, turned) = record {
    seats = v.seats;
    game = record {
      plays = plays;
      fresh = λ h. (d, e ∙ ap (λ x. reordered x d) (v.game.fresh h).1);
      unmoved = v.game.unmoved;
      uncounted = v.game.uncounted;
      red_checked = v.game.red_checked;
      black_checked = v.game.black_checked;
      counted = v.game.counted;
      unasked = v.game.unasked;
    };
    is_ready = v.is_ready;
    is_open = v.is_open;
  }

  answer_move-Kept :
      (p : ℕ) (s : Text) (c : Color) (b : Board) (r : Verdict)
      → Plays b
      → goes_on_or_won r ≡ true
      → (r ≡ none → (d : List ℕ) × (b ≡ reordered w.table.referee d) × Turned w.table.referee d)
      → Kept w.table (world_of (answer_move scale now w p s c (b, r)))
  unfolding answer_move
  answer_move-Kept p s c b none plays e same = keeps _ (refused-IsTable b plays (same refl))
  answer_move-Kept p s c b (some m) plays e same = finish_move-Kept p s c b plays m.1 e

-- Whatever the text, the table keeps its invariant, or a seat is empty.
pub accept_move-Kept :
    (scale : Scale) (now : ℤ) (w : World)
    → IsTable w.table
    → (p : ℕ) (s : Text) → Kept w.table (world_of (accept_move scale now w p s))
unfolding accept_move
accept_move-Kept scale now w v p s = elim (Bool-cases (can_move w.table.status)) [
  | inr early ↦ rw (early, accept_move) (keeps w v)
  | inl can ↦ elim (Bool-cases (is_turn w.table p)) [
    | inr other ↦ rw (can, accept_move, other) (keeps w v)
    | inl turn ↦ elim (Bool-cases (has_piece (string_to_move w.table.referee s).piece)) [
      | inr nothing ↦ rw (can, accept_move, turn, nothing) (keeps w v)
      | inl named ↦
          let a = validate_move-Answered v.game.plays s in
          rw (can, accept_move, turn, named, a.returns)
            (answer_move-Kept scale now w v can p s w.table.referee.next_color a.board a.verdict
              a.plays a.status a.same)
    ]
  ]
]
