-- ===== src/Table/Made.antt =====
-- What hoxTable::acceptMove of server/hoxTable.cpp answers to a text.
use hox_server.Prelude.{
  ℕ, ◌≡◌, refl, sym, ◌∙◌, ap, true, false, ◌||◌, ◌⊎◌, Option, none, some, is_some, List, [], ◌∷◌,
  ◌++◌,
}
use hox_server.Prelude.{Bool-cases, inl, inr, ◌>>=◌, ℤ}
use hox_server.Move.{Color, GameStatus, has_piece}
use hox_server.Referee.Board.{Board}
use hox_server.Referee.Rules.{Verdict}
use hox_server.Referee.Game.{string_to_move}
use hox_server.Referee.Reorder.{reordered}
use hox_server.Referee.Turned.{Turned, Turned-refl}
use hox_server.Referee.Validate.{Playable}
use hox_server.Referee.Games.{Plays}
use hox_server.Table.State.{
  Table, World, Text, Code, ok, not_valid, not_allowed, is_in_progress, on_table, post_others,
}
use hox_server.Table.Elo.{Scale}
use hox_server.Table.Seats.{is_over, both_seated}
use hox_server.Table.Moves.{
  can_move, is_turn, is_win, push_move, note_move, tell_move, finish_move, answer_move, accept_move,
}
use hox_server.Table.Invariant.{IsTable}
use hox_server.Table.Ended.{Ended, aborts, ends, on_game_ended-Ended}
use hox_server.Table.Answered.{goes_on_or_won, validate_move-Answered}
use hox_server.Table.Counted.{counts, judge-Judged, reset_move_timers-timed}
use hox_server.Table.Accepted.{set_referee, limits}

-- The text is refused, and the referee's board is as before but for its list of pieces, which has the
-- same pieces, and the side to move in the same order between them; or the move is
-- playable for the referee, it is the player's turn, and the text is the last of the table's moves.
pub data Made (w : World) (p : ℕ) (s : Text) : Option (World × Code) → Type 0 where
  stops : both_seated w.table ≡ false → Made w p s none
  refuses :
      (b : Board) (d : List ℕ) (c : Code)
      → b ≡ reordered w.table.referee d
      → Turned w.table.referee d
      → (c ≡ not_valid) ⊎ (c ≡ not_allowed)
      → Made w p s (some (on_table w (λ t. set_referee t b), c))
  makes :
      (w' : World)
      → is_turn w.table p ≡ true
      → Playable w.table.referee (string_to_move w.table.referee s)
      → w'.table.moves ≡ w.table.moves ++ s ∷ []
      → Made w p s (some (w', ok))

module _ (scale : Scale) (now : ℤ) (w : World) (v : IsTable w.table)
    (can : can_move w.table.status ≡ true) (p : ℕ) (turn : is_turn w.table p ≡ true) (s : Text)
    (playable : Playable w.table.referee (string_to_move w.table.referee s)) where
  -- Whatever the timers do, the move is noted; and the seats are as they were.
  abbrev Noted : Table → Type 0
  Noted u = (u.moves ≡ w.table.moves ++ s ∷ []) × (both_seated u ≡ both_seated w.table)

  Ended-Made :
      (u : World) (st : GameStatus) (o : Option World)
      → Noted u.table
      → Ended u.table st o
      → Made w p s (o >>= (λ w'. some (w', ok)))
  Ended-Made u st o (noted, same) (aborts e) = stops (sym same ∙ e)
  Ended-Made u st o (noted, same) (ends w' e) =
      makes w' turn playable (ap (λ (t : Table). t.moves) e ∙ noted)

  finish_move-Made :
      (c : Color) (b : Board) (plays : Plays b) (st : GameStatus)
      → (is_win st || is_in_progress st) ≡ true
      → Made w p s (finish_move scale now (on_table w (λ t. set_referee t b)) p s c st)
  unfolding finish_move post_others note_move
  finish_move-Made c b plays st playing =
      let before = on_table w (λ t. set_referee t b) in
      let j = judge-Judged before.table c st playing (limits scale now w v can) plays in
      let counted = counts before.table j.effective j.red j.black j.check in
      let noted : Noted (note_move now counted c s j.status) =
        reset_move_timers-timed Noted (λ t red black last expiry k. k) now
          (push_move counted s j.status) c (refl, refl) in
      elim (Bool-cases (is_over j.status)) [
        | inl over ↦
            rw (j.returns, finish_move, over)
              (Ended-Made (tell_move now before p s c (counted, j.status, j.reason)) j.status _
                noted (on_game_ended-Ended scale _ j.status j.reason))
        | inr goes ↦ rw (j.returns, finish_move, goes) (makes _ turn playable noted.0)
      ]

module _ (scale : Scale) (now : ℤ) (w : World) (v : IsTable w.table) (p : ℕ) (s : Text) where
  unmade : (c : Code) → (c ≡ not_valid) ⊎ (c ≡ not_allowed) → Made w p s (some (w, c))
  unmade c e = refuses w.table.referee w.table.referee.pieces c refl (Turned-refl w.table.referee) e

  answer_move-Made :
      (can : can_move w.table.status ≡ true) (turn : is_turn w.table p ≡ true) (c : Color)
      (b : Board) (r : Verdict)
      → Plays b
      → goes_on_or_won r ≡ true
      → (r ≡ none → (d : List ℕ) × (b ≡ reordered w.table.referee d) × Turned w.table.referee d)
      → (is_some r ≡ true → Playable w.table.referee (string_to_move w.table.referee s))
      → Made w p s (answer_move scale now w p s c (b, r))
  unfolding answer_move
  answer_move-Made can turn c b none plays e same playable =
      let (d, q, t) = same refl in refuses b d not_valid q t (inl refl)
  answer_move-Made can turn c b (some m) plays e same playable =
      finish_move-Made scale now w v can p turn s (playable refl) c b plays m.1 e

  -- At a table within its invariant acceptMove either refuses the text, and then nothing is
  -- posted or changed but the order of the referee's list of pieces, which has the same pieces
  -- as before, with the side to move in its order; or it is the player's turn, the move is
  -- playable, and the text becomes the last of the table's moves; or it aborts, and then a
  -- seat is empty.
  pub accept_move-Made : Made w p s (accept_move scale now w p s)
  unfolding accept_move
  accept_move-Made = elim (Bool-cases (can_move w.table.status)) [
    | inr early ↦ rw (early, accept_move) (unmade not_allowed (inr refl))
    | inl can ↦ elim (Bool-cases (is_turn w.table p)) [
      | inr other ↦ rw (can, accept_move, other) (unmade not_allowed (inr refl))
      | inl turn ↦ elim (Bool-cases (has_piece (string_to_move w.table.referee s).piece)) [
        | inr nothing ↦ rw (can, accept_move, turn, nothing) (unmade not_valid (inl refl))
        | inl named ↦
            let a = validate_move-Answered v.game.plays s in
            rw (can, accept_move, turn, named, a.returns)
              (answer_move-Made can turn w.table.referee.next_color a.board a.verdict a.plays
                a.status a.same a.playable)
      ]
    ]
  ]
