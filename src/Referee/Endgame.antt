-- ===== src/Referee/Endgame.antt =====
-- The end of the game: _DoesNextMoveExist of server/hoxReferee.cpp against the moves that
-- ValidateMove accepts, and what ValidateMove makes of a move that leaves the board.
use hox_server.Prelude.{ℕ, ◌≡◌, refl, sym, ◌∙◌, arith, Bool, true, false}
use hox_server.Prelude.{some, List, [], ◌∷◌, any, and_left, Bool-cases, inl, inr}
use hox_server.Move.{
  Position, GameStatus, Move, eqb_color_refl, eqb_position, eqb_position→≡, is_valid,
}
use hox_server.Referee.Board.{Board, record_move}
use hox_server.Referee.Pieces.{can_move_to}
use hox_server.Referee.Rules.{
  is_valid_move, opponent, status_after, does_next_move_exist, validate_move,
}
use hox_server.Referee.Undo.{get_piece_at-IsValid, record_move-off}
use hox_server.Referee.Reorder.{reordered}
use hox_server.Referee.Sound.{IsSound}
use hox_server.Referee.Legal.{move_of, Illegal, standing}
use hox_server.Referee.Geometry.{potential_next_positions_complete}
use hox_server.Referee.Turned.{Turned}
use hox_server.Referee.Search.{AllIllegal, targets}
use hox_server.Referee.Pass.{CanMove, IsStuck, does_next_move_exist-Searched}
use hox_server.Referee.Validate.{IsHonest, Playable, captures, validate_move-cases}

AllIllegal-at :
    (b : Board) (i : ℕ) (p : Position) (ps : List Position)
    → AllIllegal b i ps
    → any (eqb_position p) ps ≡ true
    → is_valid p ≡ true
    → Illegal b i p
unfolding any
AllIllegal-at b i p [] all h v = cc
AllIllegal-at b i p (q ∷ ps) all h v = elim (Bool-cases (eqb_position p q)) [
  | inl e ↦ let same = eqb_position→≡ p q e in rw same (all.0 (rw same at v))
  | inr other ↦ AllIllegal-at b i p ps all.1 (rw other at h) v
]

-- _RecordMove reads the two positions of the move only.
record_move-positions :
    (b : Board) (m n : Move)
    → m.piece.position ≡ n.piece.position
    → m.new_position ≡ n.new_position
    → record_move b m ≡ record_move b n
unfolding record_move
record_move-positions b m n from to = rw (from, to)

is_valid_move-can_move_to :
    (b : Board) (i : ℕ) (to : Position)
    → is_valid_move b i to ≡ true
    → can_move_to b (b.info i) to ≡ true
unfolding is_valid_move
is_valid_move-can_move_to b i to h = and_left _ _ h

module _ (kb kr : ℕ) (b : Board) (s : IsSound kb kr b) where
  IsStuck-Playable :
      IsStuck b → (m : Move) → IsHonest b m → is_valid m.new_position ≡ true → ¬ Playable b m
  IsStuck-Playable stuck m honest v p =
      let i = p.mover in
      let origin =
        s.well.positioned m.piece.position i (get_piece_at-IsValid b m.piece.position i p.here).1 in
      let active =
        s.well.listed m.piece.position i (get_piece_at-IsValid b m.piece.position i p.here).1 in
      let own = honest i p.here ∙ p.turn in
      let target =
        potential_next_positions_complete (b.info i).type b (b.info i) m.new_position
          (steps p.valid) v in
      let illegal =
        AllIllegal-at b i m.new_position (targets b i)
          (stuck i active (ground (arith, own, eqb_color_refl b.next_color))) target v in
      let same = record_move-positions b m (move_of (b.info i) m.new_position) (sym origin) refl in
      elim illegal [
        | inl invalid ↦ cc (p.valid, invalid)
        | inr exposed ↦ cc (p.safe, exposed, same, honest i p.here)
      ]
    where
      steps :
          is_valid_move b p.mover m.new_position ≡ true
          → can_move_to b (b.info p.mover) m.new_position ≡ true
      steps h = is_valid_move-can_move_to b p.mover m.new_position h

  CanMove-Playable : CanMove b → (m : Move) × (is_valid m.new_position ≡ true) × Playable b m
  CanMove-Playable (i, active, own, (p, among, v, (valid, safe))) = (
    move_of (b.info i) p,
    v,
    record {
      turn = own;
      mover = i;
      here = standing kb kr b s i active own p;
      valid = valid;
      safe = safe;
    },
  )

  -- On a sound board _DoesNextMoveExist returns, and its answer is right: "yes" only if the side to
  -- move has a move on the board that ValidateMove would accept, "no" only if it has none. It
  -- changes at most the order of the list of pieces.
  pub does_next_move_exist-Playable :
      (order : List ℕ) × (exists : Bool) × (does_next_move_exist b
        ≡ some (reordered b order, exists))
      × Turned b order
      × (exists ≡ true → (m : Move) × (is_valid m.new_position ≡ true) × Playable b m)
      × (exists ≡ false
          → (m : Move) → IsHonest b m
          → is_valid m.new_position ≡ true
          → ¬ Playable b m)
  does_next_move_exist-Playable =
      let r = does_next_move_exist-Searched kb kr b s in
      (
        r.order,
        r.result,
        r.returns,
        r.turned,
        (λ h. CanMove-Playable (r.found h)),
        (λ h. IsStuck-Playable (r.exhausted h)),
      )

  -- On a sound board a playable move whose new position is off the board is accepted, and moves
  -- nothing: the other side has the turn, and every piece stands where it stood.
  pub off_board_pass :
      (m : Move)
      → IsHonest b m
      → Playable b m
      → is_valid m.new_position ≡ false
      → (order : List ℕ) × (move : Move) × (status : GameStatus) × (validate_move b m
          ≡ some (
            reordered (record b { next_color = opponent b.next_color }) order,
            some (move, status),
          ))
  off_board_pass m honest p off = elim (validate_move-cases kb kr b s m honest) [
    | inr (n, r) ↦ absurd (n p)
    | inl (q, a) ↦
        let still = record_move-off b s.well m p.mover p.here off in
        (
          a.order,
          captures b m,
          status_after (opponent b.next_color) a.goes_on,
          a.returns ∙ rw still,
        )
  ]
