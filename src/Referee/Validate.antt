-- ===== src/Referee/Validate.antt =====
-- ValidateMove of server/hoxReferee.cpp against the rules: it returns on every move of a sound
-- board, keeps the board sound, and accepts exactly the playable moves.
use hox_server.Prelude.{ℕ, ◌≡◌, refl, ◌∙◌, ap, arith, ◌==◌, ==→≡, Bool, true, false, ◌||◌}
use hox_server.Prelude.{Option, none, some, List, Bool-cases, Option-cases, inl, inr, ◌⊎◌, subst}
use hox_server.Move.{Color, red, black, Move, eqb_color, eqb_color_refl, eqb_color→≡}
use hox_server.Referee.Board.{Board, get_piece_at, record_move, undo_move}
use hox_server.Referee.Rules.{
  color_of, is_valid_move, is_king_being_checked, is_exposed, opponent, Verdict, status_after,
  accept_move, commit_move, captured_info, validate_move,
}
use hox_server.Referee.Undo.{
  get_piece_at-IsValid, to_back, record_move-capture, undo_move-record_move,
}
use hox_server.Referee.Reorder.{
  reordered, IsKing-reordered, reordered-IsWellFormed, is_king_being_checked-reordered,
}
use hox_server.Referee.Sound.{IsSound, Keeps, king_of, record_move-Keeps, victim-ne}
use hox_server.Referee.Legal.{Tested, Keeps-Tested, is_exposed-eq, IsKing-of}
use hox_server.Referee.Turned.{Turned, Turned-refl, Turned-to_back}
use hox_server.Referee.Pass.{CanMove, IsStuck, does_next_move_exist-Searched}

-- The move carries the color of the piece at its origin, as stringToMove fills it in.
abbrev pub IsHonest : Board → Move → Type 0
IsHonest b m = (i : ℕ) → get_piece_at b m.piece.position ≡ some i → color_of b i ≡ m.piece.color

-- It is the color's turn, the piece can move there, and its king is safe afterwards.
pub record Playable (b : Board) (m : Move) : Type 0 where
  pub turn : m.piece.color ≡ b.next_color
  pub mover : ℕ
  pub here : get_piece_at b m.piece.position ≡ some mover
  pub valid : is_valid_move b mover m.new_position ≡ true
  pub safe : is_exposed (record_move b m) m.piece.color ≡ some false

-- The move with the piece that stands at its new position.
abbrev pub captures : Board → Move → Move
captures b m = record m { captured_piece = captured_info b (get_piece_at b m.new_position) }

-- The board after the move, with the turn passed on.
abbrev pub played : Board → Move → Board
played b m = record (record_move b m) { next_color = opponent b.next_color }

module _ (kb kr : ℕ) (b : Board) (s : IsSound kb kr b) (m : Move) where
  -- The game is over exactly if the side to move is stuck.
  pub record Accepts (o : Option (Board × Verdict)) : Type 0 where
    pub order : List ℕ
    pub goes_on : Bool
    pub returns :
        o
        ≡ some (
          reordered (played b m) order,
          some (captures b m, status_after (opponent b.next_color) goes_on),
        )
    pub turned : Turned (played b m) order
    pub sound : IsSound kb kr (played b m)
    pub can : goes_on ≡ true → CanMove (played b m)
    pub stuck : goes_on ≡ false → IsStuck (played b m)

  pub record Rejects (o : Option (Board × Verdict)) : Type 0 where
    pub order : List ℕ
    pub returns : o ≡ some (reordered b order, none)
    pub turned : Turned b order

  rejected : Rejects (some (b, none))
  rejected = record { order = b.pieces; returns = refl; turned = Turned-refl b }

  module _ (i : ℕ) (here : get_piece_at b m.piece.position ≡ some i)
      (mine : color_of b i ≡ b.next_color) (valid : is_valid_move b i m.new_position ≡ true) where
    kept : Keeps kb kr (record_move b m) × ((record_move b m).next_color ≡ b.next_color)
    kept = record_move-Keeps kb kr b s m i here mine valid

    pub played-IsSound :
        is_king_being_checked (record_move b m) b.next_color ≡ some false
        → IsSound kb kr (played b m)
    played-IsSound safe = record {
      well = reordered-IsWellFormed c c.pieces d (λ j. refl) k.well.distinct k.well;
      black_king = IsKing-reordered c c.pieces d (λ j. refl) black kb k.black_king;
      red_king = IsKing-reordered c c.pieces d (λ j. refl) red kr k.red_king;
      turn = ground arith;
      safe =
          subst (λ e. is_king_being_checked (played b m) e ≡ some false) back
            (is_king_being_checked-reordered c c.pieces d (λ j. refl) b.next_color
                (king_of kb kr b.next_color) (IsKing-of k b.next_color s.turn)
              ∙ safe);
    }
      where
        c : Board
        c = record_move b m

        d : Color
        d = opponent b.next_color

        k : Keeps kb kr c
        k = kept.0

        back : b.next_color ≡ opponent (opponent b.next_color)
        back = ground (arith, s.turn)

    captured_info-eq :
        captured_info (record_move b m) (get_piece_at b m.new_position)
        ≡ captured_info b (get_piece_at b m.new_position)
    captured_info-eq = elim (Option-cases (get_piece_at b m.new_position)) [
      | inl nobody ↦ rw nobody
      | inr (j, there) ↦
          let other : (j == i) ≡ false = ground (
            arith,
            victim-ne kb kr b s m i here mine valid j there,
            ==→≡ j i,
            eqb_color_refl (color_of b i),
          ) in
          rw (there, record_move-capture b s.well m i here j there other) (ground (arith, other))
    ]

    accept_move-Accepts :
        is_king_being_checked (record_move b m) b.next_color ≡ some false
        → Accepts (accept_move (record_move b m) m (get_piece_at b m.new_position))
    unfolding accept_move
    accept_move-Accepts safe =
        let r = does_next_move_exist-Searched kb kr (played b m) (played-IsSound safe) in
        record {
          order = r.order;
          goes_on = r.result;
          returns = rw (captured_info-eq, kept.1, r.returns);
          turned = r.turned;
          sound = played-IsSound safe;
          can = r.found;
          stuck = r.exhausted;
        }

    undo-Rejects :
        Rejects (some (undo_move (record_move b m) m (get_piece_at b m.new_position), none))
    undo-Rejects = record {
      order = to_back (get_piece_at b m.new_position) b.pieces;
      returns = rw (
          undo_move-record_move m i b s.well here (λ e. ground (
            arith,
            e,
            victim-ne kb kr b s m i here mine valid i e,
            eqb_color_refl (color_of b i),
          )));
      turned = Turned-to_back b (get_piece_at b m.new_position) (λ j e. (
        s.well.listed m.new_position j (get_piece_at-IsValid b m.new_position j e).1,
        ground (arith, victim-ne kb kr b s m i here mine valid j e, mine),
      ));
    }

  -- Whatever piece the move names, the answer is one of the two.
  commit_move-cases :
      (i : ℕ)
      → get_piece_at b m.piece.position ≡ some i
      → color_of b i ≡ m.piece.color
      → m.piece.color ≡ b.next_color
      → is_valid_move b i m.new_position ≡ true
      → (Playable b m × Accepts (commit_move b m)) ⊎ (¬ Playable b m × Rejects (commit_move b m))
  unfolding commit_move is_exposed
  commit_move-cases i here honest turn valid = elim (Bool-cases (t.checked || t.faces)) [
    | inr safe ↦
        let unchecked : is_king_being_checked (record_move b m) b.next_color ≡ some false =
          subst (λ d. is_king_being_checked (record_move b m) d ≡ some false) turn
            (t.check ∙ ap some (ground (arith, safe))) in
        inl (
          record {
            turn = turn;
            mover = i;
            here = here;
            valid = valid;
            safe = is_exposed-eq t ∙ ap some safe;
          },
          rw (is_exposed-eq t, safe) (accept_move-Accepts i here (honest ∙ turn) valid unchecked),
        )
    | inl exposed ↦ inr (
      λ p. cc (is_exposed-eq t),
      rw (is_exposed-eq t, exposed) (undo-Rejects i here (honest ∙ turn) valid),
    )
  ]
    where
      t : Tested (record_move b m) m.piece.color
      t = Keeps-Tested (kept i here (honest ∙ turn) valid).0 m.piece.color (rw turn s.turn)

  -- On a sound board and a move that carries the color of the piece at its origin, ValidateMove
  -- returns. It accepts the move exactly if it is playable: then the board is the recorded move's
  -- with the turn passed on, sound again, the returned move names the piece that stood at the new
  -- position, and the status is that the side to move has lost if no piece of it has a legal move
  -- to a potential position, and "in progress" if one has. Otherwise the board is as it was. In
  -- both cases the order of the list of pieces may change.
  pub validate_move-cases :
      IsHonest b m
      → (Playable b m × Accepts (validate_move b m))
        ⊎ (¬ Playable b m × Rejects (validate_move b m))
  unfolding validate_move
  validate_move-cases honest = elim (Bool-cases (eqb_color m.piece.color b.next_color)) [
    | inr other ↦
        inr (λ p. ground (arith, p.turn, other, eqb_color_refl b.next_color), rw other rejected)
    | inl turn ↦ elim (Option-cases (get_piece_at b m.piece.position)) [
      | inl nobody ↦ inr (λ p. cc (p.here), rw (turn, nobody) rejected)
      | inr (i, here) ↦ elim (Bool-cases (is_valid_move b i m.new_position)) [
        | inr invalid ↦
            inr (
              λ p. ground (arith, p.here, p.valid),
              rw (turn, here, validate_move, invalid) rejected,
            )
        | inl valid ↦
            rw (turn, here, validate_move, valid)
              (commit_move-cases i here (honest i here) (eqb_color→≡ _ _ turn) valid)
      ]
    ]
  ]
