-- ===== src/Referee/Reorder.antt =====
-- The order of the list of active pieces, which a simulated capture changes, decides nothing; nor
-- does the turn, where a test is given its color.
use hox_server.Prelude.{ℕ, ◌≡◌, refl, sym, ◌∙◌, ap, fun_ext, Bool, true, not, ◌&&◌}
use hox_server.Prelude.{some, List, [], ◌∷◌, contains, nodup, any, any_members}
use hox_server.Move.{
  Color, red, black, Position, PieceInfo, PieceType, invalid, king, advisor, elephant, chariot,
  horse, cannon, pawn,
}
use hox_server.Referee.Board.{Board, position_of, get_piece_at, has_piece_at}
use hox_server.Referee.Pieces.{
  can_move_by, count_pieces, elephant_can_move, chariot_can_move, horse_can_move, cannon_can_move,
  has_enemy_at, middle_positions,
}
use hox_server.Referee.Rules.{
  is_valid_move, attacks, is_king_being_checked, hides, is_king_face_king, is_exposed, same_column,
}
use hox_server.Referee.WellFormed.{IsWellFormed}
use hox_server.Referee.Kings.{IsKing, is_king_being_checked-eq, is_king_face_king-eq}

abbrev pub reordered : Board → List ℕ → Board
reordered b ys = record b { pieces = ys }

abbrev pub changed : Board → List ℕ → Color → Board
changed b ys d = record b { pieces = ys; next_color = d }

module _ (b : Board) (ys : List ℕ) (d : Color) where
  count_pieces-reordered :
      (ps : List Position) → count_pieces (changed b ys d) ps ≡ count_pieces b ps
  unfolding count_pieces has_piece_at get_piece_at
  count_pieces-reordered [] = refl
  count_pieces-reordered (p ∷ ps) = rw (count_pieces-reordered ps)

  can_move_by-reordered :
      (t : PieceType) (me : PieceInfo) (to : Position)
      → can_move_by t (changed b ys d) me to ≡ can_move_by t b me to
  unfolding can_move_by elephant_can_move chariot_can_move horse_can_move cannon_can_move
      has_piece_at get_piece_at has_enemy_at
  can_move_by-reordered invalid me to = refl
  can_move_by-reordered king me to = refl
  can_move_by-reordered advisor me to = refl
  can_move_by-reordered elephant me to = refl
  can_move_by-reordered chariot me to = refl
  can_move_by-reordered horse me to = refl
  can_move_by-reordered cannon me to = rw (count_pieces-reordered (middle_positions me.position to))
  can_move_by-reordered pawn me to = refl

  pub is_valid_move-reordered :
      (i : ℕ) (to : Position) → is_valid_move (changed b ys d) i to ≡ is_valid_move b i to
  unfolding is_valid_move get_piece_at
  is_valid_move-reordered i to = rw (can_move_by-reordered (b.info i).type (b.info i) to)

  module _ (same : (i : ℕ) → contains i ys ≡ contains i b.pieces) where
    pub IsKing-reordered : (c : Color) (k : ℕ) → IsKing b c k → IsKing (changed b ys d) c k
    IsKing-reordered c k h = record {
      active = same k ∙ h.active;
      crowned = h.crowned;
      unique = λ i m e. h.unique i (sym (same i) ∙ m) e;
    }

    pub reordered-IsWellFormed : nodup ys ≡ true → IsWellFormed b → IsWellFormed (changed b ys d)
    reordered-IsWellFormed n w = record {
      on_board = λ i h. w.on_board i (sym (same i) ∙ h);
      placed = λ i h. w.placed i (sym (same i) ∙ h);
      listed = λ p i h. same i ∙ w.listed p i h;
      positioned = w.positioned;
      distinct = n;
      separate = λ i h. w.separate i (sym (same i) ∙ h);
    }

    pub is_king_being_checked-reordered :
        (c : Color) (k : ℕ)
        → IsKing b c k
        → is_king_being_checked (changed b ys d) c ≡ is_king_being_checked b c
    unfolding attacks
    is_king_being_checked-reordered c k h =
        is_king_being_checked-eq (changed b ys d) c k (IsKing-reordered c k h)
        ∙ (ap some (
              any_members _ ys b.pieces same ∙ ap (λ p. any p b.pieces) (fun_ext attacks-reordered))
            ∙ sym (is_king_being_checked-eq b c k h))
      where
        attacks-reordered :
            (i : ℕ)
            → attacks (changed b ys d) c (position_of b k) i ≡ attacks b c (position_of b k) i
        attacks-reordered i = rw (is_valid_move-reordered i (position_of b k))

    module _ (kb kr : ℕ) (hb : IsKing b black kb) (hr : IsKing b red kr) where
      pub is_king_face_king-reordered : is_king_face_king (changed b ys d) ≡ is_king_face_king b
      unfolding hides
      is_king_face_king-reordered =
          is_king_face_king-eq (changed b ys d) kb kr (IsKing-reordered black kb hb)
            (IsKing-reordered red kr hr)
          ∙ (ap (λ q. some (eqb_columns && not q)) (any_members (hides b kb kr) ys b.pieces same)
              ∙ sym (is_king_face_king-eq b kb kr hb hr))
        where
          eqb_columns : Bool
          eqb_columns = same_column b kb kr

      pub is_exposed-reordered :
          (c : Color) (k : ℕ) → IsKing b c k → is_exposed (changed b ys d) c ≡ is_exposed b c
      unfolding is_exposed
      is_exposed-reordered c k h =
          rw (is_king_being_checked-reordered c k h, is_king_face_king-reordered)
