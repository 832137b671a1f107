-- ===== src/Referee/Legal.antt =====
-- Legal moves, and that Simulation_IsValidMove decides them and restores the board.
use hox_server.Prelude.{ℕ, ◌≡◌, refl, ◌∙◌, ap, arith, Bool, true, false, not, ◌||◌}
use hox_server.Prelude.{Option, none, some, contains}
use hox_server.Prelude.{Bool-cases, inl, inr, ◌⊎◌}
use hox_server.Move.{
  Color, red, black, Position, PieceInfo, Move, no_piece, eqb_color, eqb_color_refl,
}
use hox_server.Referee.Board.{Board, position_of, get_piece_at, record_move}
use hox_server.Referee.Rules.{
  color_of, is_valid_move, is_king_being_checked, is_king_face_king, is_exposed, simulate,
  simulation_is_valid_move,
}
use hox_server.Referee.Undo.{rotated, get_piece_at-IsValid, undo_move-record_move}
use hox_server.Referee.Kings.{IsKing, is_king_being_checked-eq, is_king_face_king-eq}
use hox_server.Referee.Sound.{IsSound, Keeps, king_of, record_move-Keeps, victim-ne}

abbrev pub move_of : PieceInfo → Position → Move
move_of me p = record { piece = me; new_position = p; captured_piece = no_piece }

-- The piece can move there, and leaves its king neither checked nor facing the other one.
abbrev pub Legal : Board → ℕ → Position → Type 0
Legal b i p =
    (is_valid_move b i p ≡ true)
    × (is_exposed (record_move b (move_of (b.info i) p)) (color_of b i) ≡ some false)

abbrev pub Illegal : Board → ℕ → Position → Type 0
Illegal b i p =
    (is_valid_move b i p ≡ false)
    ⊎ (is_exposed (record_move b (move_of (b.info i) p)) (color_of b i) ≡ some true)

-- With both kings on the board the tests of a move return.
pub IsKing-of :
    {kb kr : ℕ} {c : Board} (k : Keeps kb kr c) (d : Color)
    → ((d ≡ red) ⊎ (d ≡ black))
    → IsKing c d (king_of kb kr d)
IsKing-of {kb} {kr} {c} k d (inl e) = rw e k.red_king
IsKing-of {kb} {kr} {c} k d (inr e) = rw e k.black_king

pub record Tested (c : Board) (d : Color) : Type 0 where
  pub checked : Bool
  pub faces : Bool
  pub check : is_king_being_checked c d ≡ some checked
  pub face : is_king_face_king c ≡ some faces

pub Keeps-Tested :
    {kb kr : ℕ} {c : Board} (k : Keeps kb kr c) (d : Color) → ((d ≡ red) ⊎ (d ≡ black)) → Tested c d
Keeps-Tested {kb} {kr} {c} k d e = record {
  checked = _;
  faces = _;
  check = is_king_being_checked-eq c d (king_of kb kr d) (IsKing-of k d e);
  face = is_king_face_king-eq c kb kr k.black_king k.red_king;
}

pub is_exposed-eq :
    {c : Board} {d : Color} (t : Tested c d) → is_exposed c d ≡ some (t.checked || t.faces)
unfolding is_exposed
is_exposed-eq {c} {d} t = rw (t.check, t.face, is_exposed) (ground arith)

-- The answer r about the piece i and the position p, with the board after it.
pub record Answers (b : Board) (i : ℕ) (p : Position) (o : Option (Board × Bool)) : Type 0 where
  pub later : Option ℕ
  pub result : Bool
  pub returns : o ≡ some (rotated b later, result)
  pub enemy :
      (j : ℕ)
      → later ≡ some j
      → (contains j b.pieces ≡ true) × (eqb_color (color_of b j) (color_of b i) ≡ false)
  pub legal : result ≡ true → Legal b i p
  pub illegal : result ≡ false → Illegal b i p

module _ (kb kr : ℕ) (b : Board) (s : IsSound kb kr b) (i : ℕ) (active : contains i b.pieces ≡ true)
    (mine : color_of b i ≡ b.next_color) (p : Position) where
  abbrev attempt : Move
  attempt = move_of (b.info i) p

  pub standing : get_piece_at b (position_of b i) ≡ some i
  unfolding get_piece_at
  standing = rw (s.well.on_board i active, s.well.placed i active)

  pub own_color : (color_of b i ≡ red) ⊎ (color_of b i ≡ black)
  own_color = rw mine s.turn

  simulate-Answers : is_valid_move b i p ≡ true → Answers b i p (simulate b attempt (color_of b i))
  unfolding simulate
  simulate-Answers valid = record {
    later = get_piece_at b p;
    result = not (t.checked || t.faces);
    returns = rw (
      t.check,
      t.face,
      undo_move-record_move attempt i b s.well standing (λ e. ground (
        arith,
        e,
        victim-ne kb kr b s attempt i standing mine valid i e,
        eqb_color_refl (color_of b i),
      )),
    );
    enemy = λ j e. (
      s.well.listed p j (get_piece_at-IsValid b p j e).1,
      victim-ne kb kr b s attempt i standing mine valid j e,
    );
    legal = λ h. (valid, is_exposed-eq t ∙ ap some (ground (arith, h)));
    illegal = λ h. inr (is_exposed-eq t ∙ ap some (ground (arith, h)));
  }
    where
      t : Tested (record_move b attempt) (color_of b i)
      t =
          Keeps-Tested (record_move-Keeps kb kr b s attempt i standing mine valid).0 (color_of b i)
            own_color

  -- On a sound board, for an active piece of the side to move and any position,
  -- Simulation_IsValidMove returns whether the move is legal, and leaves the board as it was but for
  -- the order of the list of pieces.
  pub simulation_is_valid_move-Answers : Answers b i p (simulation_is_valid_move b attempt)
  unfolding simulation_is_valid_move
  simulation_is_valid_move-Answers = elim (Bool-cases (is_valid_move b i p)) [
    | inl valid ↦ rw (standing, simulation_is_valid_move, valid) (simulate-Answers valid)
    | inr invalid ↦
        rw (standing, simulation_is_valid_move, invalid)
          (record {
            later = none;
            result = false;
            returns = refl;
            enemy = λ j e. cc;
            legal = λ h. cc;
            illegal = λ h. inl invalid;
          })
  ]
