-- ===== src/Referee/Geometry.antt =====
-- CanMoveTo against GetPotentialNextPositions in server/hoxReferee.cpp: the generated positions
-- leave out no cell of the board that the piece can move to.
use hox_server.Prelude.{
  ℕ, zero, suc, ◌+◌, ◌≤◌, ◌<◌, ◌≡◌, refl, ◌∙◌, arith, Bool, true, false, not, ◌&&◌, ◌||◌,
}
use hox_server.Prelude.{List, [], ◌∷◌, ◌++◌, map, any, inl, inr, ◌⊎◌, and_left, and_right}
use hox_server.Prelude.{ℤ, pos, negsuc, eqb_ℤ, leb_ℤ}
use hox_server.Move.{
  Position, PieceInfo, PieceType, invalid, king, advisor, elephant, chariot, horse, cannon, pawn,
  eqb_position, is_valid, within,
}
use hox_server.Referee.Board.{Board}
use hox_server.Referee.Pieces.{
  king_can_move, advisor_can_move, elephant_can_move, chariot_can_move, cannon_can_move,
  pawn_can_move, can_move_by, apart, is_straight, orthogonal_positions, diagonal_positions,
  line_positions, other_values, potential_next_positions,
}
use hox_server.Referee.Jumps.{apart-cases, horse_complete}

-- A step along one axis, and along both.
orthogonal_complete :
    (from to : Position)
    → (apart 1 to.x from.x && eqb_ℤ to.y from.y || eqb_ℤ to.x from.x && apart 1 to.y from.y) ≡ true
    → any (eqb_position to) (orthogonal_positions from) ≡ true
unfolding any orthogonal_positions eqb_position
orthogonal_complete from to h = ground (arith, apart-cases 1 to.x from.x, apart-cases 1 to.y from.y)

diagonal_complete :
    (n : ℕ) (from to : Position)
    → apart n to.x from.x ≡ true
    → apart n to.y from.y ≡ true
    → any (eqb_position to) (diagonal_positions n from) ≡ true
unfolding any diagonal_positions eqb_position
diagonal_complete n from to h k =
    ground (arith, apart-cases n to.x from.x h, apart-cases n to.y from.y k)

pawn_complete :
    (me : PieceInfo) (to : Position)
    → pawn_can_move me to ≡ true
    → any (eqb_position to) (orthogonal_positions me.position) ≡ true
unfolding any orthogonal_positions eqb_position pawn_can_move
pawn_complete me to h = ground (arith, apart-cases 1 to.x me.position.x)

-- The values of the loop that are not the piece's own, from i on.
other_values_complete :
    (n : ℕ) (v : ℤ) (i k : ℕ)
    → i ≤ k
    → k < i + n
    → eqb_ℤ (pos k) v ≡ false
    → any (eqb_ℤ (pos k)) (other_values n v i) ≡ true
unfolding any other_values
other_values_complete zero v i k h l e = absurd (omega arith)
other_values_complete (suc n) v i k h l e = ground (arith, other_values_complete n v (suc i) k)

any-append {ℓ} :
    {A : Type ℓ} (p : A → Bool) (xs ys : List A) → any p (xs ++ ys) ≡ (any p xs || any p ys)
unfolding any
any-append p [] ys = refl
any-append p (x ∷ xs) ys = ground (arith, any-append p xs ys)

row_complete :
    (to : Position) (y : ℤ) (vs : List ℤ)
    → eqb_ℤ to.y y ≡ true
    → any (eqb_ℤ to.x) vs ≡ true
    → any (eqb_position to) (map (λ i. record { x = i; y = y }) vs) ≡ true
unfolding any eqb_position
row_complete to y [] e h = cc
row_complete to y (v ∷ vs) e h = ground (arith, row_complete to y vs e)

column_complete :
    (to : Position) (x : ℤ) (vs : List ℤ)
    → eqb_ℤ to.x x ≡ true
    → any (eqb_ℤ to.y) vs ≡ true
    → any (eqb_position to) (map (λ i. record { x = x; y = i }) vs) ≡ true
unfolding any eqb_position
column_complete to x [] e h = cc
column_complete to x (v ∷ vs) e h = ground (arith, column_complete to x vs e)

values_complete :
    (m : ℕ) (a v : ℤ)
    → leb_ℤ (pos 0) a ≡ true
    → leb_ℤ a (pos m) ≡ true
    → eqb_ℤ a v ≡ false
    → any (eqb_ℤ a) (other_values (suc m) v 0) ≡ true
values_complete m (pos k) v h l e =
    other_values_complete (suc m) v 0 k (omega arith) (ground arith) e
values_complete m (negsuc k) v h l e = absurd (ground arith)

-- A straight move keeps one coordinate and changes the other.
straight-cases :
    (x y : Bool)
    → (not x && y || x && not y) ≡ true
    → ((y ≡ true) × (x ≡ false)) ⊎ ((x ≡ true) × (y ≡ false))
straight-cases x y h = ground arith

or_left : (a b : Bool) → a ≡ true → (a || b) ≡ true
or_left a b h = rw h

or_right : (a b : Bool) → b ≡ true → (a || b) ≡ true
or_right a b h = ground arith

line_complete :
    (from to : Position)
    → is_straight from to ≡ true
    → is_valid to ≡ true
    → any (eqb_position to) (line_positions from) ≡ true
unfolding line_positions is_valid
line_complete from to h v =
    any-append (eqb_position to) row_cells column_cells
    ∙ elim (straight-cases (eqb_ℤ to.x from.x) (eqb_ℤ to.y from.y) h) [
      | inl (row, away) ↦
          or_left (any (eqb_position to) row_cells) (any (eqb_position to) column_cells) (
            row_complete to from.y (other_values 9 from.x 0) row (
              values_complete 8 to.x from.x (and_left (leb_ℤ (pos 0) to.x) (leb_ℤ to.x (pos 8)) v_x)
                (and_right (leb_ℤ (pos 0) to.x) (leb_ℤ to.x (pos 8)) v_x) away))
      | inr (column, away) ↦
          or_right (any (eqb_position to) row_cells) (any (eqb_position to) column_cells) (
            column_complete to from.x (other_values 10 from.y 0) column (
              values_complete 9 to.y from.y (and_left (leb_ℤ (pos 0) to.y) (leb_ℤ to.y (pos 9)) v_y)
                (and_right (leb_ℤ (pos 0) to.y) (leb_ℤ to.y (pos 9)) v_y) away))
    ]
  where
    row_cells : List Position
    row_cells = map (λ i. record { x = i; y = from.y }) (other_values 9 from.x 0)

    column_cells : List Position
    column_cells = map (λ i. record { x = from.x; y = i }) (other_values 10 from.y 0)

    v_x : within (pos 0) to.x (pos 8) ≡ true
    v_x = and_left (within (pos 0) to.x (pos 8)) (within (pos 0) to.y (pos 9)) v

    v_y : within (pos 0) to.y (pos 9) ≡ true
    v_y = and_right (within (pos 0) to.x (pos 8)) (within (pos 0) to.y (pos 9)) v

-- Every cell of the board that a piece can move to is among its potential next positions.
pub potential_next_positions_complete :
    (t : PieceType) (b : Board) (me : PieceInfo) (to : Position)
    → can_move_by t b me to ≡ true
    → is_valid to ≡ true
    → any (eqb_position to) (potential_next_positions t me.position) ≡ true
unfolding can_move_by potential_next_positions king_can_move advisor_can_move elephant_can_move
    chariot_can_move cannon_can_move
potential_next_positions_complete invalid b me to h v = cc
potential_next_positions_complete king b me to h v =
    orthogonal_complete me.position to (ground (arith, h))
potential_next_positions_complete advisor b me to h v =
    diagonal_complete 1 me.position to (ground (arith, h)) (ground (arith, h))
potential_next_positions_complete elephant b me to h v =
    diagonal_complete 2 me.position to (ground (arith, h)) (ground (arith, h))
potential_next_positions_complete chariot b me to h v =
    line_complete me.position to (ground (arith, h)) v
potential_next_positions_complete horse b me to h v = horse_complete b me to h
potential_next_positions_complete cannon b me to h v =
    line_complete me.position to (ground (arith, h)) v
potential_next_positions_complete pawn b me to h v = pawn_complete me to h
