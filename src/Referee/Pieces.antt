-- ===== src/Referee/Pieces.antt =====
-- The classes of the pieces in server/hoxReferee.cpp: CanMoveTo and GetPotentialNextPositions.
-- A virtual call is a function by clauses on the piece's type.
use hox_server.Prelude.{ℕ, zero, suc, ltb, ◌==◌, Bool, false, not, ◌&&◌, ◌||◌, if◌then◌else◌}
use hox_server.Prelude.{Option, none, some, List, [], ◌∷◌, ◌++◌, map, any}
use hox_server.Prelude.{ℤ, pos, ◌+ℤ◌, ◌-ℤ◌, abs, half, eqb_ℤ, ltb_ℤ, pos_part}
use hox_server.Move.{
  Color, red, black, Position, PieceInfo, PieceType, king, advisor, elephant, chariot, horse,
  cannon, pawn, eqb_color, is_inside_palace, is_inside_country,
}
use hox_server.Referee.Board.{Board, get_piece_at, has_piece_at}

-- abs(a - b) == n.
abbrev pub apart : ℕ → ℤ → ℤ → Bool
apart n a b = abs (a -ℤ b) == n

unfoldable pub king_can_move : PieceInfo → Position → Bool
king_can_move me to =
    is_inside_palace me.color to
    && (apart 1 to.x from.x && eqb_ℤ to.y from.y || eqb_ℤ to.x from.x && apart 1 to.y from.y)
  where
    from : Position
    from = me.position

unfoldable pub advisor_can_move : PieceInfo → Position → Bool
advisor_can_move me to =
    is_inside_palace me.color to && (apart 1 to.x me.position.x && apart 1 to.y me.position.y)

abbrev pub center : Position → Position → Position
center p q = record { x = half (p.x +ℤ q.x); y = half (p.y +ℤ q.y) }

unfoldable pub elephant_can_move : Board → PieceInfo → Position → Bool
elephant_can_move b me to =
    is_inside_country me.color to
    && (apart 2 to.x me.position.x && apart 2 to.y me.position.y)
    && not (has_piece_at b (center me.position to))

-- The values i with lo < i < hi of a loop `for ( i = lo+1; i < hi; ++i )`.
count_up : ℕ → ℤ → List ℤ
count_up zero i = []
count_up (suc n) i = i ∷ count_up n (i +ℤ pos 1)

unfoldable pub between : ℤ → ℤ → List ℤ
unfolding count_up
between lo hi = count_up (pos_part (hi -ℤ lo -ℤ pos 1)) (lo +ℤ pos 1)

-- The positions strictly between two positions of a line, in the source's order of the tests:
-- top, right, bottom, left.
unfoldable pub middle_positions : Position → Position → List Position
middle_positions from to =
    if ltb_ℤ to.y from.y
    then column (between to.y from.y)
    else if ltb_ℤ from.x to.x
    then row (between from.x to.x)
    else if ltb_ℤ from.y to.y
    then column (between from.y to.y)
    else if ltb_ℤ to.x from.x
    then row (between to.x from.x)
    else []
  where
    column : List ℤ → List Position
    column = map (λ i. record { x = from.x; y = i })

    row : List ℤ → List Position
    row = map (λ i. record { x = i; y = from.y })

-- Is a horizontal or vertical move?
abbrev pub is_straight : Position → Position → Bool
is_straight from to =
    not (eqb_ℤ to.x from.x) && eqb_ℤ to.y from.y || eqb_ℤ to.x from.x && not (eqb_ℤ to.y from.y)

unfoldable pub chariot_can_move : Board → PieceInfo → Position → Bool
chariot_can_move b me to =
    is_straight me.position to && not (any (has_piece_at b) (middle_positions me.position to))

-- The neighbor that hinders a move of the horse; none if the move is no 2-1 rectangle.
unfoldable pub horse_neighbor : Position → Position → Option Position
horse_neighbor from to =
    if eqb_ℤ (from.y -ℤ pos 2) to.y && apart 1 to.x from.x
    then some (record { x = from.x; y = from.y -ℤ pos 1 })
    else if eqb_ℤ (from.y +ℤ pos 2) to.y && apart 1 to.x from.x
    then some (record { x = from.x; y = from.y +ℤ pos 1 })
    else if eqb_ℤ (from.x +ℤ pos 2) to.x && apart 1 to.y from.y
    then some (record { x = from.x +ℤ pos 1; y = from.y })
    else if eqb_ℤ (from.x -ℤ pos 2) to.x && apart 1 to.y from.y
    then some (record { x = from.x -ℤ pos 1; y = from.y })
    else none

unfoldable pub horse_can_move : Board → PieceInfo → Position → Bool
horse_can_move b me to = elim (horse_neighbor me.position to) [
  | none ↦ false
  | some n ↦ not (has_piece_at b n)
]

unfoldable pub count_pieces : Board → List Position → ℕ
count_pieces b [] = 0
count_pieces b (p ∷ ps) = (if has_piece_at b p then suc (count_pieces b ps) else count_pieces b ps)

-- Is there a piece at the position, and of another color?
unfoldable pub has_enemy_at : Board → Color → Position → Bool
has_enemy_at b c p = elim (get_piece_at b p) [
  | none ↦ false
  | some i ↦ not (eqb_color (b.info i).color c)
]

unfoldable pub cannon_can_move : Board → PieceInfo → Position → Bool
cannon_can_move b me to =
    let middle = count_pieces b (middle_positions me.position to) in
    is_straight me.position to
    && (if ltb 1 middle
        then false
        else if middle == 1
        then has_enemy_at b me.color to
        else not (has_piece_at b to))

-- One step towards the other side.
abbrev pub is_forward : Color → Position → Position → Bool
is_forward c from to =
    eqb_color c black && eqb_ℤ to.y (from.y +ℤ pos 1)
    || eqb_color c red && eqb_ℤ to.y (from.y -ℤ pos 1)

unfoldable pub pawn_can_move : PieceInfo → Position → Bool
pawn_can_move me to =
    if is_inside_country me.color to
    then eqb_ℤ to.x from.x && is_forward me.color from to
    else eqb_ℤ to.y from.y && apart 1 to.x from.x
      || eqb_ℤ to.x from.x && is_forward me.color from to
  where
    from : Position
    from = me.position

-- Piece::CanMoveTo.
unfoldable pub can_move_by : PieceType → Board → PieceInfo → Position → Bool
can_move_by king b me to = king_can_move me to
can_move_by advisor b me to = advisor_can_move me to
can_move_by elephant b me to = elephant_can_move b me to
can_move_by chariot b me to = chariot_can_move b me to
can_move_by horse b me to = horse_can_move b me to
can_move_by cannon b me to = cannon_can_move b me to
can_move_by pawn b me to = pawn_can_move me to
can_move_by _ b me to = false

abbrev pub can_move_to : Board → PieceInfo → Position → Bool
can_move_to b me to = can_move_by me.type b me to

abbrev at : ℤ → ℤ → Position
at x y = record { x = x; y = y }

-- The four neighbours of the king and the pawn.
unfoldable pub orthogonal_positions : Position → List Position
orthogonal_positions p =
    at p.x (p.y -ℤ pos 1)
    ∷ at p.x (p.y +ℤ pos 1)
    ∷ at (p.x -ℤ pos 1) p.y
    ∷ at (p.x +ℤ pos 1) p.y
    ∷ []

-- The four corners of the advisor (n = 1) and the elephant (n = 2).
unfoldable pub diagonal_positions : ℕ → Position → List Position
diagonal_positions n p =
    at (p.x -ℤ pos n) (p.y -ℤ pos n)
    ∷ at (p.x -ℤ pos n) (p.y +ℤ pos n)
    ∷ at (p.x +ℤ pos n) (p.y -ℤ pos n)
    ∷ at (p.x +ℤ pos n) (p.y +ℤ pos n)
    ∷ []

unfoldable pub horse_positions : Position → List Position
horse_positions p =
    at (p.x -ℤ pos 1) (p.y -ℤ pos 2)
    ∷ at (p.x -ℤ pos 1) (p.y +ℤ pos 2)
    ∷ at (p.x -ℤ pos 2) (p.y -ℤ pos 1)
    ∷ at (p.x -ℤ pos 2) (p.y +ℤ pos 1)
    ∷ at (p.x +ℤ pos 1) (p.y -ℤ pos 2)
    ∷ at (p.x +ℤ pos 1) (p.y +ℤ pos 2)
    ∷ at (p.x +ℤ pos 2) (p.y -ℤ pos 1)
    ∷ at (p.x +ℤ pos 2) (p.y +ℤ pos 1)
    ∷ []

-- The loops `for ( int x = 0; x <= 8; ++x ) if ( x == p.x ) continue; …` with their bound.
unfoldable pub other_values : ℕ → ℤ → ℕ → List ℤ
other_values zero v i = []
other_values (suc n) v i =
    let rest = other_values n v (suc i) in if eqb_ℤ (pos i) v then rest else pos i ∷ rest

unfoldable pub line_positions : Position → List Position
unfolding other_values
line_positions p =
    map (λ i. record { x = i; y = p.y }) (other_values 9 p.x 0)
    ++ map (λ i. record { x = p.x; y = i }) (other_values 10 p.y 0)

-- Piece::GetPotentialNextPositions.
unfoldable pub potential_next_positions : PieceType → Position → List Position
potential_next_positions king p = orthogonal_positions p
potential_next_positions advisor p = diagonal_positions 1 p
potential_next_positions elephant p = diagonal_positions 2 p
potential_next_positions chariot p = line_positions p
potential_next_positions horse p = horse_positions p
potential_next_positions cannon p = line_positions p
potential_next_positions pawn p = orthogonal_positions p
potential_next_positions _ p = []
