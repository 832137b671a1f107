-- ===== src/Referee/Rules.antt =====
-- The rules that the class Board and the class Piece of server/hoxReferee.cpp check: valid moves,
-- checks, facing kings, simulated moves and the end of the game. `none` is a null dereference,
-- or, in the loop of _DoesNextMoveExist, fuel that ran out.
use hox_server.Prelude.{
  ℕ, zero, suc, ◌+◌, ◌*◌, ◌==◌, Bool, true, false, not, ◌&&◌, ◌||◌, if◌then◌else◌,
}
use hox_server.Prelude.{Option, none, some, ◌>>=◌, List, [], ◌∷◌, any, length, eqb_ℤ}
use hox_server.Move.{
  Color, red, black, GameStatus, in_progress, red_win, black_win, Position, PieceInfo, Move,
  eqb_color, is_king, is_valid, no_piece,
}
use hox_server.Referee.Board.{Board, position_of, get_piece_at, record_move, undo_move}
use hox_server.Referee.Pieces.{can_move_to, potential_next_positions}

abbrev pub color_of : Board → ℕ → Color
color_of b i = (b.info i).color

abbrev is_free_for : Board → Color → Option ℕ → Bool
is_free_for b c none = true
is_free_for b c (some j) = not (eqb_color (color_of b j) c)

-- Piece::IsValidMove: the piece can move there and captures no piece of its own color.
unfoldable pub is_valid_move : Board → ℕ → Position → Bool
is_valid_move b i to =
    can_move_to b (b.info i) to && is_free_for b (color_of b i) (get_piece_at b to)

-- Board::_GetKing, over the active pieces from the front.
abbrev pub is_king_of : Board → Color → ℕ → Bool
is_king_of b c i = is_king (b.info i).type && eqb_color (color_of b i) c

unfoldable pub find_king : Board → Color → List ℕ → Option ℕ
find_king b c [] = none
find_king b c (i ∷ is) = if is_king_of b c i then some i else find_king b c is

unfoldable pub get_king : Board → Color → Option ℕ
unfolding find_king
get_king b c = find_king b c b.pieces

-- Board::_IsKingBeingChecked. The king is dereferenced only at a piece of another color.
abbrev pub is_enemy : Board → Color → ℕ → Bool
is_enemy b c i = not (eqb_color (color_of b i) c)

unfoldable pub attacks : Board → Color → Position → ℕ → Bool
attacks b c p i = is_enemy b c i && is_valid_move b i p

unfoldable pub is_king_being_checked : Board → Color → Option Bool
is_king_being_checked b c = elim (get_king b c) [
  | none ↦ (if any (is_enemy b c) b.pieces then none else some false)
  | some k ↦ some (any (attacks b c (position_of b k)) b.pieces)
]

-- Board::_IsKingFaceKing: another piece anywhere in the column of the kings hides them.
abbrev pub same_column : Board → ℕ → ℕ → Bool
same_column b i j = eqb_ℤ (position_of b i).x (position_of b j).x

unfoldable pub hides : Board → ℕ → ℕ → ℕ → Bool
hides b black_king red_king i = not (i == black_king || i == red_king) && same_column b i red_king

unfoldable pub is_king_face_king : Board → Option Bool
unfolding hides
is_king_face_king b = do
  black_king ← get_king b black
  red_king ← get_king b red
  some (same_column b black_king red_king && not (any (hides b black_king red_king) b.pieces))

-- The tests of a recorded move, in the short-circuit order of ValidateMove.
unfoldable pub is_exposed : Board → Color → Option Bool
is_exposed b c = do
  checked ← is_king_being_checked b c
  if checked then some true else is_king_face_king b

-- Board::Simulation_IsValidMove, after its tests; both checks are made before the move is undone.
unfoldable pub simulate : Board → Move → Color → Option (Board × Bool)
simulate b m c = do
  let after = record_move b m
  checked ← is_king_being_checked after c
  facing ← is_king_face_king after
  some (undo_move after m (get_piece_at b m.new_position), not (checked || facing))

unfoldable pub simulation_is_valid_move : Board → Move → Option (Board × Bool)
unfolding simulate
simulation_is_valid_move b m = elim (get_piece_at b m.piece.position) [
  | none ↦ some (b, false)
  | some i ↦
      if is_valid_move b i m.new_position then simulate b m (color_of b i) else some (b, false)
]

-- The loop of Piece::DoesNextMoveExist over the potential positions.
unfoldable pub try_positions : Board → PieceInfo → List Position → Option (Board × Bool)
try_positions b me [] = some (b, false)
try_positions b me (p ∷ ps) =
    let m : Move = record { piece = me; new_position = p; captured_piece = no_piece } in
    let skip = try_positions b me ps in
    let try =
      simulation_is_valid_move b m
      >>= (λ r. if r.1 then some (r.0, true) else try_positions r.0 me ps) in
    if is_valid p then try else skip

unfoldable pub piece_does_next_move_exist : Board → ℕ → Option (Board × Bool)
piece_does_next_move_exist b i =
    let me = b.info i in try_positions b me (potential_next_positions me.type me.position)

-- What follows an element in a list: `++it` on the list as it is now.
unfoldable pub after : ℕ → List ℕ → List ℕ
after i [] = []
after i (x ∷ xs) = if x == i then xs else after i xs

-- Board::_DoesNextMoveExist. The iterator is the rest of the list that begins at its element; a
-- simulated capture moves an element of the list to the end behind the iterator's back.
unfoldable pub try_pieces : ℕ → Board → List ℕ → Option (Board × Bool)
try_pieces fuel b [] = some (b, false)
try_pieces zero b (i ∷ _) = none
try_pieces (suc fuel) b (i ∷ _) =
    let skip = try_pieces fuel b (after i b.pieces) in
    let try =
      piece_does_next_move_exist b i
      >>= (λ r. if r.1 then some (r.0, true) else try_pieces fuel r.0 (after i r.0.pieces)) in
    if eqb_color (color_of b i) b.next_color then try else skip

-- Enough rounds for a pass over the list after each piece that may move.
abbrev pub rounds : ℕ → ℕ
rounds n = (n + 1) * (n + 1)

unfoldable pub does_next_move_exist : Board → Option (Board × Bool)
unfolding try_pieces
does_next_move_exist b = try_pieces (rounds (length b.pieces)) b b.pieces

-- What ValidateMove returns and stores: nothing when it returns false.
abbrev pub Verdict : Type 0
Verdict = Option (Move × GameStatus)

abbrev pub opponent : Color → Color
opponent c = if eqb_color c red then black else red

abbrev pub captured_info : Board → Option ℕ → PieceInfo
captured_info b none = no_piece
captured_info b (some i) = b.info i

-- The side to move has lost if it has no move.
abbrev pub status_after : Color → Bool → GameStatus
status_after c true = in_progress
status_after c false = if eqb_color c black then red_win else black_win

unfoldable pub accept_move : Board → Move → Option ℕ → Option (Board × Verdict)
accept_move b m captured = do
  let next = record b { next_color = opponent b.next_color }
  r ← does_next_move_exist next
  some (
    r.0,
    some (record m { captured_piece = captured_info b captured }, status_after next.next_color r.1),
  )

-- From the record of the move on: it is undone if it exposes a king.
unfoldable pub commit_move : Board → Move → Option (Board × Verdict)
unfolding accept_move
commit_move b m = do
  let captured = get_piece_at b m.new_position
  let moved = record_move b m
  exposed ← is_exposed moved m.piece.color
  if exposed then some (undo_move moved m captured, none) else accept_move moved m captured

-- Board::ValidateMove.
unfoldable pub validate_move : Board → Move → Option (Board × Verdict)
unfolding commit_move
validate_move b m =
    if eqb_color m.piece.color b.next_color
    then (elim (get_piece_at b m.piece.position) [
      | none ↦ some (b, none)
      | some i ↦ (if is_valid_move b i m.new_position then commit_move b m else some (b, none))
    ])
    else some (b, none)

-- Board::IsLastMoveCheck.
unfoldable pub is_last_move_check : Board → Option Bool
is_last_move_check b = is_king_being_checked b b.next_color
