-- ===== src/Referee/Board.antt =====
-- The class Board of server/hoxReferee.cpp: its state, and the operations that place, move and
-- capture pieces. A `Piece*` is an address, a number; `info` is the heap of the pieces, and the
-- addresses are those of _CreateNewGame in the order of its calls. A cell's own copy of its
-- position, which nothing reads, is left out. hoxCHECK_RET logs and returns.
use hox_server.Prelude.{ℕ, ◌==◌, Bool, false, not, ◌&&◌, if◌then◌else◌, is_some}
use hox_server.Prelude.{Option, none, some, List, [], ◌∷◌, ◌++◌, contains, remove}
use hox_server.Move.{Color, Position, PieceInfo, Move, eqb_position, is_valid}

pub record Board : Type 0 where
  pub info : ℕ → PieceInfo
  pub pieces : List ℕ
  pub dead_pieces : List ℕ
  pub cells : Position → Option ℕ
  pub next_color : Color

abbrev pub position_of : Board → ℕ → Position
position_of b i = (b.info i).position

-- The stores `m_cells[x][y].pPiece = v` and `piece->SetPosition( pos )`.
abbrev pub set_cell : Board → Position → Option ℕ → Board
set_cell b p v = record b { cells = λ q. if eqb_position p q then v else b.cells q }

abbrev pub set_position : Board → ℕ → Position → Board
set_position b i p = record b {
  info = λ j. if i == j then record (b.info j) { position = p } else b.info j;
}

abbrev holds : Option ℕ → ℕ → Bool
holds none i = false
holds (some j) i = j == i

unfoldable pub set_piece : Board → ℕ → Board
set_piece b i =
    let p = position_of b i in
    if is_valid p && not (is_some (b.cells p)) then set_cell b p (some i) else b

unfoldable pub unset_piece : Board → ℕ → Board
unset_piece b i =
    let p = position_of b i in if is_valid p && holds (b.cells p) i then set_cell b p none else b

-- The piece is unset first; a piece that is not active, or dead already, stays in its list.
unfoldable pub capture_piece : Board → ℕ → Board
capture_piece b i =
    let c = unset_piece b i in
    if contains i c.pieces && not (contains i c.dead_pieces)
    then record c { pieces = remove i c.pieces; dead_pieces = c.dead_pieces ++ i ∷ [] }
    else c

unfoldable pub move_piece_to : Board → ℕ → Position → Board
move_piece_to b i p =
    if is_valid (position_of b i) && is_valid p
    then set_piece (set_position (unset_piece b i) i p) i
    else b

unfoldable pub get_piece_at : Board → Position → Option ℕ
get_piece_at b p = if is_valid p then b.cells p else none

unfoldable pub has_piece_at : Board → Position → Bool
has_piece_at b p = is_some (get_piece_at b p)

unfoldable pub add_piece : Board → ℕ → Board
add_piece b i = set_piece (record b { pieces = b.pieces ++ i ∷ [] }) i

unfoldable pub putback_piece : Board → ℕ → Board
putback_piece b i =
    if contains i b.dead_pieces
    then add_piece (record b { dead_pieces = remove i b.dead_pieces }) i
    else b

-- A null piece is only reported: _CapturePiece is not called, and _MovePieceTo returns at once.
abbrev pub capture_at : Board → Option ℕ → Board
capture_at b none = b
capture_at b (some i) = capture_piece b i

abbrev pub move_at : Board → Option ℕ → Position → Board
move_at b none p = b
move_at b (some i) p = move_piece_to b i p

-- The board after the move; the captured piece is what stood at the new position before.
unfoldable pub record_move : Board → Move → Board
record_move b m =
    let c = capture_at b (get_piece_at b m.new_position) in
    move_at c (get_piece_at c m.piece.position) m.new_position

unfoldable pub uncapture : Board → Position → Option ℕ → Board
uncapture b p none = b
uncapture b p (some i) = putback_piece (set_position b i p) i

-- The first two tests return before the captured piece is put back.
unfoldable pub undo_move : Board → Move → Option ℕ → Board
unfolding uncapture
undo_move b m captured = elim (get_piece_at b m.new_position) [
  | none ↦ b
  | some i ↦
      if eqb_position (position_of b i) m.new_position
      then uncapture (move_piece_to b i m.piece.position) m.new_position captured
      else b
]
