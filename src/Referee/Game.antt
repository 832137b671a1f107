-- ===== src/Referee/Game.antt =====
-- The class hoxReferee of server/hoxReferee.cpp: the new game, and moves read from text.
use hox_server.Prelude.{ℕ, suc, ◌+◌, ◌%◌, ◌==◌, ltb, if◌then◌else◌, ◌++◌}
use hox_server.Prelude.{none, some, List, [], ◌∷◌, ℤ, pos, sub_ℕ}
use hox_server.Move.{
  Color, red, black, Position, PieceInfo, PieceType, king, advisor, elephant, chariot, horse,
  cannon, pawn, Move, no_piece, no_move,
}
use hox_server.Referee.Board.{Board, add_piece, set_piece, get_piece_at}

-- Board::Board before _CreateNewGame: every cell is null. The address of a piece that was not yet
-- created holds no piece.
unfoldable pub empty_board : Color → Board
empty_board c = record {
  info = λ _. no_piece;
  pieces = [];
  dead_pieces = [];
  cells = λ _. none;
  next_color = c;
}

abbrev pub piece : Color → PieceType → ℕ → ℕ → PieceInfo
piece c t x y = record { type = t; color = c; position = record { x = pos x; y = pos y } }

-- The pieces in the order of the calls of _AddNewPiece; a side's back row, row of cannons and row
-- of pawns stand at its own heights.
unfoldable pub side : Color → ℕ → ℕ → ℕ → List PieceInfo
side c back cannons pawns =
    piece c king 4 back
    ∷ piece c advisor 3 back
    ∷ piece c advisor 5 back
    ∷ piece c elephant 2 back
    ∷ piece c elephant 6 back
    ∷ piece c horse 1 back
    ∷ piece c horse 7 back
    ∷ piece c chariot 0 back
    ∷ piece c chariot 8 back
    ∷ piece c cannon 1 cannons
    ∷ piece c cannon 7 cannons
    ∷ piece c pawn 0 pawns
    ∷ piece c pawn 2 pawns
    ∷ piece c pawn 4 pawns
    ∷ piece c pawn 6 pawns
    ∷ piece c pawn 8 pawns
    ∷ []

-- _AddNewPiece at each address in turn.
unfoldable pub new_pieces : Board → ℕ → List PieceInfo → Board
new_pieces b n [] = b
new_pieces b n (p ∷ ps) =
    let b' = record b { info = λ i. if n == i then p else b.info i } in
    new_pieces (add_piece b' n) (suc n) ps

-- Board::Board, with _CreateNewGame.
unfoldable pub new_board : Color → Board
unfolding new_pieces side add_piece set_piece empty_board
new_board c = new_pieces (empty_board c) 0 (side black 0 2 3 ++ side red 9 7 6)

-- hoxReferee::resetGame.
unfoldable pub reset_game : Board
unfolding new_board
reset_game = new_board red

-- A digit's value as the `char` that stores it: bytes are taken modulo 256 to the range -128..127.
unfoldable pub coordinate : ℕ → ℤ
coordinate c = let v = (c + 208) % 256 in if ltb v 128 then pos v else sub_ℕ v 256

-- hoxReferee::stringToMove: "xyXY". Anything but four bytes, or an empty origin, is no move.
unfoldable pub lookup_move : Board → Position → Position → Move
lookup_move b from to = elim (get_piece_at b from) [
  | none ↦ no_move
  | some i ↦ record { piece = b.info i; new_position = to; captured_piece = no_piece }
]

unfoldable pub string_to_move : Board → List ℕ → Move
unfolding lookup_move
string_to_move b (x ∷ y ∷ x' ∷ y' ∷ []) =
    lookup_move b (record { x = coordinate x; y = coordinate y })
      (record { x = coordinate x'; y = coordinate y' })
string_to_move b s = no_move
