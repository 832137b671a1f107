-- ===== src/Tests/Referee.antt =====
-- The theorems on server/hoxReferee.cpp at the new game and at small boards.
use hox_server.Prelude.{
  ℕ, ◌≡◌, ◌⊎◌, refl, sym, ◌∙◌, Bool, true, false, some, List, [], ◌∷◌, ◌++◌, any, contains,
  of_any-eq_false,
}
use hox_server.Prelude.{ℤ, ◌+ℤ◌, ◌-ℤ◌}
use hox_server.Move.{
  red, black, Position, PieceInfo, king, advisor, horse, GameStatus, Move, eqb_position, is_valid,
  is_inside_palace, is_inside_country,
}
use hox_server.Referee.Board.{
  Board, get_piece_at, has_piece_at, record_move, undo_move, add_piece, set_piece, capture_piece,
  move_piece_to, unset_piece,
}
use hox_server.Referee.Pieces
use hox_server.Referee.Rules.{
  validate_move, does_next_move_exist, is_valid_move, is_exposed, is_king_being_checked,
  is_king_face_king, get_king, find_king, attacks, hides, same_column, Verdict, opponent, color_of,
  simulation_is_valid_move,
}
use hox_server.Referee.Game.{
  reset_game, new_board, new_pieces, empty_board, side, piece, string_to_move, lookup_move,
  coordinate,
}
use hox_server.Referee.Reorder.{reordered}
use hox_server.Referee.Undo.{rotated, undo_move-record_move}
use hox_server.Referee.Sound.{IsSound}
use hox_server.Referee.Legal.{Answers, move_of, simulation_is_valid_move-Answers}
use hox_server.Referee.Turned.{Turned}
use hox_server.Referee.Validate.{IsHonest, Playable, Accepts, Rejects, validate_move-cases}
use hox_server.Referee.Setup.{reset_game-IsSound, reset_game-IsWellFormed, alone, alone-IsKing}
use hox_server.Referee.Games.{Plays, start, Plays-returns, Plays-IsSound, string_to_move-IsHonest}
use hox_server.Referee.Geometry.{potential_next_positions_complete}
use hox_server.Referee.Endgame.{does_next_move_exist-Playable, off_board_pass}
use hox_server.Referee.Kings.{IsKing}
use hox_server.Referee.Facing.{Face, in_between, is_king_face_king-Face, Face-hidden}

-- The cannon to the center; the horse off the board.
abbrev cannon_move : List ℕ
cannon_move = b'7' ∷ b'7' ∷ b'4' ∷ b'7' ∷ []

abbrev off_move : List ℕ
off_move = b'1' ∷ b'9' ∷ b'2' ∷ b';' ∷ []

abbrev moved_cannon : Move
moved_cannon = string_to_move reset_game cannon_move

abbrev moved_off : Move
moved_off = string_to_move reset_game off_move

cannon-IsHonest : IsHonest reset_game moved_cannon
cannon-IsHonest = string_to_move-IsHonest reset_game reset_game-IsWellFormed cannon_move

validate_move-cases_example :
    (Playable reset_game moved_cannon
      × Accepts 0 16 reset_game reset_game-IsSound moved_cannon
          (validate_move reset_game moved_cannon))
    ⊎ (¬ Playable reset_game moved_cannon
        × Rejects 0 16 reset_game reset_game-IsSound moved_cannon
            (validate_move reset_game moved_cannon))
validate_move-cases_example =
    validate_move-cases 0 16 reset_game reset_game-IsSound moved_cannon cannon-IsHonest

does_next_move_exist-Playable_example :
    (order : List ℕ) × (exists : Bool) × (does_next_move_exist reset_game
      ≡ some (reordered reset_game order, exists))
    × Turned reset_game order
    × (exists ≡ true → (m : Move) × (is_valid m.new_position ≡ true) × Playable reset_game m)
    × (exists ≡ false
        → (m : Move) → IsHonest reset_game m
        → is_valid m.new_position ≡ true
        → ¬ Playable reset_game m)
does_next_move_exist-Playable_example =
    does_next_move_exist-Playable 0 16 reset_game reset_game-IsSound

Plays-returns_example :
    (b' : Board) × (v : Verdict) × (validate_move reset_game moved_cannon ≡ some (b', v)) × Plays b'
Plays-returns_example = Plays-returns start cannon_move

abbrev center_file : Position
center_file = record { x = ℤ.pos 4; y = ℤ.pos 7 }

cannon_active : contains 25 reset_game.pieces ≡ true
unfolding reset_game contains is_valid eqb_position
cannon_active = refl

red_moves : reset_game.next_color ≡ red
unfolding reset_game new_board new_pieces side add_piece set_piece empty_board get_piece_at
    has_piece_at is_valid eqb_position string_to_move lookup_move coordinate
red_moves = refl

cannon_is_red : color_of reset_game 25 ≡ red
unfolding reset_game new_board new_pieces side add_piece set_piece empty_board get_piece_at
    has_piece_at is_valid eqb_position string_to_move lookup_move coordinate
cannon_is_red = refl

cannon_red : color_of reset_game 25 ≡ reset_game.next_color
cannon_red = cannon_is_red ∙ sym red_moves

simulation_is_valid_move-Answers_example :
    Answers reset_game 25 center_file
      (simulation_is_valid_move reset_game (move_of (reset_game.info 25) center_file))
simulation_is_valid_move-Answers_example =
    simulation_is_valid_move-Answers 0 16 reset_game reset_game-IsSound 25 cannon_active cannon_red
      center_file

-- The cannon takes the horse.
abbrev taking : Move
taking = string_to_move reset_game (b'7' ∷ b'7' ∷ b'7' ∷ b'0' ∷ [])

undo_move-record_move_example :
    undo_move (record_move reset_game taking) taking (get_piece_at reset_game taking.new_position)
    ≡ rotated reset_game (get_piece_at reset_game taking.new_position)
unfolding reset_game new_board new_pieces side add_piece set_piece empty_board get_piece_at
    has_piece_at is_valid eqb_position string_to_move lookup_move coordinate
undo_move-record_move_example =
    undo_move-record_move taking 26 reset_game reset_game-IsWellFormed refl (λ e. cc)

off_is_red : moved_off.piece.color ≡ red
unfolding reset_game new_board new_pieces side add_piece set_piece empty_board get_piece_at
    has_piece_at is_valid eqb_position string_to_move lookup_move coordinate
off_is_red = refl

pass-Playable : Playable reset_game moved_off
unfolding reset_game new_board new_pieces side add_piece set_piece empty_board get_piece_at
    has_piece_at is_valid eqb_position string_to_move lookup_move coordinate is_valid_move
    Pieces.can_move_by Pieces.king_can_move Pieces.advisor_can_move Pieces.elephant_can_move
    Pieces.chariot_can_move Pieces.horse_can_move Pieces.horse_neighbor Pieces.cannon_can_move
    Pieces.pawn_can_move Pieces.middle_positions Pieces.between Pieces.count_pieces
    Pieces.has_enemy_at is_inside_palace is_inside_country ◌+ℤ◌ ◌-ℤ◌ is_exposed
    is_king_being_checked is_king_face_king get_king find_king attacks hides record_move
    capture_piece move_piece_to unset_piece any contains
pass-Playable = record {
  turn = off_is_red ∙ sym red_moves;
  mover = 21;
  here = refl;
  valid = refl;
  safe = refl;
}

off_is_off : is_valid moved_off.new_position ≡ false
unfolding reset_game new_board new_pieces side add_piece set_piece empty_board get_piece_at
    has_piece_at is_valid eqb_position string_to_move lookup_move coordinate
off_is_off = refl

off_board_pass_example :
    (order : List ℕ) × (move : Move) × (status : GameStatus) × (validate_move reset_game moved_off
      ≡ some (
        reordered (record reset_game { next_color = opponent reset_game.next_color }) order,
        some (move, status),
      ))
off_board_pass_example =
    off_board_pass 0 16 reset_game reset_game-IsSound moved_off
      (string_to_move-IsHonest reset_game reset_game-IsWellFormed off_move) pass-Playable off_is_off

-- The kings face one another in the middle file.
abbrev two_kings : List PieceInfo
two_kings = piece black king 4 0 ∷ piece red king 4 8 ∷ []

abbrev open_file : Board
open_file = new_pieces (empty_board red) 0 two_kings

-- An advisor stands behind the red king.
abbrev hidden_file : Board
hidden_file = new_pieces (empty_board red) 0 (two_kings ++ piece red advisor 4 9 ∷ [])

black-IsKing : IsKing open_file black 0
unfolding reset_game new_board new_pieces side add_piece set_piece empty_board get_piece_at
    has_piece_at is_valid eqb_position string_to_move lookup_move coordinate alone contains any
black-IsKing = alone-IsKing open_file black 0 refl refl refl

red-IsKing : IsKing open_file red 1
unfolding reset_game new_board new_pieces side add_piece set_piece empty_board get_piece_at
    has_piece_at is_valid eqb_position string_to_move lookup_move coordinate alone contains any
red-IsKing = alone-IsKing open_file red 1 refl refl refl

they_face : is_king_face_king open_file ≡ some true
unfolding reset_game new_board new_pieces side add_piece set_piece empty_board get_piece_at
    has_piece_at is_valid eqb_position string_to_move lookup_move coordinate alone contains any
    is_king_face_king get_king find_king hides
they_face = refl

is_king_face_king-Face_example : Face open_file 0 1
is_king_face_king-Face_example =
    is_king_face_king-Face open_file 0 1 black-IsKing red-IsKing they_face

hidden_black : IsKing hidden_file black 0
unfolding reset_game new_board new_pieces side add_piece set_piece empty_board get_piece_at
    has_piece_at is_valid eqb_position string_to_move lookup_move coordinate alone contains any
hidden_black = alone-IsKing hidden_file black 0 refl refl refl

hidden_red : IsKing hidden_file red 1
unfolding reset_game new_board new_pieces side add_piece set_piece empty_board get_piece_at
    has_piece_at is_valid eqb_position string_to_move lookup_move coordinate alone contains any
hidden_red = alone-IsKing hidden_file red 1 refl refl refl

hidden-Face : Face hidden_file 0 1
unfolding reset_game new_board new_pieces side add_piece set_piece empty_board get_piece_at
    has_piece_at is_valid eqb_position string_to_move lookup_move coordinate in_between any
hidden-Face = record {
  column = refl;
  free = λ i h. of_any-eq_false (in_between hidden_file 0 1) hidden_file.pieces i refl h;
}

advisor_active : contains 2 hidden_file.pieces ≡ true
unfolding reset_game new_board new_pieces side add_piece set_piece empty_board get_piece_at
    has_piece_at is_valid eqb_position string_to_move lookup_move coordinate contains
advisor_active = refl

advisor_column : same_column hidden_file 2 1 ≡ true
unfolding reset_game new_board new_pieces side add_piece set_piece empty_board get_piece_at
    has_piece_at is_valid eqb_position string_to_move lookup_move coordinate
advisor_column = refl

Face-hidden_example : is_king_face_king hidden_file ≡ some false
Face-hidden_example =
    Face-hidden hidden_file 0 1 hidden_black hidden_red 2 hidden-Face advisor_active refl refl
      advisor_column

-- The horse of the new game at (1, 9), to (2, 7).
abbrev horse_info : PieceInfo
horse_info = piece red horse 1 9

abbrev horse_target : Position
horse_target = record { x = ℤ.pos 2; y = ℤ.pos 7 }

horse_moves : Pieces.can_move_by horse reset_game horse_info horse_target ≡ true
unfolding reset_game new_board new_pieces side add_piece set_piece empty_board get_piece_at
    has_piece_at is_valid eqb_position string_to_move lookup_move coordinate is_valid_move
    Pieces.can_move_by Pieces.king_can_move Pieces.advisor_can_move Pieces.elephant_can_move
    Pieces.chariot_can_move Pieces.horse_can_move Pieces.horse_neighbor Pieces.cannon_can_move
    Pieces.pawn_can_move Pieces.middle_positions Pieces.between Pieces.count_pieces
    Pieces.has_enemy_at is_inside_palace is_inside_country ◌+ℤ◌ ◌-ℤ◌ is_exposed
    is_king_being_checked is_king_face_king get_king find_king attacks hides record_move
    capture_piece move_piece_to unset_piece any contains
horse_moves = refl

potential_next_positions_complete_example :
    any (eqb_position horse_target) (Pieces.potential_next_positions horse horse_info.position)
    ≡ true
unfolding is_valid
potential_next_positions_complete_example =
    potential_next_positions_complete horse reset_game horse_info horse_target horse_moves refl

Plays-IsSound_example : IsSound 0 16 reset_game
Plays-IsSound_example = Plays-IsSound start
