-- ===== src/Referee/Setup.antt =====
-- The new game of server/hoxReferee.cpp is sound: every piece is created at a free cell.
use hox_server.Prelude.{ℕ, suc, ◌≡◌, refl, arith, ◌==◌, ==→≡, Bool, true, false, not, ◌&&◌}
use hox_server.Prelude.{
  if◌then◌else◌, is_some, some, List, [], ◌∷◌, ◌++◌, contains, nodup, any, of_any-eq_false,
  contains-append,
}
use hox_server.Prelude.{inl, ◌⊎◌}
use hox_server.Move.{
  Color, red, black, PieceInfo, is_valid, is_inside_palace, is_inside_country, eqb_position,
  eqb_position→≡, eqb_position_refl,
}
use hox_server.Referee.Board.{Board, position_of, add_piece, get_piece_at, has_piece_at}
use hox_server.Prelude.{◌+ℤ◌, ◌-ℤ◌}
use hox_server.Referee.Pieces.{
  can_move_by, king_can_move, advisor_can_move, elephant_can_move, chariot_can_move, horse_can_move,
  horse_neighbor, cannon_can_move, pawn_can_move, middle_positions, between, count_pieces,
  has_enemy_at,
}
use hox_server.Referee.Rules.{is_king_of, is_king_being_checked, get_king, attacks, is_valid_move}
use hox_server.Referee.Game.{empty_board, side, new_pieces, new_board, reset_game}
use hox_server.Referee.WellFormed.{IsWellFormed, set_piece-eq}
use hox_server.Referee.Kings.{IsKing}
use hox_server.Referee.Sound.{IsSound}

-- The piece p can be created at the address n.
fits : Board → ℕ → PieceInfo → Bool
fits b n p =
    not (contains n b.pieces)
    && not (contains n b.dead_pieces)
    && is_valid p.position
    && not (is_some (b.cells p.position))

all_fit : Board → ℕ → List PieceInfo → Bool
all_fit b n [] = true
all_fit b n (p ∷ ps) =
    let b' = record b { info = λ i. if n == i then p else b.info i } in
    fits b n p && all_fit (add_piece b' n) (suc n) ps

abbrev created : Board → ℕ → PieceInfo → Board
created b n p = add_piece (record b { info = λ i. if n == i then p else b.info i }) n

nodup-snoc :
    (n : ℕ) (xs : List ℕ) → nodup xs ≡ true → contains n xs ≡ false → nodup (xs ++ n ∷ []) ≡ true
unfolding nodup contains
nodup-snoc n [] h k = refl
nodup-snoc n (x ∷ xs) h k =
    ground (arith, nodup-snoc n xs, contains-append x xs (n ∷ []), ==→≡ x n, ==→≡ n x)

created-IsWellFormed :
    (b : Board) (n : ℕ) (p : PieceInfo)
    → IsWellFormed b
    → fits b n p ≡ true
    → IsWellFormed (created b n p)
unfolding fits add_piece contains
created-IsWellFormed b n p w f =
    rw
      (set_piece-eq
        (record b { info = λ i. if n == i then p else b.info i; pieces = b.pieces ++ n ∷ [] }) n
        p.position (ground arith) (ground (arith, f)) (ground (arith, f)))
      (record {
        on_board = λ i h. ground (arith, f, here i h, w.on_board i);
        placed = λ i h. ground (
          arith,
          f,
          here i h,
          w.placed i,
          ==→≡ n i,
          eqb_position_refl p.position,
          eqb_position→≡ p.position (position_of b i),
        );
        listed = λ q i h. ground (arith, f, w.listed q i, contains-append i b.pieces (n ∷ []));
        positioned = λ q i h.
            ground
              (arith, f, w.positioned q i, w.listed q i, eqb_position→≡ p.position q, ==→≡ n i);
        distinct = nodup-snoc n b.pieces w.distinct (ground (arith, f));
        separate = λ i h. ground (arith, f, here i h, w.separate i, ==→≡ n i, ==→≡ i n);
      })
  where
    here : (i : ℕ) → contains i (b.pieces ++ n ∷ []) ≡ true → (contains i b.pieces ≡ true) ⊎ (i ≡ n)
    here i h = ground (arith, contains-append i b.pieces (n ∷ []), ==→≡ i n)

new_pieces-IsWellFormed :
    (b : Board) (n : ℕ) (ps : List PieceInfo)
    → IsWellFormed b
    → all_fit b n ps ≡ true
    → IsWellFormed (new_pieces b n ps)
unfolding all_fit new_pieces
new_pieces-IsWellFormed b n [] w f = w
new_pieces-IsWellFormed b n (p ∷ ps) w f =
    new_pieces-IsWellFormed (created b n p) (suc n) ps
      (created-IsWellFormed b n p w (ground (arith, f))) (ground (arith, f))

empty_board-IsWellFormed : (c : Color) → IsWellFormed (empty_board c)
unfolding empty_board contains nodup
empty_board-IsWellFormed c = record {
  on_board = λ i h. cc;
  placed = λ i h. cc;
  listed = λ q i h. cc;
  positioned = λ q i h. cc;
  distinct = refl;
  separate = λ i h. refl;
}

new_board-fits : (c : Color) → all_fit (empty_board c) 0 (side black 0 2 3 ++ side red 9 7 6) ≡ true
unfolding all_fit fits new_board contains is_valid eqb_position
new_board-fits c = refl

pub reset_game-IsWellFormed : IsWellFormed reset_game
unfolding reset_game new_board
reset_game-IsWellFormed =
    new_pieces-IsWellFormed (empty_board red) 0 _ (empty_board-IsWellFormed red)
      (new_board-fits red)

-- A king that is alone of its color and type in the list.
unfoldable pub alone : Board → Color → ℕ → Bool
alone b c k = not (any (λ i. is_king_of b c i && not (i == k)) b.pieces)

pub alone-IsKing :
    (b : Board) (c : Color) (k : ℕ)
    → contains k b.pieces ≡ true
    → is_king_of b c k ≡ true
    → alone b c k ≡ true
    → IsKing b c k
unfolding alone
alone-IsKing b c k active crowned a = record {
  active = active;
  crowned = crowned;
  unique = λ i m e. ground (
    arith,
    of_any-eq_false (λ j. is_king_of b c j && not (j == k)) b.pieces i (ground (arith, a)) m,
    e,
    ==→≡ i k,
  );
}

reset_game-unchecked : is_king_being_checked reset_game black ≡ some false
unfolding reset_game is_king_being_checked get_king attacks is_valid_move any eqb_position is_valid
    get_piece_at has_piece_at can_move_by king_can_move advisor_can_move elephant_can_move
    chariot_can_move horse_can_move horse_neighbor cannon_can_move pawn_can_move middle_positions
    between count_pieces has_enemy_at is_inside_palace is_inside_country ◌+ℤ◌ ◌-ℤ◌
reset_game-unchecked = refl

-- The new game is sound, with the black king at the address 0 and the red king at the address 16.
pub reset_game-IsSound : IsSound 0 16 reset_game
unfolding reset_game new_board is_king_being_checked get_king attacks is_valid_move alone contains
    any eqb_position is_valid
reset_game-IsSound = record {
  well = reset_game-IsWellFormed;
  black_king = alone-IsKing reset_game black 0 refl refl refl;
  red_king = alone-IsKing reset_game red 16 refl refl refl;
  turn = inl refl;
  safe = reset_game-unchecked;
}
