-- ===== src/Referee/WellFormed.antt =====
-- The cells and the lists of pieces of a board agree, and what the operations of Referee/Board do
-- to a board where they do.
use hox_server.Prelude.{ℕ, ◌≡◌, arith, ◌==◌, ==→≡, ==_refl, true, false}
use hox_server.Prelude.{none, some, [], ◌∷◌, ◌++◌, contains, remove, nodup, nodup-remove}
use hox_server.Prelude.{contains-remove, contains-append}
use hox_server.Move.{Position, is_valid, eqb_position→≡, eqb_position_refl}
use hox_server.Referee.Board.{
  Board, position_of, set_cell, set_position, set_piece, unset_piece, capture_piece, move_piece_to,
}

pub record IsWellFormed (b : Board) : Type 0 where
  pub on_board : (i : ℕ) → contains i b.pieces ≡ true → is_valid (position_of b i) ≡ true
  pub placed : (i : ℕ) → contains i b.pieces ≡ true → b.cells (position_of b i) ≡ some i
  pub listed : (p : Position) (i : ℕ) → b.cells p ≡ some i → contains i b.pieces ≡ true
  pub positioned : (p : Position) (i : ℕ) → b.cells p ≡ some i → position_of b i ≡ p
  pub distinct : nodup b.pieces ≡ true
  pub separate : (i : ℕ) → contains i b.pieces ≡ true → contains i b.dead_pieces ≡ false

-- The board without the piece j, which is dead, and the board with the piece i at p.
abbrev pub taken : Board → ℕ → Board
taken b j = record (set_cell b (position_of b j) none) {
  pieces = remove j b.pieces;
  dead_pieces = b.dead_pieces ++ j ∷ [];
}

abbrev pub moved : Board → ℕ → Position → Board
moved b i p = set_cell (set_position (set_cell b (position_of b i) none) i p) p (some i)

pub set_piece-eq :
    (b : Board) (i : ℕ) (p : Position)
    → position_of b i ≡ p
    → is_valid p ≡ true
    → b.cells p ≡ none
    → set_piece b i ≡ set_cell b p (some i)
unfolding set_piece
set_piece-eq b i p e v free = rw (e, v, free)

module _ (b : Board) (w : IsWellFormed b) (i : ℕ) (active : contains i b.pieces ≡ true) where
  pub unset_piece-eq : unset_piece b i ≡ set_cell b (position_of b i) none
  unfolding unset_piece
  unset_piece-eq = rw (w.on_board i active, w.placed i active, ==_refl i)

  pub capture_piece-eq : capture_piece b i ≡ taken b i
  unfolding capture_piece
  capture_piece-eq = rw (unset_piece-eq, active, w.separate i active)

  pub move_piece_to-eq :
      (p : Position) → is_valid p ≡ true → b.cells p ≡ none → move_piece_to b i p ≡ moved b i p
  unfolding move_piece_to
  move_piece_to-eq p v free = rw (
    w.on_board i active,
    v,
    unset_piece-eq,
    set_piece-eq (set_position (set_cell b (position_of b i) none) i p) i p (ground arith) v
        (ground arith),
  )

-- A well-formed board without one of its pieces, or with one of them at a free cell, is well-formed.
pub taken-IsWellFormed :
    (b : Board) (j : ℕ) → IsWellFormed b → contains j b.pieces ≡ true → IsWellFormed (taken b j)
unfolding contains
taken-IsWellFormed b j w active = record {
  on_board = λ i h. w.on_board i (stays i h).1;
  placed = λ i h. ground (
    arith,
    w.placed i (stays i h).1,
    w.placed j active,
    (stays i h).0,
    eqb_position→≡ (position_of b j) (position_of b i),
  );
  listed = λ p i h. ground (
    arith,
    contains-remove j i b.pieces,
    w.listed p i,
    w.positioned p i,
    ==→≡ j i,
    eqb_position_refl (position_of b j),
  );
  positioned = λ p i h. ground (arith, w.positioned p i);
  distinct = nodup-remove j b.pieces w.distinct;
  separate = λ i h.
      ground (
        arith,
        contains-append i b.dead_pieces (j ∷ []),
        w.separate i (stays i h).1,
        (stays i h).0,
      );
}
  where
    stays :
        (i : ℕ)
        → contains i (remove j b.pieces) ≡ true
        → ((j == i) ≡ false) × (contains i b.pieces ≡ true)
    stays i h = ground (arith, contains-remove j i b.pieces)

pub moved-IsWellFormed :
    (b : Board) (i : ℕ) (p : Position)
    → IsWellFormed b
    → contains i b.pieces ≡ true
    → is_valid p ≡ true
    → b.cells p ≡ none
    → IsWellFormed (moved b i p)
moved-IsWellFormed b i p w active v free = record {
  on_board = λ j h. ground (arith, w.on_board j h);
  placed = λ j h. ground (
    arith,
    w.placed j h,
    w.placed i active,
    eqb_position_refl p,
    eqb_position→≡ (position_of b i) (position_of b j),
    eqb_position→≡ p (position_of b j),
  );
  listed = λ q j h. ground (arith, w.listed q j);
  positioned = λ q j h.
      ground (arith, w.positioned q j, eqb_position→≡ p q, eqb_position_refl (position_of b i));
  distinct = w.distinct;
  separate = w.separate;
}
