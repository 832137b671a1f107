-- ===== src/Referee/Undo.antt =====
-- Recording a move and taking it back: _RecordMove and _UndoMove of server/hoxReferee.cpp.
use hox_server.Prelude.{
  ℕ, ◌≡◌, refl, sym, ◌∙◌, ap, fun_ext, arith, ◌≢◌, ◌==◌, ==→≡, ==_refl, true, false,
}
use hox_server.Prelude.{if◌then◌else◌, Option, none, some, List, [], ◌∷◌, ◌++◌, contains, remove}
use hox_server.Prelude.{contains-append, Bool-cases, Option-cases, inl, inr}
use hox_server.Move.{Position, Move, eqb_position, is_valid, eqb_position→≡, eqb_position_refl}
use hox_server.Referee.Board.{
  Board, position_of, set_position, move_piece_to, get_piece_at, add_piece, putback_piece,
  record_move, undo_move, uncapture,
}
use hox_server.Referee.WellFormed.{
  IsWellFormed, taken, moved, set_piece-eq, capture_piece-eq, move_piece_to-eq, taken-IsWellFormed,
  moved-IsWellFormed,
}

-- A piece that is taken and put back goes to the end of the list.
abbrev pub to_back : Option ℕ → List ℕ → List ℕ
to_back none xs = xs
to_back (some j) xs = remove j xs ++ j ∷ []

abbrev pub rotated : Board → Option ℕ → Board
rotated b o = record b { pieces = to_back o b.pieces }

remove-absent : (j : ℕ) (xs : List ℕ) → contains j xs ≡ false → remove j xs ≡ xs
unfolding contains remove
remove-absent j [] h = refl
remove-absent j (x ∷ xs) h = ground (arith, remove-absent j xs)

remove-append_last : (j : ℕ) (xs : List ℕ) → contains j xs ≡ false → remove j (xs ++ j ∷ []) ≡ xs
unfolding contains remove
remove-append_last j [] h = ground arith
remove-append_last j (x ∷ xs) h = ground (arith, remove-append_last j xs)

pub get_piece_at-IsValid :
    (b : Board) (p : Position) (i : ℕ)
    → get_piece_at b p ≡ some i
    → (is_valid p ≡ true) × (b.cells p ≡ some i)
unfolding get_piece_at
get_piece_at-IsValid b p i e = ground arith

-- Moving a piece to a free cell and back restores the board.
moved_back :
    (b : Board) (i : ℕ) (p : Position)
    → IsWellFormed b
    → contains i b.pieces ≡ true
    → b.cells p ≡ none
    → moved (moved b i p) i (position_of b i) ≡ b
moved_back b i p w active free = λ k. record {
  info =
      fun_ext {f = (moved (moved b i p) i (position_of b i)).info} {g = b.info}
        (λ j. ground (arith, ==→≡ i j)) k;
  pieces = b.pieces;
  dead_pieces = b.dead_pieces;
  cells =
      fun_ext {f = (moved (moved b i p) i (position_of b i)).cells} {g = b.cells}
        (λ q.
          ground (arith, eqb_position→≡ p q, eqb_position→≡ (position_of b i) q, w.placed i active))
        k;
  next_color = b.next_color;
}

-- A move that stays on the board, quiet or a capture of a piece other than the moving one.
module _ (b : Board) (w : IsWellFormed b) (i : ℕ) (from p : Position)
    (here : get_piece_at b from ≡ some i) (v : is_valid p ≡ true) where
  active : contains i b.pieces ≡ true
  active = w.listed from i (get_piece_at-IsValid b from i here).1

  pub move_at-quiet : b.cells p ≡ none → move_piece_to b i p ≡ moved b i p
  move_at-quiet free = move_piece_to-eq b w i active p v free

  pub move_back-quiet : b.cells p ≡ none → move_piece_to (moved b i p) i from ≡ b
  move_back-quiet free =
      let start = w.positioned from i (get_piece_at-IsValid b from i here).1 in
      move_piece_to-eq (moved b i p) (moved-IsWellFormed b i p w active v free) i active from
        (get_piece_at-IsValid b from i here).0
        (ground (
          arith,
          eqb_position→≡ p from,
          eqb_position_refl (position_of b i),
          get_piece_at-IsValid b from i here,
        ))
      ∙ (ap (moved (moved b i p) i) (sym start) ∙ moved_back b i p w active free)

-- What _RecordMove does with a piece that stands at the move's origin.
module _ (b : Board) (w : IsWellFormed b) (m : Move) (i : ℕ)
    (here : get_piece_at b m.piece.position ≡ some i) where
  open m use {new_position as to}

  pub record_move-off : is_valid to ≡ false → record_move b m ≡ b
  unfolding record_move get_piece_at move_piece_to
  record_move-off off = ground arith

  pub record_move-quiet : is_valid to ≡ true → b.cells to ≡ none → record_move b m ≡ moved b i to
  unfolding record_move
  record_move-quiet v free =
      let nobody : get_piece_at b to ≡ none = unfold get_piece_at in (rw v free) in
      rw (nobody, here) (move_at-quiet b w i m.piece.position to here v free)

  module _ (j : ℕ) (there : get_piece_at b to ≡ some j) (other : (j == i) ≡ false) where
    pub victim : contains j b.pieces ≡ true
    victim = w.listed to j (get_piece_at-IsValid b to j there).1

    pub target : position_of b j ≡ to
    target = w.positioned to j (get_piece_at-IsValid b to j there).1

    pub still_here : get_piece_at (taken b j) m.piece.position ≡ some i
    unfolding get_piece_at
    still_here = ground (arith, eqb_position→≡ (position_of b j) m.piece.position, target)

    pub vacated : (taken b j).cells to ≡ none
    vacated = rw (target, eqb_position_refl to)

    pub record_move-capture : record_move b m ≡ moved (taken b j) i to
    unfolding record_move
    record_move-capture =
        rw (there, capture_piece-eq b w j victim, still_here)
          (move_at-quiet (taken b j) (taken-IsWellFormed b j w victim) i m.piece.position to
            still_here (get_piece_at-IsValid b to j there).0 vacated)

-- The captured piece comes back to its cell, and to the end of the list of active pieces.
putback_piece-taken :
    (b : Board) (j : ℕ) (p : Position)
    → IsWellFormed b
    → contains j b.pieces ≡ true
    → position_of b j ≡ p
    → is_valid p ≡ true
    → putback_piece (set_position (taken b j) j p) j ≡ rotated b (some j)
unfolding putback_piece add_piece contains
putback_piece-taken b j p w active e v =
    rw
      (
        contains-append j b.dead_pieces (j ∷ []),
        ==_refl j,
        w.separate j active,
        remove-append_last j b.dead_pieces (w.separate j active),
        set_piece-eq
            (record (set_position (taken b j) j p) {
              pieces = remove j b.pieces ++ j ∷ [];
              dead_pieces = b.dead_pieces;
            })
            j p (ground arith) v (rw (e, eqb_position_refl p)),
      )
      (λ k. record {
        info =
            fun_ext {f = (set_position (taken b j) j p).info} {g = b.info}
              (λ i. ground (arith, ==→≡ j i)) k;
        pieces = remove j b.pieces ++ j ∷ [];
        dead_pieces = b.dead_pieces;
        cells =
            fun_ext
              {f = λ q.
                if eqb_position p q
                then some j
                else if eqb_position (position_of b j) q
                then none
                else b.cells q}
              {g = b.cells} (λ q. ground (arith, eqb_position→≡ p q, w.placed j active)) k;
        next_color = b.next_color;
      })

module _ (m : Move) (i : ℕ) where
  open m use {new_position as to}

  undo_move-moved :
      (b : Board)
      → IsWellFormed b
      → get_piece_at b m.piece.position ≡ some i
      → is_valid to ≡ true
      → b.cells to ≡ none
      → (o : Option ℕ) → undo_move (moved b i to) m o ≡ uncapture b to o
  unfolding undo_move
  undo_move-moved b w here v free o =
      let found : get_piece_at (moved b i to) to ≡ some i =
        unfold get_piece_at in (rw (v, eqb_position_refl to)) in
      let arrived : position_of (moved b i to) i ≡ to = ground arith in
      rw (
        found,
        undo_move,
        arrived,
        eqb_position_refl to,
        move_back-quiet b w i m.piece.position to here v free,
      )

  undo_move-nowhere :
      (b : Board)
      → is_valid to ≡ false
      → undo_move b m (get_piece_at b to) ≡ rotated b (get_piece_at b to)
  unfolding undo_move get_piece_at
  undo_move-nowhere b off = ground arith

  -- On a well-formed board, with a piece at the move's origin and not the same piece at its new
  -- position, a move that is recorded and undone leaves the board as it was but for the order of
  -- the list of pieces: a captured piece stands last.
  pub undo_move-record_move :
      (b : Board)
      → IsWellFormed b
      → get_piece_at b m.piece.position ≡ some i
      → get_piece_at b to ≢ some i
      → undo_move (record_move b m) m (get_piece_at b to) ≡ rotated b (get_piece_at b to)
  unfolding uncapture
  undo_move-record_move b w here apart = elim (Bool-cases (is_valid to)) [
    | inl v ↦ elim (Option-cases (b.cells to)) [
      | inl free ↦
          let nobody : get_piece_at b to ≡ none = unfold get_piece_at in (rw v free) in
          rw (nobody, record_move-quiet b w m i here v free) (undo_move-moved b w here v free none)
      | inr (j, hit) ↦
          let there : get_piece_at b to ≡ some j = unfold get_piece_at in (rw v hit) in
          let other : (j == i) ≡ false = ground (arith, apart) in
          rw (there, record_move-capture b w m i here j there other)
            (undo_move-moved (taken b j)
                (taken-IsWellFormed b j w (victim b w m i here j there other))
                (still_here b w m i here j there other) v (vacated b w m i here j there other)
                (some j)
              ∙ putback_piece-taken b j to w (victim b w m i here j there other)
                  (target b w m i here j there other) v)
    ]
    | inr off ↦ rw (record_move-off b w m i here off) (undo_move-nowhere b off)
  ]
