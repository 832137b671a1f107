-- ===== src/Referee/Sound.antt =====
-- The state of a game between two moves, and that a move of the side to move keeps both kings.
use hox_server.Prelude.{ℕ, ◌≡◌, refl, arith, ◌==◌, ==→≡, true, false}
use hox_server.Prelude.{if◌then◌else◌, none, some, contains, any, of_any-eq_false}
use hox_server.Prelude.{Bool-cases, Option-cases, inl, inr, ◌⊎◌, contains-remove, subst}
use hox_server.Move.{
  Color, red, black, Position, Move, eqb_color, eqb_color→≡, eqb_color_refl, is_valid,
}
use hox_server.Referee.Board.{Board, position_of, get_piece_at, record_move}
use hox_server.Referee.Rules.{color_of, is_valid_move, attacks, is_king_being_checked, opponent}
use hox_server.Referee.WellFormed.{
  IsWellFormed, taken, moved, taken-IsWellFormed, moved-IsWellFormed,
}
use hox_server.Referee.Undo.{
  get_piece_at-IsValid, record_move-off, record_move-quiet, record_move-capture, victim, target,
  vacated,
}
use hox_server.Referee.Kings.{IsKing, is_king_being_checked-eq}

abbrev pub king_of : ℕ → ℕ → Color → ℕ
king_of kb kr c = if eqb_color c red then kr else kb

pub record IsSound (kb kr : ℕ) (b : Board) : Type 0 where
  pub well : IsWellFormed b
  pub black_king : IsKing b black kb
  pub red_king : IsKing b red kr
  pub turn : (b.next_color ≡ red) ⊎ (b.next_color ≡ black)
  pub safe : is_king_being_checked b (opponent b.next_color) ≡ some false

IsKing-moved :
    (b : Board) (i : ℕ) (p : Position) (c : Color) (k : ℕ) → IsKing b c k → IsKing (moved b i p) c k
IsKing-moved b i p c k h = record {
  active = h.active;
  crowned = ground (arith, h.crowned);
  unique = λ j m e. h.unique j m (ground (arith, e));
}

IsKing-taken :
    (b : Board) (j : ℕ) (c : Color) (k : ℕ)
    → (j == k) ≡ false
    → IsKing b c k
    → IsKing (taken b j) c k
IsKing-taken b j c k other h = record {
  active = ground (arith, contains-remove j k b.pieces, h.active);
  crowned = h.crowned;
  unique = λ i m e. h.unique i (ground (arith, contains-remove j i b.pieces, m)) e;
}

-- What holds of the board after any record of a valid move.
pub record Keeps (kb kr : ℕ) (c : Board) : Type 0 where
  pub well : IsWellFormed c
  pub black_king : IsKing c black kb
  pub red_king : IsKing c red kr

module _ (kb kr : ℕ) (b : Board) (s : IsSound kb kr b) where
  -- No valid move of the side to move ends at the cell of the other king.
  pub safe-king :
      (i : ℕ) (c : Color) (k : ℕ)
      → IsKing b c k
      → opponent b.next_color ≡ c
      → contains i b.pieces ≡ true
      → eqb_color (color_of b i) c ≡ false
      → is_valid_move b i (position_of b k) ≡ false
  unfolding attacks
  safe-king i c k h e active enemy =
      let unchecked : is_king_being_checked b c ≡ some false =
        subst (λ d. is_king_being_checked b d ≡ some false) e s.safe in
      let none_attacks : any (attacks b c (position_of b k)) b.pieces ≡ false =
        ground (arith, unchecked, is_king_being_checked-eq b c k h) in
      let quiet = of_any-eq_false (attacks b c (position_of b k)) b.pieces i none_attacks active in
      ground (arith, quiet, enemy)

  module _ (m : Move) (i : ℕ) (here : get_piece_at b m.piece.position ≡ some i)
      (mine : color_of b i ≡ b.next_color) (valid : is_valid_move b i m.new_position ≡ true) where
    mover : contains i b.pieces ≡ true
    mover = s.well.listed m.piece.position i (get_piece_at-IsValid b m.piece.position i here).1

    pub victim-ne :
        (j : ℕ)
        → get_piece_at b m.new_position ≡ some j
        → eqb_color (color_of b j) (color_of b i) ≡ false
    unfolding is_valid_move
    victim-ne j there = ground (arith, there, valid)

    victim-ne_king :
        (j k : ℕ) (c : Color)
        → get_piece_at b m.new_position ≡ some j
        → IsKing b c k
        → ((c ≡ b.next_color) ⊎ (opponent b.next_color ≡ c))
        → (j == k) ≡ false
    victim-ne_king j k c there h (inl own) = ground (
      arith,
      victim-ne j there,
      ==→≡ j k,
      h.crowned,
      mine,
      own,
      eqb_color→≡ (color_of b k) c,
      eqb_color_refl c,
    )
    victim-ne_king j k c there h (inr other) = ground (
      arith,
      ==→≡ j k,
      target b s.well m i here j there
          (ground (arith, victim-ne j there, ==→≡ j i, eqb_color_refl (color_of b i))),
      valid,
      safe-king i c k h other mover (ground (arith, mine, other, s.turn)),
    )

    black_side : (black ≡ b.next_color) ⊎ (opponent b.next_color ≡ black)
    black_side = ground (arith, s.turn)

    red_side : (red ≡ b.next_color) ⊎ (opponent b.next_color ≡ red)
    red_side = ground (arith, s.turn)

    abbrev KeepsAll : Board → Type 0
    KeepsAll c = Keeps kb kr c × (c.next_color ≡ b.next_color)

    moved-Keeps :
        (c : Board) (p : Position)
        → Keeps kb kr c
        → contains i c.pieces ≡ true
        → is_valid p ≡ true
        → c.cells p ≡ none
        → Keeps kb kr (moved c i p)
    moved-Keeps c p k active v free = record {
      well = moved-IsWellFormed c i p k.well active v free;
      black_king = IsKing-moved c i p black kb k.black_king;
      red_king = IsKing-moved c i p red kr k.red_king;
    }

    -- Recording a valid move of the side to move keeps the board well-formed, both kings on it, and
    -- the turn.
    pub record_move-Keeps : KeepsAll (record_move b m)
    record_move-Keeps = elim (Bool-cases (is_valid m.new_position)) [
      | inr off ↦ rw (record_move-off b s.well m i here off) (now, refl)
      | inl v ↦ elim (Option-cases (get_piece_at b m.new_position)) [
        | inl nobody ↦
            let free : b.cells m.new_position ≡ none =
              unfold get_piece_at in (ground (arith, nobody, v)) in
            rw (record_move-quiet b s.well m i here v free)
              (moved-Keeps b m.new_position now mover v free, refl)
        | inr (j, there) ↦
            let other : (j == i) ≡ false =
              ground (arith, victim-ne j there, ==→≡ j i, eqb_color_refl (color_of b i)) in
            let killed = victim b s.well m i here j there other in
            rw (record_move-capture b s.well m i here j there other) (
              moved-Keeps (taken b j) m.new_position
                  (record {
                    well = taken-IsWellFormed b j s.well killed;
                    black_king =
                        IsKing-taken b j black kb
                          (victim-ne_king j kb black there s.black_king black_side) s.black_king;
                    red_king =
                        IsKing-taken b j red kr (victim-ne_king j kr red there s.red_king red_side)
                          s.red_king;
                  })
                  (ground (arith, contains-remove j i b.pieces, mover)) v
                  (vacated b s.well m i here j there other),
              refl,
            )
      ]
    ]
      where
        now : Keeps kb kr b
        now = record { well = s.well; black_king = s.black_king; red_king = s.red_king }
