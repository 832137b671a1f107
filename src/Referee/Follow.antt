-- ===== src/Referee/Follow.antt =====
-- A move on a board whose list of pieces was turned by simulated captures is legal exactly if it is
-- legal on the board itself.
use hox_server.Prelude.{ℕ, ◌≡◌, sym, ◌∙◌, arith, ◌==◌, ==→≡, true, false}
use hox_server.Prelude.{none, some, List, contains, remove, contains-remove}
use hox_server.Prelude.{Bool-cases, Option-cases, inl, inr}
use hox_server.Move.{Position, Move, is_valid, eqb_color_refl}
use hox_server.Referee.Board.{Board, position_of, get_piece_at, record_move}
use hox_server.Referee.Rules.{color_of, is_valid_move, is_exposed}
use hox_server.Referee.WellFormed.{IsWellFormed}
use hox_server.Referee.Undo.{record_move-off, record_move-quiet, record_move-capture}
use hox_server.Referee.Reorder.{
  reordered, is_valid_move-reordered, is_exposed-reordered, reordered-IsWellFormed,
}
use hox_server.Referee.Sound.{IsSound, king_of, record_move-Keeps, victim-ne}
use hox_server.Referee.Legal.{move_of, Legal, Illegal, IsKing-of, standing, own_color}
use hox_server.Referee.Turned.{Turned}

module _ (kb kr : ℕ) (b : Board) (s : IsSound kb kr b) (ys : List ℕ) (t : Turned b ys) (i : ℕ)
    (active : contains i b.pieces ≡ true) (mine : color_of b i ≡ b.next_color) (p : Position) where
  abbrev attempt : Move
  attempt = move_of (b.info i) p

  -- The same move on the turned board leaves a board that differs in the order of the list only.
  record Follows : Type 0 where
    order : List ℕ
    follows : record_move (reordered b ys) attempt ≡ reordered (record_move b attempt) order
    members : (j : ℕ) → contains j order ≡ contains j (record_move b attempt).pieces

  record_move-Follows : is_valid_move b i p ≡ true → Follows
  record_move-Follows valid = elim (Bool-cases (is_valid p)) [
    | inr off ↦ record {
      order = ys;
      follows = rw (
        record_move-off b s.well attempt i here off,
        record_move-off (reordered b ys) well attempt i here' off,
      );
      members = λ j. rw (record_move-off b s.well attempt i here off) (t.members j);
    }
    | inl v ↦ elim (Option-cases (get_piece_at b p)) [
      | inl nobody ↦
          let free : b.cells p ≡ none = unfold get_piece_at in (ground (arith, nobody, v)) in
          record {
            order = ys;
            follows = rw (
              record_move-quiet b s.well attempt i here v free,
              record_move-quiet (reordered b ys) well attempt i here' v free,
            );
            members = λ j. rw (record_move-quiet b s.well attempt i here v free) (t.members j);
          }
      | inr (k, there) ↦
          let other : (k == i) ≡ false = ground (
            arith,
            victim-ne kb kr b s attempt i here mine valid k there,
            ==→≡ k i,
            eqb_color_refl (color_of b i),
          ) in
          let there' : get_piece_at (reordered b ys) p ≡ some k = unfold get_piece_at in there in
          record {
            order = remove k ys;
            follows = rw (
              record_move-capture b s.well attempt i here k there other,
              record_move-capture (reordered b ys) well attempt i here' k there' other,
            );
            members = λ j.
                rw (record_move-capture b s.well attempt i here k there other)
                  (rw (contains-remove k j ys, contains-remove k j b.pieces, t.members j));
          }
    ]
  ]
    where
      well : IsWellFormed (reordered b ys)
      well = reordered-IsWellFormed b ys b.next_color t.members (t.distinct s.well.distinct) s.well

      here : get_piece_at b (position_of b i) ≡ some i
      here = standing kb kr b s i active mine p

      here' : get_piece_at (reordered b ys) (position_of b i) ≡ some i
      here' = unfold get_piece_at in here

  exposed-reordered :
      is_valid_move b i p ≡ true
      → is_exposed (record_move (reordered b ys) attempt) (color_of b i)
        ≡ is_exposed (record_move b attempt) (color_of b i)
  exposed-reordered valid =
      let f = record_move-Follows valid in
      let k =
        (record_move-Keeps kb kr b s attempt i (standing kb kr b s i active mine p) mine valid).0 in
      rw f.follows (
        is_exposed-reordered (record_move b attempt) f.order (record_move b attempt).next_color
          f.members kb kr k.black_king k.red_king (color_of b i) (king_of kb kr (color_of b i))
          (IsKing-of k (color_of b i) (own_color kb kr b s i active mine p)))

  pub Legal-reordered : Legal (reordered b ys) i p → Legal b i p
  Legal-reordered (v, e) =
      let valid = sym (is_valid_move-reordered b ys b.next_color i p) ∙ v in
      (valid, sym (exposed-reordered valid) ∙ e)

  pub Illegal-reordered : Illegal (reordered b ys) i p → Illegal b i p
  Illegal-reordered (inl v) = inl (sym (is_valid_move-reordered b ys b.next_color i p) ∙ v)
  Illegal-reordered (inr e) = elim (Bool-cases (is_valid_move b i p)) [
    | inl valid ↦ inr (sym (exposed-reordered valid) ∙ e)
    | inr invalid ↦ inl invalid
  ]
