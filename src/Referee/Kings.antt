-- ===== src/Referee/Kings.antt =====
-- Both kings on the board: then _GetKing finds them, and the tests that dereference them return.
use hox_server.Prelude.{ℕ, ◌≡◌, arith, ==→≡, Bool, true, not, ◌&&◌}
use hox_server.Prelude.{some, List, [], ◌∷◌, contains, any}
use hox_server.Move.{Color, red, black}
use hox_server.Referee.Board.{Board, position_of}
use hox_server.Referee.Rules.{
  is_king_of, find_king, get_king, attacks, is_king_being_checked, same_column, hides,
  is_king_face_king,
}

-- k is the one active king of the color.
pub record IsKing (b : Board) (c : Color) (k : ℕ) : Type 0 where
  pub active : contains k b.pieces ≡ true
  pub crowned : is_king_of b c k ≡ true
  pub unique : (i : ℕ) → contains i b.pieces ≡ true → is_king_of b c i ≡ true → i ≡ k

find_king-eq :
    (b : Board) (c : Color) (k : ℕ) (is : List ℕ)
    → contains k is ≡ true
    → is_king_of b c k ≡ true
    → ((i : ℕ) → contains i is ≡ true → is_king_of b c i ≡ true → i ≡ k)
    → find_king b c is ≡ some k
unfolding find_king contains
find_king-eq b c k [] h e u = cc
find_king-eq b c k (i ∷ is) h e u = ground (
  arith,
  u i (ground arith),
  find_king-eq b c k is,
  ==→≡ k i,
  λ (q : contains k is ≡ true). find_king-eq b c k is q e (λ j m. u j (ground (arith, m))),
)

pub get_king-eq : (b : Board) (c : Color) (k : ℕ) → IsKing b c k → get_king b c ≡ some k
unfolding get_king
get_king-eq b c k h = find_king-eq b c k b.pieces h.active h.crowned h.unique

pub is_king_being_checked-eq :
    (b : Board) (c : Color) (k : ℕ)
    → IsKing b c k
    → is_king_being_checked b c ≡ some (any (attacks b c (position_of b k)) b.pieces)
unfolding is_king_being_checked
is_king_being_checked-eq b c k h = rw (get_king-eq b c k h, is_king_being_checked)

module _ (b : Board) (kb kr : ℕ) (hb : IsKing b black kb) (hr : IsKing b red kr) where
  abbrev pub facing : Bool
  facing = same_column b kb kr && not (any (hides b kb kr) b.pieces)

  pub is_king_face_king-eq : is_king_face_king b ≡ some facing
  unfolding is_king_face_king
  is_king_face_king-eq = rw (get_king-eq b black kb hb, get_king-eq b red kr hr)
