-- ===== src/Referee/Facing.antt =====
-- _IsKingFaceKing of server/hoxReferee.cpp against the rule that it stands for: two kings face one
-- another in a column with no piece in between.
use hox_server.Prelude.{ℕ, ◌≡◌, refl, ◌∙◌, arith, ◌==◌, Bool, true, false, not, ◌&&◌, ◌||◌, ltb_ℤ}
use hox_server.Prelude.{
  some, contains, any, of_any-eq_false, Bool-cases, inl, inr, and_left, and_right, ==→≡, ◌⊎◌,
}
use hox_server.Move.{red, black}
use hox_server.Referee.Board.{Board, position_of}
use hox_server.Referee.Rules.{same_column, hides, is_king_face_king}
use hox_server.Referee.Kings.{IsKing, facing, is_king_face_king-eq}

-- The piece i stands between the kings: in their column, below one and above the other.
abbrev pub is_above : Board → ℕ → ℕ → Bool
is_above b i j = ltb_ℤ (position_of b i).y (position_of b j).y

unfoldable pub in_between : Board → ℕ → ℕ → ℕ → Bool
in_between b kb kr i =
    same_column b i kr && (is_above b kb i && is_above b i kr || is_above b kr i && is_above b i kb)

pub record Face (b : Board) (kb kr : ℕ) : Type 0 where
  pub column : same_column b kb kr ≡ true
  pub free : (i : ℕ) → contains i b.pieces ≡ true → in_between b kb kr i ≡ false

module _ (b : Board) (kb kr : ℕ) (hb : IsKing b black kb) (hr : IsKing b red kr) where
  not_itself : (i k : ℕ) (h : (k ≡ kb) ⊎ (k ≡ kr)) → in_between b kb kr i ≡ true → (i == k) ≡ false
  unfolding in_between
  not_itself i k h e = elim (Bool-cases (i == k)) [
    | inr other ↦ other
    | inl same ↦ absurd (between_irrefl k h (rw (==→≡ i k same) at e))
  ]
    where
      between_irrefl : (k : ℕ) → (k ≡ kb) ⊎ (k ≡ kr) → in_between b kb kr k ≡ true → ⊥
      between_irrefl k (inl q) e =
          let e' : in_between b kb kr kb ≡ true = rw q at e in ground (arith, e')
      between_irrefl k (inr q) e =
          let e' : in_between b kb kr kr ≡ true = rw q at e in ground (arith, e')

  in_between-hides : (i : ℕ) → in_between b kb kr i ≡ true → hides b kb kr i ≡ true
  unfolding in_between hides
  in_between-hides i h =
      rw (not_itself i kb (inl refl) h, not_itself i kr (inr refl) h) (and_left _ _ h)

  -- With one king of each side on the board: if the code says that the kings face one another, they
  -- do.
  pub is_king_face_king-Face : is_king_face_king b ≡ some true → Face b kb kr
  is_king_face_king-Face h = record {
    column = and_left (same_column b kb kr) (not (any (hides b kb kr) b.pieces)) faced;
    free = λ i active. elim (Bool-cases (in_between b kb kr i)) [
      | inr out ↦ out
      | inl e ↦ cc (in_between-hides i e, of_any-eq_false (hides b kb kr) b.pieces i no_one active)
    ];
  }
    where
      faced : facing b kb kr hb hr ≡ true
      faced = ground (arith, is_king_face_king-eq b kb kr hb hr, h)

      no_one : any (hides b kb kr) b.pieces ≡ false
      no_one =
          ground (arith, and_right (same_column b kb kr) (not (any (hides b kb kr) b.pieces)) faced)

  -- With one king of each side on the board: a third piece of the column makes the code say that
  -- they do not, also where they do since it stands behind a king.
  pub Face-hidden :
      (i : ℕ)
      → Face b kb kr
      → contains i b.pieces ≡ true
      → (i == kb) ≡ false
      → (i == kr) ≡ false
      → same_column b i kr ≡ true
      → is_king_face_king b ≡ some false
  Face-hidden i f active other_b other_r column = elim (Bool-cases (any (hides b kb kr) b.pieces)) [
    | inl e ↦ is_king_face_king-eq b kb kr hb hr ∙ rw (f.column, e)
    | inr e ↦ cc (of_any-eq_false (hides b kb kr) b.pieces i e active, hidden)
  ]
    where
      hidden : hides b kb kr i ≡ true
      hidden = unfold hides in (rw (other_b, other_r, column))
