-- ===== src/Referee/Turned.antt =====
-- Boards that differ by simulated captures: pieces of the other side have moved to the end of the
-- list, and the side to move is listed as before.
use hox_server.Prelude.{ℕ, suc, ◌+◌, ◌≤◌, ◌≡◌, refl, ◌∙◌, arith, ==→≡, Bool, true, false}
use hox_server.Prelude.{
  if◌then◌else◌, Option, none, some, List, [], ◌∷◌, ◌++◌, contains, remove, nodup, length,
}
use hox_server.Prelude.{contains-remove, contains-append}
use hox_server.Move.{Color, eqb_color, red, black}
use hox_server.Referee.Board.{Board}
use hox_server.Referee.Rules.{color_of, after, opponent}
use hox_server.Referee.Undo.{to_back}
use hox_server.Referee.Reorder.{
  reordered, reordered-IsWellFormed, IsKing-reordered, is_king_being_checked-reordered,
}
use hox_server.Referee.Kings.{IsKing}
use hox_server.Referee.Sound.{IsSound, king_of}

module _ (p : ℕ → Bool) where
  unfoldable pub count : List ℕ → ℕ
  count [] = 0
  count (x ∷ xs) = if p x then suc (count xs) else count xs

  pub count-append : (xs ys : List ℕ) → count (xs ++ ys) ≡ count xs + count ys
  unfolding count
  count-append [] ys = omega arith
  count-append (x ∷ xs) ys = ground (arith, count-append xs ys)

  count-remove : (c : ℕ) (xs : List ℕ) → p c ≡ false → count (remove c xs) ≡ count xs
  unfolding count remove
  count-remove c [] h = refl
  count-remove c (x ∷ xs) h = ground (arith, count-remove c xs h, ==→≡ c x)

  module _ (i c : ℕ) (yes_i : p i ≡ true) (no_c : p c ≡ false) where
    count-after : (xs : List ℕ) → count (after i (remove c xs ++ c ∷ [])) ≡ count (after i xs)
    unfolding count after remove
    count-after [] = ground (arith, ==→≡ c i)
    count-after (x ∷ xs) = ground (
      arith,
      count-after xs,
      ==→≡ c x,
      ==→≡ x i,
      count-append (remove c xs) (c ∷ []),
      count-remove c xs,
    )

    contains-after :
        (j : ℕ) (xs : List ℕ)
        → p j ≡ true
        → contains j (after i (remove c xs ++ c ∷ [])) ≡ contains j (after i xs)
    unfolding contains after remove
    contains-after j [] yes_j = ground (arith, ==→≡ c i)
    contains-after j (x ∷ xs) yes_j = ground (
      arith,
      contains-after j xs,
      ==→≡ c x,
      ==→≡ x i,
      ==→≡ c j,
      ==→≡ j c,
      contains-append j (remove c xs) (c ∷ []),
      contains-remove c j xs,
    )

length-remove : (c : ℕ) (xs : List ℕ) → length (remove c xs) ≤ length xs
unfolding remove
length-remove c [] = omega arith
length-remove c (x ∷ xs) = ground (arith, length-remove c xs)

length-to_back :
    (c : ℕ) (xs : List ℕ) → contains c xs ≡ true → length (remove c xs ++ c ∷ []) ≤ length xs
unfolding remove contains
length-to_back c [] h = cc
length-to_back c (x ∷ xs) h =
    ground (arith, length-to_back c xs, length-remove c xs, length_snoc (remove c xs) c)
  where
    length_snoc : (ys : List ℕ) (a : ℕ) → length (ys ++ a ∷ []) ≡ length ys + 1
    length_snoc [] a = omega arith
    length_snoc (y ∷ ys) a = omega (arith, length_snoc ys a)

nodup-to_back : (c : ℕ) (xs : List ℕ) → nodup xs ≡ true → nodup (remove c xs ++ c ∷ []) ≡ true
unfolding remove contains nodup
nodup-to_back c [] h = refl
nodup-to_back c (x ∷ xs) h = ground (
  arith,
  nodup-to_back c xs,
  contains-append x (remove c xs) (c ∷ []),
  contains-remove c x xs,
  ==→≡ c x,
  ==→≡ x c,
)

abbrev pub is_own : Board → ℕ → Bool
is_own b i = eqb_color (color_of b i) b.next_color

contains-to_back :
    (c i : ℕ) (xs : List ℕ)
    → contains c xs ≡ true
    → contains i (remove c xs ++ c ∷ []) ≡ contains i xs
unfolding contains
contains-to_back c i xs h =
    ground
      (arith, contains-append i (remove c xs) (c ∷ []), contains-remove c i xs, ==→≡ c i, ==→≡ i c)

-- The list ys can be the list of active pieces of the board b after simulated moves.
pub record Turned (b : Board) (ys : List ℕ) : Type 0 where
  pub members : (i : ℕ) → contains i ys ≡ contains i b.pieces
  pub distinct : nodup b.pieces ≡ true → nodup ys ≡ true
  pub short : length ys ≤ length b.pieces
  pub order :
      (i j : ℕ)
      → is_own b i ≡ true
      → is_own b j ≡ true
      → contains j (after i ys) ≡ contains j (after i b.pieces)
  pub owners :
      (i : ℕ)
      → is_own b i ≡ true
      → count (is_own b) (after i ys) ≡ count (is_own b) (after i b.pieces)

pub Turned-refl : (b : Board) → Turned b b.pieces
Turned-refl b = record {
  members = λ i. refl;
  distinct = λ h. h;
  short = omega arith;
  order = λ i j p q. refl;
  owners = λ i p. refl;
}

pub Turned-trans :
    (b : Board) (ys zs : List ℕ) → Turned b ys → Turned (reordered b ys) zs → Turned b zs
Turned-trans b ys zs t u = record {
  members = λ i. u.members i ∙ t.members i;
  distinct = λ h. u.distinct (t.distinct h);
  short = omega (arith, t.short, u.short);
  order = λ i j p q. u.order i j p q ∙ t.order i j p q;
  owners = λ i p. u.owners i p ∙ t.owners i p;
}

pub Turned-to_back :
    (b : Board) (o : Option ℕ)
    → ((j : ℕ) → o ≡ some j → (contains j b.pieces ≡ true) × (is_own b j ≡ false))
    → Turned b (to_back o b.pieces)
Turned-to_back b none h = Turned-refl b
Turned-to_back b (some c) h = record {
  members = λ i. contains-to_back c i b.pieces (h c refl).0;
  distinct = nodup-to_back c b.pieces;
  short = length-to_back c b.pieces (h c refl).0;
  order = λ i j p q. contains-after (is_own b) i c p (h c refl).1 j b.pieces q;
  owners = λ i p. count-after (is_own b) i c p (h c refl).1 b.pieces;
}

pub Turned-IsSound :
    (kb kr : ℕ) (b : Board) (ys : List ℕ)
    → Turned b ys
    → IsSound kb kr b
    → IsSound kb kr (reordered b ys)
Turned-IsSound kb kr b ys t s = record {
  well = reordered-IsWellFormed b ys b.next_color t.members (t.distinct s.well.distinct) s.well;
  black_king = IsKing-reordered b ys b.next_color t.members black kb s.black_king;
  red_king = IsKing-reordered b ys b.next_color t.members red kr s.red_king;
  turn = s.turn;
  safe =
      is_king_being_checked-reordered b ys b.next_color t.members (opponent b.next_color)
        (king_of kb kr (opponent b.next_color)) (opponent_king b.next_color)
      ∙ s.safe;
}
  where
    opponent_king : (c : Color) → IsKing b (opponent c) (king_of kb kr (opponent c))
    opponent_king red = s.black_king
    opponent_king black = s.red_king
    opponent_king _ = s.red_king
