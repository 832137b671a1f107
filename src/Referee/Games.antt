-- ===== src/Referee/Games.antt =====
-- Whole games: every board that a sequence of texts, accepted or not, leads to is sound, so that
-- the referee of server/hoxReferee.cpp always returns.
use hox_server.Prelude.{ℕ, ◌≡◌, subst, arith, Option, some, List, inl, inr, [], ◌∷◌, Option-cases}
use hox_server.Move.{Position, Move, no_move, is_valid}
use hox_server.Referee.Board.{Board, position_of, get_piece_at}
use hox_server.Referee.Rules.{Verdict, validate_move}
use hox_server.Referee.Game.{reset_game, string_to_move, lookup_move}
use hox_server.Referee.WellFormed.{IsWellFormed}
use hox_server.Referee.Undo.{get_piece_at-IsValid}
use hox_server.Referee.Sound.{IsSound}
use hox_server.Referee.Turned.{Turned-IsSound}
use hox_server.Referee.Setup.{reset_game-IsSound}
use hox_server.Referee.Validate.{IsHonest, validate_move-cases}

-- The boards that the server can have: a new game, and what a text leaves of such a board.
pub data Plays : Board → Type 0 where
  start : Plays reset_game
  move :
      {b b' : Board} {v : Verdict}
      → Plays b
      → (s : List ℕ) → validate_move b (string_to_move b s) ≡ some (b', v)
      → Plays b'

no_move-IsHonest : (b : Board) → IsHonest b no_move
unfolding get_piece_at is_valid
no_move-IsHonest b i h = cc

lookup_move-IsHonest :
    (b : Board) (w : IsWellFormed b) (from to : Position) → IsHonest b (lookup_move b from to)
unfolding lookup_move
lookup_move-IsHonest b w from to i = elim (Option-cases (get_piece_at b from)) [
  | inl nobody ↦ rw (nobody, lookup_move) (no_move-IsHonest b i)
  | inr (j, there) ↦
      let at_from : position_of b j ≡ from =
        w.positioned from j (get_piece_at-IsValid b from j there).1 in
      rw (there, lookup_move, at_from) (λ h. ground (arith, h, there))
]

-- On a well-formed board stringToMove fills in the color of the piece at the origin.
pub string_to_move-IsHonest :
    (b : Board) (w : IsWellFormed b) (s : List ℕ) → IsHonest b (string_to_move b s)
unfolding string_to_move
string_to_move-IsHonest b w [] = no_move-IsHonest b
string_to_move-IsHonest b w (x ∷ []) = no_move-IsHonest b
string_to_move-IsHonest b w (x ∷ y ∷ []) = no_move-IsHonest b
string_to_move-IsHonest b w (x ∷ y ∷ x' ∷ []) = no_move-IsHonest b
string_to_move-IsHonest b w (x ∷ y ∷ x' ∷ y' ∷ []) = lookup_move-IsHonest b w _ _
string_to_move-IsHonest b w (x ∷ y ∷ x' ∷ y' ∷ z ∷ s) = no_move-IsHonest b

-- What ValidateMove leaves of a sound board, and that it leaves one.
pub record Leaves (kb kr : ℕ) (o : Option (Board × Verdict)) : Type 0 where
  pub board : Board
  pub verdict : Verdict
  pub returns : o ≡ some (board, verdict)
  pub sound : IsSound kb kr board

pub validate_move-Leaves :
    (kb kr : ℕ) (b : Board)
    → IsSound kb kr b
    → (m : Move) → IsHonest b m
    → Leaves kb kr (validate_move b m)
validate_move-Leaves kb kr b s m honest = elim (validate_move-cases kb kr b s m honest) [
  | inl (p, a) ↦ record {
    board = _;
    verdict = _;
    returns = a.returns;
    sound = Turned-IsSound kb kr _ a.order a.turned a.sound;
  }
  | inr (n, r) ↦ record {
    board = _;
    verdict = _;
    returns = r.returns;
    sound = Turned-IsSound kb kr b r.order r.turned s;
  }
]

-- Every board of every game is sound: cells and lists of pieces agree, each side has exactly its
-- own king on the board, and the side that has just moved is not in check.
pub Plays-IsSound : {b : Board} → Plays b → IsSound 0 16 b
Plays-IsSound start = reset_game-IsSound
Plays-IsSound (move {b = b} {b' = b'} p s e) =
    let old = Plays-IsSound p in
    let l =
      validate_move-Leaves 0 16 b old (string_to_move b s) (string_to_move-IsHonest b old.well s) in
    subst (IsSound 0 16) (ground (arith, l.returns, e)) l.sound

-- In every game, whatever text comes next, the referee returns: it dereferences no missing king, its
-- loops end, and the game goes on with a board of a game.
pub Plays-returns :
    {b : Board}
    → Plays b
    → (s : List ℕ)
    → (b' : Board) × (v : Verdict) × (validate_move b (string_to_move b s) ≡ some (b', v))
      × Plays b'
Plays-returns {b} p s =
    let old = Plays-IsSound p in
    let l =
      validate_move-Leaves 0 16 b old (string_to_move b s) (string_to_move-IsHonest b old.well s) in
    (l.board, l.verdict, l.returns, move p s l.returns)
