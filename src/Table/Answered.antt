-- ===== src/Table/Answered.antt =====
-- What the referee of server/hoxReferee.cpp answers a table of server/hoxTable.cpp.
use hox_server.Prelude.{
  is_some, ℕ, ◌≡◌, ◌∙◌, ap, refl, arith, Bool, true, ◌||◌, Option, none, some, List, inl, inr,
}
use hox_server.Move.{Move, red, black}
use hox_server.Referee.Board.{Board}
use hox_server.Referee.Rules.{validate_move, is_last_move_check, is_king_being_checked, Verdict}
use hox_server.Referee.Game.{string_to_move}
use hox_server.Referee.Reorder.{reordered}
use hox_server.Referee.Turned.{Turned}
use hox_server.Referee.Kings.{is_king_being_checked-eq}
use hox_server.Referee.Games.{Plays, move, Plays-IsSound, string_to_move-IsHonest}
use hox_server.Referee.Validate.{Playable, validate_move-cases}
use hox_server.Table.State.{Text}
use hox_server.Table.Moves.{is_win}
use hox_server.Table.State.{is_in_progress}

-- In a game the referee can always tell whether the last move gave check.
pub last_move_check : {b : Board} → Plays b → (c : Bool) × (is_last_move_check b ≡ some c)
unfolding is_last_move_check
last_move_check {b} p =
    let s = Plays-IsSound p in
    elim s.turn [
      | inl e ↦ (_, ap (is_king_being_checked b) e ∙ is_king_being_checked-eq b red 16 s.red_king)
      | inr e ↦
          (_, ap (is_king_being_checked b) e ∙ is_king_being_checked-eq b black 0 s.black_king)
    ]

abbrev pub goes_on_or_won : Verdict → Bool
goes_on_or_won none = true
goes_on_or_won (some v) = is_win v.1 || is_in_progress v.1

-- It returns, with a board of a game, the same but for pieces of the other side at the end of the list if the
-- move is refused, and a game that goes on or is won.
pub record Answered (b : Board) (m : Move) (o : Option (Board × Verdict)) : Type 0 where
  pub board : Board
  pub verdict : Verdict
  pub returns : o ≡ some (board, verdict)
  pub plays : Plays board
  pub same : verdict ≡ none → (d : List ℕ) × (board ≡ reordered b d) × Turned b d
  pub playable : is_some verdict ≡ true → Playable b m
  pub status : goes_on_or_won verdict ≡ true

pub validate_move-Answered :
    {b : Board}
    → Plays b
    → (s : Text) → Answered b (string_to_move b s) (validate_move b (string_to_move b s))
validate_move-Answered {b} p s =
    let old = Plays-IsSound p in
    elim (validate_move-cases 0 16 b old (string_to_move b s)
      (string_to_move-IsHonest b old.well s)) [
        | inl (playable, a) ↦ record {
          board = _;
          verdict = _;
          returns = a.returns;
          plays = move p s a.returns;
          same = λ e. cc;
          playable = λ e. playable;
          status = ground arith;
        }
        | inr (n, r) ↦ record {
          board = _;
          verdict = _;
          returns = r.returns;
          plays = move p s r.returns;
          same = λ e. (r.order, refl, r.turned);
          playable = λ e. cc;
          status = refl;
        }
      ]
