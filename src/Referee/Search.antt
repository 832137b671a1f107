-- ===== src/Referee/Search.antt =====
-- DoesNextMoveExist of a piece and of the board: the search visits every piece of the side to move
-- and every cell that the piece may go to, and leaves the board as it was but for a turned list.
use hox_server.Prelude.{ℕ, ◌≡◌, refl, ◌∙◌, arith, Bool, true, false}
use hox_server.Prelude.{Option, some, List, [], ◌∷◌, contains, any}
use hox_server.Prelude.{Bool-cases, inl, inr, subst}
use hox_server.Move.{Position, eqb_color, eqb_position, is_valid, eqb_position_refl}
use hox_server.Referee.Board.{Board}
use hox_server.Referee.Pieces.{potential_next_positions}
use hox_server.Referee.Rules.{color_of, try_positions, simulation_is_valid_move}
use hox_server.Referee.Undo.{to_back}
use hox_server.Referee.Reorder.{reordered}
use hox_server.Referee.Sound.{IsSound}
use hox_server.Referee.Legal.{move_of, Legal, Illegal, Answers, simulation_is_valid_move-Answers}
use hox_server.Referee.Follow.{Legal-reordered, Illegal-reordered}
use hox_server.Referee.Turned.{Turned, Turned-trans, Turned-to_back, Turned-IsSound}

-- A search on the board b ends, says whether there is what it looks for, and turns the list.
pub record Searched {ℓ κ} (b : Board) (Found : Type ℓ) (Exhausted : Type κ)
    (o : Option (Board × Bool)) : Type (ℓ ⊔ κ) where
  pub order : List ℕ
  pub result : Bool
  pub returns : o ≡ some (reordered b order, result)
  pub turned : Turned b order
  pub found : result ≡ true → Found
  pub exhausted : result ≡ false → Exhausted

-- No cell of the list that lies on the board is a legal target.
abbrev pub AllIllegal : Board → ℕ → List Position → Type 0
AllIllegal b i [] = Unit {0}
AllIllegal b i (p ∷ ps) = (is_valid p ≡ true → Illegal b i p) × AllIllegal b i ps

abbrev pub SomeLegal : Board → ℕ → List Position → Type 0
SomeLegal b i ps =
    (p : Position) × (any (eqb_position p) ps ≡ true) × (is_valid p ≡ true) × Legal b i p

abbrev pub targets : Board → ℕ → List Position
targets b i = potential_next_positions (b.info i).type (b.info i).position

module _ (kb kr : ℕ) (b : Board) (s : IsSound kb kr b) where
  SomeLegal-cons :
      (i : ℕ) (p : Position) (ps : List Position) → SomeLegal b i ps → SomeLegal b i (p ∷ ps)
  unfolding any
  SomeLegal-cons i p ps (q, m, v, l) = (q, ground (arith, m), v, l)

  pub try_positions-Searched :
      (i : ℕ)
      → contains i b.pieces ≡ true
      → color_of b i ≡ b.next_color
      → (ps : List Position) (zs : List ℕ) → Turned b zs
      → Searched b
          (SomeLegal b i ps)
          (AllIllegal b i ps)
          (try_positions (reordered b zs) (b.info i) ps)
  unfolding try_positions any
  try_positions-Searched i active mine [] zs t = record {
    order = zs;
    result = false;
    returns = refl;
    turned = t;
    found = λ h. cc;
    exhausted = λ h. tt;
  }
  try_positions-Searched i active mine (p ∷ ps) zs t = elim (Bool-cases (is_valid p)) [
    | inr off ↦
        let rest = try_positions-Searched i active mine ps zs t in
        record {
          order = rest.order;
          result = rest.result;
          returns = rw off rest.returns;
          turned = rest.turned;
          found = λ h. SomeLegal-cons i p ps (rest.found h);
          exhausted = λ h. (λ v. cc, rest.exhausted h);
        }
    | inl v ↦ elim (Bool-cases a.result) [
      | inl hit ↦ record {
        order = to_back a.later zs;
        result = true;
        returns = rw (v, a.returns, hit);
        turned = turn;
        found = λ h. (
          p,
          rw (eqb_position_refl p),
          v,
          Legal-reordered kb kr b s zs t i active mine p (a.legal hit),
        );
        exhausted = λ h. cc;
      }
      | inr miss ↦
          let rest = try_positions-Searched i active mine ps (to_back a.later zs) turn in
          record {
            order = rest.order;
            result = rest.result;
            returns = rw (v, a.returns, miss) rest.returns;
            turned = rest.turned;
            found = λ h. SomeLegal-cons i p ps (rest.found h);
            exhausted = λ h. (
              λ _. Illegal-reordered kb kr b s zs t i active mine p (a.illegal miss),
              rest.exhausted h,
            );
          }
    ]
  ]
    where
      a :
          Answers
            (reordered b zs)
            i
            p
            (simulation_is_valid_move (reordered b zs) (move_of (b.info i) p))
      a =
          simulation_is_valid_move-Answers kb kr (reordered b zs) (Turned-IsSound kb kr b zs t s) i
            (t.members i ∙ active) mine p

      turn : Turned b (to_back a.later zs)
      turn = Turned-trans b zs (to_back a.later zs) t (
          Turned-to_back (reordered b zs) a.later (λ j e. (
            (a.enemy j e).0,
            subst (λ c. eqb_color (color_of b j) c ≡ false) mine (a.enemy j e).1,
          )))
