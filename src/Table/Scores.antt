-- ===== src/Table/Scores.antt =====
-- The scores of a game in server/hoxTable.cpp, whatever the machine's float arithmetic gives.
use hox_server.Prelude.{
  ℕ, ◌≡◌, refl, ==_refl, zero, suc, arith, false, ◌+◌, ◌==◌, Bool-cases, inl, inr, ltb,
}
use hox_server.Prelude.{ℤ, pos, negsuc, ◌+ℤ◌, ◌-ℤ◌, +ℤ_parts, -ℤ_parts, eq_of_parts}
use hox_server.Move.{GameStatus, drawn}
use hox_server.Table.State.{played_games, World, Player, post_all}
use hox_server.Table.Elo.{
  Scale, calculate_new_scores, expected_result, find_expected, winning_probabilities,
}
use hox_server.Table.Ending.{count_game, record_game_result, score_game}

sum_change : (a b c : ℤ) → (a +ℤ c) +ℤ (b -ℤ c) ≡ a +ℤ b
sum_change a b c =
    eq_of_parts _ _
      (omega (arith, +ℤ_parts (a +ℤ c) (b -ℤ c), +ℤ_parts a c, -ℤ_parts b c, +ℤ_parts a b))

sum_change' : (a b c : ℤ) → (a -ℤ c) +ℤ (b +ℤ c) ≡ a +ℤ b
sum_change' a b c =
    eq_of_parts _ _
      (omega (arith, +ℤ_parts (a -ℤ c) (b +ℤ c), -ℤ_parts a c, +ℤ_parts b c, +ℤ_parts a b))

-- What one player gains the other loses.
pub calculate_new_scores-sum :
    (scale : Scale) (s : GameStatus) (r b : Player)
    → let n = calculate_new_scores scale s r b in n.0.score +ℤ n.1.score ≡ r.score +ℤ b.score
unfolding calculate_new_scores
calculate_new_scores-sum scale s r b = elim (Bool-cases (ltb (played_games b) (played_games r))) [
  | inl red_counts ↦ rw (red_counts, calculate_new_scores) (sum_change r.score b.score _)
  | inr black_counts ↦ rw (black_counts, calculate_new_scores) (sum_change' r.score b.score _)
]

opposite : (n : ℕ) → expected_result (pos (suc n)) + expected_result (negsuc n) ≡ 100
unfolding expected_result find_expected winning_probabilities
opposite n = ground arith

-- The expectations of two players are 100 hundredths together, whatever their ratings.
pub expected_result-sum : (d : ℤ) → expected_result d + expected_result (pos 0 -ℤ d) ≡ 100
unfolding expected_result find_expected winning_probabilities ◌-ℤ◌
expected_result-sum (pos zero) = refl
expected_result-sum (pos (suc n)) =
    let e : pos 0 -ℤ pos (suc n) ≡ negsuc n = ground arith in rw e (opposite n)
expected_result-sum (negsuc n) =
    let e : pos 0 -ℤ negsuc n ≡ pos (suc n) = ground arith in rw e (omega (arith, opposite n))

-- What two players have together.
abbrev pub together : (ℕ → Player) → ℕ → ℕ → ℤ
together players r b = (players r).score +ℤ (players b).score

record_game_result-sum :
    (scale : Scale) (w : World) (r b : ℕ)
    → (r == b) ≡ false
    → together (record_game_result scale w r b).0.players r b ≡ together w.players r b
unfolding record_game_result count_game
record_game_result-sum scale w r b ne = ground (
  arith,
  calculate_new_scores-sum scale w.table.status (w.players r) (w.players b),
  ==_refl r,
  ==_refl b,
)

-- The end of a game between two different players leaves the sum of their scores as it was, whatever
-- float arithmetic makes of the change.
pub score_game-sum :
    (scale : Scale) (w : World) (r b : ℕ)
    → (r == b) ≡ false
    → together (score_game scale w r b).players r b ≡ together w.players r b
unfolding score_game post_all
score_game-sum scale w r b ne = ground (arith, record_game_result-sum scale w r b ne)

-- A drawn game, rated or not, posts no event of its scores, also where it has changed them.
pub score_game-drawn :
    (scale : Scale) (w : World) (r b : ℕ)
    → w.table.status ≡ drawn
    → (score_game scale w r b).sent ≡ w.sent
unfolding score_game record_game_result count_game
score_game-drawn scale w r b e = ground (arith, e)
