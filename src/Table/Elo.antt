-- ===== src/Table/Elo.antt =====
-- The Elo rating of server/hoxTable.cpp: _Elo_calculate_KFactor, the table of winning probabilities,
-- _Elo_calculate_NewRatingChange and _calculateNewScores. Probabilities are in hundredths. The last
-- step, the `float` expression `(int) (nKFactor * (fGameResult - fExpectedResult))`, depends on how
-- the machine rounds: it is a parameter, a function of the factor and of the two results.
use hox_server.Prelude.{ℕ, Bool, true, false, List, [], ◌∷◌}
use hox_server.Prelude.{ℤ, pos, ltb, leb, ltb_ℤ, abs, ◌+ℤ◌, ◌-ℤ◌, if◌then◌else◌}
use hox_server.Move.{GameStatus, red_win, black_win}
use hox_server.Table.State.{Player, played_games}

-- WinningProbability_t.
pub record WinningProbability : Type 0 where
  pub rating_diff : ℕ
  pub stronger_player : ℕ
  pub weaker_player : ℕ

row : ℕ → ℕ → ℕ → WinningProbability
row d s w = record { rating_diff = d; stronger_player = s; weaker_player = w }

-- s_winningProbabilities, from its last row to its first, the order of the loop.
unfoldable pub winning_probabilities : List WinningProbability
unfolding row
winning_probabilities =
    row 350 89 11
    ∷ row 300 85 15
    ∷ row 250 81 19
    ∷ row 200 76 24
    ∷ row 150 70 30
    ∷ row 100 64 36
    ∷ row 50 57 43
    ∷ row 25 53 47
    ∷ row 0 50 50
    ∷ []

unfoldable pub k_factor : ℕ → ℤ → ℕ
k_factor played rating = if ltb played 30 then 25 else if ltb_ℤ rating (pos 2400) then 15 else 10

unfoldable pub find_expected : List WinningProbability → ℤ → ℕ
find_expected [] diff = 50
find_expected (r ∷ rs) diff =
    if leb r.rating_diff (abs diff)
    then (if ltb_ℤ (pos 0) diff then r.stronger_player else r.weaker_player)
    else find_expected rs diff

unfoldable pub expected_result : ℤ → ℕ
unfolding find_expected
expected_result diff = find_expected winning_probabilities diff

-- The factor, the game's result and the expected result, in hundredths, to a change of rating.
abbrev pub Scale : Type 0
Scale = ℕ → ℕ → ℕ → ℤ

unfoldable pub new_rating_change : Scale → ℤ → ℤ → ℕ → ℕ → ℤ
new_rating_change scale diff rating played result =
    scale (k_factor played rating) result (expected_result diff)

-- fGameResult, for the player that counts.
unfoldable pub game_result : Bool → GameStatus → ℕ
game_result use_red red_win = if use_red then 100 else 0
game_result use_red black_win = if use_red then 0 else 100
game_result use_red _ = 50

-- The players of the two seats, with their new scores.
abbrev pub set_score : Player → ℤ → Player
set_score p s = record p { score = s }

unfoldable pub calculate_new_scores : Scale → GameStatus → Player → Player → Player × Player
unfolding new_rating_change game_result
calculate_new_scores scale status r b =
    let use_red = ltb (played_games b) (played_games r) in
    let change =
      (if use_red
        then new_rating_change scale (r.score -ℤ b.score) r.score (played_games r)
            (game_result true status)
        else new_rating_change scale (b.score -ℤ r.score) b.score (played_games b)
            (game_result false status)) in
    if use_red
    then (set_score r (r.score +ℤ change), set_score b (b.score -ℤ change))
    else (set_score r (r.score -ℤ change), set_score b (b.score +ℤ change))
