-- ===== src/Tests/Table.antt =====
-- The theorems on server/hoxTable.cpp at tables with the players 1 and 2.
use hox_server.Prelude.{ℕ, ◌≡◌, refl, ◌+◌, ◌*◌, ◌>>=◌, Bool, true, false, none, some, List, [], ◌∷◌}
use hox_server.Prelude.{ℤ, sub_ℕ, ◌+ℤ◌, ◌-ℤ◌}
use hox_server.Move.{Color, red, black, in_progress, drawn}
use hox_server.Table.State.{Table, World, Player, normal, TimeInfo, Text, new_table}
use hox_server.Table.Elo.{Scale, expected_result}
use hox_server.Table.Clock.{at_least_0, consume, reset_move_timers}
use hox_server.Table.Seats.{assign_player_as}
use hox_server.Table.Ending.{score_game}
use hox_server.Table.Requests.{
  on_leave_from_player, handle_resign_request, handle_draw_request, handle_reset_request,
  handle_update_request,
}
use hox_server.Table.Moves.{accept_move}
use hox_server.Table.Made.{Made, accept_move-Made}
use hox_server.Table.Calls.{joins, moves, serve}
use hox_server.Table.Invariant.{IsTable}
use hox_server.Table.Ended.{Kept}
use hox_server.Table.Served.{Serves, opens, serves, serve-Kept, Serves-IsTable}
use hox_server.Table.Scores.{together, score_game-sum, score_game-drawn, expected_result-sum}
use hox_server.Table.Timers.{HasTime, HasClocks, consume_lem, reset_move_timers-HasClocks}
use hox_server.Table.Streaks.{
  are_players, count_moves, streak, quiet_moves, after_checks, non_checks, Moved,
  count_moves-effective, count_moves-streak,
}
use hox_server.Table.Refusals.{IsRefusal, Refuses, requests-Refuses}
use hox_server.Table.Abandoned.{leave-resign}

abbrev minutes : TimeInfo
minutes = record { game = ℤ.pos 1200; move = ℤ.pos 240; free = ℤ.pos 20 }

-- Exact arithmetic in place of the machine's.
abbrev exact : Scale
exact k r e = sub_ℕ (k * r) (k * e)

abbrev members : ℕ → Player
members p = record {
  id = p ∷ [];
  type = normal;
  score = ℤ.pos 1500;
  wins = p;
  draws = 0;
  losses = 0;
}

abbrev empty : World
empty = record { table = new_table [] minutes; players = members; sent = []; saved = [] }

abbrev half_seated : World
half_seated = (assign_player_as (ℤ.pos 1) empty 1 red).0

abbrev seated : World
seated = (assign_player_as (ℤ.pos 2) half_seated 2 black).0

half_seated-Serves : Serves exact half_seated
unfolding serve
half_seated-Serves = serves (ℤ.pos 1) (joins 1 red) (opens [] minutes members) refl

seated-Serves : Serves exact seated
unfolding serve
seated-Serves = serves (ℤ.pos 2) (joins 2 black) half_seated-Serves refl

Serves-IsTable_example : IsTable seated.table
Serves-IsTable_example = Serves-IsTable seated-Serves

abbrev cannon_text : Text
cannon_text = b'7' ∷ b'7' ∷ b'4' ∷ b'7' ∷ []

serve-Kept_example : Kept seated.table (serve exact (ℤ.pos 3) seated (moves 1 cannon_text))
serve-Kept_example =
    serve-Kept exact (ℤ.pos 3) seated (Serves-IsTable seated-Serves) (moves 1 cannon_text)

-- A game in which red has moved.
abbrev opened_table : Table
opened_table = record (new_table [] minutes) {
  red_player = some 1;
  black_player = some 2;
  all_players = 1 ∷ 2 ∷ [];
  status = in_progress;
  moves = cannon_text ∷ [];
}

abbrev playing : World
playing = record empty { table = opened_table }

leave-resign_example :
    (on_leave_from_player exact playing 1 >>= (λ w. handle_resign_request exact w 2)) ≡ none
leave-resign_example = leave-resign exact playing 1 2 refl refl refl refl refl

abbrev drawn_game : World
drawn_game = record empty { table = record opened_table { status = drawn } }

score_game-sum_example :
    together (score_game exact drawn_game 1 2).players 1 2 ≡ together drawn_game.players 1 2
score_game-sum_example = score_game-sum exact drawn_game 1 2 refl

score_game-drawn_example : (score_game exact drawn_game 1 2).sent ≡ drawn_game.sent
score_game-drawn_example = score_game-drawn exact drawn_game 1 2 refl

expected_result-sum_example :
    expected_result (ℤ.pos 120) + expected_result (ℤ.pos 0 -ℤ ℤ.pos 120) ≡ 100
expected_result-sum_example = expected_result-sum (ℤ.pos 120)

has_minutes : HasTime minutes
has_minutes = record { game = refl; free = refl }

consume_lem_example :
    ((consume (ℤ.pos 1210) minutes).game ≡ at_least_0 (minutes.game -ℤ ℤ.pos 1210))
    × ((consume (ℤ.pos 1210) minutes).free
        ≡ at_least_0 (minutes.free -ℤ at_least_0 (ℤ.pos 1210 -ℤ minutes.game)))
    × ((consume (ℤ.pos 1210) minutes).game +ℤ (consume (ℤ.pos 1210) minutes).free
        ≡ at_least_0 ((minutes.game +ℤ minutes.free) -ℤ ℤ.pos 1210))
consume_lem_example = consume_lem (ℤ.pos 1210) minutes has_minutes

-- Three moves, the last of them on its way.
abbrev third_move : Table
third_move = record opened_table { moves = cannon_text ∷ cannon_text ∷ cannon_text ∷ [] }

reset_move_timers-HasClocks_example : HasClocks (reset_move_timers (ℤ.pos 50) third_move red)
unfolding new_table
reset_move_timers-HasClocks_example =
    reset_move_timers-HasClocks (ℤ.pos 50) third_move red
      (record { initial = has_minutes; red = has_minutes; black = has_minutes })

-- From the last move to the first.
abbrev four_moves : List Moved
four_moves = (black, false) ∷ (red, true) ∷ (black, false) ∷ (red, true) ∷ []

count_moves-streak_example :
    ((count_moves opened_table four_moves).red_checks
      ≡ streak opened_table.red_checks red four_moves)
    × ((count_moves opened_table four_moves).black_checks
        ≡ streak opened_table.black_checks black four_moves)
unfolding are_players
count_moves-streak_example = count_moves-streak opened_table four_moves refl

count_moves-effective_example :
    ((count_moves opened_table four_moves).effective_moves
      ≡ opened_table.effective_moves + quiet_moves opened_table.is_prev_move_check four_moves)
    × ((count_moves opened_table four_moves).effective_moves
          + after_checks opened_table.is_prev_move_check four_moves
        ≡ opened_table.effective_moves + non_checks four_moves)
count_moves-effective_example = count_moves-effective opened_table four_moves

requests-Refuses_example :
    ((p : ℕ) (c : Color) → IsRefusal playing (assign_player_as (ℤ.pos 5) playing p c))
    × ((p : ℕ) → Refuses playing (handle_resign_request exact playing p))
    × ((p : ℕ) → Refuses playing (handle_draw_request exact playing p))
    × ((p : ℕ) → Refuses playing (handle_reset_request playing p))
    × ((p : ℕ) (rated : Bool) (time : TimeInfo)
        → IsRefusal playing (handle_update_request playing p rated time))
requests-Refuses_example = requests-Refuses exact (ℤ.pos 5) playing

accept_move-Made_example :
    Made seated 1 cannon_text (accept_move exact (ℤ.pos 3) seated 1 cannon_text)
accept_move-Made_example =
    accept_move-Made exact (ℤ.pos 3) seated (Serves-IsTable seated-Serves) 1 cannon_text
