-- ===== src/Table/Streaks.antt =====
-- hoxTable::_detectLongGameAndPerpetualCheck of server/hoxTable.cpp over several moves.
use hox_server.Prelude.{
  ℕ, ◌≡◌, refl, arith, Bool, true, not, ◌&&◌, ◌||◌, ◌+◌, List, [], ◌∷◌, if◌then◌else◌,
}
use hox_server.Move.{Color, red, black, in_progress, eqb_color}
use hox_server.Table.State.{Table}
use hox_server.Table.Moves.{count_check, count_quiet}

-- The moves of a game from the last to the first: who has moved, and whether the move gave check.
abbrev pub Moved : Type 0
Moved = Color × Bool

-- The table after such moves, as the two branches of the detection count them.
unfoldable pub count_moves : Table → List Moved → Table
unfolding count_check count_quiet
count_moves t [] = t
count_moves t ((c, check) ∷ ms) =
    let u = count_moves t ms in
    if check then (count_check u c in_progress).0 else (count_quiet u c in_progress).0

-- The checks that a side has given in its last moves without a break, on top of n.
unfoldable pub streak : ℕ → Color → List Moved → ℕ
streak n c [] = n
streak n c ((d, check) ∷ ms) =
    let rest = streak n c ms in if eqb_color d c then (if check then rest + 1 else 0) else rest

-- The moves without check whose predecessor gave none either.
unfoldable pub gave_check : Bool → List Moved → Bool
gave_check first [] = first
gave_check first ((c, check) ∷ ms) = check

unfoldable pub quiet_moves : Bool → List Moved → ℕ
unfolding gave_check
quiet_moves first [] = 0
quiet_moves first ((c, check) ∷ ms) =
    let rest = quiet_moves first ms in
    if not check && not (gave_check first ms) then rest + 1 else rest

count_moves-check :
    (t : Table) (ms : List Moved)
    → (count_moves t ms).is_prev_move_check ≡ gave_check t.is_prev_move_check ms
unfolding count_moves gave_check
count_moves-check t [] = refl
count_moves-check t ((c, check) ∷ ms) = ground arith

-- The moves without check, and those of them whose predecessor gave check.
unfoldable pub non_checks : List Moved → ℕ
non_checks [] = 0
non_checks ((c, check) ∷ ms) = let rest = non_checks ms in if check then rest else rest + 1

unfoldable pub after_checks : Bool → List Moved → ℕ
unfolding gave_check
after_checks first [] = 0
after_checks first ((c, check) ∷ ms) =
    let rest = after_checks first ms in if not check && gave_check first ms then rest + 1 else rest

non_checks-sum :
    (first : Bool) (ms : List Moved) → quiet_moves first ms + after_checks first ms ≡ non_checks ms
unfolding quiet_moves after_checks non_checks
non_checks-sum first [] = omega arith
non_checks-sum first ((c, check) ∷ ms) = ground (arith, non_checks-sum first ms)

-- The counter of effective moves goes up by the moves without check after a move without check. It
-- lags behind the moves without check, which are the effective moves of the comment in hoxEnums.h,
-- by exactly the moves without check after a check.
pub count_moves-effective :
    (t : Table) (ms : List Moved)
    → ((count_moves t ms).effective_moves ≡ t.effective_moves + quiet_moves t.is_prev_move_check ms)
      × ((count_moves t ms).effective_moves + after_checks t.is_prev_move_check ms
          ≡ t.effective_moves + non_checks ms)
unfolding count_moves quiet_moves
count_moves-effective t [] = (omega arith, ground (arith, non_checks-sum t.is_prev_move_check []))
count_moves-effective t ((c, check) ∷ ms) =
    let counted : (count_moves t ((c, check) ∷ ms)).effective_moves
        ≡ t.effective_moves + quiet_moves t.is_prev_move_check ((c, check) ∷ ms) =
      ground (arith, (count_moves-effective t ms).0, count_moves-check t ms) in
    (counted, omega (arith, counted, non_checks-sum t.is_prev_move_check ((c, check) ∷ ms)))

-- Whether a move was made by red or by black.
unfoldable pub are_players : List Moved → Bool
are_players [] = true
are_players ((c, check) ∷ ms) = (eqb_color c red || eqb_color c black) && are_players ms

-- Over moves of the two sides, each side's counter is the length of its unbroken series of checks, on
-- top of what the table had; the other side's moves leave it alone.
pub count_moves-streak :
    (t : Table) (ms : List Moved)
    → are_players ms ≡ true
    → ((count_moves t ms).red_checks ≡ streak t.red_checks red ms)
      × ((count_moves t ms).black_checks ≡ streak t.black_checks black ms)
unfolding count_moves streak are_players
count_moves-streak t [] h = (refl, refl)
count_moves-streak t ((c, check) ∷ ms) h =
    let (r, b) = count_moves-streak t ms (ground (arith, h)) in
    (ground (arith, r, h), ground (arith, b, h))
