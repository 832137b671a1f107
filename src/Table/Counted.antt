-- ===== src/Table/Counted.antt =====
-- What hoxTable::_detectLongGameAndPerpetualCheck and _resetMoveTimers of server/hoxTable.cpp change.
use hox_server.Prelude.{
  ℕ, ◌≡◌, refl, arith, Bool, true, false, ◌||◌, ◌≤◌, Option, some, Bool-cases, inl, inr, ℤ, ltb,
  length,
}
use hox_server.Move.{Color, red, GameStatus, eqb_color, in_progress}
use hox_server.Referee.Games.{Plays}
use hox_server.Table.State.{Table, TimeInfo, Reason, last_move}
use hox_server.Table.Clock.{reset_move_timers, switch_timers}
use hox_server.Table.Seats.{is_over}
use hox_server.Table.Moves.{
  perpetual_checks_max, effective_moves_max, is_win, count_check, count_quiet,
  detect_long_game_and_perpetual_check, judge,
}
use hox_server.Table.State.{is_in_progress}
use hox_server.Table.Answered.{last_move_check}

abbrev pub counts : Table → ℕ → ℕ → ℕ → Bool → Table
counts t e r b check = record t {
  effective_moves = e;
  red_checks = r;
  black_checks = b;
  is_prev_move_check = check;
}

abbrev pub IsCounted : GameStatus → ℕ → ℕ → ℕ → Type 0
IsCounted s e r b =
    is_over s ≡ false
    → (e ≤ effective_moves_max) × (r ≤ perpetual_checks_max) × (b ≤ perpetual_checks_max)

-- The counters after a move, in_limits their limits unless the game is over, and its status.
pub record Judged (t : Table) (o : Option (Table × GameStatus × Reason)) : Type 0 where
  pub effective : ℕ
  pub red : ℕ
  pub black : ℕ
  pub check : Bool
  pub status : GameStatus
  pub reason : Reason
  pub returns : o ≡ some (counts t effective red black check, status, reason)
  pub plays_or_over : (is_over status || is_in_progress status) ≡ true
  pub limits : IsCounted status effective red black

module _ (t : Table) (c : Color) (status : GameStatus) (playing : is_in_progress status ≡ true)
    (limits : IsCounted status t.effective_moves t.red_checks t.black_checks) where
  in_limits : (t.effective_moves ≤ 200) × (t.red_checks ≤ 6) × (t.black_checks ≤ 6)
  in_limits = limits (ground (arith, playing))

  count_check-Judged : Judged t (some (count_check t c status))
  unfolding count_check
  count_check-Judged = record {
    effective = _;
    red = _;
    black = _;
    check = _;
    status = _;
    reason = _;
    returns = refl;
    plays_or_over = ground (arith, playing);
    limits = λ h. ground (arith, in_limits, h);
  }

  count_quiet-Judged : Judged t (some (count_quiet t c status))
  unfolding count_quiet
  count_quiet-Judged = record {
    effective = _;
    red = _;
    black = _;
    check = _;
    status = _;
    reason = _;
    returns = refl;
    plays_or_over = ground (arith, playing);
    limits = λ h. ground (arith, in_limits, h);
  }

  detect-Judged : Plays t.referee → Judged t (detect_long_game_and_perpetual_check t c status)
  unfolding detect_long_game_and_perpetual_check
  detect-Judged p =
      let (check, e) = last_move_check p in
      elim (Bool-cases check) [
        | inl checks ↦ rw (e, detect_long_game_and_perpetual_check, checks) count_check-Judged
        | inr quiet ↦ rw (e, detect_long_game_and_perpetual_check, quiet) count_quiet-Judged
      ]

-- A move that ends the game is not counted.
pub judge-Judged :
    (t : Table) (c : Color) (status : GameStatus)
    → (is_win status || is_in_progress status) ≡ true
    → IsCounted in_progress t.effective_moves t.red_checks t.black_checks
    → Plays t.referee
    → Judged t (judge t c status)
unfolding judge
judge-Judged t c status playing limits p = elim (Bool-cases (is_win status)) [
  | inl won ↦
      rw (won, judge)
        (record {
          effective = t.effective_moves;
          red = t.red_checks;
          black = t.black_checks;
          check = t.is_prev_move_check;
          status = status;
          reason = last_move;
          returns = refl;
          plays_or_over = ground (arith, won);
          limits = λ h. limits refl;
        })
  | inr goes_on ↦
      rw (goes_on, judge)
        (detect-Judged t c status (ground (arith, playing, goes_on)) (λ h. limits refl) p)
]

abbrev pub timed : Table → TimeInfo → TimeInfo → ℤ → ℤ → Table
timed t r b last expiry = record t {
  red_time = r;
  black_time = b;
  last_move_time = last;
  next_move_expiry = expiry;
}

-- _resetMoveTimers changes the clocks alone.
pub reset_move_timers-timed :
    (P : Table → Type 0)
    → ((t : Table) (r b : TimeInfo) (last expiry : ℤ) → P t → P (timed t r b last expiry))
    → (now : ℤ) (t : Table) (c : Color) → P t
    → P (reset_move_timers now t c)
unfolding reset_move_timers switch_timers
reset_move_timers-timed P keep now t c p = elim (Bool-cases (is_in_progress t.status)) [
  | inr idle ↦ rw (idle, reset_move_timers) p
  | inl playing ↦ elim (Bool-cases (ltb 1 (length t.moves))) [
    | inr early ↦
        rw (playing, reset_move_timers, early)
          (keep t t.red_time t.black_time now t.next_move_expiry p)
    | inl started ↦ elim (Bool-cases (eqb_color c red)) [
      | inl is_red ↦ rw (playing, reset_move_timers, started, is_red) (keep t _ _ _ _ p)
      | inr is_black ↦ rw (playing, reset_move_timers, started, is_black) (keep t _ _ _ _ p)
    ]
  ]
]
