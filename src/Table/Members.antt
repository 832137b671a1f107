-- ===== src/Table/Members.antt =====
-- Who is at a table of server/hoxTable.cpp: only joining and leaving change it.
use hox_server.Prelude.{
  ℕ, ◌≡◌, refl, subst, ◌∙◌, ap, arith, Bool, true, false, ◌&&◌, ◌||◌, Option, none, some, List,
  ◌>>=◌, ℤ, Bool-cases, Option-cases, inl, inr, leb_ℤ, remove,
}
use hox_server.Move.{Color, red, black, no_color, GameStatus, drawn}
use hox_server.Move.{has_piece}
use hox_server.Referee.Board.{Board}
use hox_server.Referee.Rules.{Verdict, validate_move, is_last_move_check}
use hox_server.Referee.Game.{string_to_move}
use hox_server.Table.State.{on_table}
use hox_server.Table.State.{
  World, Table, Text, Code, ok, err, Reason, TimeInfo, left_game, resigned, agreed, timeout,
  post_all, post_others, is_in_progress, is_text, is_seat, is_open, is_ready,
}
use hox_server.Table.Elo.{Scale}
use hox_server.Table.Clock.{reset_move_timers, switch_timers}
use hox_server.Table.Seats.{
  is_request_ok, inform, join_player, assign_player_as, unassign_player, send_info_to_player,
  update_status, add_player, take_seat, remove_player, list_player, is_over,
}
use hox_server.Table.Ending.{on_game_ended, on_game_reset}
use hox_server.Table.Ended.{Ended, on_game_ended-Ended}
use hox_server.Table.Moves
use hox_server.Table.Requests.{
  is_game_started, is_nobody, is_playing, switch_roles, loser_status, handle_resign_request,
  request_draw, handle_draw_request, handle_reset_request, handle_update_request,
  check_timeout_on_move, on_leave_from_player,
}
use hox_server.Table.Calls.{world_of}

-- The same players are at the table, unless the server is aborted.
pub data Stays (ps : List ℕ) : Option World → Type 0 where
  aborted : Stays ps none
  stayed : (w : World) → w.table.all_players ≡ ps → Stays ps (some w)

pub with_code-Stays :
    (ps : List ℕ) (o : Option World) (c : Code)
    → Stays ps o
    → Stays ps (world_of (o >>= (λ w. some (w, c))))
with_code-Stays ps none c aborted = aborted
with_code-Stays ps (some w) c (stayed _ e) = stayed w e

Ended-Stays : (t : Table) (s : GameStatus) (o : Option World) → Ended t s o → Stays t.all_players o
Ended-Stays t s none (Ended.aborts e) = aborted
Ended-Stays t s (some w) (Ended.ends _ e) = stayed w (ap (λ (x : Table). x.all_players) e)

module _ (scale : Scale) (now : ℤ) (w : World) where
  game_over-Stays :
      (s : GameStatus) (reason : Reason)
      → Stays w.table.all_players (on_game_ended scale w s reason)
  game_over-Stays s reason = Ended-Stays w.table s _ (on_game_ended-Ended scale w s reason)

  same : Stays w.table.all_players (some w)
  same = stayed w refl

  pub check_timeout_on_move-Stays : Stays w.table.all_players (check_timeout_on_move scale now w)
  unfolding check_timeout_on_move
  check_timeout_on_move-Stays =
      elim (Bool-cases (is_in_progress w.table.status && is_game_started w.table)) [
        | inr idle ↦ rw (idle, check_timeout_on_move) same
        | inl started ↦ elim (Bool-cases (leb_ℤ now w.table.next_move_expiry)) [
          | inl early ↦ rw (started, check_timeout_on_move, early) same
          | inr late ↦ rw (started, check_timeout_on_move, late) (game_over-Stays _ timeout)
        ]
      ]

  pub handle_update_request-members :
      (p : ℕ) (rated : Bool) (time : TimeInfo)
      → (handle_update_request w p rated time).0.table.all_players ≡ w.table.all_players
  unfolding handle_update_request post_all
  handle_update_request-members p rated time = ground arith

  pub handle_resign_request-Stays :
      (p : ℕ) → Stays w.table.all_players (world_of (handle_resign_request scale w p))
  unfolding handle_resign_request
  handle_resign_request-Stays p = elim (Bool-cases (is_in_progress w.table.status)) [
    | inr idle ↦ rw (idle, handle_resign_request) same
    | inl playing ↦ elim (Option-cases (loser_status w.table p)) [
      | inl other ↦ rw (playing, handle_resign_request, other) same
      | inr (s, lost) ↦
          rw (playing, handle_resign_request, lost)
            (with_code-Stays _ _ ok (game_over-Stays s resigned))
    ]
  ]

  request_draw-Stays : (p : ℕ) → Stays w.table.all_players (request_draw scale w p)
  unfolding request_draw post_others
  request_draw-Stays p = elim (Bool-cases (is_nobody w.table.draw_player_id)) [
    | inl first ↦ rw (first, request_draw) (stayed _ refl)
    | inr second ↦ elim (Bool-cases (is_text (w.players p).id w.table.draw_player_id)) [
      | inl again ↦ rw (second, request_draw, again) same
      | inr both ↦ rw (second, request_draw, both) (game_over-Stays drawn agreed)
    ]
  ]

  pub handle_draw_request-Stays :
      (p : ℕ) → Stays w.table.all_players (world_of (handle_draw_request scale w p))
  unfolding handle_draw_request
  handle_draw_request-Stays p = elim (Bool-cases (is_in_progress w.table.status)) [
    | inr idle ↦ rw (idle, handle_draw_request) same
    | inl playing ↦ elim (Bool-cases (is_playing w.table p)) [
      | inr other ↦ rw (playing, handle_draw_request, other) same
      | inl plays ↦
          rw (playing, handle_draw_request, plays) (with_code-Stays _ _ ok (request_draw-Stays p))
    ]
  ]

  switch_roles-members : (p q : ℕ) → (switch_roles w p q).table.all_players ≡ w.table.all_players
  unfolding switch_roles post_all
  switch_roles-members p q = refl

  on_game_reset-members : (on_game_reset w).table.all_players ≡ w.table.all_players
  unfolding on_game_reset post_all update_status
  on_game_reset-members = refl

  pub handle_reset_request-Stays :
      (p : ℕ) → Stays w.table.all_players (world_of (handle_reset_request w p))
  unfolding handle_reset_request
  handle_reset_request-Stays p =
      elim (Bool-cases (is_in_progress w.table.status && is_game_started w.table)) [
        | inl started ↦ rw (started, handle_reset_request) same
        | inr idle ↦ elim (Bool-cases (is_playing w.table p)) [
          | inr other ↦ rw (idle, handle_reset_request, other) same
          | inl mine ↦ elim (Bool-cases (is_seat w.table.red_player p && is_ready w.table.status)) [
            | inl switches ↦ elim (Option-cases w.table.black_player) [
              | inl nobody ↦ rw (idle, handle_reset_request, mine, switches, nobody) aborted
              | inr (q, e) ↦
                  rw (idle, handle_reset_request, mine, switches, e)
                    (stayed _ (switch_roles-members p q))
            ]
            | inr stays ↦ elim (Bool-cases (is_ready w.table.status || is_open w.table.status)) [
              | inl waits ↦ rw (idle, handle_reset_request, mine, stays, waits) same
              | inr over ↦
                  rw (idle, handle_reset_request, mine, stays, over)
                    (stayed _ on_game_reset-members)
            ]
          ]
        ]
      ]

count_check-members :
    (t : Table) (c : Color) (s : GameStatus)
    → (Moves.count_check t c s).0.all_players ≡ t.all_players
unfolding Moves.count_check
count_check-members t c s = refl

count_quiet-members :
    (t : Table) (c : Color) (s : GameStatus)
    → (Moves.count_quiet t c s).0.all_players ≡ t.all_players
unfolding Moves.count_quiet
count_quiet-members t c s = refl

-- The table that is judged keeps its players.
judge-members :
    (t : Table) (c : Color) (s : GameStatus) (j : Table × GameStatus × Reason)
    → Moves.judge t c s ≡ some j
    → j.0.all_players ≡ t.all_players
unfolding Moves.judge Moves.detect_long_game_and_perpetual_check
judge-members t c s j e = elim (Bool-cases (Moves.is_win s)) [
  | inl wins ↦ ground (arith, e, wins)
  | inr goes ↦ elim (Option-cases (is_last_move_check t.referee)) [
    | inl lost ↦ ground (arith, e, goes, lost)
    | inr (check, known) ↦
        ground (arith, e, goes, known, count_check-members t c s, count_quiet-members t c s)
  ]
]

note_move-members :
    (now : ℤ) (t : Table) (c : Color) (s : Text) (status : GameStatus)
    → (Moves.note_move now t c s status).all_players ≡ t.all_players
unfolding Moves.note_move reset_move_timers switch_timers
note_move-members now t c s status = ground arith

module _ (scale : Scale) (now : ℤ) (w : World) where
  finish_move-Stays :
      (p : ℕ) (s : Text) (c : Color) (status : GameStatus)
      → Stays w.table.all_players (world_of (Moves.finish_move scale now w p s c status))
  unfolding Moves.finish_move post_others
  finish_move-Stays p s c status = elim (Option-cases (Moves.judge w.table c status)) [
    | inl lost ↦ rw (lost, Moves.finish_move) aborted
    | inr (j, judged) ↦
        let told = Moves.tell_move now w p s c j in
        let kept : told.table.all_players ≡ w.table.all_players =
          note_move-members now j.0 c s j.1 ∙ judge-members w.table c status j judged in
        elim (Bool-cases (is_over j.1)) [
          | inl over ↦
              rw (judged, Moves.finish_move, over)
                (with_code-Stays _ _ ok (
                  subst (λ ps. Stays ps (on_game_ended scale told j.1 j.2)) kept
                    (game_over-Stays scale now told j.1 j.2)))
          | inr goes ↦ rw (judged, Moves.finish_move, goes) (stayed _ kept)
        ]
  ]

module _ (scale : Scale) (now : ℤ) (w : World) where
  verdict-Stays :
      (p : ℕ) (s : Text) (c : Color) (b : Board) (v : Verdict)
      → Stays w.table.all_players (world_of (Moves.answer_move scale now w p s c (b, v)))
  unfolding Moves.answer_move
  verdict-Stays p s c b none = stayed _ refl
  verdict-Stays p s c b (some v) =
      finish_move-Stays scale now (on_table w (λ t. record t { referee = b })) p s c v.1

  answered-Stays :
      (p : ℕ) (s : Text)
      → Stays w.table.all_players (
          world_of (
            validate_move w.table.referee (string_to_move w.table.referee s)
            >>= Moves.answer_move scale now w p s w.table.referee.next_color))
  answered-Stays p s =
      elim (Option-cases (validate_move w.table.referee (string_to_move w.table.referee s))) [
        | inl lost ↦ rw lost aborted
        | inr ((b, v), e) ↦ rw e (verdict-Stays p s w.table.referee.next_color b v)
      ]

  pub accept_move-Stays :
      (p : ℕ) (s : Text) → Stays w.table.all_players (world_of (Moves.accept_move scale now w p s))
  unfolding Moves.accept_move
  accept_move-Stays p s = elim (Bool-cases (Moves.can_move w.table.status)) [
    | inr early ↦ rw (early, Moves.accept_move) (stayed w refl)
    | inl can ↦ elim (Bool-cases (Moves.is_turn w.table p)) [
      | inr other ↦ rw (can, Moves.accept_move, other) (stayed w refl)
      | inl turn ↦ elim (Bool-cases (has_piece (string_to_move w.table.referee s).piece)) [
        | inr nothing ↦ rw (can, Moves.accept_move, turn, nothing) (stayed w refl)
        | inl named ↦ rw (can, Moves.accept_move, turn, named) (answered-Stays p s)
      ]
    ]
  ]

-- Leaving takes the player out of the list; joining puts him in it, unless it is refused.
pub unassign_player-members :
    (w : World) (p : ℕ) → (unassign_player w p).table.all_players ≡ remove p w.table.all_players
unfolding unassign_player post_all update_status remove_player
unassign_player-members w p = refl

pub data Left (ps : List ℕ) (p : ℕ) : Option World → Type 0 where
  aborted : Left ps p none
  left : (w : World) → w.table.all_players ≡ remove p ps → Left ps p (some w)

unassigned-Left :
    (ps : List ℕ) (p : ℕ) (o : Option World)
    → Stays ps o
    → Left ps p (o >>= (λ w. some (unassign_player w p)))
unassigned-Left ps p none Stays.aborted = Left.aborted
unassigned-Left ps p (some w) (stayed _ e) = left _ (unassign_player-members w p ∙ ap (remove p) e)

pub on_leave_from_player-Left :
    (scale : Scale) (now : ℤ) (w : World) (p : ℕ)
    → Left w.table.all_players p (on_leave_from_player scale w p)
unfolding on_leave_from_player
on_leave_from_player-Left scale now w p =
    elim (Bool-cases (is_in_progress w.table.status && is_game_started w.table)) [
      | inr idle ↦
          rw (idle, on_leave_from_player)
            (unassigned-Left w.table.all_players p (some w) (stayed w refl))
      | inl started ↦ elim (Option-cases (loser_status w.table p)) [
        | inl other ↦
            rw (started, on_leave_from_player, other)
              (unassigned-Left w.table.all_players p (some w) (stayed w refl))
        | inr (s, lost) ↦
            rw (started, on_leave_from_player, lost)
              (unassigned-Left w.table.all_players p _ (game_over-Stays scale now w s left_game))
      ]
    ]

take_seat-members : (t : Table) (p : ℕ) (c : Color) → (take_seat t p c).all_players ≡ t.all_players
unfolding take_seat
take_seat-members t p Color.unknown = refl
take_seat-members t p red = refl
take_seat-members t p black = refl
take_seat-members t p no_color = refl

pub send_info_to_player-table :
    (now : ℤ) (w : World) (p : ℕ) → (send_info_to_player now w p).table ≡ w.table
unfolding send_info_to_player
send_info_to_player-table now w p = ground arith

inform-table : (now : ℤ) (w : World) (p : ℕ) (new : Bool) → (inform now w p new).table ≡ w.table
unfolding inform
inform-table now w p true = send_info_to_player-table now w p
inform-table now w p false = refl

join_player-members :
    (w : World) (p : ℕ) (c : Color)
    → (join_player w p c).0.table.all_players ≡ list_player w.table.all_players p
unfolding add_player
join_player-members w p c =
    take_seat-members (record w.table { all_players = list_player w.table.all_players p }) p c

update_status-members : (t : Table) → (update_status t).all_players ≡ t.all_players
unfolding update_status
update_status-members t = refl

-- Whoever may join is listed; otherwise nothing happens.
pub assign_player_as-joined :
    (now : ℤ) (w : World) (p : ℕ) (c : Color)
    → is_request_ok w.table c ≡ true
    → ((assign_player_as now w p c).1 ≡ ok)
      × ((assign_player_as now w p c).0.table.all_players ≡ list_player w.table.all_players p)
unfolding assign_player_as
assign_player_as-joined now w p c allowed =
    let j = join_player w p c in
    rw (allowed, assign_player_as)
      (
        refl,
        update_status-members _
            ∙ ap (λ (t : Table). t.all_players) (inform-table now j.0 p j.1)
            ∙ join_player-members w p c,
      )

pub assign_player_as-refused :
    (now : ℤ) (w : World) (p : ℕ) (c : Color)
    → is_request_ok w.table c ≡ false
    → assign_player_as now w p c ≡ (w, err)
unfolding assign_player_as
assign_player_as-refused now w p c refused = rw (refused, assign_player_as) refl
