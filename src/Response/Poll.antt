-- ===== src/Response/Poll.antt =====
-- What a client that polls reads: the events that were posted for it, one by one.
use hox_server.Prelude.{
  ℕ, suc, ◌≡◌, refl, ap, arith, Bool, true, false, List, [], ◌∷◌, ◌++◌, contains, length,
  if◌then◌else◌, ℤ, pos,
}
use hox_server.Move.{Color, GameStatus}
use hox_server.Table.State.{Text, Code, Player, Table, TimeInfo, GameType}
use hox_server.Table.Ending.{is_rated}
use hox_server.Table.Clock.{get_current_timers}
use hox_server.Util.Names.{RequestType}
use hox_server.Util.Numbers.{is_empty_text}
use hox_server.Response.State.{Response, stream, response_to_string, is_poll}
use hox_server.Response.Events
use hox_server.Response.Frames.{
  is_line, is_block, is_ended, is_framed, is_block-stream, int_to_string-line, read_frames,
  read_frame, read_frame-response_to_string, response_to_string-pieces,
}
use hox_server.Response.Lines.{
  are_lines, are_line_tables, table_rows-block, table_row-line, observer_ids-line, join_moves-line,
  color_to_string-line, game_status_to_string-line, time_info_to_string-line,
}

-- The responses that create_event_… makes of texts without newlines. A private message and an
-- invitation may have an empty table's id.
pub data IsEvent : Response → Type 0 where
  login_event :
      (id sid : Text) (score : ℤ)
      → is_line id ≡ true
      → is_line sid ≡ true
      → IsEvent (Events.create_event_login id score sid)
  logout_event : (p : Player) → is_line p.id ≡ true → IsEvent (Events.create_event_logout p)
  invite_event :
      (id other tid : Text) (score : ℤ)
      → is_line id ≡ true
      → is_line other ≡ true
      → is_line tid ≡ true
      → IsEvent (Events.create_event_invite id score other tid)
  player_info_event :
      (p : Player) (tid : Text)
      → is_line p.id ≡ true
      → is_line tid ≡ true
      → IsEvent (Events.create_event_player_info p tid)
  i_table_event :
      (now : ℤ) (players : ℕ → Player) (t : Table)
      → ((p : ℕ) → is_line (players p).id ≡ true)
      → is_line t.id ≡ true
      → IsEvent (Events.create_event_i_table now players t)
  no_list_event : (players : ℕ → Player) → IsEvent (Events.create_event_list players [])
  list_event :
      (players : ℕ → Player) (t : Table) (ts : List Table)
      → ((p : ℕ) → is_line (players p).id ≡ true)
      → are_line_tables (t ∷ ts) ≡ true
      → IsEvent (Events.create_event_list players (t ∷ ts))
  e_join_event :
      (t : Table) (p : Player) (c : Color)
      → is_line t.id ≡ true
      → is_line p.id ≡ true
      → IsEvent (Events.create_event_e_join t p c)
  leave_event :
      (t : Table) (p : Player)
      → is_line t.id ≡ true
      → is_line p.id ≡ true
      → IsEvent (Events.create_event_leave t p)
  msg_event :
      (p : Player) (message tid : Text)
      → is_line p.id ≡ true
      → is_line message ≡ true
      → is_line tid ≡ true
      → IsEvent (Events.create_event_msg p message tid)
  ping_event : IsEvent Events.create_event_ping
  move_event :
      (t : Table) (p : Player) (move : Text) (status : GameStatus)
      → is_line t.id ≡ true
      → is_line p.id ≡ true
      → is_line move ≡ true
      → IsEvent (Events.create_event_move t p move status)
  draw_event :
      (c : Code) (t : Table) (p : Player)
      → is_line t.id ≡ true
      → is_line p.id ≡ true
      → IsEvent (Events.create_event_draw c t p)
  end_event :
      (t : Table) (status : GameStatus) (reason : Text)
      → is_line t.id ≡ true
      → is_line reason ≡ true
      → IsEvent (Events.create_event_end t status reason)
  reset_event : (t : Table) → is_line t.id ≡ true → IsEvent (Events.create_event_reset t)
  e_score_event :
      (t : Table) (p : Player)
      → is_line t.id ≡ true
      → is_line p.id ≡ true
      → IsEvent (Events.create_event_e_score t p)
  i_moves_event :
      (t : Table) (moves : List Text)
      → is_line t.id ≡ true
      → are_lines moves ≡ true
      → IsEvent (Events.create_event_i_moves t moves)
  update_event :
      (t : Table) (p : Player) (g : GameType) (time : TimeInfo)
      → is_line t.id ≡ true
      → is_line p.id ≡ true
      → IsEvent (Events.create_event_update t p g time)

framed_of :
    (t : RequestType) (c : Code) (tid : Text) (ss : List Text)
    → is_poll t ≡ false
    → is_line tid ≡ true
    → is_ended ss ≡ true
    → is_framed (record { type = t; code = c; tid = tid; content = stream ss }) ≡ true
unfolding is_framed
framed_of t c tid ss h k l = ground (arith, h, k, is_block-stream ss l)

sid-line : (s : Text) → is_line s ≡ true → is_line (if is_empty_text s then [] else b';' ∷ s) ≡ true
unfolding contains
sid-line [] h = refl
sid-line (c ∷ s) h = ground (arith, h)

rated-line : (r : Bool) → is_line (if r then b'1' ∷ [] else b'0' ∷ []) ≡ true
unfolding contains
rated-line true = refl
rated-line false = refl

pub IsEvent-framed : (r : Response) → IsEvent r → is_framed r ≡ true
unfolding is_ended is_block contains Events.create_event_login Events.create_event_logout
    Events.create_event_invite Events.create_event_player_info Events.create_event_i_table
    Events.table_response Events.create_event_list Events.create_event_e_join
    Events.create_event_leave Events.create_event_msg Events.create_event_ping
    Events.create_event_move Events.create_event_draw Events.create_event_end
    Events.create_event_reset Events.create_event_e_score Events.create_event_i_moves
    Events.create_event_update
IsEvent-framed _ (login_event id sid score h k) =
    framed_of _ _ _ _ refl refl (rw (h, int_to_string-line score, sid-line sid k) refl)
IsEvent-framed _ (logout_event p h) = framed_of _ _ _ _ refl refl (rw h refl)
IsEvent-framed _ (invite_event id other tid score h k l) =
    framed_of _ _ _ _ refl l (rw (h, int_to_string-line score, k) refl)
IsEvent-framed _ (player_info_event p tid h k) = framed_of _ _ _ _ refl k (
    rw
      (
        h,
        int_to_string-line p.score,
        int_to_string-line (pos p.wins),
        int_to_string-line (pos p.draws),
        int_to_string-line (pos p.losses),
      )
      refl)
IsEvent-framed _ (i_table_event now players t h k) = framed_of _ _ _ _ refl refl (
    rw
      (
        table_row-line players t (get_current_timers now t).0 (get_current_timers now t).1 h k,
        observer_ids-line players (Events.get_observers t.red_player t.black_player t.all_players)
            h,
      )
      refl)
IsEvent-framed _ (no_list_event players) = framed_of _ _ _ _ refl refl refl
IsEvent-framed _ (list_event players t ts h k) =
    framed_of _ _ _ _ refl refl (table_rows-block players t ts h k)
IsEvent-framed _ (e_join_event t p c h k) =
    framed_of _ _ _ _ refl refl (rw (h, k, int_to_string-line p.score, color_to_string-line c) refl)
IsEvent-framed _ (leave_event t p h k) = framed_of _ _ _ _ refl refl (rw (h, k) refl)
IsEvent-framed _ (msg_event p message tid h k l) = framed_of _ _ _ _ refl l (rw (h, k) refl)
IsEvent-framed _ ping_event = framed_of _ _ _ _ refl refl refl
IsEvent-framed _ (move_event t p move status h k l) =
    framed_of _ _ _ _ refl refl (rw (h, k, l, game_status_to_string-line status) refl)
IsEvent-framed _ (draw_event c t p h k) = framed_of _ _ _ _ refl refl (rw (h, k) refl)
IsEvent-framed _ (end_event t status reason h k) =
    framed_of _ _ _ _ refl refl (rw (h, game_status_to_string-line status, k) refl)
IsEvent-framed _ (reset_event t h) = framed_of _ _ _ _ refl refl (rw h refl)
IsEvent-framed _ (e_score_event t p h k) =
    framed_of _ _ _ _ refl refl (rw (h, k, int_to_string-line p.score) refl)
IsEvent-framed _ (i_moves_event t moves h k) =
    framed_of _ _ _ _ refl refl (rw (h, join_moves-line [] moves refl k) refl)
IsEvent-framed _ (update_event t p g time h k) =
    framed_of _ _ _ _ refl refl
      (rw (h, k, rated-line (is_rated g), time_info_to_string-line time) refl)

pub data AreEvents : List Response → Type 0 where
  no_events : AreEvents []
  more_events : {r : Response} {rs : List Response} → IsEvent r → AreEvents rs → AreEvents (r ∷ rs)

read_frames-step :
    (n : ℕ) (t s : Text) (ts : List Text)
    → read_frame (t ++ s) ≡ (t, s)
    → read_frames n s ≡ (ts, [])
    → read_frames (suc n) (t ++ s) ≡ (t ∷ ts, [])
unfolding read_frames
read_frames-step n t s ts h k = rw (h, k) refl

read_frames-poll_texts :
    (rs : List Response)
    → AreEvents rs
    → read_frames (length rs) (stream (Events.poll_texts rs)) ≡ (Events.poll_texts rs, [])
unfolding read_frames Events.poll_texts stream
read_frames-poll_texts [] no_events = refl
read_frames-poll_texts (r ∷ []) (more_events e no_events) =
    rw (read_frame-response_to_string false r [] (IsEvent-framed r e)) refl
read_frames-poll_texts (r ∷ q ∷ rs) (more_events e es) =
    read_frames-step (length (q ∷ rs)) (response_to_string true r)
      (stream (Events.poll_texts (q ∷ rs))) (Events.poll_texts (q ∷ rs))
      (read_frame-response_to_string true r (stream (Events.poll_texts (q ∷ rs)))
        (IsEvent-framed r e))
      (read_frames-poll_texts (q ∷ rs) es)

-- The text of a framed response is not empty, whatever follows.
response_opened :
    (more : Bool) (r : Response) (s : Text)
    → is_framed r ≡ true
    → is_empty_text (response_to_string more r ++ s) ≡ false
unfolding stream
response_opened more r s h = ap (λ t. is_empty_text (t ++ s)) (response_to_string-pieces more r h)

poll_texts-opened :
    (r : Response) (rs : List Response)
    → IsEvent r
    → is_empty_text (stream (Events.poll_texts (r ∷ rs))) ≡ false
unfolding Events.poll_texts stream
poll_texts-opened r [] e = response_opened false r [] (IsEvent-framed r e)
poll_texts-opened r (q ∷ rs) e = response_opened true r _ (IsEvent-framed r e)

-- A client that polls, and for which events with lines in them were posted, reads them from the text
-- of the answer, all and in their order: each ends at the first two newlines in a row, and nothing is
-- left. Every event but the last one says that more follow.
pub read_frames-create_event_poll :
    (more : Bool) (r : Response) (rs : List Response)
    → IsEvent r
    → AreEvents rs
    → read_frames (length (r ∷ rs)) (response_to_string more (Events.create_event_poll (r ∷ rs)))
      ≡ (Events.poll_texts (r ∷ rs), [])
unfolding response_to_string Events.create_event_poll
read_frames-create_event_poll more r rs e es =
    rw (poll_texts-opened r rs e) (read_frames-poll_texts (r ∷ rs) (more_events e es))
