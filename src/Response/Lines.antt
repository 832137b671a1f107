-- ===== src/Response/Lines.antt =====
-- The events of server/hoxTypes.cpp are framed if the texts in them are lines.
use hox_server.Prelude.{
  ℕ, ◌≡◌, refl, ◌∙◌, ap, arith, Bool, true, false, not, ◌&&◌, ◌||◌, List, [], ◌∷◌, ◌++◌,
  append_assoc, Option, none, some, contains, if◌then◌else◌,
}
use hox_server.Move.{Color, GameStatus, red, black, no_color, opened, ready, in_progress, red_win}
use hox_server.Move.{black_win, drawn}
use hox_server.Table.State.{Text, Player, Table, TimeInfo}
use hox_server.Util.Names.{color_to_string}
use hox_server.Util.Statuses.{game_status_to_string}
use hox_server.Util.Numbers.{int_to_string, is_empty_text}
use hox_server.Util.Times.{time_info_to_string}
use hox_server.Response.State.{stream}
use hox_server.Response.Events
use hox_server.Response.Frames.{
  is_line, is_block, is_ended, is_block-stream, is_block-line, is_newline, int_to_string-line,
  line-append,
}

unfoldable pub are_lines : List Text → Bool
are_lines [] = true
are_lines (s ∷ ss) = is_line s && are_lines ss

stream-line : (ss : List Text) → are_lines ss ≡ true → is_line (stream ss) ≡ true
unfolding are_lines stream contains
stream-line [] h = refl
stream-line (s ∷ ss) h =
    line-append s (stream ss) (ground (arith, h)) (stream-line ss (ground (arith, h)))

-- A block is no empty text, so that an ended stream is a framed content.
framed_content :
    (ss : List Text)
    → is_ended ss ≡ true
    → (is_empty_text (stream ss) || is_block (stream ss)) ≡ true
framed_content ss h = ground (arith, is_block-stream ss h)

pub color_to_string-line : (c : Color) → is_line (color_to_string c) ≡ true
unfolding color_to_string contains
color_to_string-line Color.unknown = refl
color_to_string-line red = refl
color_to_string-line black = refl
color_to_string-line no_color = refl

pub game_status_to_string-line : (g : GameStatus) → is_line (game_status_to_string g) ≡ true
unfolding game_status_to_string contains
game_status_to_string-line GameStatus.unknown = refl
game_status_to_string-line opened = refl
game_status_to_string-line ready = refl
game_status_to_string-line in_progress = refl
game_status_to_string-line red_win = refl
game_status_to_string-line black_win = refl
game_status_to_string-line drawn = refl

pub time_info_to_string-line : (t : TimeInfo) → is_line (time_info_to_string t) ≡ true
unfolding time_info_to_string contains
time_info_to_string-line t =
    line-append (int_to_string t.game)
      (b'/' ∷ (int_to_string t.move ++ b'/' ∷ int_to_string t.free)) (int_to_string-line t.game)
      (line-append (int_to_string t.move) (b'/' ∷ int_to_string t.free) (int_to_string-line t.move)
        (int_to_string-line t.free))

seat_id-line :
    (players : ℕ → Player) (seat : Option ℕ)
    → ((p : ℕ) → is_line (players p).id ≡ true)
    → is_line (Events.seat_id players seat) ≡ true
unfolding contains
seat_id-line players none h = refl
seat_id-line players (some p) h = h p

pub table_row-line :
    (players : ℕ → Player) (t : Table) (r b : TimeInfo)
    → ((p : ℕ) → is_line (players p).id ≡ true)
    → is_line t.id ≡ true
    → is_line (Events.table_row players t r b) ≡ true
unfolding Events.table_row are_lines contains
table_row-line players t r b h k = stream-line _ (
    rw
      (
        k,
        int_to_string-line (Events.game_type_number t.game_type),
        time_info_to_string-line t.initial_time,
        time_info_to_string-line r,
        time_info_to_string-line b,
        seat_id-line players t.red_player h,
        seat_id-line players t.black_player h,
        int_to_string-line (Events.seat_score players t.red_player),
        int_to_string-line (Events.seat_score players t.black_player),
      )
      refl)

pub observer_ids-line :
    (players : ℕ → Player) (ps : List ℕ)
    → ((p : ℕ) → is_line (players p).id ≡ true)
    → is_line (Events.observer_ids players ps) ≡ true
unfolding Events.observer_ids contains
observer_ids-line players [] h = refl
observer_ids-line players (p ∷ ps) h =
    line-append (players p).id (b';' ∷ Events.observer_ids players ps) (h p)
      (observer_ids-line players ps h)

separated-line :
    (s : Text) → is_line s ≡ true → is_line (if is_empty_text s then [] else s ++ b'/' ∷ []) ≡ true
unfolding contains
separated-line [] h = refl
separated-line (c ∷ s) h = line-append (c ∷ s) (b'/' ∷ []) h refl

pub join_moves-line :
    (s : Text) (ms : List Text)
    → is_line s ≡ true
    → are_lines ms ≡ true
    → is_line (Events.join_moves s ms) ≡ true
unfolding Events.join_moves are_lines
join_moves-line s [] h k = h
join_moves-line s (m ∷ ms) h k =
    join_moves-line _ ms
      (line-append (if is_empty_text s then [] else s ++ b'/' ∷ []) m (separated-line s h)
        (ground (arith, k)))
      (ground (arith, k))

abbrev starts_line : Text → Bool
starts_line [] = false
starts_line (c ∷ s) = not (is_newline c)

starts_line-append :
    (s u : Text) → is_line s ≡ true → starts_line u ≡ true → starts_line (s ++ u) ≡ true
unfolding contains
starts_line-append [] u h k = k
starts_line-append (c ∷ s) u h k = ground (arith, h)

row-starts :
    (players : ℕ → Player) (t : Table) (r b : TimeInfo) (u : Text)
    → is_line t.id ≡ true
    → starts_line (Events.table_row players t r b ++ u) ≡ true
unfolding Events.table_row stream
row-starts players t r b u h =
    ap starts_line (append_assoc t.id _ u) ∙ starts_line-append t.id _ h refl

newline-block : (u : Text) → starts_line u ≡ true → is_block u ≡ true → is_block (b'\n' ∷ u) ≡ true
unfolding is_block
newline-block [] h k = cc
newline-block (c ∷ u) h k = ground (arith, h, k)

unfoldable pub are_line_tables : List Table → Bool
are_line_tables [] = true
are_line_tables (t ∷ ts) = is_line t.id && are_line_tables ts

-- The rows of LIST, each ended by its newline.
pub table_rows-block :
    (players : ℕ → Player) (t : Table) (ts : List Table)
    → ((p : ℕ) → is_line (players p).id ≡ true)
    → are_line_tables (t ∷ ts) ≡ true
    → is_block (Events.table_rows players (t ∷ ts)) ≡ true
unfolding Events.table_rows are_line_tables is_block
table_rows-block players t [] h k =
    let row = table_row-line players t t.red_time t.black_time h (ground (arith, k)) in
    is_block-line (Events.table_row players t t.red_time t.black_time) (b'\n' ∷ []) row refl
table_rows-block players t (u ∷ ts) h k =
    let row = table_row-line players t t.red_time t.black_time h (ground (arith, k)) in
    is_block-line (Events.table_row players t t.red_time t.black_time) _ row (
      newline-block (Events.table_rows players (u ∷ ts))
        (row-starts players u u.red_time u.black_time _ (ground (arith, k)))
        (table_rows-block players u ts h (ground (arith, k))))
