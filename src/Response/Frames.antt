-- ===== src/Response/Frames.antt =====
-- What a client reads of a sequence of responses: each ends at the first two newlines in a row. A
-- response whose content is a block of lines, none empty, is read whole.
use hox_server.Prelude.{
  ℤ, ℕ, zero, suc, ◌≡◌, refl, sym, ◌∙◌, ap, arith, Bool, true, false, not, ◌&&◌, ◌||◌, ◌==◌, List,
  [], ◌∷◌, ◌++◌, append_assoc, contains, contains-append, if◌then◌else◌,
}
use mathlib.Core.List.{append-nil}
use hox_server.Table.State.{Text}
use hox_server.Util.Names.{
  RequestType, request_type_to_string, hello, register, login, logout, shutdown, poll, req_move,
  list, req_new, join, leave, update, resign, req_draw, req_reset, e_join, e_end, e_score,
  i_players, i_table, i_moves, invite, player_info, player_status, msg, ping, db_player_put,
  db_player_get, db_player_set, db_password_set, http_get, http_post, req_log,
}
use hox_server.Util.Numbers.{int_to_string, is_empty_text, contains-int_to_string}
use hox_server.Response.State.{
  Response, stream, newline, response_to_string, code_number, is_poll, tid_piece, more_text,
  content_text, op_text, code_text,
}

abbrev pub is_newline : ℕ → Bool
is_newline c = c == b'\n'

-- A text without a newline.
abbrev pub is_line : Text → Bool
is_line s = not (contains b'\n' s)

-- Lines, none of them followed by an empty one, the last one ended.
unfoldable pub is_block : Text → Bool
is_block [] = false
is_block (c ∷ []) = is_newline c
is_block (c ∷ d ∷ s) = not (is_newline c && is_newline d) && is_block (d ∷ s)

-- The text up to the first two newlines in a row, and what follows.
unfoldable pub read_frame : Text → Text × Text
read_frame [] = ([], [])
read_frame (c ∷ []) = (c ∷ [], [])
read_frame (c ∷ d ∷ s) =
    let rest = read_frame (d ∷ s) in
    if is_newline c && is_newline d then (c ∷ d ∷ [], s) else (c ∷ rest.0, rest.1)

unfoldable pub read_frames : ℕ → Text → List Text × Text
read_frames zero s = ([], s)
read_frames (suc n) s =
    let first = read_frame s in let others = read_frames n first.1 in (first.0 ∷ others.0, others.1)

pub read_frame-block :
    (s rest : Text) → is_block s ≡ true → read_frame (s ++ b'\n' ∷ rest) ≡ (s ++ b'\n' ∷ [], rest)
unfolding is_block read_frame
read_frame-block [] rest h = cc
read_frame-block (c ∷ []) rest h = ground (arith, h)
read_frame-block (c ∷ d ∷ s) rest h = ground (arith, h, read_frame-block (d ∷ s) rest)

pub is_block-line : (s t : Text) → is_line s ≡ true → is_block t ≡ true → is_block (s ++ t) ≡ true
unfolding is_block contains
is_block-line [] t h k = k
is_block-line (c ∷ []) [] h k = cc
is_block-line (c ∷ []) (d ∷ t) h k = ground (arith, h, k)
is_block-line (c ∷ d ∷ s) t h k = ground (arith, h, k, is_block-line (d ∷ s) t)

-- Pieces of lines, and the last one a block.
unfoldable pub is_ended : List Text → Bool
is_ended [] = false
is_ended (s ∷ []) = is_block s
is_ended (s ∷ t ∷ ss) = is_line s && is_ended (t ∷ ss)

pub is_block-stream : (ss : List Text) → is_ended ss ≡ true → is_block (stream ss) ≡ true
unfolding is_ended stream
is_block-stream [] h = cc
is_block-stream (s ∷ []) h = ap is_block (append-nil s) ∙ h
is_block-stream (s ∷ t ∷ ss) h =
    is_block-line s (stream (t ∷ ss)) (ground (arith, h))
      (is_block-stream (t ∷ ss) (ground (arith, h)))

pub stream-append : (ss ts : List Text) → stream (ss ++ ts) ≡ stream ss ++ stream ts
unfolding stream
stream-append [] ts = refl
stream-append (s ∷ ss) ts =
    ap (λ t. s ++ t) (stream-append ss ts) ∙ sym (append_assoc s (stream ss) (stream ts))

request_type_to_string-line : (t : RequestType) → is_line (request_type_to_string t) ≡ true
unfolding request_type_to_string contains
request_type_to_string-line RequestType.unknown = refl
request_type_to_string-line hello = refl
request_type_to_string-line register = refl
request_type_to_string-line login = refl
request_type_to_string-line logout = refl
request_type_to_string-line shutdown = refl
request_type_to_string-line poll = refl
request_type_to_string-line req_move = refl
request_type_to_string-line list = refl
request_type_to_string-line req_new = refl
request_type_to_string-line join = refl
request_type_to_string-line leave = refl
request_type_to_string-line update = refl
request_type_to_string-line resign = refl
request_type_to_string-line req_draw = refl
request_type_to_string-line req_reset = refl
request_type_to_string-line e_join = refl
request_type_to_string-line e_end = refl
request_type_to_string-line e_score = refl
request_type_to_string-line i_players = refl
request_type_to_string-line i_table = refl
request_type_to_string-line i_moves = refl
request_type_to_string-line invite = refl
request_type_to_string-line player_info = refl
request_type_to_string-line player_status = refl
request_type_to_string-line msg = refl
request_type_to_string-line ping = refl
request_type_to_string-line db_player_put = refl
request_type_to_string-line db_player_get = refl
request_type_to_string-line db_player_set = refl
request_type_to_string-line db_password_set = refl
request_type_to_string-line http_get = refl
request_type_to_string-line http_post = refl
request_type_to_string-line req_log = refl

pub int_to_string-line : (z : ℤ) → is_line (int_to_string z) ≡ true
int_to_string-line z = ground (arith, contains-int_to_string b'\n' z refl refl)

pub line-append : (s t : Text) → is_line s ≡ true → is_line t ≡ true → is_line (s ++ t) ≡ true
line-append s t h k = ground (arith, contains-append b'\n' s t, h, k)

-- A response that is no answer to POLL, with a line as its table's id and a block as its content.
unfoldable pub is_framed : Response → Bool
is_framed r =
    not (is_poll r.type) && is_line r.tid && (is_empty_text r.content || is_block r.content)

abbrev body : Text → Text
body content = if is_empty_text content then newline else content

-- The text of a response, but for its last byte.
abbrev pieces : Bool → Response → List Text
pieces more r =
    op_text
    ∷ request_type_to_string r.type
    ∷ code_text
    ∷ int_to_string (code_number r.code)
    ∷ tid_piece r.tid
    ∷ (if more then more_text else [])
    ∷ content_text
    ∷ body r.content
    ∷ []

tid_piece-line : (tid : Text) → is_line tid ≡ true → is_line (tid_piece tid) ≡ true
unfolding contains
tid_piece-line [] h = refl
tid_piece-line (c ∷ s) h = ground (arith, h)

more-line : (more : Bool) → is_line (if more then more_text else []) ≡ true
unfolding contains
more-line true = refl
more-line false = refl

body-block : (s : Text) → (is_empty_text s || is_block s) ≡ true → is_block (body s) ≡ true
unfolding is_block
body-block [] h = refl
body-block (c ∷ s) h = h

pieces-ended : (more : Bool) (r : Response) → is_framed r ≡ true → is_ended (pieces more r) ≡ true
unfolding is_ended contains is_framed
pieces-ended more r h = ground (
  arith,
  h,
  request_type_to_string-line r.type,
  int_to_string-line (code_number r.code),
  tid_piece-line r.tid,
  more-line more,
  body-block r.content,
)

pub response_to_string-pieces :
    (more : Bool) (r : Response)
    → is_framed r ≡ true
    → response_to_string more r ≡ stream (pieces more r) ++ b'\n' ∷ []
unfolding response_to_string is_framed stream
response_to_string-pieces more r h =
    let answers : (is_poll r.type && not (is_empty_text r.content)) ≡ false = ground (arith, h) in
    rw answers (stream-append (pieces more r) (newline ∷ []))

-- A framed response is read whole, and what follows it is left.
pub read_frame-response_to_string :
    (more : Bool) (r : Response) (rest : Text)
    → is_framed r ≡ true
    → read_frame (response_to_string more r ++ rest) ≡ (response_to_string more r, rest)
read_frame-response_to_string more r rest h =
    let s = stream (pieces more r) in
    let whole = response_to_string-pieces more r h in
    ap (λ t. read_frame (t ++ rest)) whole
    ∙ ap read_frame (append_assoc s newline rest)
    ∙ read_frame-block s rest (is_block-stream (pieces more r) (pieces-ended more r h))
    ∙ ap (λ t. (t, rest)) (sym whole)

unfoldable pub are_framed : List Response → Bool
are_framed [] = true
are_framed (r ∷ rs) = is_framed r && are_framed rs
