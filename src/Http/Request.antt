-- ===== src/Http/Request.antt =====
-- hoxHttpRequest of server/hoxTypes.cpp, build_http_response and the part of
-- hoxPollingSession::readRequest of server/hoxSession.cpp that follows the first line.
use hox_server.Prelude.{
  ℕ, zero, suc, ltb, ◌+◌, ◌-◌, ◌%◌, ◌^◌, ◌==◌, true, false, List, [], ◌∷◌, Option, none, some,
  if◌then◌else◌, ℤ, pos, negsuc, contains, length,
}
use hox_server.Table.State.{Text, Code, ok, err, closed, is_text}
use hox_server.Util.Numbers.{decimal, is_empty_text, string_to_int}
use hox_server.Util.Messages.{Parameters, find_param, has_param, set_param, trim_last}
use hox_server.Response.State.{stream}
use hox_server.Http.Socket.{Read, read_line, read_nbytes}

pub record HttpRequest : Type 0 where
  pub method : Text
  pub path : Text
  pub params : Parameters
  pub headers : Parameters
  pub body : Text

abbrev pub no_http_request : HttpRequest
no_http_request = record { method = []; path = []; params = []; headers = []; body = [] }

-- The text before the first place of a character, and the text after it.
unfoldable pub before_first : ℕ → Text → Text
before_first d [] = []
before_first d (c ∷ s) = let rest = before_first d s in if c == d then [] else c ∷ rest

unfoldable pub after_first : ℕ → Text → Text
after_first d [] = []
after_first d (c ∷ s) = let rest = after_first d s in if c == d then s else rest

-- The words that boost::tokenizer finds with boost::char_separator<char>(" ").
unfoldable pub parse_uri : List Text → HttpRequest → HttpRequest
unfolding before_first
parse_uri [] r = r
parse_uri (m ∷ []) r = record r { method = m }
parse_uri (m ∷ p ∷ ws) r = record r { method = m; path = before_first b'?' p }

abbrev pub end_of_headers : Text
end_of_headers = b'\r' ∷ []

abbrev pub content_length : Text
content_length =
    b'C' ∷ b'o' ∷ b'n' ∷ b't' ∷ b'e' ∷ b'n' ∷ b't' ∷ b'-' ∷ b'L' ∷ b'e' ∷ b'n' ∷ b'g' ∷ b't' ∷ b'h'
    ∷ []

-- `headers[key] = value` for a line with a colon.
unfoldable pub read_header : Text → HttpRequest → HttpRequest
unfolding contains before_first after_first set_param trim_last
read_header line r =
    if contains b':' line
    then record r {
      headers =
          set_param (before_first b':' line) (trim_last (after_first b':' line) b'\r') r.headers;
    }
    else r

-- How the reading ended, the request, and the input that is left.
pub record Fetch : Type 0 where
  pub code : Code
  pub request : HttpRequest
  pub input : Text

abbrev pub make_fetch : Code → HttpRequest → Text → Fetch
make_fetch c r s = record { code = c; request = r; input = s }

-- atoi is `(int) strtol`. strtol gives a `long` of 64 bits, at its bounds for a number beyond them.
unfoldable pub to_long : ℤ → ℤ
to_long (pos n) = if ltb n (2 ^ 63) then pos n else pos (2 ^ 63 - 1)
to_long (negsuc n) = if ltb n (2 ^ 63) then negsuc n else negsuc (2 ^ 63 - 1)

-- The 32 bits of a `long`.
unfoldable pub low_bits : ℤ → ℕ
low_bits (pos n) = n % 2 ^ 32
low_bits (negsuc n) = 2 ^ 32 - suc (n % 2 ^ 32)

-- `(size_t)` of the int that atoi gives for the number in a text: the sign of an int is extended.
unfoldable pub to_size : ℤ → ℕ
unfolding to_long low_bits
to_size z =
    let bits = low_bits (to_long z) in if ltb bits (2 ^ 31) then bits else 2 ^ 64 - 2 ^ 32 + bits

unfoldable pub body_read : HttpRequest → Read → Fetch
body_read r read = elim read.code [
  | ok ↦ make_fetch ok (record r { body = read.text }) read.input
  | _ ↦ make_fetch err (record r { body = read.text }) read.input
]

-- The body, if its length is told; it is empty before.
unfoldable pub read_told : Text → HttpRequest → Text → Fetch
unfolding body_read read_nbytes string_to_int to_size
read_told told r s =
    if is_empty_text told
    then make_fetch ok r s
    else body_read r (read_nbytes (to_size (string_to_int told)) s)

-- `headers["Content-Length"]` adds the key where it is missing.
unfoldable pub read_body : HttpRequest → Text → Fetch
unfolding find_param has_param set_param read_told
read_body r s =
    let added = record r { headers = set_param content_length [] r.headers } in
    read_told (find_param content_length r.headers)
      (if has_param content_length r.headers then r else added) s

-- What the loop over the headers does with a line, where `next` is its next round.
unfoldable pub header_read : (HttpRequest → Text → Option Fetch) → HttpRequest → Read → Option Fetch
unfolding read_header read_body
header_read next r line = elim line.code [
  | ok ↦ elim (is_empty_text line.text) [
    | true ↦ some (make_fetch closed r line.input)
    | false ↦ elim (is_text line.text end_of_headers) [
      | true ↦ some (read_body r line.input)
      | false ↦ next (read_header line.text r) line.input
    ]
  ]
  | c ↦ some (make_fetch c r line.input)
]

-- The loop over the headers, on fuel.
unfoldable pub read_headers : ℕ → Code → HttpRequest → Text → Option Fetch
unfolding read_line header_read
read_headers zero ending r s = none
read_headers (suc fuel) ending r s =
    header_read (λ r'. read_headers fuel ending r') r (read_line ending s)

unfoldable pub continue_read_request : Code → HttpRequest → Text → Option Fetch
unfolding read_headers
continue_read_request ending r s = read_headers (suc (length s)) ending r s

abbrev pub status_text : Text
status_text =
    b'H' ∷ b'T' ∷ b'T' ∷ b'P' ∷ b'/' ∷ b'1' ∷ b'.' ∷ b'1' ∷ b' ' ∷ b'2' ∷ b'0' ∷ b'0' ∷ b' ' ∷ b'O'
    ∷ b'K' ∷ b'\r' ∷ []

abbrev pub date_text : Text
date_text = b'D' ∷ b'a' ∷ b't' ∷ b'e' ∷ b':' ∷ b' ' ∷ []

abbrev pub server_text : Text
server_text =
    b'S' ∷ b'e' ∷ b'r' ∷ b'v' ∷ b'e' ∷ b'r' ∷ b':' ∷ b' ' ∷ b'g' ∷ b'a' ∷ b'm' ∷ b'e' ∷ b's' ∷ b'.'
    ∷ b'p' ∷ b'l' ∷ b'a' ∷ b'y' ∷ b'x' ∷ b'i' ∷ b'a' ∷ b'n' ∷ b'g' ∷ b'q' ∷ b'i' ∷ b'.' ∷ b'c'
    ∷ b'o' ∷ b'm' ∷ b' ' ∷ b'v' ∷ b'1' ∷ b'.' ∷ b'0' ∷ []

abbrev pub length_text : Text
length_text =
    b'C' ∷ b'o' ∷ b'n' ∷ b't' ∷ b'e' ∷ b'n' ∷ b't' ∷ b'-' ∷ b'L' ∷ b'e' ∷ b'n' ∷ b'g' ∷ b't' ∷ b'h'
    ∷ b':' ∷ b' ' ∷ []

abbrev pub type_text : Text
type_text =
    b'C' ∷ b'o' ∷ b'n' ∷ b't' ∷ b'e' ∷ b'n' ∷ b't' ∷ b'-' ∷ b'T' ∷ b'y' ∷ b'p' ∷ b'e' ∷ b':' ∷ b' '
    ∷ []

abbrev pub charset_text : Text
charset_text =
    b';' ∷ b' ' ∷ b'c' ∷ b'h' ∷ b'a' ∷ b'r' ∷ b's' ∷ b'e' ∷ b't' ∷ b'=' ∷ b'U' ∷ b'T' ∷ b'F' ∷ b'-'
    ∷ b'8' ∷ []

abbrev pub crlf : Text
crlf = b'\r' ∷ b'\n' ∷ []

-- The date that getHttpDate gives is an argument.
unfoldable pub build_http_response : Text → Text → Text → Text
unfolding stream decimal
build_http_response date content content_type = stream (
    status_text
    ∷ (b'\n' ∷ [])
    ∷ date_text
    ∷ date
    ∷ crlf
    ∷ server_text
    ∷ crlf
    ∷ length_text
    ∷ decimal (length content)
    ∷ crlf
    ∷ type_text
    ∷ content_type
    ∷ charset_text
    ∷ crlf
    ∷ crlf
    ∷ content
    ∷ [])
