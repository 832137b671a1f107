-- ===== src/Http/Reading.antt =====
-- What hoxHttpRequest::continueReadRequest of server/hoxTypes.cpp reads of an answer that
-- build_http_response of server/hoxSession.cpp has built, and that it ends on every input.
use hox_server.Prelude.{
  ℕ, suc, ◌+◌, ◌<◌, ◌≡◌, refl, sym, ◌∙◌, ap, arith, true, false, [], ◌∷◌, Option, ◌++◌,
  append_assoc, some, contains, length, length-append, ◌^◌, pos, contains-append,
}
use hox_server.Table.State.{Text, Code, ok, is_text}
use mathlib.Core.List.{append-nil}
use hox_server.Util.Numbers.{
  decimal, is_empty_text, string_to_int, int_to_string, string_to_int-int_to_string,
  ends_number-nil,
}
use hox_server.Util.Messages.{Parameters, set_param, trim_last}
use hox_server.Http.Socket.{
  make_read, read_line, read_nbytes, read_chars, read_bytes, network_max_msg_size,
}
use hox_server.Http.Request.{
  HttpRequest, header_read, body_read, read_told, before_first, after_first, read_header, read_body,
  read_headers, Fetch, make_fetch, end_of_headers, content_length, to_size, to_long, low_bits,
  charset_text,
}

read_chars-line :
    (ending : Code) (size : ℕ) (s t : Text)
    → contains b'\n' s ≡ false
    → size + length s < network_max_msg_size
    → read_chars ending size (s ++ b'\n' ∷ t) ≡ make_read ok s t
unfolding read_chars contains
read_chars-line ending size [] t h k = refl
read_chars-line ending size (c ∷ s) t h k =
    ground (arith, h, k, read_chars-line ending (suc size) s t)

read_bytes-all :
    (size : ℕ) (c : ℕ) (s t : Text)
    → read_bytes (size + length (c ∷ s)) size ((c ∷ s) ++ t) ≡ make_read ok (c ∷ s) t
unfolding read_bytes
read_bytes-all size c [] t = ground arith
read_bytes-all size c (d ∷ s) t = ground (arith, read_bytes-all (suc size) d s t)

trim_last-append : (s : Text) (c : ℕ) → trim_last (s ++ c ∷ []) c ≡ s
unfolding trim_last
trim_last-append [] c = ground arith
trim_last-append (d ∷ []) c = ground arith
trim_last-append (d ∷ e ∷ s) c = ap (λ r. d ∷ r) (trim_last-append (e ∷ s) c)

before_first-append : (d : ℕ) (s t : Text) → contains d s ≡ false → before_first d (s ++ d ∷ t) ≡ s
unfolding before_first contains
before_first-append d [] t h = ground arith
before_first-append d (c ∷ s) t h = ground (arith, h, before_first-append d s t)

after_first-append : (d : ℕ) (s t : Text) → contains d s ≡ false → after_first d (s ++ d ∷ t) ≡ t
unfolding after_first contains
after_first-append d [] t h = ground arith
after_first-append d (c ∷ s) t h = ground (arith, h, after_first-append d s t)

contains-at : (d : ℕ) (s t : Text) → contains d (s ++ d ∷ t) ≡ true
unfolding contains
contains-at d [] t = ground arith
contains-at d (c ∷ s) t = ground (arith, contains-at d s t)

pub read_line-line :
    (ending : Code) (s t : Text)
    → contains b'\n' s ≡ false
    → length s < network_max_msg_size
    → read_line ending (s ++ b'\n' ∷ t) ≡ make_read ok s t
unfolding read_line
read_line-line ending s t h k = read_chars-line ending 0 s t h (omega (arith, k))

header_read-line :
    (next : HttpRequest → Text → Option Fetch) (r : HttpRequest) (line t : Text)
    → is_empty_text line ≡ false
    → is_text line end_of_headers ≡ false
    → header_read next r (make_read ok line t) ≡ next (read_header line r) t
unfolding header_read
header_read-line next r line t e f = rw (e, f) refl

read_headers-step :
    (fuel : ℕ) (ending : Code) (r : HttpRequest) (line t : Text)
    → contains b'\n' line ≡ false
    → length line < network_max_msg_size
    → is_empty_text line ≡ false
    → is_text line end_of_headers ≡ false
    → read_headers (suc fuel) ending r (line ++ b'\n' ∷ t)
      ≡ read_headers fuel ending (read_header line r) t
unfolding read_headers
read_headers-step fuel ending r line t h k e f =
    ap (header_read (λ r'. read_headers fuel ending r') r) (read_line-line ending line t h k)
    ∙ header_read-line (λ r'. read_headers fuel ending r') r line t e f

is_text-colon : (k t : Text) → is_text (k ++ b':' ∷ t) end_of_headers ≡ false
is_text-colon [] t = refl
is_text-colon (c ∷ []) t = ground arith
is_text-colon (c ∷ d ∷ k) t = ground arith

is_empty_text-colon : (k t : Text) → is_empty_text (k ++ b':' ∷ t) ≡ false
is_empty_text-colon [] t = refl
is_empty_text-colon (c ∷ k) t = refl

read_header-colon :
    (k v : Text) (r : HttpRequest)
    → contains b':' k ≡ false
    → read_header (k ++ b':' ∷ (v ++ b'\r' ∷ [])) r ≡ record r { headers = set_param k v r.headers }
unfolding read_header
read_header-colon k v r h =
    rw
      (
        contains-at b':' k (v ++ b'\r' ∷ []),
        before_first-append b':' k (v ++ b'\r' ∷ []) h,
        after_first-append b':' k (v ++ b'\r' ∷ []) h,
        trim_last-append v b'\r',
      )
      refl

contains-header :
    (k v : Text)
    → contains b'\n' k ≡ false
    → contains b'\n' v ≡ false
    → contains b'\n' (k ++ b':' ∷ (v ++ b'\r' ∷ [])) ≡ false
unfolding contains
contains-header k v h i = ground (
  arith,
  h,
  i,
  contains-append b'\n' k (b':' ∷ (v ++ b'\r' ∷ [])),
  contains-append b'\n' v (b'\r' ∷ []),
)

length-header :
    (k v : Text)
    → length k + length v < 4000
    → length (k ++ b':' ∷ (v ++ b'\r' ∷ [])) < network_max_msg_size
length-header k v h =
    omega (arith, h, length-append k (b':' ∷ (v ++ b'\r' ∷ [])), length-append v (b'\r' ∷ []))

-- A line with a name, a colon and a value is read as a header.
pub read_headers-header :
    (fuel : ℕ) (ending : Code) (r : HttpRequest) (k v t : Text)
    → contains b':' k ≡ false
    → contains b'\n' k ≡ false
    → contains b'\n' v ≡ false
    → length k + length v < 4000
    → read_headers (suc fuel) ending r (k ++ b':' ∷ (v ++ b'\r' ∷ b'\n' ∷ t))
      ≡ read_headers fuel ending (record r { headers = set_param k v r.headers }) t
read_headers-header fuel ending r k v t a h i l =
    ap (read_headers (suc fuel) ending r) (
      sym (
        append_assoc k (b':' ∷ (v ++ b'\r' ∷ [])) (b'\n' ∷ t)
        ∙ ap (λ s. k ++ b':' ∷ s) (append_assoc v (b'\r' ∷ []) (b'\n' ∷ t))))
    ∙ read_headers-step fuel ending r (k ++ b':' ∷ (v ++ b'\r' ∷ [])) t (contains-header k v h i)
        (length-header k v l) (is_empty_text-colon k (v ++ b'\r' ∷ []))
        (is_text-colon k (v ++ b'\r' ∷ []))
    ∙ ap (λ r'. read_headers fuel ending r' t) (read_header-colon k v r a)

abbrev pub date_name : Text
date_name = b'D' ∷ b'a' ∷ b't' ∷ b'e' ∷ []

abbrev pub server_name : Text
server_name = b'S' ∷ b'e' ∷ b'r' ∷ b'v' ∷ b'e' ∷ b'r' ∷ []

abbrev pub type_name : Text
type_name = b'C' ∷ b'o' ∷ b'n' ∷ b't' ∷ b'e' ∷ b'n' ∷ b't' ∷ b'-' ∷ b'T' ∷ b'y' ∷ b'p' ∷ b'e' ∷ []

abbrev pub server_value : Text
server_value =
    b' ' ∷ b'g' ∷ b'a' ∷ b'm' ∷ b'e' ∷ b's' ∷ b'.' ∷ b'p' ∷ b'l' ∷ b'a' ∷ b'y' ∷ b'x' ∷ b'i' ∷ b'a'
    ∷ b'n' ∷ b'g' ∷ b'q' ∷ b'i' ∷ b'.' ∷ b'c' ∷ b'o' ∷ b'm' ∷ b' ' ∷ b'v' ∷ b'1' ∷ b'.' ∷ b'0' ∷ []

-- The headers of an answer, in the order of their names.
abbrev pub answer_headers : Text → Text → Text → Parameters
answer_headers date content content_type =
    (content_length, b' ' ∷ decimal (length content))
    ∷ (type_name, b' ' ∷ (content_type ++ charset_text))
    ∷ (date_name, b' ' ∷ date)
    ∷ (server_name, server_value)
    ∷ []

pub read_headers-end :
    (fuel : ℕ) (ending : Code) (r : HttpRequest) (t : Text)
    → read_headers (suc fuel) ending r (b'\r' ∷ b'\n' ∷ t) ≡ some (read_body r t)
unfolding read_headers read_line read_chars header_read
read_headers-end fuel ending r t = refl

string_to_int-told : (n : ℕ) → string_to_int (b' ' ∷ decimal n) ≡ pos n
unfolding string_to_int int_to_string
string_to_int-told n =
    ap string_to_int (sym (append-nil (decimal n)))
    ∙ string_to_int-int_to_string (pos n) [] ends_number-nil

read_nbytes-all :
    (s t : Text) → is_empty_text s ≡ false → read_nbytes (length s) (s ++ t) ≡ make_read ok s t
unfolding read_nbytes
read_nbytes-all [] t h = cc
read_nbytes-all (c ∷ s) t h =
    ap (λ n. read_bytes n 0 (c ∷ s ++ t)) (omega arith) ∙ read_bytes-all 0 c s t

to_size-pos : (n : ℕ) → n < 2 ^ 31 → to_size (pos n) ≡ n
unfolding to_size to_long low_bits
to_size-pos n h = ground (arith, h)

read_nbytes-told :
    (s t : Text)
    → is_empty_text s ≡ false
    → length s < 2 ^ 31
    → read_nbytes (to_size (string_to_int (b' ' ∷ decimal (length s)))) (s ++ t) ≡ make_read ok s t
read_nbytes-told s t e l =
    ap (λ n. read_nbytes n (s ++ t))
      (ap to_size (string_to_int-told (length s)) ∙ to_size-pos (length s) l)
    ∙ read_nbytes-all s t e

pub read_told-length :
    (r : HttpRequest) (s t : Text)
    → is_empty_text s ≡ false
    → length s < 2 ^ 31
    → read_told (b' ' ∷ decimal (length s)) r (s ++ t) ≡ make_fetch ok (record r { body = s }) t
unfolding read_told body_read
read_told-length r s t e l = ap (body_read r) (read_nbytes-told s t e l)
