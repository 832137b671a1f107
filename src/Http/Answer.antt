-- ===== src/Http/Answer.antt =====
-- An answer of build_http_response of server/hoxSession.cpp, read by
-- hoxHttpRequest::continueReadRequest of server/hoxTypes.cpp.
use hox_server.Prelude.{
  ℕ, zero, suc, ◌+◌, ◌/◌, ◌%◌, ◌<◌, ◌≤◌, ◌^◌, pos, ltb, Bool-cases, inl, inr, ◌≡◌, refl, ◌∙◌, ap,
  arith, false, [], ◌∷◌, ◌++◌, append_assoc, some, contains, length, length-append, contains-append,
}
use mathlib.Core.List.{append-nil}
use native.Mathlib.Nat.{pow-succ'}
use hox_server.Table.State.{Text, Code, ok}
use hox_server.Util.Numbers.{decimal, digits, is_empty_text, int_to_string, contains-int_to_string}
use hox_server.Util.Messages.{find_param, has_param, set_param, before_text}
use hox_server.Response.State.{stream}
use hox_server.Http.Socket.{make_read, read_line}
use hox_server.Http.Request.{
  HttpRequest, no_http_request, read_body, read_headers, continue_read_request, make_fetch,
  content_length, build_http_response, status_text, charset_text,
}
use hox_server.Http.Reading.{
  read_line-line, read_headers-header, date_name, server_name, type_name, server_value,
  answer_headers, read_headers-end, read_told-length,
}

contains-decimal : (n : ℕ) → contains b'\n' (b' ' ∷ decimal n) ≡ false
unfolding contains int_to_string
contains-decimal n = ap (λ b. b) (contains-int_to_string b'\n' (pos n) refl refl)

contains-space : (s : Text) → contains b'\n' s ≡ false → contains b'\n' (b' ' ∷ s) ≡ false
unfolding contains
contains-space s h = h

contains-type :
    (s : Text) → contains b'\n' s ≡ false → contains b'\n' (b' ' ∷ (s ++ charset_text)) ≡ false
unfolding contains
contains-type s h = ground (arith, h, contains-append b'\n' s charset_text)

-- The lines of an answer after its first one, and what follows the answer.
abbrev type_lines : Text → Text → Text → Text
type_lines content content_type t =
    type_name
    ++ b':'
      ∷ ((b' ' ∷ (content_type ++ charset_text)) ++ b'\r' ∷ b'\n' ∷ b'\r' ∷ b'\n' ∷ (content ++ t))

abbrev length_lines : Text → Text → Text → Text
length_lines content content_type t =
    content_length
    ++ b':'
      ∷ ((b' ' ∷ decimal (length content)) ++ b'\r' ∷ b'\n' ∷ type_lines content content_type t)

abbrev server_lines : Text → Text → Text → Text
server_lines content content_type t =
    server_name ++ b':' ∷ (server_value ++ b'\r' ∷ b'\n' ∷ length_lines content content_type t)

abbrev date_lines : Text → Text → Text → Text → Text
date_lines date content content_type t =
    date_name ++ b':' ∷ ((b' ' ∷ date) ++ b'\r' ∷ b'\n' ∷ server_lines content content_type t)

abbrev pub answer_request : Text → Text → Text → HttpRequest
answer_request date content content_type = record no_http_request {
  headers = answer_headers date content content_type;
  body = content;
}

read_body-answer :
    (date content content_type t : Text)
    → is_empty_text content ≡ false
    → length content < 2 ^ 31
    → read_body
        (record no_http_request { headers = answer_headers date content content_type })
        (content ++ t)
      ≡ make_fetch ok (answer_request date content content_type) t
unfolding read_body find_param has_param
read_body-answer date content content_type t e l =
    read_told-length (record no_http_request { headers = answer_headers date content content_type })
      content t e l

read_headers-answer :
    (fuel : ℕ) (ending : Code) (date content content_type t : Text)
    → contains b'\n' date ≡ false
    → contains b'\n' content_type ≡ false
    → length date < 3000
    → length content_type < 3000
    → length (decimal (length content)) < 3000
    → is_empty_text content ≡ false
    → length content < 2 ^ 31
    → read_headers
        (suc (suc (suc (suc (suc fuel)))))
        ending
        no_http_request
        (date_lines date content content_type t)
      ≡ some (make_fetch ok (answer_request date content content_type) t)
unfolding contains set_param before_text
read_headers-answer fuel ending date content content_type t hd hc ld lc ll e l =
    read_headers-header (suc (suc (suc (suc fuel)))) ending no_http_request date_name (b' ' ∷ date)
      (server_lines content content_type t) refl refl (contains-space date hd) (omega (arith, ld))
    ∙ read_headers-header (suc (suc (suc fuel))) ending _ server_name server_value
        (length_lines content content_type t) refl refl refl (omega arith)
    ∙ read_headers-header (suc (suc fuel)) ending _ content_length (b' ' ∷ decimal (length content))
        (type_lines content content_type t) refl refl (contains-decimal (length content))
        (omega (arith, ll))
    ∙ read_headers-header (suc fuel) ending _ type_name (b' ' ∷ (content_type ++ charset_text))
        (b'\r' ∷ b'\n' ∷ (content ++ t)) refl refl (contains-type content_type hc)
        (omega (arith, lc, length-append content_type charset_text))
    ∙ read_headers-end fuel ending _ (content ++ t)
    ∙ ap some (read_body-answer date content content_type t e l)

power_step : (k n : ℕ) → n < 10 ^ suc (suc k) → n / 10 < 10 ^ suc k
power_step k n h = omega (arith, h, pow-succ' 10 (suc k))

length-digits : (fuel k n : ℕ) → n < 10 ^ suc k → length (digits fuel n) ≤ suc k
unfolding digits
length-digits zero k n h = omega arith
length-digits (suc fuel) zero n h = ground (arith, h, pow-succ' 10 0)
length-digits (suc fuel) (suc k) n h = elim (Bool-cases (ltb n 10)) [
  | inl small ↦ rw (small, digits) (omega arith)
  | inr large ↦
      rw (large, digits)
        (omega (
          arith,
          length-append (digits fuel (n / 10)) ((48 + n % 10) ∷ []),
          length-digits fuel k (n / 10) (power_step k n h),
        ))
]

length-decimal : (n : ℕ) → n < 2 ^ 31 → length (decimal n) < 3000
unfolding decimal
length-decimal n h = omega (arith, length-digits (suc n) 19 n (omega (arith, h)))

build_http_response-lines :
    (date content content_type t : Text)
    → build_http_response date content content_type ++ t
      ≡ status_text ++ b'\n' ∷ date_lines date content content_type t
unfolding build_http_response stream
build_http_response-lines date content content_type t = simp (append_assoc, append-nil) refl

read_line-answer :
    (ending : Code) (date content content_type t : Text)
    → read_line ending (build_http_response date content content_type ++ t)
      ≡ make_read ok status_text (date_lines date content content_type t)
unfolding contains
read_line-answer ending date content content_type t =
    ap (read_line ending) (build_http_response-lines date content content_type t)
    ∙ read_line-line ending status_text (date_lines date content content_type t) refl (omega arith)

-- The first line that read_line finds in an answer is the status line, and continueReadRequest reads
-- from what follows the headers with their values and the whole content as the body, and leaves what
-- follows the answer. The content is not empty and shorter than 2 ^ 31, the date and the type have no
-- newline, and are shorter than 3000.
pub continue_read_request-build_http_response :
    (ending : Code) (date content content_type t : Text)
    → contains b'\n' date ≡ false
    → contains b'\n' content_type ≡ false
    → length date < 3000
    → length content_type < 3000
    → is_empty_text content ≡ false
    → length content < 2 ^ 31
    → ((read_line ending (build_http_response date content content_type ++ t)).text ≡ status_text)
      × (continue_read_request ending no_http_request
            (read_line ending (build_http_response date content content_type ++ t)).input
          ≡ some (make_fetch ok (answer_request date content content_type) t))
unfolding continue_read_request
continue_read_request-build_http_response ending date content content_type t hd hc ld lc e l =
    let first = read_line-answer ending date content content_type t in
    (
      ap (λ r. r.text) first,
      ap (λ r. continue_read_request ending no_http_request r.input) first
          ∙ read_headers-answer
              (suc (length ((b' ' ∷ date) ++ b'\r' ∷ b'\n' ∷ server_lines content content_type t)))
              ending date content content_type t hd hc ld lc (length-decimal (length content) l) e
              l,
    )
