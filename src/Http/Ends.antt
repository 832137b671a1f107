-- ===== src/Http/Ends.antt =====
-- continueReadRequest of server/hoxTypes.cpp ends on every input: each line that is read makes the
-- input shorter.
use hox_server.Prelude.{
  ℕ, zero, suc, ◌<◌, ◌≡◌, ◌≢◌, refl, ap, arith, Bool, true, false, [], ◌∷◌, Option, some, none, ltb,
  length, if◌then◌else◌,
}
use hox_server.Table.State.{Text, Code}
use hox_server.Util.Numbers.{is_empty_text}
use hox_server.Http.Socket.{Read, read_line, read_chars}
use hox_server.Http.Request.{
  HttpRequest, header_read, read_header, read_headers, continue_read_request, Fetch,
}

unfoldable is_fetched : Option Fetch → Bool
is_fetched none = false
is_fetched (some f) = true

-- A line is empty, or what is left is shorter.
unfoldable is_shorter : Text → Read → Bool
is_shorter s r = if is_empty_text r.text then true else ltb (length r.input) (length s)

read_chars-shorter :
    (ending : Code) (size c : ℕ) (s : Text)
    → length (read_chars ending size (c ∷ s)).input < length (c ∷ s)
unfolding read_chars
read_chars-shorter ending size c [] = ground arith
read_chars-shorter ending size c (d ∷ s) = ground (arith, read_chars-shorter ending (suc size) d s)

read_line-shorter : (ending : Code) (s : Text) → is_shorter s (read_line ending s) ≡ true
unfolding is_shorter read_line read_chars
read_line-shorter ending [] = refl
read_line-shorter ending (c ∷ s) = ground (arith, read_chars-shorter ending 0 c s)

header_read-fetched :
    (next : HttpRequest → Text → Option Fetch) (r : HttpRequest) (line : Read)
    → (is_empty_text line.text ≡ false
        → is_fetched (next (read_header line.text r) line.input) ≡ true)
    → is_fetched (header_read next r line) ≡ true
unfolding header_read is_fetched
header_read-fetched next r line h = ground (arith, h)

read_headers-fetched :
    (fuel : ℕ) (ending : Code) (r : HttpRequest) (s : Text)
    → length s < fuel
    → is_fetched (read_headers fuel ending r s) ≡ true
unfolding read_headers is_shorter
read_headers-fetched zero ending r s h = ground (arith, h)
read_headers-fetched (suc fuel) ending r s h =
    header_read-fetched (λ r'. read_headers fuel ending r') r (read_line ending s)
      (λ e.
        read_headers-fetched fuel ending (read_header (read_line ending s).text r)
          (read_line ending s).input (ground (arith, h, e, read_line-shorter ending s)))

-- The reading of the headers and the body of a request never runs out of the fuel that
-- continue_read_request gives it, whatever the input is.
pub continue_read_request-returns :
    (ending : Code) (r : HttpRequest) (s : Text) → continue_read_request ending r s ≢ none
unfolding continue_read_request is_fetched
continue_read_request-returns ending r s e =
    let fetched = read_headers-fetched (suc (length s)) ending r s (omega arith) in
    ground (arith, fetched, ap is_fetched e)
