-- ===== src/Tests/Http.antt =====
-- The theorems on HTTP at a request, an answer and a file.
use hox_server.Prelude.{
  ◌≡◌, ◌≢◌, refl, arith, true, false, Option, some, none, inl, [], ◌∷◌, ◌++◌, contains,
  if◌then◌else◌,
}
use hox_server.Table.State.{Text, ok, is_text}
use hox_server.Http.Socket.{read_line}
use hox_server.Http.Request.{
  no_http_request, continue_read_request, make_fetch, build_http_response, status_text,
}
use hox_server.Http.Answer.{answer_request, continue_read_request-build_http_response}
use hox_server.Http.Ends.{continue_read_request-returns}
use hox_server.Http.Files.{FileMgr, load_file, get_file}
use hox_server.Http.Cache.{Fresh, file_given, mgr_after, get_file-transparent}

abbrev noon : Text
noon = b'n' ∷ b'o' ∷ b'o' ∷ b'n' ∷ []

abbrev page : Text
page = b'<' ∷ b'p' ∷ b'>' ∷ b'\n' ∷ []

abbrev html : Text
html = b't' ∷ b'e' ∷ b'x' ∷ b't' ∷ []

abbrev headers : Text
headers = b'A' ∷ b':' ∷ b'b' ∷ b'\r' ∷ b'\n' ∷ b'\r' ∷ b'\n' ∷ []

noon-line : contains b'\n' noon ≡ false
unfolding contains
noon-line = refl

html-line : contains b'\n' html ≡ false
unfolding contains
html-line = refl

continue_read_request-build_http_response_example :
    ((read_line ok (build_http_response noon page html ++ headers)).text ≡ status_text)
    × (continue_read_request ok no_http_request
          (read_line ok (build_http_response noon page html ++ headers)).input
        ≡ some (make_fetch ok (answer_request noon page html) headers))
continue_read_request-build_http_response_example =
    continue_read_request-build_http_response ok noon page html headers noon-line html-line
      (omega arith) (omega arith) refl (omega arith)

continue_read_request-returns_example : continue_read_request ok no_http_request headers ≢ none
continue_read_request-returns_example = continue_read_request-returns ok no_http_request headers

abbrev script : Text
script = b'a' ∷ b'.' ∷ b'j' ∷ b's' ∷ []

abbrev store : Text → Option Text
store q = if is_text q script then some page else none

abbrev empty_cache : FileMgr
empty_cache = record {
  location = [];
  files = λ q. none;
  cache_enabled = true;
  error_if_not_in_cache = false;
}

get_file-transparent_example :
    (file_given (get_file store empty_cache script) ≡ load_file store script)
    × Fresh store (mgr_after empty_cache (get_file store empty_cache script))
get_file-transparent_example = get_file-transparent store empty_cache script (λ q. inl refl) refl
