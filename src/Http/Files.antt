-- ===== src/Http/Files.antt =====
-- hoxFileMgr of server/hoxFileMgr.cpp, with get_http_file of server/hoxDbClient.cpp, which asks the
-- agent of the database for a file, and handle_http_GET of server/hoxSession.cpp. The agent is a
-- parameter: all that arrives from it after the text of a request, nothing if the sending fails.
use hox_server.Prelude.{
  ℕ, suc, ◌==◌, leb, Bool, true, false, List, [], ◌∷◌, ◌++◌, Option, none, some, if◌then◌else◌,
  contains,
}
use hox_server.Table.State.{Text, ok, err, is_text}
use hox_server.Util.Names.{RequestType, http_get}
use hox_server.Util.Numbers.{string_to_int}
use hox_server.Util.Messages.{
  Request, find_param, set_param, request_to_string, parse_network_message,
}
use hox_server.Http.Socket.{Read, make_read, read_before, network_max_msg_size, read_nbytes}
use hox_server.Http.Request.{HttpRequest, to_size, build_http_response}

-- The loop of _read_line of server/hoxDbClient.cpp: a message ends at two newlines in a row, and
-- a single one is dropped.
unfoldable pub read_message : Bool → ℕ → Text → Read
read_message saw_one size [] = make_read err [] []
read_message saw_one size (c ∷ s) =
    let rest = read_message false (suc size) s in
    let newlines = read_message true size s in
    if c == b'\n'
    then if saw_one then make_read ok [] s else newlines
    else if leb network_max_msg_size (suc size)
    then make_read err [] s
    else read_before c rest

-- The message, empty if the reading fails.
unfoldable pub message_of : Read → Text
message_of r = elim r.code [ ok ↦ r.text | _ ↦ [] ]

unfoldable pub is_http_get : RequestType → Bool
is_http_get t = elim t [ http_get ↦ true | _ ↦ false ]

abbrev pub path_name : Text
path_name = b'p' ∷ b'a' ∷ b't' ∷ b'h' ∷ []

abbrev pub code_name : Text
code_name = b'c' ∷ b'o' ∷ b'd' ∷ b'e' ∷ []

abbrev pub content_name : Text
content_name = b'c' ∷ b'o' ∷ b'n' ∷ b't' ∷ b'e' ∷ b'n' ∷ b't' ∷ []

abbrev pub zero_text : Text
zero_text = b'0' ∷ []

abbrev pub http_get_request : Text → Request
http_get_request path = record { type = http_get; parameters = set_param path_name path [] }

unfoldable pub bytes_read : Read → Option Text
bytes_read r = elim r.code [ ok ↦ some r.text | _ ↦ none ]

module _ (tokens : Text → List Text) (agent : Text → Text) where
  unfoldable pub get_http_file : Text → Option Text
  unfolding request_to_string set_param read_message message_of parse_network_message is_http_get
      find_param read_nbytes to_size string_to_int bytes_read
  get_http_file path =
      let read =
        read_message false 0 (agent (request_to_string (http_get_request path) ++ b'\n' ∷ [])) in
      let answer = parse_network_message tokens (message_of read) in
      let size = to_size (string_to_int (find_param content_name answer.parameters)) in
      if is_http_get answer.type
      then if is_text (find_param code_name answer.parameters) zero_text
        then bytes_read (read_nbytes size read.input)
        else none
      else none

-- hoxFile.
pub record File : Type 0 where
  pub path : Text
  pub content : Text
  pub type : Text

-- hoxFileMgr. A key that is missing and a key with a null pointer are both `none`.
pub record FileMgr : Type 0 where
  pub location : Text
  pub files : Text → Option File
  pub cache_enabled : Bool
  pub error_if_not_in_cache : Bool

-- What follows the last dot of a text that has one.
unfoldable pub after_last_dot : Text → Text
unfolding contains
after_last_dot [] = []
after_last_dot (c ∷ s) =
    let rest = after_last_dot s in if contains b'.' s then rest else if c == b'.' then s else []

abbrev pub js_text : Text
js_text = b'j' ∷ b's' ∷ []

abbrev pub png_text : Text
png_text = b'p' ∷ b'n' ∷ b'g' ∷ []

abbrev pub css_text : Text
css_text = b'c' ∷ b's' ∷ b's' ∷ []

abbrev pub javascript_type : Text
javascript_type =
    b'a' ∷ b'p' ∷ b'p' ∷ b'l' ∷ b'i' ∷ b'c' ∷ b'a' ∷ b't' ∷ b'i' ∷ b'o' ∷ b'n' ∷ b'/' ∷ b'j' ∷ b'a'
    ∷ b'v' ∷ b'a' ∷ b's' ∷ b'c' ∷ b'r' ∷ b'i' ∷ b'p' ∷ b't' ∷ []

abbrev pub png_type : Text
png_type = b'i' ∷ b'm' ∷ b'a' ∷ b'g' ∷ b'e' ∷ b'/' ∷ b'p' ∷ b'n' ∷ b'g' ∷ []

abbrev pub css_type : Text
css_type = b't' ∷ b'e' ∷ b'x' ∷ b't' ∷ b'/' ∷ b'c' ∷ b's' ∷ b's' ∷ []

abbrev pub html_type : Text
html_type = b't' ∷ b'e' ∷ b'x' ∷ b't' ∷ b'/' ∷ b'h' ∷ b't' ∷ b'm' ∷ b'l' ∷ []

-- _getHttpContentType.
unfoldable pub http_content_type : Text → Text
unfolding after_last_dot
http_content_type path =
    let extension = after_last_dot path in
    if is_text extension js_text
    then javascript_type
    else if is_text extension png_text
    then png_type
    else if is_text extension css_text
    then css_type
    else html_type

-- The file of a path and its content.
abbrev pub make_file : Text → Text → File
make_file path content = record { path = path; content = content; type = http_content_type path }

-- _loadFile, which throws where get_http_file fails.
unfoldable pub load_file : (Text → Option Text) → Text → Option File
unfolding http_content_type
load_file get path = elim (get path) [ none ↦ none | some s ↦ some (make_file path s) ]

-- `_files[path] = file`.
unfoldable pub store_file : Text → File → FileMgr → FileMgr
store_file path f m = record m { files = λ q. if is_text q path then some f else m.files q }

unfoldable pub preload_file : (Text → Option Text) → FileMgr → Text → FileMgr
unfolding load_file store_file
preload_file get m file = elim (load_file get (m.location ++ file)) [
  | none ↦ m
  | some f ↦ store_file file f m
]

unfoldable pub clear_cache : FileMgr → FileMgr
clear_cache m = record m { files = λ q. none }

abbrev pub not_found_text : Text
not_found_text =
    b'F' ∷ b'i' ∷ b'l' ∷ b'e' ∷ b' ' ∷ b'n' ∷ b'o' ∷ b't' ∷ b' ' ∷ b'f' ∷ b'o' ∷ b'u' ∷ b'n' ∷ b'd'
    ∷ []

abbrev pub missing_file : Text → File
missing_file path = record { path = path; content = not_found_text; type = html_type }

-- The part of getFile that loads the file; the handler of its exception reads a null pointer.
unfoldable pub fetch_file : (Text → Option Text) → FileMgr → Text → Option (FileMgr × File)
unfolding load_file store_file
fetch_file get m path = elim (load_file get path) [
  | none ↦ none
  | some f ↦ some (if m.cache_enabled then store_file path f m else m, f)
]

-- getFile; `none` is a dereference of a null pointer.
unfoldable pub get_file : (Text → Option Text) → FileMgr → Text → Option (FileMgr × File)
unfolding fetch_file
get_file get m path =
    if m.cache_enabled
    then elim (m.files path) [
      | some f ↦ some (m, f)
      | none ↦
          if m.error_if_not_in_cache then some (m, missing_file path) else fetch_file get m path
    ]
    else fetch_file get m path

-- handle_http_GET: the manager and the text that is written.
unfoldable pub handle_http_get :
    (Text → Option Text) → Text → FileMgr → HttpRequest → Option (FileMgr × Text)
unfolding get_file build_http_response
handle_http_get get date m r = elim (get_file get m r.path) [
  | none ↦ none
  | some (m', f) ↦ some (m', build_http_response date f.content f.type)
]
