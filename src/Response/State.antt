-- ===== src/Response/State.antt =====
-- hoxResponse of server/hoxTypes.h and server/hoxTypes.cpp: its text, and the responses that tell of an
-- event. A text written to a stream piece by piece is the stream of the pieces.
use hox_server.Prelude.{
  Bool, true, false, not, ◌&&◌, List, [], ◌∷◌, ◌++◌, if◌then◌else◌, ℤ, pos, negsuc,
}
use hox_server.Table.State.{
  Text, Code, rc_unknown, ok, err, rc_timeout, eintr, handled, closed, not_valid, not_found,
  not_allowed, not_supported,
}
use hox_server.Util.Names.{RequestType, poll, request_type_to_string}
use hox_server.Util.Numbers.{int_to_string, is_empty_text}

pub record Response : Type 0 where
  pub type : RequestType
  pub code : Code
  pub tid : Text
  pub content : Text

-- The numbers of hoxResult.
unfoldable pub code_number : Code → ℤ
code_number rc_unknown = negsuc 0
code_number ok = pos 0
code_number err = pos 1
code_number rc_timeout = pos 2
code_number eintr = pos 3
code_number handled = pos 4
code_number closed = pos 5
code_number not_valid = pos 6
code_number not_found = pos 7
code_number not_allowed = pos 8
code_number not_supported = pos 9

-- The pieces written to a stream, one after the other.
unfoldable pub stream : List Text → Text
stream [] = []
stream (s ∷ ss) = s ++ stream ss

abbrev pub semicolon : Text
semicolon = b';' ∷ []

abbrev pub newline : Text
newline = b'\n' ∷ []

abbrev pub op_text : Text
op_text = b'o' ∷ b'p' ∷ b'=' ∷ []

abbrev pub code_text : Text
code_text = b'&' ∷ b'c' ∷ b'o' ∷ b'd' ∷ b'e' ∷ b'=' ∷ []

abbrev pub tid_text : Text
tid_text = b'&' ∷ b't' ∷ b'i' ∷ b'd' ∷ b'=' ∷ []

abbrev pub more_text : Text
more_text = b'&' ∷ b'm' ∷ b'o' ∷ b'r' ∷ b'e' ∷ b'=' ∷ b'1' ∷ []

abbrev pub content_text : Text
content_text = b'&' ∷ b'c' ∷ b'o' ∷ b'n' ∷ b't' ∷ b'e' ∷ b'n' ∷ b't' ∷ b'=' ∷ []

-- The copy constructor, which does not copy the id of the table.
unfoldable pub copy_response : Response → Response
copy_response r = record r { tid = [] }

abbrev pub is_poll : RequestType → Bool
is_poll t = elim t [ poll ↦ true | _ ↦ false ]

abbrev pub tid_piece : Text → Text
tid_piece tid = if is_empty_text tid then [] else tid_text ++ tid

-- hoxResponse::toString.
unfoldable pub response_to_string : Bool → Response → Text
response_to_string more r =
    if is_poll r.type && not (is_empty_text r.content)
    then r.content
    else stream (
        op_text
        ∷ request_type_to_string r.type
        ∷ code_text
        ∷ int_to_string (code_number r.code)
        ∷ tid_piece r.tid
        ∷ (if more then more_text else [])
        ∷ content_text
        ∷ (if is_empty_text r.content then newline else r.content)
        ∷ newline
        ∷ [])
