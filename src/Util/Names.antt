-- ===== src/Util/Names.antt =====
-- The conversions of server/hoxUtil.cpp between request types, colors and their texts.
use hox_server.Prelude.{List, [], ◌∷◌, if◌then◌else◌}
use hox_server.Move.{Color, red, black, no_color}
use hox_server.Table.State.{Text, is_text}

-- hoxRequestType.
pub data RequestType : Type 0 where
  unknown hello register login logout shutdown poll req_move list req_new join leave update resign
        req_draw req_reset e_join e_end e_score i_players i_table i_moves invite player_info
        player_status msg ping db_player_put db_player_get db_player_set db_password_set http_get
        http_post req_log :
      RequestType

-- The chain of tests of an input against texts, with the answer where none is met.
unfoldable pub lookup_text {ℓ} : {A : Type ℓ} → A → Text → List (Text × A) → A
lookup_text d s [] = d
lookup_text d s ((t, a) ∷ rows) = if is_text s t then a else lookup_text d s rows

unfoldable pub request_type_to_string : RequestType → Text
request_type_to_string RequestType.unknown = b'U' ∷ b'N' ∷ b'K' ∷ b'N' ∷ b'O' ∷ b'W' ∷ b'N' ∷ []
request_type_to_string hello = b'H' ∷ b'E' ∷ b'L' ∷ b'L' ∷ b'O' ∷ []
request_type_to_string register = b'R' ∷ b'E' ∷ b'G' ∷ b'I' ∷ b'S' ∷ b'T' ∷ b'E' ∷ b'R' ∷ []
request_type_to_string login = b'L' ∷ b'O' ∷ b'G' ∷ b'I' ∷ b'N' ∷ []
request_type_to_string logout = b'L' ∷ b'O' ∷ b'G' ∷ b'O' ∷ b'U' ∷ b'T' ∷ []
request_type_to_string shutdown = b'S' ∷ b'H' ∷ b'U' ∷ b'T' ∷ b'D' ∷ b'O' ∷ b'W' ∷ b'N' ∷ []
request_type_to_string poll = b'P' ∷ b'O' ∷ b'L' ∷ b'L' ∷ []
request_type_to_string req_move = b'M' ∷ b'O' ∷ b'V' ∷ b'E' ∷ []
request_type_to_string list = b'L' ∷ b'I' ∷ b'S' ∷ b'T' ∷ []
request_type_to_string req_new = b'N' ∷ b'E' ∷ b'W' ∷ []
request_type_to_string join = b'J' ∷ b'O' ∷ b'I' ∷ b'N' ∷ []
request_type_to_string leave = b'L' ∷ b'E' ∷ b'A' ∷ b'V' ∷ b'E' ∷ []
request_type_to_string update = b'U' ∷ b'P' ∷ b'D' ∷ b'A' ∷ b'T' ∷ b'E' ∷ []
request_type_to_string resign = b'R' ∷ b'E' ∷ b'S' ∷ b'I' ∷ b'G' ∷ b'N' ∷ []
request_type_to_string req_draw = b'D' ∷ b'R' ∷ b'A' ∷ b'W' ∷ []
request_type_to_string req_reset = b'R' ∷ b'E' ∷ b'S' ∷ b'E' ∷ b'T' ∷ []
request_type_to_string e_join = b'E' ∷ b'_' ∷ b'J' ∷ b'O' ∷ b'I' ∷ b'N' ∷ []
request_type_to_string e_end = b'E' ∷ b'_' ∷ b'E' ∷ b'N' ∷ b'D' ∷ []
request_type_to_string e_score = b'E' ∷ b'_' ∷ b'S' ∷ b'C' ∷ b'O' ∷ b'R' ∷ b'E' ∷ []
request_type_to_string i_players = b'I' ∷ b'_' ∷ b'P' ∷ b'L' ∷ b'A' ∷ b'Y' ∷ b'E' ∷ b'R' ∷ b'S' ∷ []
request_type_to_string i_table = b'I' ∷ b'_' ∷ b'T' ∷ b'A' ∷ b'B' ∷ b'L' ∷ b'E' ∷ []
request_type_to_string i_moves = b'I' ∷ b'_' ∷ b'M' ∷ b'O' ∷ b'V' ∷ b'E' ∷ b'S' ∷ []
request_type_to_string invite = b'I' ∷ b'N' ∷ b'V' ∷ b'I' ∷ b'T' ∷ b'E' ∷ []
request_type_to_string player_info =
    b'P' ∷ b'L' ∷ b'A' ∷ b'Y' ∷ b'E' ∷ b'R' ∷ b'_' ∷ b'I' ∷ b'N' ∷ b'F' ∷ b'O' ∷ []
request_type_to_string player_status =
    b'P' ∷ b'L' ∷ b'A' ∷ b'Y' ∷ b'E' ∷ b'R' ∷ b'_' ∷ b'S' ∷ b'T' ∷ b'A' ∷ b'T' ∷ b'U' ∷ b'S' ∷ []
request_type_to_string msg = b'M' ∷ b'S' ∷ b'G' ∷ []
request_type_to_string ping = b'P' ∷ b'I' ∷ b'N' ∷ b'G' ∷ []
request_type_to_string db_player_put =
    b'D' ∷ b'B' ∷ b'_' ∷ b'P' ∷ b'L' ∷ b'A' ∷ b'Y' ∷ b'E' ∷ b'R' ∷ b'_' ∷ b'P' ∷ b'U' ∷ b'T' ∷ []
request_type_to_string db_player_get =
    b'D' ∷ b'B' ∷ b'_' ∷ b'P' ∷ b'L' ∷ b'A' ∷ b'Y' ∷ b'E' ∷ b'R' ∷ b'_' ∷ b'G' ∷ b'E' ∷ b'T' ∷ []
request_type_to_string db_player_set =
    b'D' ∷ b'B' ∷ b'_' ∷ b'P' ∷ b'L' ∷ b'A' ∷ b'Y' ∷ b'E' ∷ b'R' ∷ b'_' ∷ b'S' ∷ b'E' ∷ b'T' ∷ []
request_type_to_string db_password_set =
    b'D' ∷ b'B' ∷ b'_' ∷ b'P' ∷ b'A' ∷ b'S' ∷ b'S' ∷ b'W' ∷ b'O' ∷ b'R' ∷ b'D' ∷ b'_' ∷ b'S' ∷ b'E'
    ∷ b'T' ∷ []
request_type_to_string http_get = b'H' ∷ b'T' ∷ b'T' ∷ b'P' ∷ b'_' ∷ b'G' ∷ b'E' ∷ b'T' ∷ []
request_type_to_string http_post = b'H' ∷ b'T' ∷ b'T' ∷ b'P' ∷ b'_' ∷ b'P' ∷ b'O' ∷ b'S' ∷ b'T' ∷ []
request_type_to_string req_log = b'L' ∷ b'O' ∷ b'G' ∷ []

-- The texts that stringToRequestType tests, in its order.
unfoldable pub request_types : List (Text × RequestType)
request_types =
    (b'U' ∷ b'N' ∷ b'K' ∷ b'N' ∷ b'O' ∷ b'W' ∷ b'N' ∷ [], RequestType.unknown)
    ∷ (b'H' ∷ b'E' ∷ b'L' ∷ b'L' ∷ b'O' ∷ [], hello)
    ∷ (b'R' ∷ b'E' ∷ b'G' ∷ b'I' ∷ b'S' ∷ b'T' ∷ b'E' ∷ b'R' ∷ [], register)
    ∷ (b'L' ∷ b'O' ∷ b'G' ∷ b'I' ∷ b'N' ∷ [], login)
    ∷ (b'L' ∷ b'O' ∷ b'G' ∷ b'O' ∷ b'U' ∷ b'T' ∷ [], logout)
    ∷ (b'S' ∷ b'H' ∷ b'U' ∷ b'T' ∷ b'D' ∷ b'O' ∷ b'W' ∷ b'N' ∷ [], shutdown)
    ∷ (b'P' ∷ b'O' ∷ b'L' ∷ b'L' ∷ [], poll)
    ∷ (b'M' ∷ b'O' ∷ b'V' ∷ b'E' ∷ [], req_move)
    ∷ (b'L' ∷ b'I' ∷ b'S' ∷ b'T' ∷ [], list)
    ∷ (b'N' ∷ b'E' ∷ b'W' ∷ [], req_new)
    ∷ (b'J' ∷ b'O' ∷ b'I' ∷ b'N' ∷ [], join)
    ∷ (b'L' ∷ b'E' ∷ b'A' ∷ b'V' ∷ b'E' ∷ [], leave)
    ∷ (b'U' ∷ b'P' ∷ b'D' ∷ b'A' ∷ b'T' ∷ b'E' ∷ [], update)
    ∷ (b'R' ∷ b'E' ∷ b'S' ∷ b'I' ∷ b'G' ∷ b'N' ∷ [], resign)
    ∷ (b'D' ∷ b'R' ∷ b'A' ∷ b'W' ∷ [], req_draw)
    ∷ (b'R' ∷ b'E' ∷ b'S' ∷ b'E' ∷ b'T' ∷ [], req_reset)
    ∷ (b'E' ∷ b'_' ∷ b'J' ∷ b'O' ∷ b'I' ∷ b'N' ∷ [], e_join)
    ∷ (b'E' ∷ b'_' ∷ b'E' ∷ b'N' ∷ b'D' ∷ [], e_end)
    ∷ (b'E' ∷ b'_' ∷ b'S' ∷ b'C' ∷ b'O' ∷ b'R' ∷ b'E' ∷ [], e_score)
    ∷ (b'I' ∷ b'_' ∷ b'P' ∷ b'L' ∷ b'A' ∷ b'Y' ∷ b'E' ∷ b'R' ∷ b'S' ∷ [], i_players)
    ∷ (b'I' ∷ b'_' ∷ b'T' ∷ b'A' ∷ b'B' ∷ b'L' ∷ b'E' ∷ [], i_table)
    ∷ (b'I' ∷ b'_' ∷ b'M' ∷ b'O' ∷ b'V' ∷ b'E' ∷ b'S' ∷ [], i_moves)
    ∷ (b'I' ∷ b'N' ∷ b'V' ∷ b'I' ∷ b'T' ∷ b'E' ∷ [], invite)
    ∷ (b'P' ∷ b'L' ∷ b'A' ∷ b'Y' ∷ b'E' ∷ b'R' ∷ b'_' ∷ b'I' ∷ b'N' ∷ b'F' ∷ b'O' ∷ [], player_info)
    ∷ (
      b'P' ∷ b'L' ∷ b'A' ∷ b'Y' ∷ b'E' ∷ b'R' ∷ b'_' ∷ b'S' ∷ b'T' ∷ b'A' ∷ b'T' ∷ b'U' ∷ b'S' ∷ [],
      player_status,
    )
    ∷ (b'M' ∷ b'S' ∷ b'G' ∷ [], msg)
    ∷ (b'P' ∷ b'I' ∷ b'N' ∷ b'G' ∷ [], ping)
    ∷ (
      b'D' ∷ b'B' ∷ b'_' ∷ b'P' ∷ b'L' ∷ b'A' ∷ b'Y' ∷ b'E' ∷ b'R' ∷ b'_' ∷ b'P' ∷ b'U' ∷ b'T' ∷ [],
      db_player_put,
    )
    ∷ (
      b'D' ∷ b'B' ∷ b'_' ∷ b'P' ∷ b'L' ∷ b'A' ∷ b'Y' ∷ b'E' ∷ b'R' ∷ b'_' ∷ b'G' ∷ b'E' ∷ b'T' ∷ [],
      db_player_get,
    )
    ∷ (
      b'D' ∷ b'B' ∷ b'_' ∷ b'P' ∷ b'L' ∷ b'A' ∷ b'Y' ∷ b'E' ∷ b'R' ∷ b'_' ∷ b'S' ∷ b'E' ∷ b'T' ∷ [],
      db_player_set,
    )
    ∷ (
      b'D' ∷ b'B' ∷ b'_' ∷ b'P' ∷ b'A' ∷ b'S' ∷ b'S' ∷ b'W' ∷ b'O' ∷ b'R' ∷ b'D' ∷ b'_' ∷ b'S'
          ∷ b'E' ∷ b'T' ∷ [],
      db_password_set,
    )
    ∷ (b'H' ∷ b'T' ∷ b'T' ∷ b'P' ∷ b'_' ∷ b'G' ∷ b'E' ∷ b'T' ∷ [], http_get)
    ∷ (b'H' ∷ b'T' ∷ b'T' ∷ b'P' ∷ b'_' ∷ b'P' ∷ b'O' ∷ b'S' ∷ b'T' ∷ [], http_post)
    ∷ (b'L' ∷ b'O' ∷ b'G' ∷ [], req_log)
    ∷ []

unfoldable pub string_to_request_type : Text → RequestType
unfolding lookup_text request_types
string_to_request_type s = lookup_text RequestType.unknown s request_types

unfoldable pub color_to_string : Color → Text
color_to_string Color.unknown = b'U' ∷ b'N' ∷ b'K' ∷ b'N' ∷ b'O' ∷ b'W' ∷ b'N' ∷ []
color_to_string red = b'R' ∷ b'e' ∷ b'd' ∷ []
color_to_string black = b'B' ∷ b'l' ∷ b'a' ∷ b'c' ∷ b'k' ∷ []
color_to_string no_color = b'N' ∷ b'o' ∷ b'n' ∷ b'e' ∷ []

unfoldable pub colors : List (Text × Color)
colors =
    (b'U' ∷ b'N' ∷ b'K' ∷ b'N' ∷ b'O' ∷ b'W' ∷ b'N' ∷ [], Color.unknown)
    ∷ (b'R' ∷ b'e' ∷ b'd' ∷ [], red)
    ∷ (b'B' ∷ b'l' ∷ b'a' ∷ b'c' ∷ b'k' ∷ [], black)
    ∷ (b'N' ∷ b'o' ∷ b'n' ∷ b'e' ∷ [], no_color)
    ∷ []

unfoldable pub string_to_color : Text → Color
unfolding lookup_text colors
string_to_color s = lookup_text Color.unknown s colors
