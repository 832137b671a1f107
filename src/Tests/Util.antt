-- ===== src/Tests/Util.antt =====
-- The theorems on server/hoxUtil.cpp at texts.
use hox_server.Prelude.{◌≡◌, refl, true, ◌⊎◌, [], ◌∷◌, ◌++◌, contains, pos, negsuc}
use hox_server.Table.State.{Text, TimeInfo}
use hox_server.Util.Names.{
  RequestType, login, leave, string_to_request_type, request_type_to_string,
}
use hox_server.Util.RoundTrip.{
  string_to_request_type-request_type_to_string, request_type_to_string-string_to_request_type,
}
use hox_server.Util.Numbers.{int_to_string, string_to_int, ends_number, string_to_int-int_to_string}
use hox_server.Util.Times.{
  string_to_time_info, time_info_to_string, string_to_time_info-time_info_to_string,
}
use hox_server.Util.Messages.{
  Parameters, Request, before_text, parse_network_message, request_to_string,
}
use hox_server.Util.Parsing.{
  is_ordered, keys_after, are_writable, parse_network_message-request_to_string,
}
use hox_server.Tests.Splitter.{split, split-SplitsTokens, split-SplitsFields}

ends_number-slash : ends_number (b'/' ∷ []) ≡ true
unfolding ends_number
ends_number-slash = refl

abbrev ping_text : Text
ping_text = b'P' ∷ b'I' ∷ b'N' ∷ b'G' ∷ []

string_to_request_type-request_type_to_string_example :
    string_to_request_type (request_type_to_string leave) ≡ leave
string_to_request_type-request_type_to_string_example =
    string_to_request_type-request_type_to_string leave

request_type_to_string-string_to_request_type_example :
    (string_to_request_type ping_text ≡ RequestType.unknown)
    ⊎ (request_type_to_string (string_to_request_type ping_text) ≡ ping_text)
request_type_to_string-string_to_request_type_example =
    request_type_to_string-string_to_request_type ping_text

string_to_int-int_to_string_example :
    string_to_int (int_to_string (negsuc 41) ++ b'/' ∷ []) ≡ negsuc 41
string_to_int-int_to_string_example =
    string_to_int-int_to_string (negsuc 41) (b'/' ∷ []) ends_number-slash

abbrev times : TimeInfo
times = record { game = pos 1500; move = pos 300; free = pos 20 }

string_to_time_info-time_info_to_string_example :
    string_to_time_info (split b'/') (time_info_to_string times) ≡ times
string_to_time_info-time_info_to_string_example =
    string_to_time_info-time_info_to_string (split b'/') (split-SplitsTokens b'/') times

abbrev login_params : Parameters
login_params =
    (b'p' ∷ b'i' ∷ b'd' ∷ [], b'a' ∷ b'n' ∷ b'n' ∷ []) ∷ (b's' ∷ b'i' ∷ b'd' ∷ [], b'7' ∷ []) ∷ []

abbrev login_request : Request
login_request = record { type = login; parameters = login_params }

login_params-ordered : is_ordered login_params ≡ true
unfolding is_ordered keys_after before_text
login_params-ordered = refl

login_params-writable : are_writable login_params ≡ true
unfolding are_writable contains
login_params-writable = refl

parse_network_message-request_to_string_example :
    parse_network_message (split b'&') (request_to_string login_request) ≡ login_request
parse_network_message-request_to_string_example =
    parse_network_message-request_to_string (split b'&') split-SplitsFields login login_params
      login_params-ordered login_params-writable
