-- ===== src/Util/Messages.antt =====
-- hoxRequest of server/hoxTypes.h and server/hoxTypes.cpp, and parse_network_message of
-- server/hoxUtil.cpp. The tokens that boost::tokenizer finds with boost::escaped_list_separator<char>
-- are a parameter.
use hox_server.Prelude.{ℕ, Bool, true, false, ◌==◌, ltb, List, [], ◌∷◌, ◌++◌, if◌then◌else◌}
use hox_server.Table.State.{Text, is_text}
use hox_server.Util.Names.{RequestType, request_type_to_string, string_to_request_type}

-- operator< of std::string.
unfoldable pub before_text : Text → Text → Bool
before_text s [] = false
before_text [] (d ∷ t) = true
before_text (c ∷ s) (d ∷ t) = let rest = before_text s t in if c == d then rest else ltb c d

-- hoxParameters: a map, in the order of its keys.
abbrev pub Parameters : Type 0
Parameters = List (Text × Text)

unfoldable pub find_param : Text → Parameters → Text
find_param k [] = []
find_param k ((j, v) ∷ ps) = if is_text k j then v else find_param k ps

unfoldable pub has_param : Text → Parameters → Bool
has_param k [] = false
has_param k ((j, v) ∷ ps) = if is_text k j then true else has_param k ps

-- `_parameters[key] = value`.
unfoldable pub set_param : Text → Text → Parameters → Parameters
set_param k v [] = (k, v) ∷ []
set_param k v ((j, u) ∷ ps) =
    let rest = set_param k v ps in
    if is_text k j
    then (j, v) ∷ ps
    else if before_text k j
    then (k, v) ∷ (j, u) ∷ ps
    else (j, u) ∷ rest

pub record Request : Type 0 where
  pub type : RequestType
  pub parameters : Parameters

-- hoxRequest::getParam: the value, and the request, to which a missing key has been added.
unfoldable pub get_param : Request → Text → Text × Request
unfolding find_param has_param set_param
get_param r k =
    let added = record r { parameters = set_param k [] r.parameters } in
    (find_param k r.parameters, if has_param k r.parameters then r else added)

unfoldable pub write_params : Parameters → Text
write_params [] = []
write_params ((k, v) ∷ ps) = b'&' ∷ (k ++ b'=' ∷ (v ++ write_params ps))

-- hoxRequest::toString.
unfoldable pub request_to_string : Request → Text
request_to_string r =
    b'o' ∷ b'p' ∷ b'=' ∷ (request_type_to_string r.type ++ write_params r.parameters)

-- The name and the value of a token, around its first `=`.
unfoldable pub name_of : Text → Text
name_of [] = []
name_of (c ∷ s) = let rest = name_of s in if c == b'=' then [] else c ∷ rest

unfoldable pub value_of : Text → Text
value_of [] = []
value_of (c ∷ s) = let rest = value_of s in if c == b'=' then s else rest

abbrev pub op_name : Text
op_name = b'o' ∷ b'p' ∷ []

abbrev pub read_field : Request → Text → Text → Request
read_field r name value =
    if is_text name op_name
    then record r { type = string_to_request_type value }
    else record r { parameters = set_param name value r.parameters }

-- The loop of parse_network_message over the tokens.
unfoldable pub read_fields : Request → List Text → Request
read_fields r [] = r
read_fields r (t ∷ ts) = read_fields (read_field r (name_of t) (value_of t)) ts

abbrev pub no_request : Request
no_request = record { type = RequestType.unknown; parameters = [] }

-- parse_network_message, with the constructor of hoxRequest that calls it.
unfoldable pub parse_network_message : (Text → List Text) → Text → Request
parse_network_message tokens s = read_fields no_request (tokens s)

-- hoxRequest::isValid.
unfoldable pub is_valid_request : Request → Bool
is_valid_request r = elim r.type [ RequestType.unknown ↦ false | _ ↦ true ]

-- hoxUtil::trimLast: one byte at the end goes, if it is the given one.
unfoldable pub trim_last : Text → ℕ → Text
trim_last [] c = []
trim_last (d ∷ []) c = if d == c then [] else d ∷ []
trim_last (d ∷ e ∷ s) c = d ∷ trim_last (e ∷ s) c
