-- ===== src/Util/Parsing.antt =====
-- A request is read back from its text.
use hox_server.Prelude.{
  ℕ, ◌≡◌, refl, sym, ◌∙◌, ap, arith, Bool, true, false, not, ◌&&◌, ◌||◌, ◌==◌, List, [], ◌∷◌, ◌++◌,
  append_assoc, contains, contains-append,
}
use mathlib.Core.List.{append-nil}
use hox_server.Table.State.{Text, is_text}
use hox_server.Util.Names.{
  RequestType, hello, register, login, logout, shutdown, poll, req_move, list, req_new, join, leave,
  update, resign, req_draw, req_reset, e_join, e_end, e_score, i_players, i_table, i_moves, invite,
  player_info, player_status, msg, ping, db_player_put, db_player_get, db_player_set,
  db_password_set, http_get, http_post, req_log, request_type_to_string,
}
use hox_server.Util.Numbers.{is_empty_text}
use hox_server.Util.Times.{join_texts}
use hox_server.Util.RoundTrip.{string_to_request_type-request_type_to_string}
use hox_server.Util.Messages.{
  Parameters, Request, before_text, set_param, write_params, request_to_string, name_of, value_of,
  op_name, read_field, read_fields, no_request, parse_network_message,
}

before_text-asym : (s t : Text) → before_text s t ≡ true → (is_text t s || before_text t s) ≡ false
unfolding before_text
before_text-asym s [] h = ground (arith, h)
before_text-asym [] (d ∷ t) h = refl
before_text-asym (c ∷ s) (d ∷ t) h = ground (arith, h, before_text-asym s t)

-- Every key is before the given one.
unfoldable pub keys_before : Parameters → Text → Bool
keys_before [] k = true
keys_before ((j, v) ∷ ps) k = before_text j k && keys_before ps k

unfoldable pub keys_after : Text → Parameters → Bool
keys_after k [] = true
keys_after k ((j, v) ∷ ps) = before_text k j && keys_after k ps

-- The order of std::map.
unfoldable pub is_ordered : Parameters → Bool
is_ordered [] = true
is_ordered ((k, v) ∷ ps) = keys_after k ps && is_ordered ps

set_param-last :
    (k v : Text) (ps : Parameters) → keys_before ps k ≡ true → set_param k v ps ≡ ps ++ (k, v) ∷ []
unfolding set_param keys_before
set_param-last k v [] h = refl
set_param-last k v ((j, u) ∷ ps) h = ground (arith, h, before_text-asym j k, set_param-last k v ps)

keys_after-append :
    (k j v : Text) (ps qs : List (Text × Text))
    → keys_after k (ps ++ (j, v) ∷ qs) ≡ true
    → before_text k j ≡ true
unfolding keys_after
keys_after-append k j v [] qs h = ground (arith, h)
keys_after-append k j v ((i, u) ∷ ps) qs h = ground (arith, h, keys_after-append k j v ps qs)

is_ordered-append :
    (j v : Text) (ps qs : Parameters)
    → is_ordered (ps ++ (j, v) ∷ qs) ≡ true
    → keys_before ps j ≡ true
unfolding is_ordered keys_before
is_ordered-append j v [] qs h = refl
is_ordered-append j v ((i, u) ∷ ps) qs h =
    ground (arith, h, keys_after-append i j v ps qs, is_ordered-append j v ps qs)

field_of : Text → Text → Text
field_of k v = k ++ b'=' ∷ v

name_of-field : (k v : Text) → contains b'=' k ≡ false → name_of (field_of k v) ≡ k
unfolding name_of contains field_of
name_of-field [] v h = refl
name_of-field (c ∷ k) v h = ground (arith, h, name_of-field k v)

value_of-field : (k v : Text) → contains b'=' k ≡ false → value_of (field_of k v) ≡ v
unfolding value_of contains field_of
value_of-field [] v h = refl
value_of-field (c ∷ k) v h = ground (arith, h, value_of-field k v)

fields : Parameters → List Text
fields [] = []
fields ((k, v) ∷ ps) = field_of k v ∷ fields ps

-- A text in which the separator of fields has no meaning, nor the escape or the quote.
abbrev pub is_plain : Text → Bool
is_plain s = not (contains b'&' s) && (not (contains b'\\' s) && not (contains b'"' s))

unfoldable pub are_plain : List Text → Bool
are_plain [] = true
are_plain (t ∷ ts) = not (is_empty_text t) && is_plain t && are_plain ts

-- Of a request that can be written: names are no texts with `=`, and not the name of the type.
abbrev pub is_writable_param : Text → Text → Bool
is_writable_param k v =
    not (contains b'=' k) && not (is_text k op_name) && (is_plain k && is_plain v)

unfoldable pub are_writable : Parameters → Bool
are_writable [] = true
are_writable ((k, v) ∷ ps) = is_writable_param k v && are_writable ps

contains-field :
    (c : ℕ) (k v : Text)
    → (c == b'=') ≡ false
    → contains c k ≡ false
    → contains c v ≡ false
    → contains c (field_of k v) ≡ false
unfolding contains field_of
contains-field c k v h hk hv = ground (arith, h, hk, hv, contains-append c k (b'=' ∷ v))

is_empty_text-field : (k v : Text) → is_empty_text (field_of k v) ≡ false
unfolding field_of
is_empty_text-field [] v = refl
is_empty_text-field (c ∷ k) v = refl

field_of-plain : (k v : Text) → is_writable_param k v ≡ true → is_plain (field_of k v) ≡ true
field_of-plain k v h = ground (
  arith,
  h,
  contains-field b'&' k v refl,
  contains-field b'\\' k v refl,
  contains-field b'"' k v refl,
)

fields-plain : (ps : Parameters) → are_writable ps ≡ true → are_plain (fields ps) ≡ true
unfolding are_writable fields are_plain
fields-plain [] h = refl
fields-plain ((k, v) ∷ ps) h =
    ground (arith, h, field_of-plain k v, is_empty_text-field k v, fields-plain ps)

join_texts-fields :
    (s : Text) (ps : Parameters) → join_texts b'&' (s ∷ fields ps) ≡ s ++ write_params ps
unfolding join_texts fields write_params field_of
join_texts-fields s [] = sym (append-nil s)
join_texts-fields s ((k, v) ∷ ps) =
    ap (λ t. s ++ b'&' ∷ t)
      (join_texts-fields (field_of k v) ps ∙ append_assoc k (b'=' ∷ v) (write_params ps))

request_of : RequestType → Parameters → Request
request_of t ps = record { type = t; parameters = ps }

-- A writable field is read into the map.
read_field-field :
    (t : RequestType) (ps : Parameters) (k v : Text)
    → is_writable_param k v ≡ true
    → read_field (request_of t ps) (name_of (field_of k v)) (value_of (field_of k v))
      ≡ request_of t (set_param k v ps)
unfolding request_of
read_field-field t ps k v h =
    let other : is_text k op_name ≡ false = ground (arith, h) in
    let named : contains b'=' k ≡ false = ground (arith, h) in
    rw (name_of-field k v named, value_of-field k v named, other) refl

read_fields-fields :
    (t : RequestType) (ps qs : Parameters)
    → is_ordered (ps ++ qs) ≡ true
    → are_writable qs ≡ true
    → read_fields (request_of t ps) (fields qs) ≡ request_of t (ps ++ qs)
unfolding read_fields fields are_writable
read_fields-fields t ps [] h k = ap (request_of t) (sym (append-nil ps))
read_fields-fields t ps ((i, v) ∷ qs) h k =
    let kept : Parameters = ps ++ (i, v) ∷ [] in
    let moved = append_assoc ps ((i, v) ∷ []) qs in
    let read =
      read_field-field t ps i v (ground (arith, k))
      ∙ ap (request_of t) (set_param-last i v ps (is_ordered-append i v ps qs h)) in
    ap (λ r. read_fields r (fields qs)) read
    ∙ read_fields-fields t kept qs (ap is_ordered moved ∙ h) (ground (arith, k))
    ∙ ap (request_of t) moved

op_field : RequestType → Text
op_field t = b'o' ∷ b'p' ∷ b'=' ∷ request_type_to_string t

op_field-plain : (t : RequestType) → is_plain (op_field t) ≡ true
unfolding op_field request_type_to_string contains
op_field-plain RequestType.unknown = refl
op_field-plain hello = refl
op_field-plain register = refl
op_field-plain login = refl
op_field-plain logout = refl
op_field-plain shutdown = refl
op_field-plain poll = refl
op_field-plain req_move = refl
op_field-plain list = refl
op_field-plain req_new = refl
op_field-plain join = refl
op_field-plain leave = refl
op_field-plain update = refl
op_field-plain resign = refl
op_field-plain req_draw = refl
op_field-plain req_reset = refl
op_field-plain e_join = refl
op_field-plain e_end = refl
op_field-plain e_score = refl
op_field-plain i_players = refl
op_field-plain i_table = refl
op_field-plain i_moves = refl
op_field-plain invite = refl
op_field-plain player_info = refl
op_field-plain player_status = refl
op_field-plain msg = refl
op_field-plain ping = refl
op_field-plain db_player_put = refl
op_field-plain db_player_get = refl
op_field-plain db_player_set = refl
op_field-plain db_password_set = refl
op_field-plain http_get = refl
op_field-plain http_post = refl
op_field-plain req_log = refl

abbrev pub has_field : List Text → Bool
has_field [] = false
has_field (t ∷ ts) = true

-- What the tokenizer does with plain texts: it parts them where they are joined.
abbrev pub SplitsFields : (Text → List Text) → Type 0
SplitsFields tokens =
    (ts : List Text) → are_plain ts ≡ true → has_field ts ≡ true → tokens (join_texts b'&' ts) ≡ ts

all_plain :
    (t : RequestType) (ps : Parameters)
    → are_writable ps ≡ true
    → are_plain (op_field t ∷ fields ps) ≡ true
unfolding are_plain op_field
all_plain t ps k = rw (op_field-plain t, fields-plain ps k) refl

op_field-read :
    (t : RequestType)
    → read_field no_request (name_of (op_field t)) (value_of (op_field t)) ≡ request_of t []
unfolding op_field name_of value_of request_of
op_field-read t = ap (λ u. request_of u []) (string_to_request_type-request_type_to_string t)

-- A request whose parameters are in the order of their keys, with no byte in them that has a meaning
-- for the tokenizer, no `=` in a key and no key `op`, is read back from its text.
pub parse_network_message-request_to_string :
    (tokens : Text → List Text)
    → SplitsFields tokens
    → (t : RequestType) (ps : Parameters) → is_ordered ps ≡ true
    → are_writable ps ≡ true
    → parse_network_message tokens (request_to_string (record { type = t; parameters = ps }))
      ≡ record { type = t; parameters = ps }
unfolding parse_network_message request_to_string fields request_of read_fields op_field
parse_network_message-request_to_string tokens splits t ps h k =
    ap (read_fields no_request) (
      ap tokens (sym (join_texts-fields (op_field t) ps))
      ∙ splits (op_field t ∷ fields ps) (all_plain t ps k) refl)
    ∙ ap (λ r. read_fields r (fields ps)) (op_field-read t)
    ∙ read_fields-fields t [] ps h k
