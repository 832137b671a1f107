-- ===== src/Tests/Server.antt =====
-- The theorems on the server at a guest who connects by polling and opens a table.
use hox_server.Prelude.{
  ℕ, ◌≡◌, refl, sym, ap, ◌∙◌, subst, ◌++◌, ℤ, negsuc, Bool, true, false, ◌+◌, Option, none, some,
  List, [], ◌∷◌, is_some, pos,
}
use hox_server.Table.State.{Text, Player, guest, not_found, new_table, is_text}
use hox_server.Table.Seats.{assign_player_as}
use hox_server.Table.Elo.{Scale}
use hox_server.TableMgr.State.{find_table}
use hox_server.Util.Names
use hox_server.Util.Messages.{Request, get_param}
use hox_server.Util.Numbers.{
  decimal, string_to_int, int_to_string, string_to_int-int_to_string, ends_number-nil,
}
use hox_server.Util.RoundTrip.{is_text→≡}
use hox_server.Response.Events.{create_event_ping}
use hox_server.Server.State.{
  Server, Session, Outcome, done, throws, aborts, http, hoxchess, polling, find_session_of_id,
  add_response,
}
use hox_server.Server.State
use hox_server.Server.Sessions
use hox_server.Server.Handlers
use hox_server.Server.Login
use hox_server.Server.Runs.{
  Runs, starts, connects, requests, first_server, server_left, Runs-Consistent,
}
use hox_server.Server.Consistent.{Consistent, is_at}
use hox_server.Server.Strangers.{is_table_request, handle_request-refused}
use hox_server.Server.Players.{error, not_found_text}
use hox_server.Server.Queues.{Use, posts, polls, Refines, use_session-Refines}
use hox_server.Tests.Splitter.{split}

abbrev no_player : Player
no_player = record { id = []; type = guest; score = pos 0; wins = 0; draws = 0; losses = 0 }

abbrev scale : Scale
scale a b c = pos 0

abbrev nobody : Server
nobody = first_server (λ p. no_player)

abbrev guest_name : Text
guest_name = b'G' ∷ b'u' ∷ b'e' ∷ b's' ∷ b't' ∷ b'#' ∷ b'1' ∷ []

abbrev login_request : Request
login_request = record { type = Names.login; parameters = (Login.pid_key, guest_name) ∷ [] }

abbrev new_request : Request
new_request = record { type = Names.req_new; parameters = [] }

abbrev five : Text
five = b'5' ∷ []

abbrev get : Option Server → Server
get none = nobody
get (some s) = s

get_of : (o : Option Server) → is_some o ≡ true → o ≡ some (get o)
get_of none h = cc
get_of (some s) h = refl

abbrev connected_by : Option Server
connected_by = server_left (
    Login.authenticate_request scale true (pos 100) (λ pid. none) 3 (λ k. 5 + k) http login_request
      nobody)

connected_by-some : is_some connected_by ≡ true
unfolding Login.authenticate_request Login.is_guest_id get_param
connected_by-some = refl

abbrev opened_by : Option Server
opened_by =
    Handlers.handle_request (split b'/') scale (pos 101) five 0 new_request (get connected_by)

opened_by-some : is_some opened_by ≡ true
unfolding Login.authenticate_request Handlers.handle_request Login.is_guest_id get_param
    assign_player_as Names.string_to_color new_table
opened_by-some = refl

opened_by-Runs : Runs scale (get opened_by)
opened_by-Runs =
    requests (split b'/') (pos 101) five 0 new_request
      (connects true (pos 100) (λ pid. none) 3 (λ k. 5 + k) http login_request
        (starts (λ p. no_player)) (get_of connected_by connected_by-some))
      (get_of opened_by opened_by-some)

Runs-Consistent_example : Consistent (get opened_by)
Runs-Consistent_example = Runs-Consistent opened_by-Runs

abbrev idle_session : Session
idle_session = Sessions.new_session true (pos 100) polling 0

abbrev value : Outcome Bool → Bool
value (done s b) = b
value (throws s e) = false
value aborts = false

abbrev is_done : Outcome Bool → Bool
is_done (done s b) = true
is_done (throws s e) = false
is_done aborts = false

abbrev linked : Option Server
linked = server_left (
    Login.authenticate_request scale true (pos 100) (λ pid. none) 3 (λ k. 5 + k) hoxchess
      login_request nobody)

abbrev six : Text
six = b'6' ∷ []

-- Meanwhile the write thread of another session renews its time stamp.
abbrev others : Text → Server → Server
others k s = Sessions.on_session six (λ x. record x { update_time = pos 801 }) s

abbrev first_run : Outcome Bool
first_run = Sessions.manage_sessions scale others (pos 800) (get linked)

abbrev second_run : Outcome Bool
second_run = Sessions.manage_sessions scale others (pos 805) (get (server_left first_run))

linked-there : is_some (find_session_of_id five (get linked).sessions) ≡ true
unfolding Login.authenticate_request Login.is_guest_id get_param find_session_of_id
    Sessions.new_session decimal
linked-there = refl

abbrev uses : List Use
uses = posts create_event_ping ∷ polls ∷ posts create_event_ping ∷ []

idle_session-polling : Sessions.is_polling idle_session.type ≡ true
unfolding Sessions.new_session
idle_session-polling = refl

use_session-Refines_example : Refines uses idle_session
use_session-Refines_example = use_session-Refines uses idle_session idle_session-polling

-- The guest sits at table 1 and asks to move at table 2.
abbrev two : Text
two = b'2' ∷ []

abbrev move_request : Request
move_request = record { type = Names.req_move; parameters = (Handlers.tid_key, two) ∷ [] }

abbrev natural : ℤ → ℕ
natural (pos n) = n
natural (negsuc n) = 0

decimal-two : (k : ℕ) → is_text (decimal k) two ≡ true → 2 ≡ k
unfolding int_to_string string_to_int
decimal-two k h =
    ap (λ s. natural (string_to_int (s ++ []))) (sym (is_text→≡ (decimal k) two h))
    ∙ ap natural (string_to_int-int_to_string (pos k) [] ends_number-nil)

named-two :
    (k : ℕ) → is_text (decimal k) (Handlers.param move_request Handlers.tid_key) ≡ true → 2 ≡ k
unfolding get_param
named-two k h = decimal-two k h

away_from_two : is_at 0 (find_table 2 (get opened_by).manager.tables) ≡ false
unfolding Login.authenticate_request Handlers.handle_request Login.is_guest_id get_param
    assign_player_as Names.string_to_color new_table find_table
away_from_two = refl

req_move-table : is_table_request Names.req_move ≡ true
unfolding is_table_request
req_move-table = refl

handle_request-refused_example :
    Handlers.handle_request (split b'/') scale (pos 107) five 0 move_request (get opened_by)
    ≡ some (
        Sessions.on_session five
          (add_response (
            Handlers.error_response
              (split b'/')
              scale
              (pos 107)
              Names.req_move
              (error not_found not_found_text)))
          (Sessions.on_session five (Sessions.update_time_stamp (pos 107)) (get opened_by)))
handle_request-refused_example =
    handle_request-refused (split b'/') scale (pos 107) five 0 move_request (get opened_by)
      (Runs-Consistent opened_by-Runs) req_move-table
      (λ k named.
        subst (λ n. is_at 0 (find_table n (get opened_by).manager.tables) ≡ false)
          (named-two k named) away_from_two)
