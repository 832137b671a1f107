-- ===== src/Server/Login.antt =====
-- The authentication of the first request of a connection in server/session.cpp. What
-- hoxDbClient::get_player_info reads of a player's account is a parameter, and so are the numbers for the
-- id of a new session.
use hox_server.Prelude.{
  ℕ, Bool, true, false, not, ◌&&◌, ◌==◌, ◌+◌, Option, none, some, [], ◌∷◌, if◌then◌else◌, ℤ, pos,
  eqb_ℤ,
}
use hox_server.Table.State.{
  Text, Player, normal, guest, not_found, not_valid, not_allowed, err, is_text,
}
use hox_server.Table.Elo.{Scale}
use hox_server.Util.Names.{RequestType, login}
use hox_server.Util.Numbers.{is_empty_text}
use hox_server.Util.Messages.{Request}
use hox_server.Server.State.{
  Server, Session, ClientType, Error, Outcome, done, throws, aborts, after_done,
}
use hox_server.Server.Players.{error}
use hox_server.Server.Sessions.{
  find_session, resume_connection, on_session, close_and_delete_session, create_session,
  generate_new_session_id,
}
use hox_server.Server.Handlers.{param}

abbrev pub pid_key : Text
pid_key = (b'p' ∷ b'i' ∷ b'd' ∷ [])

abbrev pub sid_key : Text
sid_key = (b's' ∷ b'i' ∷ b'd' ∷ [])

-- What the database has of a player.
pub record Account : Type 0 where
  pub score : ℤ
  pub wins : ℕ
  pub draws : ℕ
  pub losses : ℕ
  pub hpassword : Text

unfoldable pub is_prefix : Text → Text → Bool
is_prefix [] t = true
is_prefix (c ∷ s) [] = false
is_prefix (c ∷ s) (d ∷ t) = let rest = is_prefix s t in c == d && rest

-- bIsGuest.
unfoldable pub is_guest_id : Text → Bool
unfolding is_prefix
is_guest_id pid = is_prefix (b'G' ∷ b'u' ∷ b'e' ∷ b's' ∷ b't' ∷ b'#' ∷ []) pid

-- _authenticate_guest.
unfoldable pub authenticate_guest : Text → Player
authenticate_guest pid = record {
  id = pid;
  type = guest;
  score = pos 1500;
  wins = 0;
  draws = 0;
  losses = 0;
}

abbrev pub player_of : Text → Account → Player
player_of pid a = record {
  id = pid;
  type = normal;
  score = a.score;
  wins = a.wins;
  draws = a.draws;
  losses = a.losses;
}

-- _authenticate_player, of what the database gives.
unfoldable pub authenticate_player : Text → Text → Option Account → Server → Outcome Player
authenticate_player pid hpassword none s = throws s (
    error not_found (
      b'F' ∷ b'a' ∷ b'i' ∷ b'l' ∷ b'e' ∷ b'd' ∷ b' ' ∷ b't' ∷ b'o' ∷ b' ' ∷ b'g' ∷ b'e' ∷ b't'
      ∷ b' ' ∷ b'p' ∷ b'l' ∷ b'a' ∷ b'y' ∷ b'e' ∷ b'r' ∷ b'\'' ∷ b's' ∷ b' ' ∷ b'i' ∷ b'n' ∷ b'f'
      ∷ b'o' ∷ []))
authenticate_player pid hpassword (some a) s =
    if eqb_ℤ a.score (pos 0) && is_empty_text a.hpassword
    then throws s (
        error not_found (
          b'A' ∷ b'u' ∷ b't' ∷ b'h' ∷ b'e' ∷ b'n' ∷ b't' ∷ b'i' ∷ b'c' ∷ b'a' ∷ b't' ∷ b'i' ∷ b'o'
          ∷ b'n' ∷ b' ' ∷ b'f' ∷ b'a' ∷ b'i' ∷ b'l' ∷ b'e' ∷ b'd' ∷ []))
    else if is_text hpassword a.hpassword
    then done s (player_of pid a)
    else throws s (
        error not_valid (
          b'W' ∷ b'r' ∷ b'o' ∷ b'n' ∷ b'g' ∷ b' ' ∷ b'p' ∷ b'a' ∷ b's' ∷ b's' ∷ b'w' ∷ b'o' ∷ b'r'
          ∷ b'd' ∷ []))

-- `new hoxPlayer`: the next address.
abbrev pub add_player_object : Player → Server → Server
add_player_object v s = record s {
  players = λ q. if q == s.next then v else s.players q;
  next = s.next + 1;
}

abbrev pub open_error : Error
open_error = error err (
    b'F' ∷ b'a' ∷ b'i' ∷ b'l' ∷ b'e' ∷ b'd' ∷ b' ' ∷ b't' ∷ b'o' ∷ b' ' ∷ b'c' ∷ b'r' ∷ b'e' ∷ b'a'
    ∷ b't' ∷ b'e' ∷ b' ' ∷ b'a' ∷ b' ' ∷ b'S' ∷ b'e' ∷ b's' ∷ b's' ∷ b'i' ∷ b'o' ∷ b'n' ∷ [])

-- Whether there is a session.
unfoldable pub session_or_error : Server × Option Text → Outcome Text
session_or_error (s, none) = throws s open_error
session_or_error (s, some i) = done s i

abbrev pub authenticate : (Text → Option Account) → Text → Text → Server → Outcome Player
authenticate get_player_info pid hpassword s =
    if is_guest_id pid
    then done s (authenticate_guest pid)
    else authenticate_player pid hpassword (get_player_info pid) s

abbrev pub is_login : RequestType → Bool
is_login t = elim t [ login ↦ true | _ ↦ false ]

-- The session of the id that the request has, if it is the found one.
abbrev pub is_own_session : Text → Option (Text × Session) → Bool
is_own_session sid found = elim found [ none ↦ false | some (i, x) ↦ is_text i sid ]

module _ (scale : Scale) (thread_ok : Bool) (now : ℤ) (get_player_info : Text → Option Account)
    (fuel : ℕ) (random : ℕ → ℕ) where
  -- createSession for the authenticated player; a loop out of fuel counts as an abort.
  unfoldable pub open_session : ClientType → Player → Server → Outcome Text
  unfolding generate_new_session_id create_session session_or_error
  open_session client v s = elim (generate_new_session_id fuel random s.sessions) [
    | none ↦ aborts
    | some i ↦
        session_or_error (create_session thread_ok now client s.next i (add_player_object v s))
  ]

  -- An existing session is resumed, or closed, and then a new one takes its place.
  unfoldable pub replace_session :
      ClientType → Bool → Player → Option (Text × Session) → Server → Outcome Text
  unfolding open_session resume_connection close_and_delete_session
  replace_session client is_guest v none s = open_session client v s
  replace_session client is_guest v (some (i, x)) s =
      let resumed = resume_connection thread_ok client x in
      let tried = if is_guest then x else resumed.0 in
      let s' = on_session i (λ y. tried) s in
      if not is_guest && resumed.1
      then done s' i
      else after_done (close_and_delete_session scale i tried s') (λ t b. open_session client v t)

  -- _authenticate_request: the id of the session.
  unfoldable pub authenticate_request : ClientType → Request → Server → Outcome Text
  unfolding find_session authenticate_player authenticate_guest replace_session
  authenticate_request client r s =
      let pid = param r pid_key in
      let sid = param r sid_key in
      let found = find_session s.players pid s.sessions in
      if is_own_session sid found
      then done s sid
      else if is_login r.type
      then after_done
          (authenticate get_player_info pid
            (param r (b'p' ∷ b'a' ∷ b's' ∷ b's' ∷ b'w' ∷ b'o' ∷ b'r' ∷ b'd' ∷ [])) s)
          (λ s' v. replace_session client (is_guest_id pid) v found s')
      else throws s (
          error not_allowed (
            b'N' ∷ b'o' ∷ b't' ∷ b' ' ∷ b'y' ∷ b'e' ∷ b't' ∷ b' ' ∷ b'a' ∷ b'u' ∷ b't' ∷ b'h' ∷ b'e'
            ∷ b'n' ∷ b't' ∷ b'i' ∷ b'c' ∷ b'a' ∷ b't' ∷ b'e' ∷ b'd' ∷ []))
