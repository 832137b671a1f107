-- ===== src/Server/Runs.antt =====
-- The runs of the server: first requests that open or resume sessions, requests, the manager of the
-- sessions, and the end of a session's loop, in any order. Every server that they lead to is consistent.
use hox_server.Prelude.{
  ℕ, ◌≡◌, refl, subst, arith, Bool, true, false, ◌&&◌, not, Option, none, some, List, [], ◌∷◌,
  if◌then◌else◌, contains, Bool-cases, Option-cases, inl, inr, ℤ, pos, eqb_ℤ,
}
use hox_server.Table.State.{Table, Text, Player, is_text}
use hox_server.Table.Elo.{Scale}
use hox_server.TableMgr.State.{find_table}
use hox_server.TableMgr.Numbers.{times_used, times_free}
use hox_server.Util.Numbers.{is_empty_text}
use hox_server.Util.Messages.{Request}
use hox_server.Server.State.{
  Server, Session, ClientType, Outcome, find_session_of_id, done, throws, aborts,
}
use hox_server.Server.Sessions
use hox_server.Server.Handlers.{handle_request, param, manage_tables, checking}
use hox_server.Server.Login
use hox_server.Server.Consistent.{
  Consistent, Keeps, done_keeps, throws_keeps, aborts_keeps, after_done-Keeps,
  run_cleanup-IsConsistent,
}
use hox_server.Server.Requested.{at_table-Keeps, checking-Behaves}
use hox_server.Server.Membership.{leave_all_tables-Keeps}
use hox_server.Server.Kept.{handle_request-Consistent, server_of}

-- What is left of the server by a method, whether it returns or throws.
abbrev pub server_left {ℓ} : {A : Type ℓ} → Outcome A → Option Server
server_left (done s a) = some s
server_left (throws s e) = some s
server_left aborts = none

Keeps-left :
    {A : Type 0} (o : Outcome A) (s : Server)
    → Keeps Consistent o
    → server_left o ≡ some s
    → Consistent s
Keeps-left (done u a) s (done_keeps _ _ c) h = subst Consistent (server_of u s h) c
Keeps-left (throws u e) s (throws_keeps _ _ c) h = subst Consistent (server_of u s h) c
Keeps-left aborts s aborts_keeps h = ground (arith, h)

module _ (scale : Scale) (now : ℤ) where
  begin_shutdown-Keeps :
      (i : Text) (p : ℕ) (s : Server)
      → Consistent s
      → Keeps Consistent (Sessions.begin_shutdown scale i p s)
  unfolding Sessions.begin_shutdown
  begin_shutdown-Keeps i p s c =
      after_done-Keeps _ _ (leave_all_tables-Keeps scale now p s c) (λ s' b k. done_keeps _ true k)

  handle_shutdown-Keeps :
      (i : Text) (p : ℕ) (s : Server)
      → Consistent s
      → Keeps Consistent (Sessions.handle_shutdown scale i p s)
  unfolding Sessions.handle_shutdown
  handle_shutdown-Keeps i p s c =
      after_done-Keeps _ _ (begin_shutdown-Keeps i p s c) (λ s' b k. done_keeps _ true k)

  close_and_delete_session-Keeps :
      (i : Text) (x : Session) (s : Server)
      → Consistent s
      → Keeps Consistent (Sessions.close_and_delete_session scale i x s)
  unfolding Sessions.close_and_delete_session Sessions.delete_session
  close_and_delete_session-Keeps i x s c =
      after_done-Keeps _ _ (handle_shutdown-Keeps i x.player s c)
        (λ s' b k. done_keeps _ true (run_cleanup-IsConsistent s'.tables_of s'.manager k))

  test_session-Keeps :
      (i : Text) (s : Server)
      → Consistent s
      → Keeps Consistent (Sessions.test_session scale now i s)
  unfolding Sessions.test_session
  test_session-Keeps i s c = elim (Option-cases (find_session_of_id i s.sessions)) [
    | inl lost ↦ rw (lost, Sessions.test_session) (done_keeps s false c)
    | inr (x, found) ↦ elim (Bool-cases (Sessions.is_expired now x)) [
      | inl old ↦
          rw (found, Sessions.test_session, old)
            (after_done-Keeps _ _ (begin_shutdown-Keeps i x.player s c)
              (λ s' b k. done_keeps s' (Sessions.waits x) k))
      | inr new ↦ rw (found, Sessions.test_session, new) (done_keeps s false c)
    ]
  ]

purge_sessions-Consistent : (s : Server) → Consistent s → Consistent (Sessions.purge_sessions s)
unfolding Sessions.purge_sessions
purge_sessions-Consistent s c = c

delete_session-Consistent :
    (i : Text) (x : Session) (s : Server)
    → Consistent s
    → Consistent (Sessions.delete_session i x (Sessions.cleaned s))
unfolding Sessions.delete_session
delete_session-Consistent i x s c = run_cleanup-IsConsistent s.tables_of s.manager c

module _ (ok : Bool) (now : ℤ) (client : ClientType) (p : ℕ) (i : Text) (s : Server) where
  abbrev session_for : Session
  session_for = Sessions.new_session ok now (Sessions.session_type client) p

  pub created :
      Sessions.is_active session_for.state ≡ true
      → Sessions.create_session ok now client p i s ≡ (Sessions.add_session s i session_for, some i)
  unfolding Sessions.create_session
  created h = rw (h, Sessions.create_session) refl

  pub not_created :
      Sessions.is_active session_for.state ≡ false
      → Sessions.create_session ok now client p i s ≡ (s, none)
  unfolding Sessions.create_session
  not_created h = rw (h, Sessions.create_session) refl

module _ (scale : Scale) (ok : Bool) (now : ℤ) (db : Text → Option Login.Account) (fuel : ℕ)
    (random : ℕ → ℕ) where
  open_session-Keeps :
      (client : ClientType) (v : Player) (s : Server)
      → Consistent s
      → Keeps Consistent (Login.open_session scale ok now db fuel random client v s)
  unfolding Login.open_session Login.session_or_error
  open_session-Keeps client v s c =
      elim (Option-cases (Sessions.generate_new_session_id fuel random s.sessions)) [
        | inl lost ↦ rw (lost, Login.open_session) aborts_keeps
        | inr (i, new) ↦
            let x = Sessions.new_session ok now (Sessions.session_type client) s.next in
            elim (Bool-cases (Sessions.is_active x.state)) [
              | inl works ↦
                  rw
                    (
                      new,
                      Login.open_session,
                      created ok now client s.next i (Login.add_player_object v s) works,
                    )
                    (done_keeps (Sessions.add_session (Login.add_player_object v s) i x) i c)
              | inr fails ↦
                  rw
                    (
                      new,
                      Login.open_session,
                      not_created ok now client s.next i (Login.add_player_object v s) fails,
                    )
                    (throws_keeps (Login.add_player_object v s) Login.open_error c)
            ]
      ]

  replace_session-Keeps :
      (client : ClientType) (guest : Bool) (v : Player) (found : Option (Text × Session))
      (s : Server)
      → Consistent s
      → Keeps Consistent (Login.replace_session scale ok now db fuel random client guest v found s)
  unfolding Login.replace_session
  replace_session-Keeps client guest v none s c = open_session-Keeps client v s c
  replace_session-Keeps client guest v (some (i, x)) s c =
      let resumed = Sessions.resume_connection ok client x in
      let tried = if guest then x else resumed.0 in
      let s' = Sessions.on_session i (λ y. tried) s in
      elim (Bool-cases (not guest && resumed.1)) [
        | inl again ↦ rw (again, Login.replace_session) (done_keeps s' i c)
        | inr ends ↦
            rw (ends, Login.replace_session)
              (after_done-Keeps _ _ (close_and_delete_session-Keeps scale now i tried s' c)
                (λ t b k. open_session-Keeps client v t k))
      ]

  authenticate_player-Keeps :
      (pid password : Text) (a : Option Login.Account) (s : Server)
      → Consistent s
      → Keeps Consistent (Login.authenticate_player pid password a s)
  unfolding Login.authenticate_player
  authenticate_player-Keeps pid password none s c = throws_keeps s _ c
  authenticate_player-Keeps pid password (some a) s c =
      elim (Bool-cases (eqb_ℤ a.score (pos 0) && is_empty_text a.hpassword)) [
        | inl nobody ↦ rw (nobody, Login.authenticate_player) (throws_keeps s _ c)
        | inr known ↦ elim (Bool-cases (is_text password a.hpassword)) [
          | inl right ↦ rw (known, Login.authenticate_player, right) (done_keeps s _ c)
          | inr wrong ↦ rw (known, Login.authenticate_player, wrong) (throws_keeps s _ c)
        ]
      ]

  authenticate-Keeps :
      (pid password : Text) (s : Server)
      → Consistent s
      → Keeps Consistent (Login.authenticate db pid password s)
  unfolding Login.authenticate_guest
  authenticate-Keeps pid password s c = elim (Bool-cases (Login.is_guest_id pid)) [
    | inl guest ↦ rw (guest, Login.authenticate) (done_keeps s _ c)
    | inr known ↦
        rw (known, Login.authenticate) (authenticate_player-Keeps pid password (db pid) s c)
  ]

  authenticate_request-Keeps :
      (client : ClientType) (r : Request) (s : Server)
      → Consistent s
      → Keeps Consistent (Login.authenticate_request scale ok now db fuel random client r s)
  unfolding Login.authenticate_request
  authenticate_request-Keeps client r s c =
      let pid = param r Login.pid_key in
      let found = Sessions.find_session s.players pid s.sessions in
      elim (Bool-cases (Login.is_own_session (param r Login.sid_key) found)) [
        | inl own ↦ rw (own, Login.authenticate_request) (done_keeps s _ c)
        | inr other ↦ elim (Bool-cases (Login.is_login r.type)) [
          | inr early ↦ rw (other, Login.authenticate_request, early) (throws_keeps s _ c)
          | inl logs_in ↦
              rw (other, Login.authenticate_request, logs_in)
                (after_done-Keeps _ _ (authenticate-Keeps pid _ s c)
                  (λ s' v k. replace_session-Keeps client _ v found s' k))
        ]
      ]

manage_tables-Keeps :
    (scale : Scale) (now : ℤ) (ts : List (ℕ × Table)) (s : Server)
    → Consistent s
    → Keeps Consistent (manage_tables scale now ts s)
unfolding manage_tables
manage_tables-Keeps scale now [] s c = done_keeps s true c
manage_tables-Keeps scale now ((i, t) ∷ ts) s c =
    after_done-Keeps _ _ (at_table-Keeps (checking scale now) (checking-Behaves scale now 0) i s c)
      (λ s' code k. manage_tables-Keeps scale now ts s' k)

-- The server when it starts: nobody, and no tables.
abbrev pub first_server : (ℕ → Player) → Server
first_server players = record {
  sessions = [];
  manager = record { tables = []; free_ids = [] };
  players = players;
  session_of = λ p. none;
  tables_of = λ p. [];
  next = 0;
  saved = [];
}

first_server-Consistent : (players : ℕ → Player) → Consistent (first_server players)
unfolding find_table times_used times_free contains
first_server-Consistent players = record {
  numbered = record { ids = λ i. ground arith };
  tables = λ i t h. ground (arith, h);
  members = λ p i. refl;
}

-- The servers that the first requests of connections, the requests of sessions, their ends and the two
-- managers lead to. The manager of the sessions purges them and tests one after the other; where it
-- waits for the thread of a session that it shuts down, and where the end of a session waits, any
-- other step can come.
pub data Runs (scale : Scale) : Server → Type 0 where
  starts : (players : ℕ → Player) → Runs scale (first_server players)
  connects :
      {s s' : Server} (thread_ok : Bool) (now : ℤ) (db : Text → Option Login.Account) (fuel : ℕ)
      (random : ℕ → ℕ) (client : ClientType) (r : Request)
      → Runs scale s
      → server_left (Login.authenticate_request scale thread_ok now db fuel random client r s)
        ≡ some s'
      → Runs scale s'
  requests :
      {s s' : Server} (tokens : Text → List Text) (now : ℤ) (i : Text) (p : ℕ) (r : Request)
      → Runs scale s
      → handle_request tokens scale now i p r s ≡ some s'
      → Runs scale s'
  closes :
      {s s' : Server} (i : Text) (x : Session)
      → Runs scale s
      → server_left (Sessions.close_and_delete_session scale i x s) ≡ some s'
      → Runs scale s'
  purges : {s : Server} → Runs scale s → Runs scale (Sessions.purge_sessions s)
  tests_session :
      {s s' : Server} (now : ℤ) (i : Text)
      → Runs scale s
      → server_left (Sessions.test_session scale now i s) ≡ some s'
      → Runs scale s'
  begins_shutdown :
      {s s' : Server} (i : Text) (p : ℕ)
      → Runs scale s
      → server_left (Sessions.begin_shutdown scale i p s) ≡ some s'
      → Runs scale s'
  closes_io :
      {s : Server} (i : Text)
      → Runs scale s
      → Runs scale (Sessions.on_session i Sessions.close_io s)
  deletes_session :
      {s : Server} (i : Text) (x : Session)
      → Runs scale s
      → Runs scale (Sessions.delete_session i x (Sessions.cleaned s))
  manages_tables :
      {s s' : Server} (now : ℤ)
      → Runs scale s
      → server_left (manage_tables scale now s.manager.tables s) ≡ some s'
      → Runs scale s'

-- Whatever happens in whatever order, the rounds of the manager of the sessions and the parts of the end
-- of a session included: a table is in a player's list exactly if the manager has it and
-- the player is at it, every table is within its invariant, and the ids of the tables and the free ids
-- are the numbers from 1 on, each once.
pub Runs-Consistent : {scale : Scale} {s : Server} → Runs scale s → Consistent s
Runs-Consistent (starts players) = first_server-Consistent players
Runs-Consistent {scale} (connects {s = s} {s' = s'} thread_ok now db fuel random client r old e) =
    Keeps-left _ s'
      (authenticate_request-Keeps scale thread_ok now db fuel random client r s
        (Runs-Consistent old))
      e
Runs-Consistent {scale} (requests {s = s} {s' = s'} tokens now i p r old e) =
    handle_request-Consistent tokens scale now i p r s s' (Runs-Consistent old) e
Runs-Consistent {scale} (closes {s = s} {s' = s'} i x old e) =
    Keeps-left _ s' (close_and_delete_session-Keeps scale (pos 0) i x s (Runs-Consistent old)) e
Runs-Consistent (purges {s = s} old) = purge_sessions-Consistent s (Runs-Consistent old)
Runs-Consistent {scale} (tests_session {s = s} {s' = s'} now i old e) =
    Keeps-left _ s' (test_session-Keeps scale now i s (Runs-Consistent old)) e
Runs-Consistent {scale} (begins_shutdown {s = s} {s' = s'} i p old e) =
    Keeps-left _ s' (begin_shutdown-Keeps scale (pos 0) i p s (Runs-Consistent old)) e
Runs-Consistent (closes_io i old) = Runs-Consistent old
Runs-Consistent (deletes_session {s = s} i x old) =
    delete_session-Consistent i x s (Runs-Consistent old)
Runs-Consistent {scale} (manages_tables {s = s} {s' = s'} now old e) =
    Keeps-left _ s' (manage_tables-Keeps scale now s.manager.tables s (Runs-Consistent old)) e
