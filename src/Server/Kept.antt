-- ===== src/Server/Kept.antt =====
-- Every request of every session, whatever it says, leaves the server consistent or aborts it; so do
-- the shutdown of sessions and the manager of the sessions.
use hox_server.Prelude.{
  ℕ, ◌≡◌, ap, subst, arith, Bool, true, ==_refl, Option, none, some, List, [], ◌∷◌, is_some,
  Bool-cases, Option-cases, inl, inr, ℤ,
}
use hox_server.Table.State.{Table, Text, TimeInfo, new_table}
use hox_server.Table.Elo.{Scale}
use hox_server.TableMgr.State.{TableMgr, find_table, create_table, generate_new_table_id}
use hox_server.TableMgr.Numbers.{IsNumbered, generate_new_table_id-fresh}
use hox_server.Util.Names
use hox_server.Util.Names.{RequestType}
use hox_server.Util.Numbers.{decimal, is_empty_text}
use hox_server.Util.Times.{string_to_time_info}
use hox_server.Util.Messages.{Request, Parameters}
use hox_server.Server.State.{Server, Outcome, done, throws, aborts}
use hox_server.Server.Sessions
use hox_server.Server.Handlers
use hox_server.TableMgr.View.{find_table-inserted}
use hox_server.Server.Consistent.{
  Consistent, Keeps, done_keeps, throws_keeps, aborts_keeps, after_done-Keeps,
  create_table-IsConsistent, run_cleanup-IsConsistent,
}
use hox_server.Server.Requested.{
  do_move-Keeps, offer_resign-Keeps, offer_draw-Keeps, reset_table-Keeps, update_own_table-Keeps,
  resume_playing-Keeps,
}
use hox_server.Server.Membership.{join_table_as-Keeps, leave_table-Keeps}

nothing-Keeps : (o : Outcome Bool) → Keeps Consistent o → Keeps Consistent (Handlers.nothing o)
nothing-Keeps o k = after_done-Keeps o (λ s b. done s none) k (λ s b c. done_keeps s none c)

with_player_of-Keeps :
    (pid what : Text) (s : Server) (f : ℕ → Handlers.Handled)
    → Consistent s
    → ((q : ℕ) → Keeps Consistent (f q))
    → Keeps Consistent (Handlers.with_player_of pid what s f)
with_player_of-Keeps pid what s f c k =
    elim (Option-cases (Sessions.find_session s.players pid s.sessions)) [
      | inl lost ↦ rw (lost, Handlers.with_player_of) (throws_keeps s _ c)
      | inr ((j, y), found) ↦ rw (found, Handlers.with_player_of) (k y.player)
    ]

find_table_of_text-is_some :
    (tid : Text) (ts : List (ℕ × Table)) (i : ℕ)
    → Handlers.find_table_of_text tid ts ≡ some i
    → is_some (find_table i ts) ≡ true
unfolding Handlers.find_table_of_text find_table
find_table_of_text-is_some tid [] i h = ground (arith, h)
find_table_of_text-is_some tid ((j, u) ∷ ts) i h =
    ground (arith, h, find_table_of_text-is_some tid ts i)

-- The id that a text names is the id of a table.
find_table_of_text-found :
    (tid : Text) (ts : List (ℕ × Table)) (i : ℕ)
    → Handlers.find_table_of_text tid ts ≡ some i
    → (t : Table) × (find_table i ts ≡ some t)
find_table_of_text-found tid ts i h = elim (Option-cases (find_table i ts)) [
  | inl lost ↦ ground (arith, lost, find_table_of_text-is_some tid ts i h)
  | inr found ↦ found
]

module _ (s : Server) (c : Consistent s) (p : ℕ) (r : Request) where
  handle_msg-Keeps : Keeps Consistent (Handlers.handle_msg p r s)
  unfolding Handlers.handle_msg
  handle_msg-Keeps = elim (Bool-cases (is_empty_text (Handlers.param r Handlers.tid_key))) [
    | inl private ↦
        rw (private, Handlers.handle_msg)
          (with_player_of-Keeps _ _ s _ c (λ q. done_keeps _ none c))
    | inr public ↦
        elim (Option-cases
          (Handlers.find_table_of_text (Handlers.param r Handlers.tid_key) s.manager.tables)) [
            | inl lost ↦ rw (public, Handlers.handle_msg, lost) (throws_keeps s _ c)
            | inr (i, named) ↦
                let (t, found) =
                  find_table_of_text-found (Handlers.param r Handlers.tid_key) s.manager.tables i
                    named in
                rw (public, Handlers.handle_msg, named, found) (done_keeps _ none c)
          ]
  ]

  handle_invite-Keeps : Keeps Consistent (Handlers.handle_invite p r s)
  unfolding Handlers.handle_invite
  handle_invite-Keeps = with_player_of-Keeps _ _ s _ c (λ q. done_keeps _ none c)

  handle_player_info-Keeps : Keeps Consistent (Handlers.handle_player_info r s)
  unfolding Handlers.handle_player_info
  handle_player_info-Keeps = with_player_of-Keeps _ _ s _ c (λ q. done_keeps _ _ c)

created-found :
    (m : TableMgr) (time : TimeInfo)
    → IsNumbered m
    → let i = (generate_new_table_id m).0 in
      find_table i (create_table Handlers.before_id decimal time m).tables
      ≡ some (new_table (decimal i) time)
unfolding create_table
created-found m time n =
    let i = (generate_new_table_id m).0 in
    find_table-inserted Handlers.before_id i i (new_table (decimal i) time) m.tables
      (generate_new_table_id-fresh m n) (==_refl i)

module _ (tokens : Text → List Text) (scale : Scale) (now : ℤ) (s : Server) (c : Consistent s) where
  handle_login-Keeps :
      (i : Text) (p : ℕ) → Keeps Consistent (Handlers.handle_login tokens scale now i p s)
  unfolding Handlers.handle_login
  handle_login-Keeps i p = nothing-Keeps _ (resume_playing-Keeps scale now p (s.tables_of p) _ c)

  handle_join-Keeps :
      (p : ℕ) (r : Request) → Keeps Consistent (Handlers.handle_join tokens scale now p r s)
  unfolding Handlers.handle_join
  handle_join-Keeps p r =
      elim (Option-cases
        (Handlers.find_table_of_text (Handlers.param r Handlers.tid_key) s.manager.tables)) [
          | inl lost ↦ rw (lost, Handlers.handle_join) (throws_keeps s _ c)
          | inr (i, named) ↦
              let (t, found) =
                find_table_of_text-found (Handlers.param r Handlers.tid_key) s.manager.tables i
                  named in
              rw (named, Handlers.handle_join)
                (nothing-Keeps _ (join_table_as-Keeps s c p i t found now _))
        ]

  handle_leave-Keeps :
      (p : ℕ) (r : Request) → Keeps Consistent (Handlers.handle_leave tokens scale now p r s)
  unfolding Handlers.handle_leave
  handle_leave-Keeps p r =
      elim (Option-cases
        (Handlers.find_table_of_text (Handlers.param r Handlers.tid_key) s.manager.tables)) [
          | inl lost ↦ rw (lost, Handlers.handle_leave) (throws_keeps s _ c)
          | inr (i, named) ↦
              rw (named, Handlers.handle_leave)
                (after_done-Keeps _ _ (leave_table-Keeps scale now p i s c) (λ s' b k.
                  done_keeps _ none (run_cleanup-IsConsistent s'.tables_of s'.manager k)))
        ]

  handle_new-Keeps :
      (p : ℕ) (r : Request) → Keeps Consistent (Handlers.handle_new tokens scale now p r s)
  unfolding Handlers.handle_new
  handle_new-Keeps p r =
      let time = string_to_time_info tokens (Handlers.param r Handlers.itimes_key) in
      let i = (generate_new_table_id s.manager).0 in
      nothing-Keeps _ (
        join_table_as-Keeps
          (record s { manager = create_table Handlers.before_id decimal time s.manager })
          (create_table-IsConsistent s.tables_of s.manager Handlers.before_id decimal time c) p i
          (new_table (decimal i) time) (created-found s.manager time (c.numbered)) now _)

  -- Of a request of each type.
  dispatched-Keeps :
      (i : Text) (p : ℕ) (t : RequestType) (ps : Parameters)
      → Keeps Consistent
          (Handlers.dispatch tokens scale now i p (record { type = t; parameters = ps }) s)
  unfolding Handlers.dispatch Handlers.handle_logout Handlers.handle_list Handlers.handle_ping
      Handlers.handle_update Handlers.handle_move Handlers.handle_resign Handlers.handle_draw
      Handlers.handle_reset
  dispatched-Keeps i p Names.login ps = handle_login-Keeps i p
  dispatched-Keeps i p Names.logout ps = done_keeps _ none c
  dispatched-Keeps i p Names.list ps = done_keeps s _ c
  dispatched-Keeps i p Names.req_new ps = handle_new-Keeps p _
  dispatched-Keeps i p Names.join ps = handle_join-Keeps p _
  dispatched-Keeps i p Names.leave ps = handle_leave-Keeps p _
  dispatched-Keeps i p Names.update ps =
      nothing-Keeps _ (update_own_table-Keeps scale now p _ s c _ _)
  dispatched-Keeps i p Names.msg ps = handle_msg-Keeps s c p _
  dispatched-Keeps i p Names.ping ps = done_keeps s _ c
  dispatched-Keeps i p Names.req_move ps = nothing-Keeps _ (do_move-Keeps scale now p _ s c _)
  dispatched-Keeps i p Names.resign ps = nothing-Keeps _ (offer_resign-Keeps scale now p _ s c)
  dispatched-Keeps i p Names.req_draw ps = nothing-Keeps _ (offer_draw-Keeps scale now p _ s c)
  dispatched-Keeps i p Names.req_reset ps = nothing-Keeps _ (reset_table-Keeps scale now p _ s c)
  dispatched-Keeps i p Names.invite ps = handle_invite-Keeps s c p _
  dispatched-Keeps i p Names.player_info ps = handle_player_info-Keeps s c p _
  dispatched-Keeps i p Names.poll ps = done_keeps s none c
  dispatched-Keeps i p _ ps = throws_keeps s _ c

abbrev get_server : Server → Option Server → Server
get_server d none = d
get_server d (some s) = s

pub server_of : (s t : Server) → ◌≡◌ {A = Option Server} (some s) (some t) → s ≡ t
server_of s t e = ap (get_server s) e

abbrev touched : Text → ℤ → Server → Server
touched i now s = Sessions.on_session i (Sessions.update_time_stamp now) s

finish_request-Consistent :
    (tokens : Text → List Text) (scale : Scale) (now : ℤ) (i : Text) (t : RequestType)
    (o : Handlers.Handled) (s : Server)
    → Keeps Consistent o
    → Handlers.finish_request tokens scale now i t o ≡ some s
    → Consistent s
unfolding Handlers.finish_request
finish_request-Consistent tokens scale now i t (done u none) s (done_keeps _ _ c) h =
    subst Consistent (server_of u s h) c
finish_request-Consistent tokens scale now i t (done u (some a)) s (done_keeps _ _ c) h =
    subst Consistent (server_of _ s h) c
finish_request-Consistent tokens scale now i t (throws u e) s (throws_keeps _ _ c) h =
    subst Consistent (server_of _ s h) c
finish_request-Consistent tokens scale now i t aborts s aborts_keeps h = ground (arith, h)

-- Whatever a session requests at whatever time, a consistent server is left consistent, if it is not
-- aborted.
pub handle_request-Consistent :
    (tokens : Text → List Text) (scale : Scale) (now : ℤ) (i : Text) (p : ℕ) (r : Request)
    (s s' : Server)
    → Consistent s
    → Handlers.handle_request tokens scale now i p r s ≡ some s'
    → Consistent s'
unfolding Handlers.handle_request
handle_request-Consistent tokens scale now i p r s s' c h =
    finish_request-Consistent tokens scale now i r.type _ s'
      (dispatched-Keeps tokens scale now (touched i now s) c i p r.type r.parameters) h
