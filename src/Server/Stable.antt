-- ===== src/Server/Stable.antt =====
-- What holds of the session with an id, through the events that reach it and the ends of others.
use hox_server.Prelude.{
  ℕ, ◌≡◌, refl, arith, Bool, true, false, ◌&&◌, is_some, Option, none, some, List, [], ◌∷◌,
  if◌then◌else◌, Bool-cases, Option-cases, inl, inr, ℤ,
}
use hox_server.Table.State.{Table, Text, Event, Player, World, Code, ok, is_text}
use hox_server.Table.Elo.{Scale}
use hox_server.TableMgr.State.{find_table}
use hox_server.Response.State.{Response}
use hox_server.Server.State.{
  Server, Session, Sessions, Outcome, done, throws, aborts, after_done, add_response, on_new_event,
  deliver, event_response, update_session, find_session_of_id, at_table, with_world, world_at,
}
use hox_server.Server.State
use hox_server.Server.Players.{leave_table, leave_tables, leave_all_tables, leaving}
use hox_server.Server.Sessions
use hox_server.Server.Consistent.{Keeps, done_keeps, aborts_keeps, after_done-Keeps}

-- Every session with the id passes the test.
unfoldable pub every : Text → (Session → Bool) → Sessions → Bool
every j q [] = true
every j q ((i, x) ∷ xs) = (if is_text j i then q x else true) && every j q xs

-- A test that an event, a shutdown and a closed connection do not fail.
pub record IsStable (q : Session → Bool) : Type 0 where
  pub posted : (r : Response) (x : Session) → q x ≡ true → q (add_response r x) ≡ true
  pub shut : (x : Session) → q x ≡ true → q (Sessions.set_state State.shutdown x) ≡ true
  pub closed : (x : Session) → q x ≡ true → q (Sessions.close_io x) ≡ true

pub every-update :
    (j i : Text) (q : Session → Bool) (f : Session → Session) (xs : Sessions)
    → ((x : Session) → q x ≡ true → q (f x) ≡ true)
    → every j q xs ≡ true
    → every j q (update_session i f xs) ≡ true
unfolding every update_session
every-update j i q f [] k h = refl
every-update j i q f ((l, x) ∷ xs) k h = ground (arith, h, k x, every-update j i q f xs k)

module _ (j : Text) (q : Session → Bool) (stable : IsStable q) where
  every-on_new_event :
      (session_of : ℕ → Option Text) (p : ℕ) (r : Response) (xs : Sessions)
      → every j q xs ≡ true
      → every j q (on_new_event session_of p r xs) ≡ true
  unfolding on_new_event
  every-on_new_event session_of p r xs h = elim (Option-cases (session_of p)) [
    | inl nobody ↦ rw (nobody, on_new_event) h
    | inr (i, his) ↦
        rw (his, on_new_event) (every-update j i q (add_response r) xs (stable.posted r) h)
  ]

  every-deliver :
      (session_of : ℕ → Option Text) (t : Table) (players : ℕ → Player) (es : List (ℕ × Event))
      (xs : Sessions)
      → every j q xs ≡ true
      → every j q (deliver session_of t players es xs) ≡ true
  unfolding deliver
  every-deliver session_of t players [] xs h = h
  every-deliver session_of t players ((p, e) ∷ es) xs h =
      every-deliver session_of t players es _
        (every-on_new_event session_of p (event_response t players e) xs h)

  tell-stable :
      (r : Response) (o : Option Text) (i : Text) (x : Session)
      → q x ≡ true
      → q (Sessions.tell r o i x) ≡ true
  unfolding Sessions.tell
  tell-stable r none i x h = h
  tell-stable r (some k) i x h = ground (arith, h, stable.posted r x)

  pub every-post :
      (r : Response) (o : Option Text) (xs : Sessions)
      → every j q xs ≡ true
      → every j q (Sessions.post_event_to_all r o xs) ≡ true
  unfolding Sessions.post_event_to_all every
  every-post r o [] h = refl
  every-post r o ((i, x) ∷ xs) h = ground (arith, h, tell-stable r o i x, every-post r o xs)

  abbrev Passes : Server → Type 0
  Passes s = every j q s.sessions ≡ true

  at_table-Passes :
      (i : ℕ) (f : World → Option (World × Code)) (s : Server)
      → Passes s
      → Keeps Passes (at_table i f s)
  unfolding at_table
  at_table-Passes i f s h = elim (Option-cases (find_table i s.manager.tables)) [
    | inl lost ↦ rw (lost, at_table) (done_keeps s ok h)
    | inr (t, found) ↦ elim (Option-cases (f (world_at s t))) [
      | inl gone ↦ rw (found, at_table, gone) aborts_keeps
      | inr ((w, code), given) ↦
          rw (found, at_table, given)
            (done_keeps (with_world s i w) code
              (every-deliver s.session_of w.table w.players w.sent s.sessions h))
    ]
  ]

  leave_tables-Passes :
      (scale : Scale) (p : ℕ) (is : List ℕ) (s : Server)
      → Passes s
      → Keeps Passes (leave_tables scale p is s)
  unfolding leave_tables leave_table
  leave_tables-Passes scale p [] s h = done_keeps s true h
  leave_tables-Passes scale p (i ∷ is) s h =
      after_done-Keeps _ _
        (after_done-Keeps _ _ (at_table-Passes i (leaving scale p) s h)
          (λ s' c k. done_keeps _ true k))
        (λ s' b k. leave_tables-Passes scale p is s' k)

  tell_logout-Passes :
      (i : Text) (p : ℕ) (s : Server) → Passes s → Passes (Sessions.tell_logout i p s)
  tell_logout-Passes i p s h =
      every-post _ (some i) _
        (every-update j i q (Sessions.set_state State.shutdown) s.sessions stable.shut h)

  begin_shutdown-Passes :
      (scale : Scale) (i : Text) (p : ℕ) (s : Server)
      → Passes s
      → Keeps Passes (Sessions.begin_shutdown scale i p s)
  unfolding Sessions.begin_shutdown leave_all_tables
  begin_shutdown-Passes scale i p s h =
      after_done-Keeps _ _ (leave_tables-Passes scale p (s.tables_of p) s h)
        (λ s' b k. done_keeps _ true (tell_logout-Passes i p s' k))

  pub test_session-Passes :
      (scale : Scale) (now : ℤ) (i : Text) (s : Server)
      → Passes s
      → Keeps Passes (Sessions.test_session scale now i s)
  unfolding Sessions.test_session
  test_session-Passes scale now i s h = elim (Option-cases (find_session_of_id i s.sessions)) [
    | inl lost ↦ rw (lost, Sessions.test_session) (done_keeps s false h)
    | inr (x, found) ↦ elim (Bool-cases (Sessions.is_expired now x)) [
      | inl old ↦
          rw (found, Sessions.test_session, old)
            (after_done-Keeps _ _ (begin_shutdown-Passes scale i x.player s h)
              (λ s' b k. done_keeps s' (Sessions.waits x) k))
      | inr new ↦ rw (found, Sessions.test_session, new) (done_keeps s false h)
    ]
  ]

  -- Other threads do not make a session with the id that fails the test.
  abbrev pub Spares : (Server → Server) → Type 0
  Spares f = (s : Server) → Passes s → Passes (f s)

  pub end_shutdown-Passes :
      (scale : Scale) (f : Server → Server) (i : Text) (s : Server) (waits : Bool)
      → Spares f
      → Passes s
      → Keeps Passes (Sessions.end_shutdown scale f i s waits)
  unfolding Sessions.end_shutdown
  end_shutdown-Passes scale f i s false sparing h = done_keeps s true h
  end_shutdown-Passes scale f i s true sparing h =
      elim (Bool-cases (is_some (find_session_of_id i (f s).sessions))) [
        | inr gone ↦ rw (Sessions.end_shutdown, gone) aborts_keeps
        | inl there ↦
            rw (Sessions.end_shutdown, there)
              (done_keeps _ true
                (every-update j i q Sessions.close_io (f s).sessions stable.closed (sparing s h)))
      ]

  pub expire-Passes :
      (scale : Scale) (meanwhile : Text → Server → Server) (now : ℤ) (is : List Text) (s : Server)
      → ((i : Text) → Spares (meanwhile i))
      → Passes s
      → Keeps Passes (Sessions.expire scale meanwhile now is s)
  unfolding Sessions.expire
  expire-Passes scale meanwhile now [] s sparing h = done_keeps s true h
  expire-Passes scale meanwhile now (i ∷ is) s sparing h =
      after_done-Keeps _ _ (test_session-Passes scale now i s h) (λ s' waits k.
        after_done-Keeps _ _ (end_shutdown-Passes scale (meanwhile i) i s' waits (sparing i) k)
          (λ s'' b k'. expire-Passes scale meanwhile now is s'' sparing k'))
