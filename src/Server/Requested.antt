-- ===== src/Server/Requested.antt =====
-- What the methods of a player leave consistent.
use hox_server.Prelude.{
  ℕ, ◌≡◌, sym, ◌∙◌, ap, subst, arith, Bool, true, Option, none, some, List, [], ◌∷◌, Option-cases,
  inl, inr, ℤ,
}
use hox_server.Table.State.{Table, Text, Code, ok, TimeInfo, World}
use hox_server.Table.Elo.{Scale}
use hox_server.Table.Invariant.{IsTable}
use hox_server.Table.Ended.{Kept, keeps}
use hox_server.Table.Kept.{
  handle_resign_request-Kept, handle_draw_request-Kept, handle_reset_request-Kept,
  check_timeout_on_move-Kept, with_code, handle_update_request-IsTable,
}
use hox_server.Table.Accepted.{accept_move-Kept}
use hox_server.Table.Served.{Kept-IsTable}
use hox_server.Table.Seats.{send_info_to_player}
use hox_server.Table.Moves.{accept_move}
use hox_server.Table.Requests.{
  handle_resign_request, handle_draw_request, handle_reset_request, handle_update_request,
}
use hox_server.Table.Calls.{world_of}
use hox_server.Table.Members.{
  Stays, stayed, accept_move-Stays, handle_resign_request-Stays, handle_draw_request-Stays,
  handle_reset_request-Stays, check_timeout_on_move-Stays, with_code-Stays,
  handle_update_request-members, send_info_to_player-table,
}
use hox_server.TableMgr.State.{find_table}
use hox_server.Server.State.{Server, Error, Outcome, at_table, world_at, with_world}
use hox_server.Server.Players.{
  check_code, find_own_table, at_own_table, ask_table, do_move, offer_resign, offer_draw,
  reset_table, update_own_table, resume_playing, move_error, resign_error, draw_error, reset_error,
  update_error,
}
use hox_server.Server.Handlers
use hox_server.Server.Consistent.{
  Consistent, Keeps, done_keeps, throws_keeps, aborts_keeps, after_done-Keeps, stay-IsConsistent,
}

-- A method of a table that keeps its invariant and its players.
pub record Behaves (f : World → Option (World × Code)) : Type 0 where
  pub kept : (w : World) → IsTable w.table → Kept w.table (world_of (f w))
  pub stays : (w : World) → Stays w.table.all_players (world_of (f w))

Stays-members :
    (ps : List ℕ) (o : Option World) (w : World)
    → Stays ps o
    → o ≡ some w
    → w.table.all_players ≡ ps
Stays-members ps none w Stays.aborted e = ground (arith, e)
Stays-members ps (some v) w (stayed _ same) e =
    let met : v ≡ w = ground (arith, e) in ap (λ (x : World). x.table.all_players) (sym met) ∙ same

check_code-Keeps :
    (e : Error) (s : Server) (c : Code) → Consistent s → Keeps Consistent (check_code e s c)
unfolding check_code
check_code-Keeps e s ok k = done_keeps s true k
check_code-Keeps e s _ k = throws_keeps s e k

module _ (f : World → Option (World × Code)) (b : Behaves f) where
  pub at_table-Keeps : (i : ℕ) (s : Server) → Consistent s → Keeps Consistent (at_table i f s)
  unfolding at_table
  at_table-Keeps i s c = elim (Option-cases (find_table i s.manager.tables)) [
    | inl lost ↦ rw (lost, at_table) (done_keeps s ok c)
    | inr (t, found) ↦ elim (Option-cases (f (world_at s t))) [
      | inl gone ↦ rw (found, at_table, gone) aborts_keeps
      | inr ((w, code), given) ↦
          let old = c.tables i t found in
          let answered = ap world_of given in
          rw (found, at_table, given)
            (done_keeps (with_world s i w) code (
              stay-IsConsistent s.tables_of s.manager i t w.table c found
                (Kept-IsTable t _ w (b.kept (world_at s t) old) answered)
                (Stays-members t.all_players _ w (b.stays (world_at s t)) answered)))
    ]
  ]

  pub ask_table-Keeps :
      (e : Error) (i : ℕ) (s : Server) → Consistent s → Keeps Consistent (ask_table f e i s)
  unfolding ask_table
  ask_table-Keeps e i s c =
      after_done-Keeps (at_table i f s) (λ s' code. check_code e s' code) (at_table-Keeps i s c)
        (λ s' code k. check_code-Keeps e s' code k)

module _ (scale : Scale) (now : ℤ) (p : ℕ) where
  accept_move-Behaves : (s : Text) → Behaves (λ w. accept_move scale now w p s)
  accept_move-Behaves s = record {
    kept = λ w v. accept_move-Kept scale now w v p s;
    stays = λ w. accept_move-Stays scale now w p s;
  }

  resign-Behaves : Behaves (λ w. handle_resign_request scale w p)
  resign-Behaves = record {
    kept = λ w v. handle_resign_request-Kept scale now w v p;
    stays = λ w. handle_resign_request-Stays scale now w p;
  }

  draw-Behaves : Behaves (λ w. handle_draw_request scale w p)
  draw-Behaves = record {
    kept = λ w v. handle_draw_request-Kept scale now w v p;
    stays = λ w. handle_draw_request-Stays scale now w p;
  }

  reset-Behaves : Behaves (λ w. handle_reset_request w p)
  reset-Behaves = record {
    kept = λ w v. handle_reset_request-Kept scale now w v p;
    stays = λ w. handle_reset_request-Stays scale now w p;
  }

  update-Behaves :
      (rated : Bool) (time : TimeInfo) → Behaves (λ w. some (handle_update_request w p rated time))
  update-Behaves rated time = record {
    kept = λ w v. keeps _ (handle_update_request-IsTable scale now w v p rated time);
    stays = λ w. stayed _ (handle_update_request-members scale now w p rated time);
  }

  send_info-Behaves : Behaves (λ w. some (send_info_to_player now w p, ok))
  send_info-Behaves = record {
    kept = λ w v. keeps _ (subst IsTable (sym (send_info_to_player-table now w p)) v);
    stays = λ w. stayed _ (ap (λ (t : Table). t.all_players) (send_info_to_player-table now w p));
  }

  pub checking-Behaves : Behaves (Handlers.checking scale now)
  checking-Behaves = record {
    kept = λ w v. with_code scale now w v _ ok (check_timeout_on_move-Kept scale now w v);
    stays = λ w. with_code-Stays w.table.all_players _ ok (check_timeout_on_move-Stays scale now w);
  }

  at_own_table-Keeps :
      (tid : Text) (f : ℕ → Server → Outcome Bool) (s : Server)
      → Consistent s
      → ((i : ℕ) → Keeps Consistent (f i s))
      → Keeps Consistent (at_own_table p tid f s)
  unfolding at_own_table
  at_own_table-Keeps tid f s c k = elim (Option-cases (find_own_table tid (s.tables_of p))) [
    | inl lost ↦ rw (lost, at_own_table) (throws_keeps s _ c)
    | inr (i, found) ↦ rw (found, at_own_table) (k i)
  ]

  -- A request to a table of the player.
  own_request-Keeps :
      (f : World → Option (World × Code)) (e : ℕ → Error) (tid : Text) (s : Server)
      → Behaves f
      → Consistent s
      → Keeps Consistent (at_own_table p tid (λ i. ask_table f (e i) i) s)
  own_request-Keeps f e tid s b c =
      at_own_table-Keeps tid (λ i. ask_table f (e i) i) s c (λ i. ask_table-Keeps f b (e i) i s c)

  module _ (tid : Text) (s : Server) (c : Consistent s) where
    pub do_move-Keeps : (move : Text) → Keeps Consistent (do_move scale now p tid move s)
    unfolding do_move
    do_move-Keeps move =
        own_request-Keeps (λ w. accept_move scale now w p move) (λ i. move_error) tid s
          (accept_move-Behaves move) c

    pub offer_resign-Keeps : Keeps Consistent (offer_resign scale p tid s)
    unfolding offer_resign
    offer_resign-Keeps =
        own_request-Keeps (λ w. handle_resign_request scale w p) resign_error tid s resign-Behaves c

    pub offer_draw-Keeps : Keeps Consistent (offer_draw scale p tid s)
    unfolding offer_draw
    offer_draw-Keeps =
        own_request-Keeps (λ w. handle_draw_request scale w p) draw_error tid s draw-Behaves c

    pub reset_table-Keeps : Keeps Consistent (reset_table p tid s)
    unfolding reset_table
    reset_table-Keeps =
        own_request-Keeps (λ w. handle_reset_request w p) reset_error tid s reset-Behaves c

    pub update_own_table-Keeps :
        (rated : Bool) (time : TimeInfo) → Keeps Consistent (update_own_table p tid rated time s)
    unfolding update_own_table
    update_own_table-Keeps rated time =
        own_request-Keeps (λ w. some (handle_update_request w p rated time)) update_error tid s
          (update-Behaves rated time) c

  pub resume_playing-Keeps :
      (is : List ℕ) (s : Server) → Consistent s → Keeps Consistent (resume_playing now p is s)
  unfolding resume_playing
  resume_playing-Keeps [] s c = done_keeps s true c
  resume_playing-Keeps (i ∷ is) s c =
      after_done-Keeps _ _ (at_table-Keeps _ send_info-Behaves i s c)
        (λ s' code k. resume_playing-Keeps is s' k)
