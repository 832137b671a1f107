-- ===== src/Server/Strangers.antt =====
-- A request about a table by a player who is not at it.
use hox_server.Prelude.{
  ℕ, ◌≡◌, refl, ◌∙◌, ap, arith, Bool, true, false, none, some, List, [], ◌∷◌, contains, ℤ,
}
use hox_server.Table.State.{Text, not_found, is_text}
use hox_server.Table.Elo.{Scale}
use hox_server.TableMgr.State.{find_table}
use hox_server.Util.Names
use hox_server.Util.Names.{RequestType}
use hox_server.Util.Numbers.{decimal}
use hox_server.Util.Messages.{Request, Parameters}
use hox_server.Server.State.{Server, throws, add_response}
use hox_server.Server.Players.{
  find_own_table, at_own_table, do_move, offer_resign, offer_draw, reset_table, update_own_table,
  error, not_found_text,
}
use hox_server.Server.Sessions.{on_session, update_time_stamp}
use hox_server.Server.Handlers
use hox_server.Server.Consistent.{Consistent, is_at}

-- The requests of a player to a table at which he is.
unfoldable pub is_table_request : RequestType → Bool
is_table_request Names.req_move = true
is_table_request Names.resign = true
is_table_request Names.req_draw = true
is_table_request Names.req_reset = true
is_table_request Names.update = true
is_table_request _ = false

find_own_table-none :
    (tid : Text) (is : List ℕ)
    → ((i : ℕ) → is_text (decimal i) tid ≡ true → contains i is ≡ false)
    → find_own_table tid is ≡ none
unfolding find_own_table contains
find_own_table-none tid [] h = refl
find_own_table-none tid (i ∷ is) h =
    ground (arith, h i, find_own_table-none tid is (λ j k. ground (arith, h j k)))

module _ (tokens : Text → List Text) (scale : Scale) (now : ℤ) where
  dispatched :
      (i : Text) (p : ℕ) (t : RequestType) (ps : Parameters) (s : Server)
      → is_table_request t ≡ true
      → find_own_table
          (Handlers.param (record { type = t; parameters = ps }) Handlers.tid_key)
          (s.tables_of p)
        ≡ none
      → Handlers.dispatch tokens scale now i p (record { type = t; parameters = ps }) s
        ≡ throws s (error not_found not_found_text)
  unfolding Handlers.dispatch is_table_request Handlers.handle_update Handlers.handle_move
      Handlers.handle_resign Handlers.handle_draw Handlers.handle_reset do_move offer_resign
      offer_draw reset_table update_own_table at_own_table
  dispatched i p Names.req_move ps s h e =
      rw (e, Handlers.dispatch, Handlers.handle_move, do_move, at_own_table) refl
  dispatched i p Names.resign ps s h e =
      rw (e, Handlers.dispatch, Handlers.handle_resign, offer_resign, at_own_table) refl
  dispatched i p Names.req_draw ps s h e =
      rw (e, Handlers.dispatch, Handlers.handle_draw, offer_draw, at_own_table) refl
  dispatched i p Names.req_reset ps s h e =
      rw (e, Handlers.dispatch, Handlers.handle_reset, reset_table, at_own_table) refl
  dispatched i p Names.update ps s h e =
      rw (e, Handlers.dispatch, Handlers.handle_update, update_own_table, at_own_table) refl
  dispatched i p _ ps s h e = cc

  -- On a consistent server, a request to move, resign, draw, reset or update at a table, or at none, at
  -- which the player is not by the table's own list, changes nothing but the time stamp of his
  -- session, which gets the answer that the table was not found.
  pub handle_request-refused :
      (i : Text) (p : ℕ) (r : Request) (s : Server)
      → Consistent s
      → is_table_request r.type ≡ true
      → ((k : ℕ)
          → is_text (decimal k) (Handlers.param r Handlers.tid_key) ≡ true
          → is_at p (find_table k s.manager.tables) ≡ false)
      → Handlers.handle_request tokens scale now i p r s
        ≡ some (
            on_session i
              (add_response
                (Handlers.error_response tokens scale now r.type (error not_found not_found_text)))
              (on_session i (update_time_stamp now) s))
  unfolding Handlers.handle_request Handlers.finish_request
  handle_request-refused i p r s c h away = ap (Handlers.finish_request tokens scale now i r.type) (
      dispatched i p r.type r.parameters (on_session i (update_time_stamp now) s) h
        (find_own_table-none _ (s.tables_of p) (λ k named. c.members p k ∙ away k named)))
