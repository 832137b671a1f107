-- ===== src/Server/Expiry.antt =====
-- A session that is idle for too long is shut down by one run of manageSessions of
-- server/hoxSessionMgr.cpp, and gone after the next.
use hox_server.Prelude.{◌≡◌, Bool, true, false, List, [], ◌∷◌, if◌then◌else◌, ℤ}
use hox_server.Table.State.{Text, is_text}
use hox_server.Server.State.{Server, Session, Sessions, Outcome, done, throws, aborts}
use hox_server.Server.State
use hox_server.Server.Sessions
use hox_server.Server.Stable.{every}

abbrev pub is_ended : Session → Bool
is_ended x = Sessions.is_shutdown x.state

abbrev pub never : Session → Bool
never x = false

-- A method that does not throw.
data Works {A : Type 0} : Outcome A → Type 0 where
  works : (s : Server) (a : A) → Works (done s a)
  aborted : Works aborts

abbrev Ended : Text → Server → Type 0
Ended i s = every i is_ended s.sessions ≡ true

abbrev pub is_idle : ℤ → Session → Bool
is_idle now x = Sessions.is_expired now x

-- The loop comes to the id.
unfoldable has_id : Text → List Text → Bool
has_id i [] = false
has_id i (k ∷ is) = if is_text i k then true else has_id i is

abbrev server_of {ℓ} : {A : Type ℓ} → Server → Outcome A → Server
server_of d (done s a) = s
server_of d (throws s e) = d
server_of d aborts = d
