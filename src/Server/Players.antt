-- ===== src/Server/Players.antt =====
-- The methods of hoxPlayer in server/hoxPlayer.cpp. `scale` is the machine's part of the rating change
-- and `now` the time.
use hox_server.Prelude.{
  ℕ, Bool, true, ◌==◌, Option, none, some, List, [], ◌∷◌, if◌then◌else◌, ℤ, ◌>>=◌, contains, remove,
}
use hox_server.Move.{Color}
use hox_server.Table.State.{Text, Code, World, TimeInfo, ok, err, not_valid, not_found, is_text}
use hox_server.Table.Elo.{Scale}
use hox_server.Table.Seats.{assign_player_as, send_info_to_player}
use hox_server.Table.Moves.{accept_move}
use hox_server.Table.Requests.{
  on_leave_from_player, handle_resign_request, handle_draw_request, handle_reset_request,
  handle_update_request,
}
use hox_server.Util.Numbers.{decimal}
use hox_server.Server.State.{Server, Outcome, done, throws, after_done, Error, at_table}

abbrev pub not_found_text : Text
not_found_text =
    b'T' ∷ b'a' ∷ b'b' ∷ b'l' ∷ b'e' ∷ b' ' ∷ b'n' ∷ b'o' ∷ b't' ∷ b' ' ∷ b'f' ∷ b'o' ∷ b'u' ∷ b'n'
    ∷ b'd' ∷ []

abbrev pub error : Code → Text → Error
error c what = record { code = c; tid = none; what = what }

abbrev pub table_error : Code → ℕ → Text → Error
table_error c i what = record { code = c; tid = some (decimal i); what = what }

-- `if ( hoxRC_OK != … ) throw`.
unfoldable pub check_code : Error → Server → Code → Outcome Bool
check_code e s c = elim c [ ok ↦ done s true | _ ↦ throws s e ]

-- A table of the list with the text as its id.
unfoldable pub find_own_table : Text → List ℕ → Option ℕ
find_own_table tid [] = none
find_own_table tid (i ∷ is) =
    let rest = find_own_table tid is in if is_text (decimal i) tid then some i else rest

abbrev pub set_tables_of : Server → ℕ → List ℕ → Server
set_tables_of s p is = record s { tables_of = λ q. if q == p then is else s.tables_of q }

-- std::set::insert.
unfoldable pub insert_id : ℕ → List ℕ → List ℕ
insert_id i is = if contains i is then is else i ∷ is

abbrev pub join_error : Error
join_error = error err (
    b'F' ∷ b'a' ∷ b'i' ∷ b'l' ∷ b'e' ∷ b'd' ∷ b' ' ∷ b't' ∷ b'o' ∷ b' ' ∷ b'j' ∷ b'o' ∷ b'i' ∷ b'n'
    ∷ b' ' ∷ b't' ∷ b'a' ∷ b'b' ∷ b'l' ∷ b'e' ∷ [])

unfoldable pub join_table_as : ℤ → ℕ → ℕ → Color → Server → Outcome Bool
unfolding at_table check_code insert_id
join_table_as now p i c s =
    after_done (at_table i (λ w. some (assign_player_as now w p c)) s) (λ s' code.
      after_done (check_code join_error s' code)
        (λ s'' b. done (set_tables_of s'' p (insert_id i (s''.tables_of p))) b))

module _ (scale : Scale) where
  abbrev pub leaving : ℕ → World → Option (World × Code)
  leaving p w = on_leave_from_player scale w p >>= (λ w'. some (w', ok))

  unfoldable pub leave_table : ℕ → ℕ → Server → Outcome Bool
  unfolding at_table
  leave_table p i s =
      after_done (at_table i (leaving p) s)
        (λ s' code. done (set_tables_of s' p (remove i (s'.tables_of p))) true)

  -- The loop takes the first table until there is none; each goes as it is left.
  unfoldable pub leave_tables : ℕ → List ℕ → Server → Outcome Bool
  unfolding leave_table
  leave_tables p [] s = done s true
  leave_tables p (i ∷ is) s = after_done (leave_table p i s) (λ s' b. leave_tables p is s')

  unfoldable pub leave_all_tables : ℕ → Server → Outcome Bool
  unfolding leave_tables
  leave_all_tables p s = leave_tables p (s.tables_of p) s

-- `_findTable`, and what is done with the table that it finds.
unfoldable pub at_own_table : ℕ → Text → (ℕ → Server → Outcome Bool) → Server → Outcome Bool
unfolding find_own_table
at_own_table p tid f s = elim (find_own_table tid (s.tables_of p)) [
  | none ↦ throws s (error not_found not_found_text)
  | some i ↦ f i s
]

-- A request to the table, and the error if it is not met.
unfoldable pub ask_table : (World → Option (World × Code)) → Error → ℕ → Server → Outcome Bool
unfolding at_table check_code
ask_table f e i s = after_done (at_table i f s) (λ s' code. check_code e s' code)

abbrev pub move_error : Error
move_error =
    error err (b'M' ∷ b'o' ∷ b'v' ∷ b'e' ∷ b' ' ∷ b'n' ∷ b'o' ∷ b't' ∷ b' ' ∷ b'O' ∷ b'K' ∷ [])

abbrev pub resign_error : ℕ → Error
resign_error i = table_error not_valid i (
    b'T' ∷ b'a' ∷ b'b' ∷ b'l' ∷ b'e' ∷ b' ' ∷ b'f' ∷ b'a' ∷ b'i' ∷ b'l' ∷ b'e' ∷ b'd' ∷ b' ' ∷ b't'
    ∷ b'o' ∷ b' ' ∷ b'h' ∷ b'a' ∷ b'n' ∷ b'd' ∷ b'l' ∷ b'e' ∷ b' ' ∷ b'R' ∷ b'E' ∷ b'S' ∷ b'I'
    ∷ b'G' ∷ b'N' ∷ [])

abbrev pub draw_error : ℕ → Error
draw_error i = table_error not_valid i (
    b'T' ∷ b'a' ∷ b'b' ∷ b'l' ∷ b'e' ∷ b' ' ∷ b'f' ∷ b'a' ∷ b'i' ∷ b'l' ∷ b'e' ∷ b'd' ∷ b' ' ∷ b't'
    ∷ b'o' ∷ b' ' ∷ b'h' ∷ b'a' ∷ b'n' ∷ b'd' ∷ b'l' ∷ b'e' ∷ b' ' ∷ b'D' ∷ b'R' ∷ b'A' ∷ b'W' ∷ [])

abbrev pub reset_error : ℕ → Error
reset_error i = table_error not_valid i (
    b'T' ∷ b'a' ∷ b'b' ∷ b'l' ∷ b'e' ∷ b' ' ∷ b'f' ∷ b'a' ∷ b'i' ∷ b'l' ∷ b'e' ∷ b'd' ∷ b' ' ∷ b't'
    ∷ b'o' ∷ b' ' ∷ b'h' ∷ b'a' ∷ b'n' ∷ b'd' ∷ b'l' ∷ b'e' ∷ b' ' ∷ b'R' ∷ b'E' ∷ b'S' ∷ b'E'
    ∷ b'T' ∷ [])

abbrev pub update_error : ℕ → Error
update_error i = table_error not_valid i (
    b'T' ∷ b'a' ∷ b'b' ∷ b'l' ∷ b'e' ∷ b' ' ∷ b'f' ∷ b'a' ∷ b'i' ∷ b'l' ∷ b'e' ∷ b'd' ∷ b' ' ∷ b't'
    ∷ b'o' ∷ b' ' ∷ b'h' ∷ b'a' ∷ b'n' ∷ b'd' ∷ b'l' ∷ b'e' ∷ b' ' ∷ b'U' ∷ b'P' ∷ b'D' ∷ b'A'
    ∷ b'T' ∷ b'E' ∷ [])

unfoldable pub do_move : Scale → ℤ → ℕ → Text → Text → Server → Outcome Bool
unfolding at_own_table ask_table
do_move scale now p tid move =
    at_own_table p tid (ask_table (λ w. accept_move scale now w p move) move_error)

unfoldable pub offer_resign : Scale → ℕ → Text → Server → Outcome Bool
unfolding at_own_table ask_table
offer_resign scale p tid =
    at_own_table p tid (λ i. ask_table (λ w. handle_resign_request scale w p) (resign_error i) i)

unfoldable pub offer_draw : Scale → ℕ → Text → Server → Outcome Bool
unfolding at_own_table ask_table
offer_draw scale p tid =
    at_own_table p tid (λ i. ask_table (λ w. handle_draw_request scale w p) (draw_error i) i)

unfoldable pub reset_table : ℕ → Text → Server → Outcome Bool
unfolding at_own_table ask_table
reset_table p tid =
    at_own_table p tid (λ i. ask_table (λ w. handle_reset_request w p) (reset_error i) i)

unfoldable pub update_own_table : ℕ → Text → Bool → TimeInfo → Server → Outcome Bool
unfolding at_own_table ask_table
update_own_table p tid rated time =
    at_own_table p tid
      (λ i. ask_table (λ w. some (handle_update_request w p rated time)) (update_error i) i)

-- hoxPlayer::resumePlayingIfNeeded.
unfoldable pub resume_playing : ℤ → ℕ → List ℕ → Server → Outcome Bool
unfolding at_table
resume_playing now p [] s = done s true
resume_playing now p (i ∷ is) s =
    after_done (at_table i (λ w. some (send_info_to_player now w p, ok)) s)
      (λ s' code. resume_playing now p is s')
