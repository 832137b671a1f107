-- ===== src/Table/Invariant.antt =====
-- The invariant of a table in server/hoxTable.cpp, and that every change of the seats keeps it.
use hox_server.Prelude.{
  ℕ, ◌≡◌, refl, arith, Bool, true, false, ◌||◌, ◌≤◌, ◌+◌, Option, none, some, List, [], ◌∷◌, ◌++◌,
}
use hox_server.Prelude.{
  ◌==◌, if◌then◌else◌, contains, remove, nodup, contains-append, contains-remove, nodup-remove,
  ==→≡, ==_refl,
}
use hox_server.Move.{
  Color, red, black, no_color, unknown, GameStatus, opened, ready, in_progress, red_win, black_win,
  drawn,
}
use hox_server.Referee.Board.{Board}
use hox_server.Referee.Game.{reset_game}
use hox_server.Referee.Reorder.{reordered}
use hox_server.Referee.Games.{Plays, start}
use hox_server.Table.State.{Table, Text, TimeInfo, new_table, is_seat}
use hox_server.Table.Seats.{
  add_player, take_seat, list_player, leave_seat, remove_player, update_status, seated_status,
  both_seated, is_over,
}
use hox_server.Table.Moves.{perpetual_checks_max, effective_moves_max}
use hox_server.Table.State.{is_open, is_ready, is_in_progress}

-- The seats: at most one for a player, and only for players at the table, each listed once.
pub record IsSeated (r b : Option ℕ) (players : List ℕ) : Type 0 where
  pub distinct : (p : ℕ) → is_seat r p ≡ true → is_seat b p ≡ false
  pub red_listed : (p : ℕ) → is_seat r p ≡ true → contains p players ≡ true
  pub black_listed : (p : ℕ) → is_seat b p ≡ true → contains p players ≡ true
  pub once : nodup players ≡ true

abbrev pub is_waiting : GameStatus → Bool
is_waiting s = is_open s || is_ready s

-- The game: a board of a game, a new one's but for the order of its pieces and no move
-- before the game starts, the counters within
-- their limits until it ends, and a request to draw only while it is in progress.
pub record IsGame (board : Board) (s : GameStatus) (moves : List Text) (e r b : ℕ) (asked : Text)
    : Type 0 where
  pub plays : Plays board
  pub fresh : is_waiting s ≡ true → (d : List ℕ) × (board ≡ reordered reset_game d)
  pub unmoved : is_waiting s ≡ true → moves ≡ []
  pub uncounted : is_waiting s ≡ true → e + r + b ≡ 0
  pub red_checked : is_over s ≡ false → r ≤ perpetual_checks_max
  pub black_checked : is_over s ≡ false → b ≤ perpetual_checks_max
  pub counted : is_over s ≡ false → e ≤ effective_moves_max
  pub unasked : is_in_progress s ≡ false → asked ≡ []

pub record IsTable (t : Table) : Type 0 where
  pub seats : IsSeated t.red_player t.black_player t.all_players
  pub game :
      IsGame t.referee t.status t.moves t.effective_moves t.red_checks t.black_checks
        t.draw_player_id
  pub is_ready : is_ready t.status ≡ true → both_seated t ≡ true
  pub is_open : is_open t.status ≡ true → both_seated t ≡ false

pub new-IsGame : IsGame reset_game opened [] 0 0 0 []
new-IsGame = record {
  plays = start;
  fresh = λ e. (reset_game.pieces, refl);
  unmoved = λ e. refl;
  uncounted = λ e. refl;
  red_checked = λ e. omega arith;
  black_checked = λ e. omega arith;
  counted = λ e. omega arith;
  unasked = λ e. refl;
}

pub new_table-IsTable : (id : Text) (time : TimeInfo) → IsTable (new_table id time)
unfolding new_table nodup
new_table-IsTable id time = record {
  seats = record {
    distinct = λ p e. cc;
    red_listed = λ p e. cc;
    black_listed = λ p e. cc;
    once = refl;
  };
  game = new-IsGame;
  is_ready = λ e. cc;
  is_open = λ e. refl;
}

nodup-append :
    (p : ℕ) (xs : List ℕ) → contains p xs ≡ false → nodup xs ≡ true → nodup (xs ++ p ∷ []) ≡ true
unfolding nodup contains
nodup-append p [] e n = refl
nodup-append p (x ∷ xs) e n =
    ground (arith, nodup-append p xs, contains-append x xs (p ∷ []), ==→≡ x p, ==_refl p)

contains-list_player :
    (q p : ℕ) (xs : List ℕ) → contains q (list_player xs p) ≡ (contains q xs || q == p)
unfolding contains
contains-list_player q p xs = ground (arith, contains-append q xs (p ∷ []), ==→≡ q p)

nodup-list_player : (p : ℕ) (xs : List ℕ) → nodup xs ≡ true → nodup (list_player xs p) ≡ true
nodup-list_player p xs n = ground (arith, nodup-append p xs)

is_seat_unique : (s : Option ℕ) (p q : ℕ) → is_seat s p ≡ true → is_seat s q ≡ true → p ≡ q
is_seat_unique none p q e f = cc
is_seat_unique (some r) p q e f = ground (arith, ==→≡ r p, ==→≡ r q)

module _ (r b : Option ℕ) (players : List ℕ) (s : IsSeated r b players) (p : ℕ) where
  sits_red : IsSeated (some p) (leave_seat b p) (list_player players p)
  sits_red = record {
    distinct = λ q e. ground (arith, ==→≡ p q);
    red_listed = λ q e. ground (arith, contains-list_player q p players, ==→≡ p q, ==_refl q);
    black_listed = λ q e. ground (arith, contains-list_player q p players, s.black_listed q);
    once = nodup-list_player p players s.once;
  }

  sits_black : IsSeated (leave_seat r p) (some p) (list_player players p)
  sits_black = record {
    distinct = λ q e. ground (arith, ==→≡ p q);
    red_listed = λ q e. ground (arith, contains-list_player q p players, s.red_listed q);
    black_listed = λ q e. ground (arith, contains-list_player q p players, ==→≡ p q, ==_refl q);
    once = nodup-list_player p players s.once;
  }

  stands : IsSeated (leave_seat r p) (leave_seat b p) (list_player players p)
  stands = record {
    distinct = λ q e. ground (arith, s.distinct q);
    red_listed = λ q e. ground (arith, contains-list_player q p players, s.red_listed q);
    black_listed = λ q e. ground (arith, contains-list_player q p players, s.black_listed q);
    once = nodup-list_player p players s.once;
  }

  removed : IsSeated (leave_seat r p) (if is_seat r p then b else leave_seat b p) (remove p players)
  removed = record {
    distinct = λ q e. ground (arith, s.distinct q);
    red_listed =
        λ q e. ground (arith, s.red_listed q, contains-remove p q players, is_seat_unique r p q);
    black_listed = λ q e. ground (
      arith,
      s.black_listed q,
      contains-remove p q players,
      s.distinct p,
      is_seat_unique b p q,
      ==→≡ p q,
    );
    once = nodup-remove p players s.once;
  }

-- The seats and the game of a table, without what its status says of the seats.
abbrev pub Parts : Table → Type 0
Parts t =
    IsSeated t.red_player t.black_player t.all_players
    × IsGame t.referee t.status t.moves t.effective_moves t.red_checks t.black_checks
        t.draw_player_id

pub add_player-Parts : (t : Table) (p : ℕ) (c : Color) → Parts t → Parts (add_player t p c).0
unfolding add_player take_seat
add_player-Parts t p red (s, g) = (sits_red _ _ _ s p, g)
add_player-Parts t p black (s, g) = (sits_black _ _ _ s p, g)
add_player-Parts t p unknown (s, g) = (stands _ _ _ s p, g)
add_player-Parts t p no_color (s, g) = (stands _ _ _ s p, g)

pub remove_player-Parts : (t : Table) (p : ℕ) → Parts t → Parts (remove_player t p)
unfolding remove_player
remove_player-Parts t p (s, g) = (removed _ _ _ s p, g)

-- Before the game starts its status is told by the seats.
waiting-IsGame :
    (board : Board) (s s' : GameStatus) (moves : List Text) (e r b : ℕ) (asked : Text)
    → is_waiting s ≡ true
    → IsGame board s moves e r b asked
    → IsGame board s' moves e r b asked
waiting-IsGame board s s' moves e r b asked w g = record {
  plays = g.plays;
  fresh = λ h. g.fresh w;
  unmoved = λ h. g.unmoved w;
  uncounted = λ h. g.uncounted w;
  red_checked = λ h. omega (arith, g.uncounted w);
  black_checked = λ h. omega (arith, g.uncounted w);
  counted = λ h. omega (arith, g.uncounted w);
  unasked = λ h. g.unasked (ground (arith, w));
}

seated_status-IsGame :
    (board : Board) (seated : Bool) (s : GameStatus) (moves : List Text) (e r b : ℕ) (asked : Text)
    → IsGame board s moves e r b asked
    → IsGame board (seated_status seated s) moves e r b asked
unfolding seated_status
seated_status-IsGame board seated opened ms e r b a g =
    waiting-IsGame board opened _ ms e r b a refl g
seated_status-IsGame board seated ready ms e r b a g =
    waiting-IsGame board ready _ ms e r b a refl g
seated_status-IsGame board seated unknown ms e r b a g = g
seated_status-IsGame board seated in_progress ms e r b a g = g
seated_status-IsGame board seated red_win ms e r b a g = g
seated_status-IsGame board seated black_win ms e r b a g = g
seated_status-IsGame board seated drawn ms e r b a g = g

-- _updateStatus makes the status of a table that waits agree with its seats.
pub update_status-IsTable : (t : Table) → Parts t → IsTable (update_status t)
unfolding update_status seated_status
update_status-IsTable t (s, g) = record {
  seats = s;
  game = seated_status-IsGame _ (both_seated t) t.status _ _ _ _ _ g;
  is_ready = λ e. ground (arith, e);
  is_open = λ e. ground (arith, e);
}
