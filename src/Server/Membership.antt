-- ===== src/Server/Membership.antt =====
-- Joining and leaving tables leave the server consistent.
use hox_server.Prelude.{
  ℕ, ◌≡◌, refl, sym, ◌∙◌, ap, arith, true, false, ◌==◌, ◌||◌, ==→≡, Option, none, some, List, [],
  ◌∷◌, if◌then◌else◌, contains, contains-append, remove, contains-remove, Bool-cases, Option-cases,
  inl, inr, ℤ, pos,
}
use hox_server.Move.{Color}
use hox_server.Table.State.{Table, err, World}
use hox_server.Table.Elo.{Scale}
use hox_server.Table.Invariant.{IsTable}
use hox_server.Table.Ended.{Kept}
use hox_server.Table.Kept.{assign_player_as-IsTable}
use hox_server.Table.Served.{on_leave_from_player-Kept}
use hox_server.Table.Seats.{assign_player_as, is_request_ok, list_player}
use hox_server.Table.Requests.{on_leave_from_player}
use hox_server.Table.Members.{
  assign_player_as-joined, assign_player_as-refused, Left, left, on_leave_from_player-Left,
}
use hox_server.TableMgr.State.{find_table}
use hox_server.Server.State.{Server, at_table, world_at, with_world}
use hox_server.Server.Players.{
  check_code, join_error, join_table_as, leave_table, leave_tables, leave_all_tables, insert_id,
  set_tables_of,
}
use hox_server.Server.Consistent.{
  Consistent, Keeps, done_keeps, throws_keeps, aborts_keeps, after_done-Keeps, change-IsConsistent,
  stay-IsConsistent, is_at,
}

contains-list_player :
    (p q : ℕ) (ps : List ℕ) → contains q (list_player ps p) ≡ (contains q ps || q == p)
unfolding contains
contains-list_player p q ps = ground (arith, contains-append q ps (p ∷ []), ==→≡ q p)

contains-insert_id :
    (i j : ℕ) (is : List ℕ) → contains j (insert_id i is) ≡ (contains j is || j == i)
unfolding contains insert_id
contains-insert_id i j is = ground (arith, ==→≡ j i)

-- What a player's list of tables becomes, and nobody else's.
abbrev own_list : (ℕ → List ℕ) → ℕ → List ℕ → ℕ → List ℕ
own_list tables_of p is q = if q == p then is else tables_of q

module _ (s : Server) (c : Consistent s) (p i : ℕ) (t : Table)
    (found : find_table i s.manager.tables ≡ some t) where
  at_i : (q : ℕ) → contains i (s.tables_of q) ≡ contains q t.all_players
  at_i q = c.members q i ∙ ap (is_at q) found

  joined-IsConsistent :
      (w : World)
      → IsTable w.table
      → w.table.all_players ≡ list_player t.all_players p
      → Consistent (set_tables_of (with_world s i w) p (insert_id i (s.tables_of p)))
  joined-IsConsistent w good same =
      change-IsConsistent s.tables_of (own_list s.tables_of p (insert_id i (s.tables_of p)))
        s.manager i t w.table c found good
        (λ q. ground (
          arith,
          at_i q,
          contains-insert_id i i (s.tables_of p),
          ap (contains q) same,
          contains-list_player p q t.all_players,
          ==→≡ q p,
        ))
        (λ q j other. ground (arith, other, contains-insert_id i j (s.tables_of p), ==→≡ q p))

  left-IsConsistent :
      (w : World)
      → IsTable w.table
      → w.table.all_players ≡ remove p t.all_players
      → Consistent (set_tables_of (with_world s i w) p (remove i (s.tables_of p)))
  left-IsConsistent w good same =
      change-IsConsistent s.tables_of (own_list s.tables_of p (remove i (s.tables_of p))) s.manager
        i t w.table c found good
        (λ q. ground (
          arith,
          at_i q,
          contains-remove i i (s.tables_of p),
          ap (contains q) same,
          contains-remove p q t.all_players,
          ==→≡ q p,
        ))
        (λ q j other. ground (arith, other, contains-remove i j (s.tables_of p), ==→≡ q p))

  -- Who is let in is listed; otherwise an error is thrown, and the table is as it was.
  pub join_table_as-Keeps :
      (now : ℤ) (color : Color) → Keeps Consistent (join_table_as now p i color s)
  unfolding join_table_as at_table check_code
  join_table_as-Keeps now color =
      let w = world_at s t in
      elim (Bool-cases (is_request_ok t color)) [
        | inl allowed ↦
            let (code, same) = assign_player_as-joined now w p color allowed in
            rw (found, at_table, code, check_code)
              (done_keeps _ true (
                joined-IsConsistent (assign_player_as now w p color).0
                  (assign_player_as-IsTable (λ m n o. pos 0) now w (c.tables i t found) p color)
                  same))
        | inr refused ↦
            let e = assign_player_as-refused now w p color refused in
            let code : (assign_player_as now w p color).1 ≡ err = ap (λ x. x.1) e in
            let kept = (assign_player_as now w p color).0 in
            rw (found, at_table, code, check_code)
              (throws_keeps (with_world s i kept) join_error (
                stay-IsConsistent s.tables_of s.manager i t kept.table c found
                  (assign_player_as-IsTable (λ m n o. pos 0) now w (c.tables i t found) p color)
                  (ap (λ x. x.0.table.all_players) e)))
      ]

  Left-Keeps :
      (scale : Scale) (now : ℤ) (o : Option World)
      → Left t.all_players p o
      → Kept t o
      → on_leave_from_player scale (world_at s t) p ≡ o
      → Keeps Consistent (leave_table scale p i s)
  unfolding leave_table at_table
  Left-Keeps scale now none l k e = rw (found, at_table, e) aborts_keeps
  Left-Keeps scale now (some w) (left _ same) (Kept.keeps _ good) e =
      rw (found, at_table, e) (done_keeps _ true (left-IsConsistent w good same))

absent_at :
    (q i j : ℕ) (ts : List (ℕ × Table))
    → find_table i ts ≡ none
    → (i == j) ≡ true
    → is_at q (find_table j ts) ≡ false
absent_at q i j ts lost same = ap (is_at q) (ap (λ k. find_table k ts) (sym (==→≡ i j same)) ∙ lost)

-- A table that the manager does not have is in no player's list.
absent-Consistent :
    (s : Server) (p i : ℕ)
    → Consistent s
    → find_table i s.manager.tables ≡ none
    → Consistent (set_tables_of s p (remove i (s.tables_of p)))
absent-Consistent s p i c lost = record {
  numbered = c.numbered;
  tables = c.tables;
  members = λ q j. ground (
    arith,
    c.members q j,
    c.members p j,
    contains-remove i j (s.tables_of p),
    absent_at q i j s.manager.tables lost,
    ==→≡ q p,
  );
}

module _ (scale : Scale) (now : ℤ) (p : ℕ) where
  pub leave_table-Keeps :
      (i : ℕ) (s : Server) → Consistent s → Keeps Consistent (leave_table scale p i s)
  unfolding leave_table at_table
  leave_table-Keeps i s c = elim (Option-cases (find_table i s.manager.tables)) [
    | inl lost ↦ rw (lost, at_table) (done_keeps _ true (absent-Consistent s p i c lost))
    | inr (t, found) ↦
        Left-Keeps s c p i t found scale now _
          (on_leave_from_player-Left scale now (world_at s t) p)
          (on_leave_from_player-Kept scale now (world_at s t) (c.tables i t found) p) refl
  ]

  leave_tables-Keeps :
      (is : List ℕ) (s : Server) → Consistent s → Keeps Consistent (leave_tables scale p is s)
  unfolding leave_tables
  leave_tables-Keeps [] s c = done_keeps s true c
  leave_tables-Keeps (i ∷ is) s c =
      after_done-Keeps _ _ (leave_table-Keeps i s c) (λ s' b k. leave_tables-Keeps is s' k)

  pub leave_all_tables-Keeps :
      (s : Server) → Consistent s → Keeps Consistent (leave_all_tables scale p s)
  unfolding leave_all_tables
  leave_all_tables-Keeps s c = leave_tables-Keeps (s.tables_of p) s c
