-- ===== src/Server/Consistent.antt =====
-- The players' lists of tables and the tables' lists of players agree, every table of the manager is
-- within its invariant, and its ids are numbered; what a change of one table, a new table and a clean-up
-- leave of it.
use hox_server.Prelude.{
  ℕ, ◌≡◌, refl, sym, ◌∙◌, ap, subst, arith, Bool, true, false, ◌==◌, ==→≡, Option, none, some, List,
  [], ◌∷◌, if◌then◌else◌, is_some, contains, Bool-cases, inl, inr,
}
use hox_server.Table.State.{Table, Text, TimeInfo, new_table}
use hox_server.Table.Invariant.{IsTable, new_table-IsTable}
use hox_server.TableMgr.State.{
  TableMgr, find_table, is_empty, create_table, generate_new_table_id, run_cleanup,
}
use hox_server.TableMgr.Numbers.{
  IsNumbered, generate_new_table_id-fresh, operate-IsNumbered, creates, cleans, operate,
}
use hox_server.Server.State.{
  Server, Error, Outcome, done, throws, aborts, after_done, update_table, set_tables,
}
use hox_server.TableMgr.View.{
  find_table-inserted, find_table-not_inserted, find_table-unused, find_table-clean_up,
  unless_empty, used_once,
}
use hox_server.Server.Tables.{find_table-updated, find_table-other, set_tables-IsNumbered}

-- Whether the player is at the table that was found.
abbrev pub is_at : ℕ → Option Table → Bool
is_at p none = false
is_at p (some t) = contains p t.all_players

pub record IsConsistent (tables_of : ℕ → List ℕ) (m : TableMgr) : Type 0 where
  pub numbered : IsNumbered m
  pub tables : (i : ℕ) (t : Table) → find_table i m.tables ≡ some t → IsTable t
  pub members : (p i : ℕ) → contains i (tables_of p) ≡ is_at p (find_table i m.tables)

abbrev pub Consistent : Server → Type 0
Consistent s = IsConsistent s.tables_of s.manager

-- A method leaves what holds of the server, or aborts.
pub data Keeps {A : Type 0} (P : Server → Type 0) : Outcome A → Type 0 where
  done_keeps : (s : Server) (a : A) → P s → Keeps P (done s a)
  throws_keeps : (s : Server) (e : Error) → P s → Keeps P (throws s e)
  aborts_keeps : Keeps P aborts

pub after_done-Keeps :
    {A B : Type 0} {P : Server → Type 0} (o : Outcome A) (f : Server → A → Outcome B)
    → Keeps P o
    → ((s : Server) (a : A) → P s → Keeps P (f s a))
    → Keeps P (after_done o f)
after_done-Keeps (done s a) f (done_keeps _ _ h) k = k s a h
after_done-Keeps (throws s e) f (throws_keeps _ _ h) k = throws_keeps s e h
after_done-Keeps aborts f aborts_keeps k = aborts_keeps

abbrev get_table : Table → Option Table → Table
get_table d none = d
get_table d (some t) = t

some_of : (t u : Table) → ◌≡◌ {A = Option Table} (some t) (some u) → t ≡ u
some_of t u e = ap (λ o. get_table t o) e

nobody_at : (p : ℕ) (id : Text) (time : TimeInfo) → is_at p (some (new_table id time)) ≡ false
unfolding new_table contains
nobody_at p id time = refl

unless_empty-some : (o : Option Table) (u : Table) → unless_empty o ≡ some u → o ≡ some u
unless_empty-some none u h = h
unless_empty-some (some t) u h = elim (Bool-cases (is_empty t)) [
  | inl gone ↦ ground (arith, h, gone)
  | inr stays ↦ sym (ap (λ b. if b then none else some t) stays) ∙ h
]

at_empty :
    (p : ℕ) (t : Table) (ps : List ℕ)
    → t.all_players ≡ ps
    → is_at p (unless_empty (some t)) ≡ contains p t.all_players
unfolding contains
at_empty p t [] e = rw e refl
at_empty p t (q ∷ qs) e = rw e refl

is_at-unless_empty : (p : ℕ) (o : Option Table) → is_at p (unless_empty o) ≡ is_at p o
is_at-unless_empty p none = refl
is_at-unless_empty p (some t) = at_empty p t t.all_players refl

-- The table i becomes t', and the lists of the players change at i alone.
pub change-IsConsistent :
    (before now_of : ℕ → List ℕ) (m : TableMgr) (i : ℕ) (t t' : Table)
    → IsConsistent before m
    → find_table i m.tables ≡ some t
    → IsTable t'
    → ((p : ℕ) → contains i (now_of p) ≡ contains p t'.all_players)
    → ((p j : ℕ) → (i == j) ≡ false → contains j (now_of p) ≡ contains j (before p))
    → IsConsistent now_of (set_tables m (update_table i t' m.tables))
change-IsConsistent before now_of m i t t' c found good here there =
    let present = ap is_some found in
    record {
      numbered = set_tables-IsNumbered m i t' c.numbered;
      tables = λ j u h. elim (Bool-cases (i == j)) [
        | inl same ↦
            subst IsTable (some_of t' u (sym (find_table-updated i j t' m.tables present same) ∙ h))
              good
        | inr other ↦ c.tables j u (sym (find_table-other i j t' m.tables present other) ∙ h)
      ];
      members = λ p j. elim (Bool-cases (i == j)) [
        | inl same ↦
            ap (λ k. contains k (now_of p)) (sym (==→≡ i j same))
            ∙ here p
            ∙ sym (ap (is_at p) (find_table-updated i j t' m.tables present same))
        | inr other ↦
            there p j other
            ∙ c.members p j
            ∙ sym (ap (is_at p) (find_table-other i j t' m.tables present other))
      ];
    }

-- A table that keeps its players.
pub stay-IsConsistent :
    (tables_of : ℕ → List ℕ) (m : TableMgr) (i : ℕ) (t t' : Table)
    → IsConsistent tables_of m
    → find_table i m.tables ≡ some t
    → IsTable t'
    → t'.all_players ≡ t.all_players
    → IsConsistent tables_of (set_tables m (update_table i t' m.tables))
stay-IsConsistent tables_of m i t t' c found good same =
    change-IsConsistent tables_of tables_of m i t t' c found good
      (λ p. c.members p i ∙ ap (is_at p) found ∙ ap (contains p) (sym same)) (λ p j other. refl)

-- A new table, at which nobody is.
pub create_table-IsConsistent :
    (tables_of : ℕ → List ℕ) (m : TableMgr) (before : ℕ → ℕ → Bool) (text_of : ℕ → Text)
    (time : TimeInfo)
    → IsConsistent tables_of m
    → IsConsistent tables_of (create_table before text_of time m)
unfolding create_table operate
create_table-IsConsistent tables_of m before text_of time c =
    let i = (generate_new_table_id m).0 in
    let fresh = generate_new_table_id-fresh m c.numbered in
    let made = new_table (text_of i) time in
    record {
      numbered = operate-IsNumbered before text_of (creates time) m c.numbered;
      tables = λ j u h. elim (Bool-cases (i == j)) [
        | inl same ↦
            subst IsTable
              (some_of made u (sym (find_table-inserted before i j made m.tables fresh same) ∙ h))
              (new_table-IsTable (text_of i) time)
        | inr other ↦
            c.tables j u (sym (find_table-not_inserted before i j made m.tables fresh other) ∙ h)
      ];
      members = λ p j. elim (Bool-cases (i == j)) [
        | inl same ↦
            ap (λ k. contains k (tables_of p)) (sym (==→≡ i j same))
            ∙ c.members p i
            ∙ ap (is_at p) (find_table-unused i m.tables fresh)
            ∙ sym (nobody_at p (text_of i) time)
            ∙ sym (ap (is_at p) (find_table-inserted before i j made m.tables fresh same))
        | inr other ↦
            c.members p j
            ∙ sym (ap (is_at p) (find_table-not_inserted before i j made m.tables fresh other))
      ];
    }

-- A clean-up takes tables at which nobody is.
pub run_cleanup-IsConsistent :
    (tables_of : ℕ → List ℕ) (m : TableMgr)
    → IsConsistent tables_of m
    → IsConsistent tables_of (run_cleanup m)
unfolding run_cleanup operate
run_cleanup-IsConsistent tables_of m c =
    let find = λ (j : ℕ). find_table-clean_up j m.tables (used_once m c.numbered j) in
    record {
      numbered = operate-IsNumbered (λ i j. true) (λ i. []) cleans m c.numbered;
      tables =
          λ j u h. c.tables j u (unless_empty-some (find_table j m.tables) u (sym (find j) ∙ h));
      members = λ p j.
          c.members p j
          ∙ sym (is_at-unless_empty p (find_table j m.tables))
          ∙ sym (ap (is_at p) (find j));
    }
