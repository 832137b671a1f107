-- ===== src/Server/Tables.antt =====
-- The map of tables under the changes that the server makes.
use hox_server.Prelude.{
  ℕ, ◌≡◌, refl, ◌∙◌, ap, arith, true, false, ◌==◌, ==→≡, some, List, [], ◌∷◌, length, if◌then◌else◌,
  is_some,
}
use hox_server.Table.State.{Table}
use hox_server.TableMgr.State.{TableMgr, find_table}
use hox_server.TableMgr.Numbers.{IsNumbered, times_used}
use hox_server.Server.State.{update_table, set_tables}

pub find_table-update :
    (i j : ℕ) (t : Table) (ts : List (ℕ × Table))
    → is_some (find_table i ts) ≡ true
    → find_table j (update_table i t ts) ≡ (if i == j then some t else find_table j ts)
unfolding find_table update_table
find_table-update i j t [] h = cc
find_table-update i j t ((k, u) ∷ ts) h =
    ground (arith, h, find_table-update i j t ts, ==→≡ i j, ==→≡ i k, ==→≡ j k)

pub find_table-updated :
    (i j : ℕ) (t : Table) (ts : List (ℕ × Table))
    → is_some (find_table i ts) ≡ true
    → (i == j) ≡ true
    → find_table j (update_table i t ts) ≡ some t
find_table-updated i j t ts h same =
    find_table-update i j t ts h ∙ ap (λ b. if b then some t else find_table j ts) same

pub find_table-other :
    (i j : ℕ) (t : Table) (ts : List (ℕ × Table))
    → is_some (find_table i ts) ≡ true
    → (i == j) ≡ false
    → find_table j (update_table i t ts) ≡ find_table j ts
find_table-other i j t ts h other =
    find_table-update i j t ts h ∙ ap (λ b. if b then some t else find_table j ts) other

pub times_used-update :
    (i k : ℕ) (t : Table) (ts : List (ℕ × Table))
    → times_used k (update_table i t ts) ≡ times_used k ts
unfolding times_used update_table
times_used-update i k t [] = refl
times_used-update i k t ((j, u) ∷ ts) = ground (arith, times_used-update i k t ts)

pub length-update :
    (i : ℕ) (t : Table) (ts : List (ℕ × Table)) → length (update_table i t ts) ≡ length ts
unfolding update_table
length-update i t [] = refl
length-update i t ((j, u) ∷ ts) = ground (arith, length-update i t ts)

pub set_tables-IsNumbered :
    (m : TableMgr) (i : ℕ) (t : Table)
    → IsNumbered m
    → IsNumbered (set_tables m (update_table i t m.tables))
set_tables-IsNumbered m i t n = record {
  ids = λ k. ground (arith, n.ids k, times_used-update i k t m.tables, length-update i t m.tables);
}
