-- ===== src/Tests/TableMgr.antt =====
-- The theorems on hoxTableMgr of server/hoxTable.cpp at a manager with tables.
use hox_server.Prelude.{ℕ, ◌≡◌, arith, ltb, none, [], ◌∷◌}
use hox_server.Prelude.{ℤ}
use hox_server.Table.State.{Text, TimeInfo}
use hox_server.TableMgr.State.{TableMgr, generate_new_table_id}
use hox_server.TableMgr.View.{view, operate_view, operate-view}
use hox_server.TableMgr.Numbers.{
  IsNumbered, times_used, times_free, creates, deletes, operate, operate-IsNumbered,
}

abbrev hour : TimeInfo
hour = record { game = ℤ.pos 3600; move = ℤ.pos 300; free = ℤ.pos 30 }

-- One digit is text enough here.
abbrev digit : ℕ → Text
digit i = i ∷ []

abbrev no_tables : TableMgr
no_tables = record { tables = []; free_ids = [] }

no_tables-IsNumbered : IsNumbered no_tables
unfolding times_used times_free
no_tables-IsNumbered = record { ids = λ i. ground arith }

abbrev one_table : TableMgr
one_table = operate ltb digit (creates hour) no_tables

abbrev two_tables : TableMgr
two_tables = operate ltb digit (creates hour) one_table

two_tables-IsNumbered : IsNumbered two_tables
two_tables-IsNumbered =
    operate-IsNumbered ltb digit (creates hour) one_table
      (operate-IsNumbered ltb digit (creates hour) no_tables no_tables-IsNumbered)

operate-IsNumbered_example : IsNumbered (operate ltb digit (deletes 1) two_tables)
operate-IsNumbered_example =
    operate-IsNumbered ltb digit (deletes 1) two_tables two_tables-IsNumbered

operate-view_example :
    (view two_tables (generate_new_table_id two_tables).0 ≡ none)
    × ((j : ℕ)
        → view (operate ltb digit (deletes 1) two_tables) j
          ≡ operate_view digit (generate_new_table_id two_tables).0 (deletes 1) (view two_tables) j)
operate-view_example = operate-view ltb digit (deletes 1) two_tables two_tables-IsNumbered
