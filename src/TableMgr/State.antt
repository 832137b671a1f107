-- ===== src/TableMgr/State.antt =====
-- The operations of hoxTableMgr in server/hoxTable.cpp. An id is a number in the model and its decimal
-- text in the source; the map, ordered by the texts, is a list in that order, and the order and the
-- text of a number are parameters.
use hox_server.Prelude.{
  ℕ, Bool, ◌+◌, ◌==◌, Option, none, some, List, [], ◌∷◌, ◌++◌, length, if◌then◌else◌, is_some,
}
use hox_server.Table.State.{Table, Text, TimeInfo, new_table}

-- _tableMap and _freeIdList.
pub record TableMgr : Type 0 where
  pub tables : List (ℕ × Table)
  pub free_ids : List ℕ

-- _tableMap.find.
unfoldable pub find_table : ℕ → List (ℕ × Table) → Option Table
find_table i [] = none
find_table i ((j, t) ∷ ts) = if i == j then some t else find_table i ts

-- `_tableMap[id] = table`: in its place in the order, or instead of the table that has the id.
unfoldable pub insert_table : (ℕ → ℕ → Bool) → ℕ → Table → List (ℕ × Table) → List (ℕ × Table)
insert_table before i t [] = (i, t) ∷ []
insert_table before i t ((j, u) ∷ ts) =
    if i == j
    then (i, t) ∷ ts
    else if before i j
    then (i, t) ∷ (j, u) ∷ ts
    else (j, u) ∷ insert_table before i t ts

-- _tableMap.erase, of a map that has an id once.
unfoldable pub erase_table : ℕ → List (ℕ × Table) → List (ℕ × Table)
erase_table i [] = []
erase_table i ((j, t) ∷ ts) = if i == j then ts else (j, t) ∷ erase_table i ts

-- hoxTableMgr::_generateNewTableId: the id, and the free ids that are left.
unfoldable pub generate_new_table_id : TableMgr → ℕ × List ℕ
generate_new_table_id m = elim m.free_ids [ [] ↦ (length m.tables + 1, []) | i ∷ is ↦ (i, is) ]

-- hoxTableMgr::createTable.
unfoldable pub create_table : (ℕ → ℕ → Bool) → (ℕ → Text) → TimeInfo → TableMgr → TableMgr
unfolding generate_new_table_id insert_table
create_table before text_of time m =
    let new = generate_new_table_id m in
    record {
      tables = insert_table before new.0 (new_table (text_of new.0) time) m.tables;
      free_ids = new.1;
    }

-- hoxTableMgr::deleteTable, and whether there was such a table.
unfoldable pub delete_table : ℕ → TableMgr → TableMgr × Bool
unfolding find_table erase_table
delete_table i m =
    let found = is_some (find_table i m.tables) in
    let deleted : TableMgr = record {
      tables = erase_table i m.tables;
      free_ids = m.free_ids ++ i ∷ [];
    } in
    (if found then deleted else m, found)

-- hoxTable::isEmpty.
abbrev pub is_empty : Table → Bool
is_empty t = elim t.all_players [ [] ↦ Bool.true | _ ∷ _ ↦ Bool.false ]

-- The loop of hoxTableMgr::runCleanup: the tables that stay, and the ids that become free.
unfoldable pub clean_up : List (ℕ × Table) → List (ℕ × Table) × List ℕ
clean_up [] = ([], [])
clean_up ((i, t) ∷ ts) =
    let rest = clean_up ts in if is_empty t then (rest.0, i ∷ rest.1) else ((i, t) ∷ rest.0, rest.1)

unfoldable pub run_cleanup : TableMgr → TableMgr
unfolding clean_up
run_cleanup m = let c = clean_up m.tables in record { tables = c.0; free_ids = m.free_ids ++ c.1 }
