-- ===== src/TableMgr/View.antt =====
-- The manager of the tables, seen as a function from ids to tables.
use hox_server.Prelude.{
  ℕ, ◌≡◌, refl, ◌∙◌, ap, sym, arith, Bool, true, false, ◌==◌, ◌≤◌, ==→≡, Option, none, some, List,
  [], ◌∷◌, if◌then◌else◌, is_some, Bool-cases, inl, inr,
}
use hox_server.Table.State.{Table, Text, new_table}
use hox_server.TableMgr.State.{
  TableMgr, find_table, insert_table, erase_table, clean_up, is_empty, create_table, delete_table,
  run_cleanup, generate_new_table_id,
}
use hox_server.TableMgr.Numbers.{
  IsNumbered, times_used, Operation, creates, deletes, cleans, operate, generate_new_table_id-fresh,
}

pub find_table-insert :
    (before : ℕ → ℕ → Bool) (i j : ℕ) (t : Table) (ts : List (ℕ × Table))
    → times_used i ts ≡ 0
    → find_table j (insert_table before i t ts) ≡ (if i == j then some t else find_table j ts)
unfolding find_table insert_table times_used
find_table-insert before i j t [] h = ground arith
find_table-insert before i j t ((k, u) ∷ ts) h =
    ground (arith, h, find_table-insert before i j t ts, ==→≡ i k, ==→≡ j k, ==→≡ i j)

pub find_table-inserted :
    (before : ℕ → ℕ → Bool) (i j : ℕ) (t : Table) (ts : List (ℕ × Table))
    → times_used i ts ≡ 0
    → (i == j) ≡ true
    → find_table j (insert_table before i t ts) ≡ some t
find_table-inserted before i j t ts h same =
    find_table-insert before i j t ts h ∙ ap (λ b. if b then some t else find_table j ts) same

pub find_table-not_inserted :
    (before : ℕ → ℕ → Bool) (i j : ℕ) (t : Table) (ts : List (ℕ × Table))
    → times_used i ts ≡ 0
    → (i == j) ≡ false
    → find_table j (insert_table before i t ts) ≡ find_table j ts
find_table-not_inserted before i j t ts h other =
    find_table-insert before i j t ts h ∙ ap (λ b. if b then some t else find_table j ts) other

abbrev pub unless_empty : Option Table → Option Table
unless_empty none = none
unless_empty (some t) = if is_empty t then none else some t

pub find_table-unused :
    (j : ℕ) (ts : List (ℕ × Table)) → times_used j ts ≡ 0 → find_table j ts ≡ none
unfolding find_table times_used
find_table-unused j [] h = refl
find_table-unused j ((k, u) ∷ ts) h = ground (arith, h, find_table-unused j ts)

times_used-clean_up_le :
    (j : ℕ) (ts : List (ℕ × Table)) → times_used j ts ≡ 0 → times_used j (clean_up ts).0 ≡ 0
unfolding times_used clean_up
times_used-clean_up_le j [] h = refl
times_used-clean_up_le j ((k, u) ∷ ts) h = ground (arith, h, times_used-clean_up_le j ts)

pub find_table-clean_up :
    (j : ℕ) (ts : List (ℕ × Table))
    → times_used j ts ≤ 1
    → find_table j (clean_up ts).0 ≡ unless_empty (find_table j ts)
unfolding find_table clean_up times_used
find_table-clean_up j [] h = refl
find_table-clean_up j ((k, u) ∷ ts) h = ground (
  arith,
  h,
  find_table-clean_up j ts,
  find_table-unused j ts,
  find_table-unused j (clean_up ts).0,
  times_used-clean_up_le j ts,
)

-- An id is in use once at most.
pub used_once : (m : TableMgr) → IsNumbered m → (j : ℕ) → times_used j m.tables ≤ 1
used_once m n j = ground (arith, n.ids j)

find_table-erase :
    (i j : ℕ) (ts : List (ℕ × Table))
    → times_used j ts ≤ 1
    → find_table j (erase_table i ts) ≡ (if i == j then none else find_table j ts)
unfolding find_table erase_table times_used
find_table-erase i j [] h = ground arith
find_table-erase i j ((k, u) ∷ ts) h =
    ground (arith, h, find_table-erase i j ts, find_table-unused j ts, ==→≡ i j, ==→≡ i k, ==→≡ j k)

nothing_of : (o : Option Table) → is_some o ≡ false → o ≡ none
nothing_of none h = refl
nothing_of (some t) h = ground (arith, h)

not_there :
    (i j : ℕ) (ts : List (ℕ × Table))
    → is_some (find_table i ts) ≡ false
    → find_table j ts ≡ (if i == j then none else find_table j ts)
not_there i j ts absent = elim (Bool-cases (i == j)) [
  | inr other ↦ rw other refl
  | inl same ↦
      let missing = ap (λ k. is_some (find_table k ts)) (sym (==→≡ i j same)) ∙ absent in
      rw same (nothing_of (find_table j ts) missing)
]

-- The manager as its clients see it.
unfoldable pub view : TableMgr → ℕ → Option Table
view m i = find_table i m.tables

-- What an operation makes of the view, if a new table gets the given id.
unfoldable pub operate_view : (ℕ → Text) → ℕ → Operation → (ℕ → Option Table) → ℕ → Option Table
operate_view text_of new (creates time) v j =
    if new == j then some (new_table (text_of new) time) else v j
operate_view text_of new (deletes i) v j = if i == j then none else v j
operate_view text_of new cleans v j = unless_empty (v j)

deleted-view :
    (i j : ℕ) (m : TableMgr)
    → IsNumbered m
    → find_table j (delete_table i m).0.tables ≡ (if i == j then none else find_table j m.tables)
unfolding delete_table
deleted-view i j m n = elim (Bool-cases (is_some (find_table i m.tables))) [
  | inl found ↦ rw (found, delete_table) (find_table-erase i j m.tables (used_once m n j))
  | inr absent ↦ rw (absent, delete_table) (not_there i j m.tables absent)
]

-- Each operation of a numbered manager is, for its clients, the plain change of a function from ids to
-- tables: a new table at an id that no table had, the removal of one, the removal of the empty ones.
pub operate-view :
    (before : ℕ → ℕ → Bool) (text_of : ℕ → Text) (o : Operation) (m : TableMgr)
    → IsNumbered m
    → (view m (generate_new_table_id m).0 ≡ none)
      × ((j : ℕ)
          → view (operate before text_of o m) j
            ≡ operate_view text_of (generate_new_table_id m).0 o (view m) j)
unfolding view operate operate_view create_table run_cleanup
operate-view before text_of (creates time) m n = (
  find_table-unused _ m.tables (generate_new_table_id-fresh m n),
  λ j. find_table-insert before _ j _ m.tables (generate_new_table_id-fresh m n),
)
operate-view before text_of (deletes i) m n =
    (find_table-unused _ m.tables (generate_new_table_id-fresh m n), λ j. deleted-view i j m n)
operate-view before text_of cleans m n = (
  find_table-unused _ m.tables (generate_new_table_id-fresh m n),
  λ j. find_table-clean_up j m.tables (used_once m n j),
)
