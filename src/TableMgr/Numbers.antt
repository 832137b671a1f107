-- ===== src/TableMgr/Numbers.antt =====
-- The ids of hoxTableMgr in server/hoxTable.cpp: in use or free, each number from 1 on once.
use hox_server.Prelude.{
  ℕ, ◌≡◌, refl, arith, Bool, true, false, ◌&&◌, ◌+◌, ◌==◌, ==→≡, List, [], ◌∷◌, ◌++◌, length,
  length-append, leb, if◌then◌else◌, is_some, Bool-cases, inl, inr,
}
use hox_server.Table.State.{Table, Text, TimeInfo, new_table}
use hox_server.TableMgr.State.{
  TableMgr, find_table, insert_table, erase_table, generate_new_table_id, create_table,
  delete_table, clean_up, run_cleanup,
}

-- How often an id is in use, and how often it is free.
unfoldable pub times_used : ℕ → List (ℕ × Table) → ℕ
times_used i [] = 0
times_used i ((j, t) ∷ ts) = let n = times_used i ts in if i == j then n + 1 else n

unfoldable pub times_free : ℕ → List ℕ → ℕ
times_free i [] = 0
times_free i (j ∷ js) = let n = times_free i js in if i == j then n + 1 else n

-- The number is one of 1, …, n.
abbrev pub once_below : ℕ → ℕ → ℕ
once_below n i = if leb 1 i && leb i n then 1 else 0

-- Of n ids that are in use or free each of 1, …, n is one, and no other.
pub record IsNumbered (m : TableMgr) : Type 0 where
  pub ids :
      (i : ℕ)
      → times_used i m.tables + times_free i m.free_ids
        ≡ once_below (length m.tables + length m.free_ids) i

times_free-append :
    (i : ℕ) (xs ys : List ℕ) → times_free i (xs ++ ys) ≡ times_free i xs + times_free i ys
unfolding times_free
times_free-append i [] ys = omega arith
times_free-append i (x ∷ xs) ys = ground (arith, times_free-append i xs ys)

find_table-absent :
    (i : ℕ) (ts : List (ℕ × Table)) → times_used i ts ≡ 0 → is_some (find_table i ts) ≡ false
unfolding find_table times_used
find_table-absent i [] h = refl
find_table-absent i ((j, t) ∷ ts) h = ground (arith, find_table-absent i ts)

module _ (before : ℕ → ℕ → Bool) (i : ℕ) (t : Table) where
  times_used-insert :
      (k : ℕ) (ts : List (ℕ × Table))
      → times_used i ts ≡ 0
      → times_used k (insert_table before i t ts) ≡ times_used k ts + (if k == i then 1 else 0)
  unfolding times_used insert_table
  times_used-insert k [] h = ground arith
  times_used-insert k ((j, u) ∷ ts) h = ground (arith, times_used-insert k ts)

  length-insert :
      (ts : List (ℕ × Table))
      → times_used i ts ≡ 0
      → length (insert_table before i t ts) ≡ length ts + 1
  unfolding times_used insert_table
  length-insert [] h = refl
  length-insert ((j, u) ∷ ts) h = ground (arith, length-insert ts)

times_used-erase :
    (i k : ℕ) (ts : List (ℕ × Table))
    → is_some (find_table i ts) ≡ true
    → times_used k (erase_table i ts) + (if k == i then 1 else 0) ≡ times_used k ts
unfolding times_used erase_table find_table
times_used-erase i k [] h = cc
times_used-erase i k ((j, t) ∷ ts) h = ground (arith, times_used-erase i k ts, ==→≡ i j)

length-erase :
    (i : ℕ) (ts : List (ℕ × Table))
    → is_some (find_table i ts) ≡ true
    → length (erase_table i ts) + 1 ≡ length ts
unfolding erase_table find_table
length-erase i [] h = cc
length-erase i ((j, t) ∷ ts) h = ground (arith, length-erase i ts)

times_used-clean_up :
    (k : ℕ) (ts : List (ℕ × Table))
    → times_used k (clean_up ts).0 + times_free k (clean_up ts).1 ≡ times_used k ts
unfolding times_used times_free clean_up
times_used-clean_up k [] = refl
times_used-clean_up k ((j, t) ∷ ts) = ground (arith, times_used-clean_up k ts)

length-clean_up :
    (ts : List (ℕ × Table)) → length (clean_up ts).0 + length (clean_up ts).1 ≡ length ts
unfolding clean_up
length-clean_up [] = refl
length-clean_up ((j, t) ∷ ts) = ground (arith, length-clean_up ts)

abbrev Numbers : List (ℕ × Table) → List ℕ → Type 0
Numbers ts is = (i : ℕ) → times_used i ts + times_free i is ≡ once_below (length ts + length is) i

fresh_id :
    (ts : List (ℕ × Table)) (is : List ℕ)
    → Numbers ts is
    → times_used (generate_new_table_id (record { tables = ts; free_ids = is })).0 ts ≡ 0
unfolding generate_new_table_id times_free
fresh_id ts [] h = ground (arith, h (length ts + 1))
fresh_id ts (i ∷ is) h = ground (arith, h i)

-- On a numbered manager the id that a new table gets is in use by no table, so that createTable
-- replaces none.
pub generate_new_table_id-fresh :
    (m : TableMgr) → IsNumbered m → times_used (generate_new_table_id m).0 m.tables ≡ 0
generate_new_table_id-fresh m n = fresh_id m.tables m.free_ids n.ids

-- The operations that change the map or the list of free ids.
pub data Operation : Type 0 where
  creates : TimeInfo → Operation
  deletes : ℕ → Operation
  cleans : Operation

module _ (before : ℕ → ℕ → Bool) (text_of : ℕ → Text) where
  unfoldable pub operate : Operation → TableMgr → TableMgr
  unfolding create_table delete_table run_cleanup
  operate (creates time) m = create_table before text_of time m
  operate (deletes i) m = (delete_table i m).0
  operate cleans m = run_cleanup m

  created :
      (time : TimeInfo) (ts : List (ℕ × Table)) (is : List ℕ)
      → Numbers ts is
      → let m = create_table before text_of time (record { tables = ts; free_ids = is }) in
        Numbers m.tables m.free_ids
  unfolding create_table generate_new_table_id times_free
  created time ts [] h k =
      let t = new_table (text_of (length ts + 1)) time in
      ground (
        arith,
        h k,
        fresh_id ts [] h,
        times_used-insert before (length ts + 1) t k ts,
        length-insert before (length ts + 1) t ts,
      )
  created time ts (i ∷ is) h k =
      let t = new_table (text_of i) time in
      ground (
        arith,
        h k,
        fresh_id ts (i ∷ is) h,
        times_used-insert before i t k ts,
        length-insert before i t ts,
      )

  -- Every operation leaves the ids in use and the free ids numbered: with n of both, each of 1, …, n
  -- is one of them once.
  pub operate-IsNumbered : (o : Operation) (m : TableMgr) → IsNumbered m → IsNumbered (operate o m)
  unfolding operate delete_table run_cleanup times_free
  operate-IsNumbered (creates time) m n = record { ids = created time m.tables m.free_ids n.ids }
  operate-IsNumbered (deletes i) m n = elim (Bool-cases (is_some (find_table i m.tables))) [
    | inr absent ↦ rw (absent, delete_table) n
    | inl found ↦
        rw (found, delete_table)
          (record {
            ids = λ k. ground (
              arith,
              n.ids k,
              times_used-erase i k m.tables found,
              length-erase i m.tables found,
              times_free-append k m.free_ids (i ∷ []),
              length-append m.free_ids (i ∷ []),
            );
          })
  ]
  operate-IsNumbered cleans m n = record {
    ids = λ k.
        let freed = (clean_up m.tables).1 in
        ground (
          arith,
          n.ids k,
          times_used-clean_up k m.tables,
          length-clean_up m.tables,
          times_free-append k m.free_ids freed,
          length-append m.free_ids freed,
        );
  }
