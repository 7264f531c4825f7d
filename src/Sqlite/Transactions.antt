-- ===== src/Sqlite/Transactions.antt =====
-- What the source relies on when it stores rows, as SQLite documents it: one table seen through one
-- connection. Every law speaks of a call and of the code that it returned.
use ngx_sqlite_log.Base.{
  ℕ, zero, suc, ◌≡◌, ◌≢◌, List, [], ◌∷◌, ◌++◌, Option, none, some, codes, ◌==◌, Bool, true,
  if◌then◌else◌,
}
use ngx_sqlite_log.Util.{Str}
use ngx_sqlite_log.Sqlite.{Sqlite, Handle}
use ngx_sqlite_log.Sqlite.Code
use ngx_sqlite_log.Sql.Insert.{insert_text}

-- What a parameter or a column holds. `number` is an integer or a real, by its digits; the source
-- binds none, but a column may hold one, which SQLite makes of a text by the column's affinity.
pub data Value : Type 0 where
  null : Value
  text blob number : List ℕ → Value

-- A NULL pointer binds NULL.
abbrev pub text_value : Str → Value
text_value none = null
text_value (some s) = text s

abbrev pub blob_value : Str → Value
blob_value none = null
blob_value (some s) = blob s

-- The parameters of a statement from position i on, n of them.
abbrev pub values_from : ℕ → ℕ → (ℕ → Value) → List Value
values_from i zero f = []
values_from i (suc n) f = f i ∷ values_from (suc i) n f

-- The table has declared types, and no column of it is another name of the row's own number.
-- `as_stored` is what it holds of a row that is bound, by its columns' affinity: in a column of
-- type INTEGER or REAL a text that reads as a number becomes one; NULL stays. `is_insert` says
-- which statements are INSERTs of that table. `table` is what is committed; `pending` is `none`
-- outside a transaction, and in one the rows that it has added; `params` and `bound` are a
-- statement's number of parameters and their values.
pub record Transactions (sq : Sqlite) : Type 0 where
  pub table : sq.World → List (List Value)
  pub pending : sq.World → Option (List (List Value))
  pub as_stored : List Value → List Value
  pub null_stored : (n : ℕ) → as_stored (values_from 1 n (λ i. null)) ≡ values_from 1 n (λ i. null)
  pub is_insert : sq.World → Handle → Bool
  pub params : sq.World → Handle → ℕ
  pub bound : sq.World → Handle → ℕ → Value
  -- sqlite3_prepare_v2, of the INSERT statement that the source builds.
  pub prepare_keeps :
      (c : Handle) (sql : List ℕ) (w : sq.World)
      → let (rc, s, w') = sq.prepare_v2 c sql w in (table w' ≡ table w) × (pending w' ≡ pending w)
  pub prepare_insert :
      (c : Handle) (name : List ℕ) (n : ℕ) (w : sq.World)
      → let (rc, s, w') = sq.prepare_v2 c (insert_text name n) w in
        rc ≡ Code.ok → (params w' s ≡ n) × ((i : ℕ) → bound w' s i ≡ null) × (is_insert w' s ≡ true)
  -- sqlite3_bind_text, sqlite3_bind_blob
  pub text_keeps :
      (s : Handle) (i : ℕ) (v : Str) (w : sq.World)
      → let (rc, w') = sq.bind_text s i v w in
        (table w' ≡ table w)
        × (pending w' ≡ pending w)
        × (params w' s ≡ params w s)
        × (is_insert w' s ≡ is_insert w s)
  pub text_bound :
      (s : Handle) (i : ℕ) (v : Str) (w : sq.World)
      → let (rc, w') = sq.bind_text s i v w in
        rc ≡ Code.ok → (j : ℕ) → bound w' s j ≡ (if i == j then text_value v else bound w s j)
  pub blob_keeps :
      (s : Handle) (i : ℕ) (v : Str) (w : sq.World)
      → let (rc, w') = sq.bind_blob s i v w in
        (table w' ≡ table w)
        × (pending w' ≡ pending w)
        × (params w' s ≡ params w s)
        × (is_insert w' s ≡ is_insert w s)
  pub blob_bound :
      (s : Handle) (i : ℕ) (v : Str) (w : sq.World)
      → let (rc, w') = sq.bind_blob s i v w in
        rc ≡ Code.ok → (j : ℕ) → bound w' s j ≡ (if i == j then blob_value v else bound w s j)
  -- sqlite3_step adds the row, to the transaction if there is one; an error adds nothing.
  pub step_alone :
      (s : Handle) (w : sq.World)
      → let (rc, w') = sq.step s w in
        is_insert w s ≡ true
        → pending w ≡ none
        → rc ≡ Code.done
        → (table w' ≡ table w ++ as_stored (values_from 1 (params w s) (bound w s)) ∷ [])
          × (pending w' ≡ none)
  pub step_inside :
      (s : Handle) (w : sq.World) (rs : List (List Value))
      → let (rc, w') = sq.step s w in
        is_insert w s ≡ true
        → pending w ≡ some rs
        → rc ≡ Code.done
        → (table w' ≡ table w)
          × (pending w' ≡ some (rs ++ as_stored (values_from 1 (params w s) (bound w s)) ∷ []))
  pub step_error :
      (s : Handle) (w : sq.World)
      → let (rc, w') = sq.step s w in is_insert w s ≡ true → rc ≢ Code.done → table w' ≡ table w
  -- sqlite3_step answers SQLITE_DONE or SQLITE_ROW or an error, never SQLITE_OK.
  pub step_answer : (s : Handle) (w : sq.World) → (sq.step s w).0 ≢ Code.ok
  -- sqlite3_finalize repeats the last step's error, and there is none after SQLITE_DONE.
  pub finalize_keeps :
      (s : Handle) (w : sq.World)
      → let (rc, w') = sq.finalize s w in (table w' ≡ table w) × (pending w' ≡ pending w)
  pub finalize_done :
      (s : Handle) (w : sq.World)
      → let (rc, w') = sq.step s w in rc ≡ Code.done → (sq.finalize s w').0 ≡ Code.ok
  -- sqlite3_exec, of the three transaction commands.
  pub begin :
      (c : Handle) (w : sq.World)
      → let (rc, w') = sq.exec c (codes "BEGIN EXCLUSIVE TRANSACTION") w in
        (table w' ≡ table w) × (rc ≡ Code.ok → pending w' ≡ some [])
  pub commit :
      (c : Handle) (w : sq.World) (rs : List (List Value))
      → let (rc, w') = sq.exec c (codes "COMMIT") w in
        pending w ≡ some rs
        → (rc ≡ Code.ok → (table w' ≡ table w ++ rs) × (pending w' ≡ none))
          × (rc ≢ Code.ok → table w' ≡ table w)
  pub rollback :
      (c : Handle) (w : sq.World)
      → let (rc, w') = sq.exec c (codes "ROLLBACK") w in table w' ≡ table w
