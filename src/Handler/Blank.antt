-- ===== src/Handler/Blank.antt =====
-- What ngx_http_sqlitelog_handle_n of src/ngx_http_sqlitelog_module.c stores when the push of an
-- entry fails while no other entry waits: it lists the queue and inserts the list all the same.
use ngx_sqlite_log.Base.{ℕ, ◌≤◌, ◌≡◌, sym, ap, ◌∙◌, List, [], ◌∷◌, ◌++◌, some, length, All}
use ngx_sqlite_log.Memory.{Pool, Lists}
use ngx_sqlite_log.Slab.{Slab}
use ngx_sqlite_log.Buf.{Shared, list_locked}
use ngx_sqlite_log.Buf.Invariant.{rows, Owns}
use ngx_sqlite_log.Buf.Rows.{parts_of, list_lem}
use ngx_sqlite_log.Sqlite.{Sqlite}
use ngx_sqlite_log.Sqlite.Code
use ngx_sqlite_log.Sqlite.Wrap.{State}
use ngx_sqlite_log.Sqlite.Transactions.{Transactions}
use ngx_sqlite_log.Sql.Insert.{insert_text}
use ngx_sqlite_log.Db.{Db, try_insert_list}
use ngx_sqlite_log.Db.Insert.{table}
use ngx_sqlite_log.Db.Row.{nulls, fmt_row-empty}
use ngx_sqlite_log.Db.Atomic.{try_insert_list_lem}

module _ (slab : Slab) (p : Pool) (lists : Lists p) (sq : Sqlite) (tx : Transactions sq) where
  empty_list :
      (others : ℕ → ℕ) (n : ℕ) (sh sh' : Shared slab) (m m' : p.State) (l : lists.L)
      → 1 ≤ n
      → Owns slab others sh
      → sh.queue ≡ []
      → list_locked slab p lists n sh m ≡ (some (l, m'), sh')
      → lists.parts l ≡ [] ∷ []
  empty_list others n sh sh' m m' l pos v empty e =
      (rw e at (list_lem slab p lists others n sh m pos (all sh.queue empty) v)).0
      ∙ ap (λ q. parts_of (rows q)) empty
    where
      all : (q : List _) → q ≡ [] → All (λ r. length r ≡ n) (rows q)
      all q h = rw h tt

  -- Where a list of parts of one entry or more is made of an empty queue, and its insertion, with
  -- the INSERT text that the module builds, returns SQLITE_OK: one row is stored although no entry
  -- was waiting, a row of nulls.
  pub blank_row_lem :
      (others : ℕ → ℕ) (n : ℕ) (sh sh' : Shared slab) (m m' : p.State) (l : lists.L) (db : Db)
      (st : State sq)
      → 1 ≤ n
      → Owns slab others sh
      → sh.queue ≡ []
      → list_locked slab p lists n sh m ≡ (some (l, m'), sh')
      → db.fmt.sql_insert ≡ insert_text db.fmt.name db.fmt.ncols
      → (try_insert_list sq db (lists.parts l) st).0 ≡ Code.ok
      → table sq tx (try_insert_list sq db (lists.parts l) st).1
        ≡ table sq tx st ++ nulls db.fmt.ncols ∷ []
  blank_row_lem others n sh sh' m m' l db st pos v empty e h fine =
      let parts = empty_list others n sh sh' m m' l pos v empty e in
      ap (λ ps. table sq tx (try_insert_list sq db ps st).1) parts
      ∙ ((try_insert_list_lem sq tx db ([] ∷ []) st h).0
          (ap (λ ps. (try_insert_list sq db ps st).0) (sym parts) ∙ fine)).0
      ∙ ap (λ r. table sq tx st ++ r ∷ []) (tx.null_stored db.fmt.ncols ∙ fmt_row-empty db)
