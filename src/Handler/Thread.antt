-- ===== src/Handler/Thread.antt =====
-- src/ngx_http_sqlitelog_thread.c: the tasks that run in a thread of the pool. The site's `db` is
-- the one that the task's context holds.
use ngx_sqlite_log.Base.{
  ℕ, ◌≡◌, ◌≢◌, ◌⊎◌, not, List, [], ◌∷◌, ◌++◌, Option, none, some, ◌==◌, if◌then◌else◌, branch,
}
use ngx_sqlite_log.Util.{Str}
use ngx_sqlite_log.Memory.{Pool, Lists}
use ngx_sqlite_log.Slab.{Slab}
use ngx_sqlite_log.Buf.{ok, Shared, get_len_locked, unshift_locked, list_locked, timer_reset}
use ngx_sqlite_log.Buf.Invariant.{rows, Owns}
use ngx_sqlite_log.Buf.Rows.{parts_of}
use ngx_sqlite_log.Sqlite.{Sqlite}
use ngx_sqlite_log.Sqlite.Code
use ngx_sqlite_log.Sqlite.Transactions.{Transactions, Value}
use ngx_sqlite_log.Db.{db_insert, db_insert_list}
use ngx_sqlite_log.Db.Insert.{table}
use ngx_sqlite_log.Db.Retry.{Reopens, reopened}
use ngx_sqlite_log.Handler.{Site}
use ngx_sqlite_log.Handler.Conserve.{fmt_rows}
use ngx_sqlite_log.Handler.Flush.{drain, Drained, Fits, empty-Drained, drain-Drained, nonzero}

module _ (slab : Slab) (sq : Sqlite) where
  unfoldable pub thread_insert_1 : List Str → Site slab sq → Site slab sq
  thread_insert_1 entry s =
      let (rc_insert, db', st') = db_insert sq s.db entry s.dbs in record s { db = db'; dbs = st' }

  -- The step "Unshift", if the context has an entry.
  abbrev pub unshift_given : Option (List Str) → Site slab sq → Site slab sq
  unshift_given none s = s
  unshift_given (some entry) s =
      let (rc_unshift, sh) = unshift_locked slab entry s.shared in record s { shared = sh }

-- `meanwhile` is what other workers do to the queue after the lock is given back.
module _ (slab : Slab) (p : Pool) (lists : Lists p) (sq : Sqlite)
    (meanwhile : Shared slab → Shared slab) where
  abbrev pub insert_n_listed :
      Option (List Str) → Option (lists.L × p.State) → Site slab sq → Site slab sq
  insert_n_listed entry none s = s
  insert_n_listed entry (some (l, m)) s =
      let (rc_insert, db', st') = db_insert_list sq s.db (lists.parts l) s.dbs in
      let s' : Site slab sq = record {
        buf = timer_reset s.buf;
        db = db';
        shared = meanwhile s.shared;
        dbs = st';
      } in
      if not (rc_insert == Code.ok) then s' else unshift_given slab sq entry s'

  unfoldable pub thread_insert_n : Option (List Str) → p.State → Site slab sq → Site slab sq
  thread_insert_n entry m s =
      let (list, sh) = list_locked slab p lists s.db.fmt.ncols s.shared m in
      insert_n_listed entry list (record s { shared = sh })

module _ (slab : Slab) (p : Pool) (lists : Lists p) (sq : Sqlite) where
  unfoldable pub thread_flush : p.State → Site slab sq → Site slab sq
  thread_flush m s =
      if get_len_locked slab s.shared == 0
      then record s { buf = timer_reset s.buf }
      else drain slab p lists sq timer_reset m s

module _ (slab : Slab) (p : Pool) (lists : Lists p) (sq : Sqlite) (tx : Transactions sq)
    (meanwhile : Shared slab → Shared slab) where
  -- What the queue holds at the end, from what it held after the other workers.
  abbrev pub Returned : Option (List Str) → List (List Str) → List (List Str) → Type 0
  Returned none before after = after ≡ before
  Returned (some entry) before after = (after ≡ entry ∷ before) ⊎ (after ≡ before)

  -- The code of the insertion of the entries that wait.
  abbrev pub insertion : Site slab sq → ℕ
  insertion s = (db_insert_list sq s.db (parts_of (rows s.shared.queue)) s.dbs).0

  -- Where the list cannot be made, nothing happens. Else the entries that waited leave the queue,
  -- and all are stored if the insertion of the list gives SQLITE_OK, none if it gives another code.
  -- If they are stored, the context's entry goes to the front of what other workers have pushed
  -- since, unless there is no room for it.
  abbrev pub TaskDone : (ℕ → ℕ) → Option (List Str) → p.State → Site slab sq → Site slab sq → Type 0
  TaskDone others entry m s s' =
      Owns slab others s'.shared
      × ((((list_locked slab p lists s.db.fmt.ncols s.shared m).0 ≡ none)
            × (s'.shared ≡ s.shared)
            × (table sq tx s'.dbs ≡ table sq tx s.dbs))
          ⊎ ((sh : Shared slab) × (sh ≡ (list_locked slab p lists s.db.fmt.ncols s.shared m).1)
              × (sh.queue ≡ [])
              × (base : List (List Value)) × ((base ≡ table sq tx s.dbs)
                  ⊎ (Reopens sq s.db (parts_of (rows s.shared.queue)) s.dbs
                      × (base
                          ≡ table sq tx (reopened sq s.db (parts_of (rows s.shared.queue)) s.dbs))))
              × (((insertion s ≢ Code.ok)
                    × (table sq tx s'.dbs ≡ base)
                    × (rows s'.shared.queue ≡ rows (meanwhile sh).queue))
                  ⊎ ((insertion s ≡ Code.ok)
                      × (table sq tx s'.dbs
                          ≡ base ++ fmt_rows sq tx s.db.fmt (parts_of (rows s.shared.queue)))
                      × Returned entry (rows (meanwhile sh).queue) (rows s'.shared.queue)))))

module _ (slab : Slab) (p : Pool) (lists : Lists p) (sq : Sqlite) (tx : Transactions sq) where
  -- The task of a flush, under the same conditions on the format and the queue, but for the other
  -- workers: the entries that wait are left on the queue and nothing is stored, which happens only
  -- if there are none or there is no memory for the list; or they leave it, and each is stored,
  -- once and in order, and no blank row, if the insertion of the list gives SQLITE_OK, and none is
  -- if it gives another code. The invariant is kept.
  pub thread_flush_lem :
      (others : ℕ → ℕ) (m : p.State) (s : Site slab sq)
      → Fits slab p lists sq tx others s
      → Drained slab p lists sq tx others (some m) s (thread_flush slab p lists sq m s)
  unfolding thread_flush
  thread_flush_lem others m s fits =
      branch (Drained slab p lists sq tx others (some m) s) (get_len_locked slab s.shared == 0)
        (record s { buf = timer_reset s.buf }) (drain slab p lists sq timer_reset m s)
        (λ empty. empty-Drained slab p lists sq tx others (some m) s (timer_reset s.buf) fits empty)
        λ waiting.
          drain-Drained slab p lists sq tx others timer_reset m s fits
            (nonzero slab p lists sq tx _ waiting)
