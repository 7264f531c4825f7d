-- ===== src/Handler.antt =====
-- src/ngx_http_sqlitelog_module.c: what a worker does with a request's log entry. The steps of one
-- worker run one after the other; the shared pool's mutex is held for each step on the queue.
pub mod Conserve
pub mod Flush
pub mod Thread
pub mod Blank
pub mod Request
pub mod Direct
pub mod Lasting
pub mod Requests
pub mod Workers
pub mod Async
pub mod Cycle
use ngx_sqlite_log.Base.{
  ℕ, ◌+◌, Bool, not, List, [], ◌∷◌, Option, none, some, length, ◌==◌, if◌then◌else◌,
}
use ngx_sqlite_log.Util.{Str}
use ngx_sqlite_log.Memory.{Pool, Lists}
use ngx_sqlite_log.Slab.{Slab}
use ngx_sqlite_log.Buf.{
  NgxRc, ok, done, error, Shared, Buf, push_locked, unshift_locked, list_locked, timer_reset,
}
use ngx_sqlite_log.Sqlite.{Sqlite}
use ngx_sqlite_log.Sqlite.Code
use ngx_sqlite_log.Sqlite.Wrap.{State}
use ngx_sqlite_log.Db.{Db, db_insert, db_insert_list}

module _ (slab : Slab) (sq : Sqlite) where
  -- What the handlers change: the server's buffer and connection, the shared queue, the databases.
  pub record Site : Type 0 where
    pub buf : Buf
    pub db : Db
    pub shared : Shared slab
    pub dbs : State sq

  unfoldable pub handle_1 : List Str → Site → NgxRc × Site
  handle_1 entry s =
      let (rc_insert, db', st') = db_insert sq s.db entry s.dbs in
      (if not (rc_insert == Code.ok) then error else ok, record s { db = db'; dbs = st' })

  abbrev pub unshift_rc : NgxRc → NgxRc
  unshift_rc ok = ok
  unshift_rc done = error
  unshift_rc error = error

  -- The step "Unshift", after a push that failed.
  abbrev pub unshift_entry : List Str → NgxRc → Site → NgxRc × Site
  unshift_entry entry error s =
      let (rc_unshift, sh) = unshift_locked slab entry s.shared in
      (unshift_rc rc_unshift, record s { shared = sh })
  unshift_entry entry ok s = (ok, s)
  unshift_entry entry done s = (ok, s)

module _ (slab : Slab) (p : Pool) (lists : Lists p) (sq : Sqlite) where
  -- The steps "Reset", "Unlock" and "Insert", where the list was made.
  abbrev pub insert_listed :
      List Str → NgxRc → Option (lists.L × p.State) → Site slab sq → NgxRc × Site slab sq
  insert_listed entry rc_push none s = (error, s)
  insert_listed entry rc_push (some (l, m)) s =
      let (rc_insert, db', st') = db_insert_list sq s.db (lists.parts l) s.dbs in
      let s' = record s { buf = timer_reset s.buf; db = db'; dbs = st' } in
      if not (rc_insert == Code.ok) then (error, s') else unshift_entry slab sq entry rc_push s'

  abbrev pub execute_buffer : List Str → NgxRc → p.State → Site slab sq → NgxRc × Site slab sq
  execute_buffer entry rc_push m s =
      let (list, sh) = list_locked slab p lists (length entry) s.shared m in
      insert_listed entry rc_push list (record s { shared = sh })

  abbrev pub after_push : List Str → NgxRc → p.State → Site slab sq → NgxRc × Site slab sq
  after_push entry ok m s = (ok, s)
  after_push entry done m s = execute_buffer entry done m s
  after_push entry error m s = execute_buffer entry error m s

  unfoldable pub handle_n : List Str → p.State → Site slab sq → NgxRc × Site slab sq
  handle_n entry m s =
      let (rc_push, sh) = push_locked slab s.buf.max entry s.shared in
      after_push entry rc_push m (record s { shared = sh })
