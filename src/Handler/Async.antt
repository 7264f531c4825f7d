-- ===== src/Handler/Async.antt =====
-- src/ngx_http_sqlitelog_module.c and src/ngx_http_sqlitelog_thread.c: a server with a thread pool,
-- whose requests post tasks that insert the entries.
pub mod Same
pub mod Pools
use ngx_sqlite_log.Base.{
  ℕ, suc, ◌+◌, ◌-◌, Bool, true, false, not, List, [], ◌∷◌, ◌++◌, Option, none, some, if◌then◌else◌,
  ◌==◌,
}
use ngx_sqlite_log.Util.{Str}
use ngx_sqlite_log.Memory.{Pool, Lists, Outcome, failed, overflow, built}
use ngx_sqlite_log.Slab.{Slab}
use ngx_sqlite_log.Buf.{NgxRc, ok, done, error, Shared, push_locked, get_len_locked, timer_reset}
use ngx_sqlite_log.Sqlite.{Sqlite}
use ngx_sqlite_log.Db.{Db}
use ngx_sqlite_log.Op.Request.{Request, Formats}
use ngx_sqlite_log.Entry.{log_entry}
use ngx_sqlite_log.Handler.{Site}
use ngx_sqlite_log.Handler.Request.{Server, disable, conclude}
use ngx_sqlite_log.Handler.Thread.{thread_insert_1, thread_insert_n, thread_flush}
use ngx_sqlite_log.Handler.Flush.{buf_flush}

-- A task with its context. An insertion has a copy of the server's connection; a flush uses that of
-- the flush event, which is the server's own. The pool in the context is the one that was made for
-- the request or the flush.
pub data Task : Type 0 where
  insert_1 : Db → List Str → Task
  insert_n : Db → Option (List Str) → Task
  flush : Task

-- What a worker has handed to its thread pool and not got back, and how many of the pools that
-- were made for requests and flushes are not destroyed.
pub record Threads : Type 0 where
  pub tasks : List Task
  pub pools : ℕ

-- `room` tells whether ngx_thread_task_post, with these tasks under way, accepts one more.
module _ (room : List Task → Bool) where
  unfoldable pub task_post : Task → Threads → NgxRc × Threads
  task_post task t =
      if room t.tasks then (ok, record t { tasks = t.tasks ++ task ∷ [] }) else (error, t)

  -- After ngx_thread_task_alloc.
  abbrev pub post_alloc {ℓ} : {M : Type ℓ} → Option M → Task → Threads → NgxRc × Threads
  post_alloc none task t = (error, t)
  post_alloc (some m) task t = task_post task t

-- `task_alloc` is ngx_thread_task_alloc.
module _ (slab : Slab) (p : Pool) (sq : Sqlite) (room : List Task → Bool)
    (task_alloc : p.State → Option p.State) where
  unfoldable pub handle_1_async :
      List Str → p.State → Site slab sq → Threads → (NgxRc × Site slab sq) × Threads
  handle_1_async entry m s t =
      let (rc_post, t') = post_alloc room (task_alloc m) (insert_1 s.db entry) t in
      ((rc_post, s), t')

  -- After the push.
  abbrev pub n_pushed :
      List Str → p.State → NgxRc → Site slab sq → Threads → (NgxRc × Site slab sq) × Threads
  n_pushed entry m ok s t = ((ok, s), t)
  n_pushed entry m done s t =
      let (rc_post, t') = post_alloc room (task_alloc m) (insert_n s.db none) t in
      ((rc_post, s), t')
  n_pushed entry m error s t =
      let (rc_post, t') = post_alloc room (task_alloc m) (insert_n s.db (some entry)) t in
      ((rc_post, s), t')

  unfoldable pub handle_n_async :
      List Str → p.State → Site slab sq → Threads → (NgxRc × Site slab sq) × Threads
  handle_n_async entry m s t =
      let (rc_push, sh) = push_locked slab s.buf.max entry s.shared in
      n_pushed entry m rc_push (record s { shared = sh }) t

  -- The handler, once the log entry is made in the pool that was created for the request.
  abbrev pub handle_async :
      List Str → p.State → Server slab sq → Threads → (NgxRc × Site slab sq) × Threads
  handle_async entry m s t =
      if s.buffered then handle_n_async entry m s.site t else handle_1_async entry m s.site t

  abbrev pub concluded :
      Server slab sq → (NgxRc × Site slab sq) × Threads → (NgxRc × Server slab sq) × Threads
  concluded s (o, t) = (conclude slab sq s o, t)

  abbrev pub with_entry_async :
      Outcome (List Str × Request × p.State)
      → Server slab sq
      → Threads
      → Outcome ((NgxRc × Server slab sq) × Threads)
  with_entry_async failed s t = built ((error, disable slab sq s), t)
  with_entry_async overflow s t = overflow
  with_entry_async (built (entry, r, m)) s t = built (concluded s (handle_async entry m s t))

  -- From "Choose a pool" on, with what ngx_create_pool returns, in a server that is enabled, for a
  -- request that the filter passes. On failure the pool is kept: its destruction is compiled in
  -- only where NGX_THREAD is defined, and the name that the module tests elsewhere is NGX_THREADS.
  unfoldable pub handler_async :
      (f : Formats)
      → Option p.State
      → Request
      → Server slab sq
      → Threads
      → Outcome ((NgxRc × Server slab sq) × Threads)
  handler_async f none r s t = built ((error, s), t)
  handler_async f (some m) r s t =
      with_entry_async (log_entry p f s.ops r m) s (record t { pools = suc t.pools })

module _ (slab : Slab) (p : Pool) (sq : Sqlite) (room : List Task → Bool)
    (task_alloc : p.State → Option p.State) where
  -- The pool is destroyed where the task is not posted.
  abbrev pub flush_posted : Threads → NgxRc × Threads → Threads
  flush_posted t (ok, t') = record t' { pools = suc t'.pools }
  flush_posted t (done, t') = t
  flush_posted t (error, t') = t

  abbrev pub flush_pool_async : Option p.State → Threads → Threads
  flush_pool_async none t = t
  flush_pool_async (some m) t = flush_posted t (post_alloc room (task_alloc m) flush t)

  -- With what ngx_create_pool returns.
  unfoldable pub flush_async : Option p.State → Site slab sq → Threads → Site slab sq × Threads
  flush_async pool s t =
      if get_len_locked slab s.shared == 0
      then (record s { buf = timer_reset s.buf }, t)
      else (s, flush_pool_async pool t)

module _ (slab : Slab) (p : Pool) (lists : Lists p) (sq : Sqlite) (room : List Task → Bool)
    (task_alloc : p.State → Option p.State) where
  -- ngx_http_sqlitelog_buf_flush_handler: `async` says that there is a thread pool.
  unfoldable pub flush_handler :
      Bool
      → (Shared slab → Shared slab)
      → Option p.State
      → Site slab sq
      → Threads
      → Site slab sq × Threads
  flush_handler async meanwhile pool s t =
      if async
      then flush_async slab p sq room task_alloc pool s t
      else (buf_flush slab p lists sq meanwhile pool s, t)

-- `meanwhile` is what other workers do to the queue after a task gives the lock back. A task uses
-- the connection of its context, and leaves the server's as it was.
module _ (slab : Slab) (p : Pool) (lists : Lists p) (sq : Sqlite)
    (meanwhile : Shared slab → Shared slab) where
  unfoldable pub run_task : Task → p.State → Site slab sq → Site slab sq
  run_task (insert_1 db entry) m s = record (thread_insert_1 slab sq entry (record s { db = db })) {
    db = s.db;
  }
  run_task (insert_n db entry) m s =
      record (thread_insert_n slab p lists sq meanwhile entry m (record s { db = db })) {
        db = s.db;
      }
  run_task flush m s = thread_flush slab p lists sq m s

  -- The tasks that wait, each with the same memory to begin with.
  unfoldable pub run_tasks : List Task → p.State → Site slab sq → Site slab sq
  run_tasks [] m s = s
  run_tasks (task ∷ tasks) m s = run_tasks tasks m (run_task task m s)

-- ngx_http_sqlitelog_thread_completed_handler, for the task that was posted first.
unfoldable pub completed : Threads → Threads
completed t = elim t.tasks [ [] ↦ t | task ∷ tasks ↦ record { tasks = tasks; pools = t.pools - 1 } ]
