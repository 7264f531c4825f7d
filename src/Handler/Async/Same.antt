-- ===== src/Handler/Async/Same.antt =====
-- A request whose task runs at once comes to the same as one without a thread pool.
use mathlib.Core.Path.{subst}
use ngx_sqlite_log.Base.{
  ℕ, ◌≡◌, refl, sym, Bool, true, false, not, List, [], Option, none, some, length, ◌==◌,
  if◌then◌else◌,
}
use ngx_sqlite_log.Util.{Str}
use ngx_sqlite_log.Memory.{Pool, Lists}
use ngx_sqlite_log.Slab.{Slab}
use ngx_sqlite_log.Buf.{NgxRc, ok, done, error, Shared, push_locked, list_locked, timer_reset}
use ngx_sqlite_log.Sqlite.{Sqlite}
use ngx_sqlite_log.Sqlite.Code
use ngx_sqlite_log.Db.{db_insert_list}
use ngx_sqlite_log.Handler.{
  Site, unshift_entry, insert_listed, execute_buffer, after_push, handle_n,
}
use ngx_sqlite_log.Handler.Thread.{unshift_given, insert_n_listed, thread_insert_n}
use ngx_sqlite_log.Handler.Async.{
  Task, insert_n, task_post, n_pushed, handle_n_async, run_task, run_tasks,
}
use ngx_sqlite_log.Handler.Workers.{back_of}

module _ (slab : Slab) (p : Pool) (lists : Lists p) (sq : Sqlite) where
  -- What others can see of a site: the shared queue and the databases.
  abbrev pub Same : Site slab sq → Site slab sq → Type 0
  Same s s' = (s.shared ≡ s'.shared) × (s.dbs ≡ s'.dbs)

  abbrev alone : Shared slab → Shared slab
  alone sh = sh

  -- The entry of the task's context, by the code of the push.
  unshift-Same :
      (entry : List Str) (rc : NgxRc) (s : Site slab sq)
      → Same (unshift_given slab sq (back_of rc entry) s) (unshift_entry slab sq entry rc s).1
  unshift-Same entry ok s = (refl, refl)
  unshift-Same entry done s = (refl, refl)
  unshift-Same entry error s = (refl, refl)

  insert-Same :
      (entry : List Str) (rc : NgxRc) (o : Option (lists.L × p.State)) (s : Site slab sq)
      → Same
          (insert_n_listed slab p lists sq alone (back_of rc entry) o s)
          (insert_listed slab p lists sq entry rc o s).1
  insert-Same entry rc none s = (refl, refl)
  insert-Same entry rc (some (l, m)) s =
      let (rc_insert, db', st') = db_insert_list sq s.db (lists.parts l) s.dbs in
      go (not (rc_insert == Code.ok))
        (record { buf = timer_reset s.buf; db = db'; shared = s.shared; dbs = st' })
    where
      go :
          (bad : Bool) (s' : Site slab sq)
          → Same
              (if bad then s' else unshift_given slab sq (back_of rc entry) s')
              (if bad then (error, s') else unshift_entry slab sq entry rc s').1
      go true s' = (refl, refl)
      go false s' = unshift-Same entry rc s'

  task-Same :
      (entry : List Str) (rc : NgxRc) (m : p.State) (s : Site slab sq)
      → length entry ≡ s.db.fmt.ncols
      → Same
          (run_task slab p lists sq alone (insert_n s.db (back_of rc entry)) m s)
          (execute_buffer slab p lists sq entry rc m s).1
  unfolding run_task thread_insert_n
  task-Same entry rc m s w =
      subst
        (λ n.
          let (list, sh) = list_locked slab p lists n s.shared m in
          Same (run_task slab p lists sq alone (insert_n s.db (back_of rc entry)) m s)
            (insert_listed slab p lists sq entry rc list (record s { shared = sh })).1)
        (sym w)
        (let (list, sh) = list_locked slab p lists s.db.fmt.ncols s.shared m in
          insert-Same entry rc list (record s { shared = sh }))

  -- Where entries have as many strings as the format has columns, the pool has memory for the task,
  -- no task waits and the pool of threads accepts one: posting the task of a buffered request and
  -- running it before anything else happens leaves the shared queue and the databases as the
  -- handler without a thread pool does, whatever the push, the list, the insertion and the unshift
  -- come to.
  pub handle_n_async-Same :
      (room : List Task → Bool) (task_alloc : p.State → Option p.State) (entry : List Str)
      (m m' : p.State) (s : Site slab sq) (k : ℕ)
      → length entry ≡ s.db.fmt.ncols
      → task_alloc m ≡ some m'
      → room [] ≡ true
      → let ((rc, s'), t) =
          handle_n_async slab p sq room task_alloc entry m s (record { tasks = []; pools = k }) in
        Same (run_tasks slab p lists sq alone t.tasks m' s') (handle_n slab p lists sq entry m' s).1
  unfolding handle_n_async handle_n run_tasks task_post
  handle_n_async-Same room task_alloc entry m m' s k w memory accepts =
      let (rc_push, sh) = push_locked slab s.buf.max entry s.shared in
      go rc_push (record s { shared = sh }) w
    where
      go :
          (rc : NgxRc) (s₁ : Site slab sq)
          → length entry ≡ s₁.db.fmt.ncols
          → let ((rc_post, s'), t) =
              n_pushed slab p sq room task_alloc entry m rc s₁ (record { tasks = []; pools = k }) in
            Same
              (run_tasks slab p lists sq alone t.tasks m' s')
              (after_push slab p lists sq entry rc m' s₁).1
      go ok s₁ w = (refl, refl)
      go done s₁ w = rw (memory, accepts) (task-Same entry done m' s₁ w)
      go error s₁ w = rw (memory, accepts) (task-Same entry error m' s₁ w)
