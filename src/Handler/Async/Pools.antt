-- ===== src/Handler/Async/Pools.antt =====
-- The pools that are made for requests when there is a thread pool: which are destroyed.
use ngx_sqlite_log.Base.{
  ℕ, suc, ◌+◌, ◌≡◌, refl, sym, ap, ◌∙◌, inl, inr, ◌⊎◌, Bool, List, [], ◌∷◌, ◌++◌, Option, none,
  some, arith, length, length-append, branch, ◌==◌,
}
use ngx_sqlite_log.Util.{Str}
use ngx_sqlite_log.Memory.{Pool, Outcome, failed, overflow, built}
use ngx_sqlite_log.Slab.{Slab}
use ngx_sqlite_log.Buf.{NgxRc, ok, done, error, push_locked, get_len_locked, timer_reset}
use ngx_sqlite_log.Sqlite.{Sqlite}
use ngx_sqlite_log.Op.Request.{Request, Formats}
use ngx_sqlite_log.Entry.{log_entry}
use ngx_sqlite_log.Handler.{Site}
use ngx_sqlite_log.Handler.Request.{Server}
use ngx_sqlite_log.Handler.Async.{
  Task, insert_1, insert_n, Threads, task_post, post_alloc, handle_1_async, n_pushed,
  handle_n_async, concluded, with_entry_async, handler_async, completed, flush, flush_posted,
  flush_pool_async, flush_async,
}

-- So many pools belong to no task that waits: nothing will destroy them.
abbrev pub Lost : ℕ → Threads → Type 0
Lost k t = t.pools ≡ length t.tasks + k

module _ (slab : Slab) (p : Pool) (sq : Sqlite) (room : List Task → Bool)
    (task_alloc : p.State → Option p.State) where
  -- What posting a task comes to: it is the last one that waits, or it is refused.
  abbrev Posted : Task → Threads → NgxRc × Threads → Type 0
  Posted task t (ok, t') = (t'.tasks ≡ t.tasks ++ task ∷ []) × (t'.pools ≡ t.pools)
  Posted task t (done, t') = ⊥
  Posted task t (error, t') = t' ≡ t

  post_alloc-Posted :
      (o : Option p.State) (task : Task) (t : Threads) → Posted task t (post_alloc room o task t)
  unfolding task_post
  post_alloc-Posted none task t = refl
  post_alloc-Posted (some m) task t =
      branch (Posted task t) (room t.tasks) (ok, record t { tasks = t.tasks ++ task ∷ [] })
        (error, t) (λ yes_room. (refl, refl)) λ no_room. refl

  -- The tasks are as they were, and the pool of the request is lost too; or it belongs to the task
  -- that is posted last.
  abbrev pub Handed : ℕ → Threads → NgxRc × Threads → Type 0
  Handed k t (ok, t') =
      ((t'.tasks ≡ t.tasks) × Lost (suc k) t')
      ⊎ ((task : Task) × (t'.tasks ≡ t.tasks ++ task ∷ []) × Lost k t')
  Handed k t (done, t') = ⊥
  Handed k t (error, t') = (t'.tasks ≡ t.tasks) × Lost (suc k) t'

  Posted-Handed :
      (k : ℕ) (task : Task) (t : Threads) (o : NgxRc × Threads)
      → Lost (suc k) t
      → Posted task t o
      → Handed k t o
  Posted-Handed k task t (ok, t') h (e, f) =
      inr (task, e, omega (arith, h, f, ap length e, length-append t.tasks (task ∷ [])))
  Posted-Handed k task t (done, t') h u = absurd u
  Posted-Handed k task t (error, t') h e =
      (ap (λ x. x.tasks) e, ap (λ x. x.pools) e ∙ h ∙ ap (λ x. length x.tasks + suc k) (sym e))

  handle_n_async-Handed :
      (k : ℕ) (entry : List Str) (m : p.State) (s : Site slab sq) (t : Threads)
      → Lost (suc k) t
      → let ((rc, s'), t') = handle_n_async slab p sq room task_alloc entry m s t in
        Handed k t (rc, t')
  unfolding handle_n_async
  handle_n_async-Handed k entry m s t h =
      let (rc_push, sh) = push_locked slab s.buf.max entry s.shared in
      go rc_push (record s { shared = sh })
    where
      go :
          (rc : NgxRc) (s' : Site slab sq)
          → let ((rc', s''), t') = n_pushed slab p sq room task_alloc entry m rc s' t in
            Handed k t (rc', t')
      go ok s' = inl (refl, h)
      go done s' =
          Posted-Handed k (insert_n s'.db none) t
            (post_alloc room (task_alloc m) (insert_n s'.db none) t) h
            (post_alloc-Posted (task_alloc m) (insert_n s'.db none) t)
      go error s' =
          Posted-Handed k (insert_n s'.db (some entry)) t
            (post_alloc room (task_alloc m) (insert_n s'.db (some entry)) t) h
            (post_alloc-Posted (task_alloc m) (insert_n s'.db (some entry)) t)

  handle_1_async-Handed :
      (k : ℕ) (entry : List Str) (m : p.State) (s : Site slab sq) (t : Threads)
      → Lost (suc k) t
      → let ((rc, s'), t') = handle_1_async slab p sq room task_alloc entry m s t in
        Handed k t (rc, t')
  unfolding handle_1_async
  handle_1_async-Handed k entry m s t h =
      Posted-Handed k (insert_1 s.db entry) t
        (post_alloc room (task_alloc m) (insert_1 s.db entry) t) h
        (post_alloc-Posted (task_alloc m) (insert_1 s.db entry) t)

  -- A completed task takes its pool with it.
  completed-Lost : (k : ℕ) (t : Threads) → Lost k t → Lost k (completed t)
  unfolding completed
  completed-Lost k t h = go t.tasks t.pools h
    where
      go :
          (tasks : List Task) (pools : ℕ)
          → pools ≡ length tasks + k
          → Lost k (completed (record { tasks = tasks; pools = pools }))
      go [] pools h = h
      go (task ∷ tasks) pools h = omega (arith, h)

  -- A flush loses no pool.
  flush_async-Lost :
      (k : ℕ) (pool : Option p.State) (s : Site slab sq) (t : Threads)
      → Lost k t
      → Lost k (flush_async slab p sq room task_alloc pool s t).1
  unfolding flush_async
  flush_async-Lost k pool s t h =
      branch (λ (o : Site slab sq × Threads). Lost k o.1) (get_len_locked slab s.shared == 0)
        (record s { buf = timer_reset s.buf }, t)
        (s, flush_pool_async slab p sq room task_alloc pool t) (λ empty. h) λ waiting. created pool
    where
      posted :
          (o : NgxRc × Threads)
          → Posted flush t o
          → Lost k (flush_posted slab p sq room task_alloc t o)
      posted (ok, t') (e, f) = omega (arith, h, f, ap length e, length-append t.tasks (flush ∷ []))
      posted (done, t') u = h
      posted (error, t') u = h

      created : (pool : Option p.State) → Lost k (flush_pool_async slab p sq room task_alloc pool t)
      created none = h
      created (some m) =
          posted (post_alloc room (task_alloc m) flush t) (post_alloc-Posted (task_alloc m) flush t)

  -- What a request comes to, by the pool that nginx returns for it. Where there is none the request
  -- fails, and no pool and no task changes.
  abbrev pub Accounts :
      ℕ → Threads → Option p.State → Outcome ((NgxRc × Server slab sq) × Threads) → Type 0
  Accounts k t pool failed = ⊥
  Accounts k t pool overflow = Unit {0}
  Accounts k t none (built ((rc, s'), t')) = (rc ≡ error) × (t' ≡ t)
  Accounts k t (some m) (built ((rc, s'), t')) = Handed k t (rc, t')

  concluded-Accounts :
      (k : ℕ) (t t₁ : Threads) (m : p.State) (s : Server slab sq)
      (o : (NgxRc × Site slab sq) × Threads)
      → t₁.tasks ≡ t.tasks
      → Handed k t₁ (o.0.0, o.1)
      → Accounts k t (some m) (built (concluded slab p sq room task_alloc s o))
  concluded-Accounts k t t₁ m s ((ok, s'), t') e (inl u) = inl (u.0 ∙ e, u.1)
  concluded-Accounts k t t₁ m s ((ok, s'), t') e (inr u) =
      inr (u.0, u.1 ∙ ap (λ ts. ts ++ u.0 ∷ []) e, u.2)
  concluded-Accounts k t t₁ m s ((done, s'), t') e u = absurd u
  concluded-Accounts k t t₁ m s ((error, s'), t') e u = (u.0 ∙ e, u.1)

  -- Of the pools that are made for requests, let k belong to no task that waits. A request that the
  -- filter passes, and whose row is built within its buffers, fails where nginx has no pool for it,
  -- with the pools and tasks as they were. With a pool it returns NGX_ERROR, and then no task is
  -- posted and k + 1 pools belong to no task; or it returns NGX_OK, and then either it has posted
  -- one task behind the others and k pools belong to none, or it has posted no task and k + 1 pools
  -- belong to none. Neither the completion of a task nor a flush changes anything of this number,
  -- so that these pools are never destroyed.
  pub handler_async-Accounts :
      (f : Formats) (k : ℕ) (pool : Option p.State) (r : Request) (s : Server slab sq) (t : Threads)
      → Lost k t
      → Accounts k t pool (handler_async slab p sq room task_alloc f pool r s t)
        × Lost k (completed t)
        × Lost k (flush_async slab p sq room task_alloc pool s.site t).1
  unfolding handler_async
  handler_async-Accounts f k none r s t h =
      ((refl, refl), completed-Lost k t h, flush_async-Lost k none s.site t h)
  handler_async-Accounts f k (some m) r s t h =
      (go (log_entry p f s.ops r m), completed-Lost k t h, flush_async-Lost k (some m) s.site t h)
    where
      t₁ : Threads
      t₁ = record t { pools = suc t.pools }

      lost : Lost (suc k) t₁
      lost = omega (arith, h)

      go :
          (o : Outcome (List Str × Request × p.State))
          → Accounts k t (some m) (with_entry_async slab p sq room task_alloc o s t₁)
      go failed = (refl, lost)
      go overflow = tt
      go (built (entry, r', m')) =
          branch (λ o. Accounts k t (some m) (built (concluded slab p sq room task_alloc s o)))
            s.buffered (handle_n_async slab p sq room task_alloc entry m' s.site t₁)
            (handle_1_async slab p sq room task_alloc entry m' s.site t₁)
            (λ yes.
              concluded-Accounts k t t₁ m s
                (handle_n_async slab p sq room task_alloc entry m' s.site t₁) refl
                (handle_n_async-Handed k entry m' s.site t₁ lost))
            λ no.
              concluded-Accounts k t t₁ m s
                (handle_1_async slab p sq room task_alloc entry m' s.site t₁) refl
                (handle_1_async-Handed k entry m' s.site t₁ lost)
