-- ===== src/Handler/Lasting.antt =====
-- What a server keeps from one request to the next, so that each finds what it relies on.
use mathlib.Core.Path.{subst}
use ngx_sqlite_log.Base.{
  ℕ, ◌≤◌, ◌≡◌, sym, ◌∙◌, not, List, [], ◌∷◌, ◌++◌, Option, none, some, length, All, All-append,
  ◌==◌, branch,
}
use ngx_sqlite_log.Util.{Str}
use ngx_sqlite_log.Memory.{Pool, Lists}
use ngx_sqlite_log.Slab.{Slab}
use ngx_sqlite_log.Buf.{
  NgxRc, ok, done, error, Shared, push_locked, unshift_locked, list_locked, timer_reset,
}
use ngx_sqlite_log.Buf.Invariant.{rows, Owns, Pushed, push_lem, Unshifted, unshift_lem}
use ngx_sqlite_log.Buf.Rows.{Listed, list_lem}
use ngx_sqlite_log.Sqlite.{Sqlite}
use ngx_sqlite_log.Sqlite.Code
use ngx_sqlite_log.Sqlite.Transactions.{Transactions}
use ngx_sqlite_log.Sql.Insert.{insert_text}
use ngx_sqlite_log.Db.{Fmt, db_insert_list}
use ngx_sqlite_log.Db.Retry.{db_insert_list_lem}
use ngx_sqlite_log.Handler.{
  Site, unshift_entry, insert_listed, execute_buffer, after_push, handle_n,
}

module _ (slab : Slab) (p : Pool) (lists : Lists p) (sq : Sqlite) (tx : Transactions sq) where
  -- The format of the connection, the invariant of the queue, and the width of its entries.
  abbrev pub Fit : Fmt → ℕ → (ℕ → ℕ) → Site slab sq → Type 0
  Fit fmt n others s =
      (s.db.fmt ≡ fmt) × Owns slab others s.shared × All (λ r. length r ≡ n) (rows s.shared.queue)

  module _ (fmt : Fmt) (n : ℕ) (others : ℕ → ℕ)
      (good : fmt.sql_insert ≡ insert_text fmt.name fmt.ncols) (pos : 1 ≤ n) (entry : List Str)
      (wide : length entry ≡ n) where
    abbrev FitSite : Site slab sq → Type 0
    FitSite s = Fit fmt n others s

    unshift_entry-Fit :
        (rc : NgxRc) (s : Site slab sq) → FitSite s → FitSite (unshift_entry slab sq entry rc s).1
    unshift_entry-Fit ok s v = v
    unshift_entry-Fit done s v = v
    unshift_entry-Fit error s (f, v, w) =
        go (unshift_locked slab entry s.shared) (unshift_lem slab others entry s.shared v)
      where
        go :
            (o : NgxRc × Shared slab)
            → Owns slab others o.1 × Unshifted slab entry s.shared o
            → FitSite (record s { shared = o.1 })
        go (ok, sh) (v', u) = (f, v', rw u (wide, w))
        go (done, sh) (v', u) = absurd u
        go (error, sh) (v', u) = (f, v', rw u w)

    insert_listed-Fit :
        (rc : NgxRc) (list : Option (lists.L × p.State)) (s : Site slab sq)
        → FitSite s
        → FitSite (insert_listed slab p lists sq entry rc list s).1
    insert_listed-Fit rc none s v = v
    insert_listed-Fit rc (some (l, m)) s (f, v, w) =
        let (rc_insert, db', st') = db_insert_list sq s.db (lists.parts l) s.dbs in
        let h = subst (λ (x : Fmt). x.sql_insert ≡ insert_text x.name x.ncols) (sym f) good in
        let same = (db_insert_list_lem sq tx s.db (lists.parts l) s.dbs h).0 in
        let s' = record s { buf = timer_reset s.buf; db = db'; dbs = st' } in
        branch (λ (o : NgxRc × Site slab sq). FitSite o.1) (not (rc_insert == Code.ok)) (error, s')
          (unshift_entry slab sq entry rc s') (λ bad. (same ∙ f, v, w))
          λ fine. unshift_entry-Fit rc s' (same ∙ f, v, w)

    execute_buffer-Fit :
        (rc : NgxRc) (m : p.State) (s : Site slab sq)
        → FitSite s
        → FitSite (execute_buffer slab p lists sq entry rc m s).1
    execute_buffer-Fit rc m s (f, v, w) =
        go (list_locked slab p lists (length entry) s.shared m)
          (list_lem slab p lists others (length entry) s.shared m (rw wide pos) (rw wide w) v)
      where
        go :
            (o : Option (lists.L × p.State) × Shared slab)
            → Listed slab p lists others (length entry) s.shared o
            → FitSite (insert_listed slab p lists sq entry rc o.0 (record s { shared = o.1 })).1
        go (none, sh) e = (f, rw e v, rw e w)
        go (some (l, m'), sh) (ps, e, v') =
            insert_listed-Fit rc (some (l, m')) (record s { shared = sh }) (f, v', rw e tt)

    after_push-Fit :
        (rc : NgxRc) (m : p.State) (s : Site slab sq)
        → FitSite s
        → FitSite (after_push slab p lists sq entry rc m s).1
    after_push-Fit ok m s v = v
    after_push-Fit done m s v = execute_buffer-Fit done m s v
    after_push-Fit error m s v = execute_buffer-Fit error m s v

    -- The handler of buffered requests keeps all of it.
    pub handle_n-Fit :
        (m : p.State) (s : Site slab sq)
        → FitSite s
        → FitSite (handle_n slab p lists sq entry m s).1
    unfolding handle_n
    handle_n-Fit m s (f, v, w) =
        go (push_locked slab s.buf.max entry s.shared)
          (push_lem slab others s.buf.max entry s.shared v)
      where
        more : All (λ r. length r ≡ n) (rows s.shared.queue ++ entry ∷ [])
        more = All-append _ (rows s.shared.queue) (entry ∷ []) w (wide, tt)

        go :
            (o : NgxRc × Shared slab)
            → Owns slab others o.1 × Pushed slab s.buf.max entry s.shared o
            → FitSite (after_push slab p lists sq entry o.0 m (record s { shared = o.1 })).1
        go (ok, sh) (v', u) = after_push-Fit ok m (record s { shared = sh }) (f, v', rw u.0 more)
        go (done, sh) (v', u) =
            after_push-Fit done m (record s { shared = sh }) (f, v', rw u.0 more)
        go (error, sh) (v', u) = after_push-Fit error m (record s { shared = sh }) (f, v', rw u w)
