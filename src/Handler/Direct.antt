-- ===== src/Handler/Direct.antt =====
-- A server without a buffer: ngx_http_sqlitelog_handle_1, and ngx_http_sqlitelog_handler of
-- src/ngx_http_sqlitelog_module.c above it.
use mathlib.Core.Path.{subst}
use ngx_sqlite_log.Base.{
  ◌≡◌, ◌≢◌, refl, sym, inl, inr, ◌⊎◌, true, false, not, List, [], ◌∷◌, ◌++◌, none, ◌==◌, branch,
  ne_of_not, eq_of_not,
}
use ngx_sqlite_log.Util.{Str}
use ngx_sqlite_log.Memory.{Pool, Lists, Outcome, failed, overflow, built}
use ngx_sqlite_log.Slab.{Slab}
use ngx_sqlite_log.Buf.{NgxRc, ok, done, error}
use ngx_sqlite_log.Op.Request.{Request, Formats}
use ngx_sqlite_log.Entry.{log_entry}
use ngx_sqlite_log.Entry.Memory.{log_entry-RunsOut}
use ngx_sqlite_log.Format.Answers.{RunsOut}
use ngx_sqlite_log.Entry.Shape.{AllOwn, expected, Yields, log_entry_lem}
use ngx_sqlite_log.Sqlite.{Sqlite}
use ngx_sqlite_log.Sqlite.Code
use ngx_sqlite_log.Sqlite.Transactions.{Transactions, Value}
use ngx_sqlite_log.Sql.Insert.{insert_text}
use ngx_sqlite_log.Db.{db_insert}
use ngx_sqlite_log.Db.Insert.{table, pending, stored_row}
use ngx_sqlite_log.Db.Single.{ReopensAfter, reopened_after, db_insert_lem}
use ngx_sqlite_log.Handler.{Site, handle_1}
use ngx_sqlite_log.Handler.Request.{
  Condition, passes, Server, conclude, with_entry, handler, handles_1, handler-passes,
}

module _ (slab : Slab) (sq : Sqlite) (tx : Transactions sq) where
  -- No transaction is open, nor is one when the connection has been opened again.
  abbrev pub Alone : List Str → Site slab sq → Type 0
  Alone entry s =
      (pending sq tx s.dbs ≡ none) × (pending sq tx (reopened_after sq s.db entry s.dbs) ≡ none)

  -- The table at the call, or, only where the first attempt failed because the database has moved,
  -- the one that is found when the connection has been opened again.
  abbrev pub FoundFor : List Str → Site slab sq → List (List Value) → Type 0
  FoundFor entry s base =
      (base ≡ table sq tx s.dbs)
      ⊎ (ReopensAfter sq s.db entry s.dbs
          × (base ≡ table sq tx (reopened_after sq s.db entry s.dbs)))

  -- On success the table has gained the row, and on failure nothing. The queue, if there is one, is
  -- as it was.
  abbrev pub AtOnce : List Str → Site slab sq → NgxRc × Site slab sq → Type 0
  AtOnce entry s (ok, s') =
      (base : List (List Value)) × FoundFor entry s base
      × (table sq tx s'.dbs ≡ base ++ stored_row sq tx s.db.fmt entry ∷ [])
      × (pending sq tx s'.dbs ≡ none)
      × (s'.db.fmt ≡ s.db.fmt)
      × (s'.shared ≡ s.shared)
  AtOnce entry s (done, s') = ⊥
  AtOnce entry s (error, s') =
      (base : List (List Value)) × FoundFor entry s base
      × ((db_insert sq s.db entry s.dbs).0 ≢ Code.ok)
      × (table sq tx s'.dbs ≡ base)
      × (s'.shared ≡ s.shared)

  handle_1-AtOnce :
      (entry : List Str) (s : Site slab sq)
      → s.db.fmt.sql_insert ≡ insert_text s.db.fmt.name s.db.fmt.ncols
      → Alone entry s
      → AtOnce entry s (handle_1 slab sq entry s)
  unfolding handle_1
  handle_1-AtOnce entry s h (alone, again) =
      let (rc, db', st') = db_insert sq s.db entry s.dbs in
      let (same, base, found, stored, not_stored) =
        db_insert_lem sq tx s.db entry s.dbs h alone again in
      let s' = record s { db = db'; dbs = st' } in
      branch (λ rc_ngx. AtOnce entry s (rc_ngx, s')) (not (rc == Code.ok)) error ok
        (λ bad.
          (base, found, ne_of_not rc Code.ok bad, not_stored (ne_of_not rc Code.ok bad), refl))
        λ good. let (t, p) = stored (eq_of_not rc Code.ok good) in (base, found, t, p, same, refl)

module _ (slab : Slab) (p : Pool) (lists : Lists p) (sq : Sqlite) (tx : Transactions sq)
    (f : Formats) where
  -- What a request that passes the filter comes to: its row is stored; or the server is disabled,
  -- because the row cannot be built or its insertion fails.
  abbrev pub LoggedAtOnce : List Str → Server slab sq → Outcome (NgxRc × Server slab sq) → Type 0
  LoggedAtOnce entry s failed = ⊥
  LoggedAtOnce entry s overflow = ⊥
  LoggedAtOnce entry s (built (ok, s')) =
      (s'.enabled ≡ s.enabled) × AtOnce slab sq tx entry s.site (ok, s'.site)
  LoggedAtOnce entry s (built (done, s')) = ⊥
  LoggedAtOnce entry s (built (error, s')) =
      (s'.enabled ≡ false)
      × (RunsOut p
          ⊎ ((site' : Site slab sq) × (s'.site.shared ≡ site'.shared)
              × AtOnce slab sq tx entry s.site (error, site')))

  conclude-AtOnce :
      (entry : List Str) (s : Server slab sq) (o : NgxRc × Site slab sq)
      → AtOnce slab sq tx entry s.site o
      → LoggedAtOnce entry s (built (conclude slab sq s o))
  conclude-AtOnce entry s (ok, site') h = (refl, h)
  conclude-AtOnce entry s (done, site') h = absurd h
  conclude-AtOnce entry s (error, site') h = (refl, inr (site', refl, h))

  -- In an enabled server without a buffer, whose columns each store a variable's own text, and
  -- whose INSERT is the text that the module builds, where no transaction is open, nor would one be
  -- after the connection is opened again: a request that the filter passes either has stored, at
  -- once and once, exactly the row that its variables determine; or the server is disabled, because
  -- the row cannot be built, which takes a pool that can return NULL, or because the insertion gave
  -- another code than SQLITE_OK, and then nothing is stored. Nothing is written past a buffer.
  pub handler-AtOnce :
      (condition : Condition) (r : Request) (m : p.State) (s : Server slab sq) (t : AllOwn s.ops)
      → passes condition ≡ true
      → s.enabled ≡ true
      → s.buffered ≡ false
      → s.site.db.fmt.sql_insert ≡ insert_text s.site.db.fmt.name s.site.db.fmt.ncols
      → Alone slab sq tx (expected s.ops t r) s.site
      → LoggedAtOnce (expected s.ops t r) s (handler slab p lists sq f condition r m s)
  handler-AtOnce condition r m s t pass on unbuffered h alone =
      rw (handler-passes slab p lists sq f condition r m s pass on)
        (go (log_entry p f s.ops r m) refl (log_entry_lem p f s.ops t r m))
    where
      go :
          (o : Outcome (List Str × Request × p.State))
          → log_entry p f s.ops r m ≡ o
          → Yields (expected s.ops t r) r o
          → LoggedAtOnce (expected s.ops t r) s (with_entry slab p lists sq f o s)
      go failed at y = (refl, inl (log_entry-RunsOut p f s.ops r m at))
      go overflow at y = y
      go (built (entry, r', m')) at y = rw y.0 (
          subst (λ o. LoggedAtOnce (expected s.ops t r) s (built (conclude slab sq s o)))
            (sym (handles_1 slab p lists sq f (expected s.ops t r) m' s unbuffered))
            (conclude-AtOnce (expected s.ops t r) s (handle_1 slab sq (expected s.ops t r) s.site)
              (handle_1-AtOnce slab sq tx (expected s.ops t r) s.site h alone)))
