-- ===== src/Handler/Request.antt =====
-- src/ngx_http_sqlitelog_module.c: ngx_http_sqlitelog_handler, which nginx calls at the end of each
-- request, in a server without a thread pool.
use mathlib.Core.Path.{subst}
use ngx_sqlite_log.Base.{
  ℕ, suc, ◌≤◌, ◌≡◌, refl, sym, ap, inl, inr, ◌⊎◌, Bool, true, false, not, List, [], ◌∷◌, arith,
  length, All, if◌then◌else◌,
}
use ngx_sqlite_log.Util.{Str, str_is_false}
use ngx_sqlite_log.Memory.{Pool, Lists, Outcome, failed, overflow, built}
use ngx_sqlite_log.Slab.{Slab}
use ngx_sqlite_log.Buf.{NgxRc, ok, done, error}
use ngx_sqlite_log.Buf.Invariant.{rows, Owns}
use ngx_sqlite_log.Op.Request.{Request, Formats}
use ngx_sqlite_log.Op.Run.{Op}
use ngx_sqlite_log.Entry.{log_entry}
use ngx_sqlite_log.Entry.Memory.{log_entry-RunsOut}
use ngx_sqlite_log.Format.Answers.{RunsOut}
use ngx_sqlite_log.Entry.Shape.{AllOwn, expected, Yields, log_entry_lem}
use ngx_sqlite_log.Sqlite.{Sqlite}
use ngx_sqlite_log.Sqlite.Transactions.{Transactions}
use ngx_sqlite_log.Sql.Insert.{insert_text}
use ngx_sqlite_log.Db.{db_close}
use ngx_sqlite_log.Handler.{Site, handle_1, handle_n}
use ngx_sqlite_log.Handler.Conserve.{Handled, handle_n_lem}

-- The filter of a server, as ngx_http_complex_value answers for this request.
pub data Condition : Type 0 where
  no_filter filter_failed : Condition
  filter_value : List ℕ → Condition

-- Whether the request is to be logged.
abbrev pub passes : Condition → Bool
passes no_filter = true
passes filter_failed = false
passes (filter_value condition) = not (str_is_false condition)

module _ (slab : Slab) (sq : Sqlite) where
  -- ngx_http_sqlitelog_srv_conf_t, as the handler uses it; `buffered` says that it has a buffer.
  pub record Server : Type 0 where
    pub enabled : Bool
    pub buffered : Bool
    pub ops : List Op
    pub site : Site slab sq

  -- The label `failed`: the connection is closed, and the server is disabled in this worker.
  abbrev pub disable : Server → Server
  disable s =
      let (rc_close, db', st') = db_close sq s.site.db s.site.dbs in
      record s { enabled = false; site = record s.site { db = db'; dbs = st' } }

  -- After handle_entry returns.
  abbrev pub conclude : Server → NgxRc × Site slab sq → NgxRc × Server
  conclude s (ok, site') = (ok, record s { site = site' })
  conclude s (done, site') = (error, disable (record s { site = site' }))
  conclude s (error, site') = (error, disable (record s { site = site' }))

module _ (slab : Slab) (p : Pool) (lists : Lists p) (sq : Sqlite) (f : Formats) where
  abbrev handle_entry : List Str → p.State → Server slab sq → NgxRc × Site slab sq
  handle_entry entry m s =
      if s.buffered then handle_n slab p lists sq entry m s.site else handle_1 slab sq entry s.site

  -- After the log entry is made or not.
  abbrev pub with_entry :
      Outcome (List Str × Request × p.State) → Server slab sq → Outcome (NgxRc × Server slab sq)
  with_entry failed s = built (error, disable slab sq s)
  with_entry overflow s = overflow
  with_entry (built (entry, r, m)) s = built (conclude slab sq s (handle_entry entry m s))

  abbrev filtered :
      Condition → Request → p.State → Server slab sq → Outcome (NgxRc × Server slab sq)
  filtered no_filter r m s = with_entry (log_entry p f s.ops r m) s
  filtered filter_failed r m s = built (error, s)
  filtered (filter_value condition) r m s =
      if str_is_false condition then built (ok, s) else with_entry (log_entry p f s.ops r m) s

  unfoldable pub handler :
      Condition → Request → p.State → Server slab sq → Outcome (NgxRc × Server slab sq)
  handler condition r m s = if not s.enabled then built (ok, s) else filtered condition r m s

module _ (slab : Slab) (p : Pool) (lists : Lists p) (sq : Sqlite) (f : Formats) where
  -- Which handler a server takes.
  handles_n :
      (entry : List Str) (m : p.State) (s : Server slab sq)
      → s.buffered ≡ true
      → handle_entry slab p lists sq f entry m s ≡ handle_n slab p lists sq entry m s.site
  handles_n entry m s h = rw h refl

  pub handles_1 :
      (entry : List Str) (m : p.State) (s : Server slab sq)
      → s.buffered ≡ false
      → handle_entry slab p lists sq f entry m s ≡ handle_1 slab sq entry s.site
  handles_1 entry m s h = rw h refl

  -- A request that passes the filter comes to its log entry.
  pub handler-passes :
      (condition : Condition) (r : Request) (m : p.State) (s : Server slab sq)
      → passes condition ≡ true
      → s.enabled ≡ true
      → handler slab p lists sq f condition r m s
        ≡ with_entry slab p lists sq f (log_entry p f s.ops r m) s
  unfolding handler
  handler-passes no_filter r m s h e = rw e refl
  handler-passes filter_failed r m s h e = absurd (ground arith)
  handler-passes (filter_value condition) r m s h e =
      rw (e, not_false (str_is_false condition) h) refl
    where
      not_false : (b : Bool) → not b ≡ true → b ≡ false
      not_false b h = ground arith

pub length-expected :
    (ops : List Op) (t : AllOwn ops) (r : Request) → length (expected ops t r) ≡ length ops
length-expected [] t r = refl
length-expected (op ∷ ops) t r = ap suc (length-expected ops t.1 r)

module _ (slab : Slab) (p : Pool) (lists : Lists p) (sq : Sqlite) (tx : Transactions sq)
    (f : Formats) where
  -- What a request that passes the filter comes to: its row is stored or waits; or the server is
  -- disabled, because nginx's pool runs out of memory or the handling of the entry fails.
  abbrev pub Logged :
      (ℕ → ℕ) → List Str → Server slab sq → Outcome (NgxRc × Server slab sq) → Type 0
  Logged others entry s failed = ⊥
  Logged others entry s overflow = ⊥
  Logged others entry s (built (ok, s')) =
      (s'.enabled ≡ s.enabled)
      × Handled slab p lists sq tx others entry (rows s.site.shared.queue) s.site (ok, s'.site)
  Logged others entry s (built (done, s')) = ⊥
  Logged others entry s (built (error, s')) =
      (s'.enabled ≡ false)
      × (RunsOut p
          ⊎ ((site' : Site slab sq) × (s'.site.shared ≡ site'.shared)
              × Handled slab p lists sq tx others entry (rows s.site.shared.queue) s.site
                  (error, site')))

  conclude-Logged :
      (others : ℕ → ℕ) (entry : List Str) (s : Server slab sq) (o : NgxRc × Site slab sq)
      → Handled slab p lists sq tx others entry (rows s.site.shared.queue) s.site o
      → Logged others entry s (built (conclude slab sq s o))
  conclude-Logged others entry s (ok, site') h = (refl, h)
  conclude-Logged others entry s (done, site') h = absurd h.1
  conclude-Logged others entry s (error, site') h = (refl, inr (site', refl, h))

  -- In an enabled server with a buffer, whose columns, at least one, each store a variable's own
  -- text, whose INSERT is the text that the module builds, and whose queue satisfies its invariant
  -- and holds entries of as many strings as there are columns: a request that the filter passes
  -- either is logged, with exactly the row that its variables determine, beside the entries that
  -- waited, none of them lost or stored twice, a blank row being possible where none waited; or the
  -- server is disabled, because the row cannot be built, which takes a pool that can return NULL,
  -- or because no list of the entries can be made, the insertion fails or the entry finds no room,
  -- with what the handling of the entry leaves. Nothing is written past a buffer.
  pub handler_lem :
      (others : ℕ → ℕ) (condition : Condition) (r : Request) (m : p.State) (s : Server slab sq)
      (t : AllOwn s.ops)
      → passes condition ≡ true
      → s.enabled ≡ true
      → s.buffered ≡ true
      → s.site.db.fmt.sql_insert ≡ insert_text s.site.db.fmt.name s.site.db.fmt.ncols
      → 1 ≤ length s.ops
      → All (λ row. length row ≡ length s.ops) (rows s.site.shared.queue)
      → Owns slab others s.site.shared
      → Logged others (expected s.ops t r) s (handler slab p lists sq f condition r m s)
  handler_lem others condition r m s t pass on buffered h pos all v =
      rw (handler-passes slab p lists sq f condition r m s pass on)
        (go (log_entry p f s.ops r m) refl (log_entry_lem p f s.ops t r m))
    where
      go :
          (o : Outcome (List Str × Request × p.State))
          → log_entry p f s.ops r m ≡ o
          → Yields (expected s.ops t r) r o
          → Logged others (expected s.ops t r) s (with_entry slab p lists sq f o s)
      go failed at y = (refl, inl (log_entry-RunsOut p f s.ops r m at))
      go overflow at y = y
      go (built (entry, r', m')) at y = rw y.0 (
          subst (λ o. Logged others (expected s.ops t r) s (built (conclude slab sq s o)))
            (sym (handles_n slab p lists sq f (expected s.ops t r) m' s buffered))
            (conclude-Logged others (expected s.ops t r) s
              (handle_n slab p lists sq (expected s.ops t r) m' s.site)
              (handle_n_lem slab p lists sq tx others (expected s.ops t r) m' s.site h
                (rw (length-expected s.ops t r) pos) (rw (length-expected s.ops t r) all) v)))
