-- ===== src/Handler/Requests.antt =====
-- The requests of a server, one after the other: ngx_http_sqlitelog_handler of
-- src/ngx_http_sqlitelog_module.c again and again, in a server with a buffer.
use ngx_sqlite_log.Base.{ℕ, ◌≡◌, ◌⊎◌, Bool, true, false, List, [], ◌∷◌, length}
use ngx_sqlite_log.Memory.{Pool, Lists, Outcome, failed, overflow, built}
use ngx_sqlite_log.Slab.{Slab}
use ngx_sqlite_log.Buf.{NgxRc}
use ngx_sqlite_log.Op.Request.{Request, Formats}
use ngx_sqlite_log.Op.Run.{Op}
use ngx_sqlite_log.Entry.Shape.{AllOwn, expected}
use ngx_sqlite_log.Sqlite.{Sqlite}
use ngx_sqlite_log.Sqlite.Transactions.{Transactions}
use ngx_sqlite_log.Db.{Fmt}
use ngx_sqlite_log.Handler.{Site}
use ngx_sqlite_log.Handler.Lasting.{Fit}
use ngx_sqlite_log.Handler.Request.{Condition, passes, Server, handler, Logged}

module _ (slab : Slab) (p : Pool) (lists : Lists p) (sq : Sqlite) (tx : Transactions sq)
    (f : Formats) (ops : List Op) (t : AllOwn ops) (fmt : Fmt) (others : ℕ → ℕ) where
  -- The server, which has a buffer and these columns.
  abbrev pub server : Bool → Site slab sq → Server slab sq
  server enabled site = record { enabled = enabled; buffered = true; ops = ops; site = site }

  abbrev Result : Type 0
  Result = Outcome (NgxRc × Server slab sq)

  abbrev answer : Condition → Request → p.State → Server slab sq → Result
  answer condition r m s = handler slab p lists sq f condition r m s

  -- Nothing has changed.
  abbrev Untouched : Server slab sq → Result → Type 0
  Untouched s failed = ⊥
  Untouched s overflow = ⊥
  Untouched s (built (rc, s')) = s' ≡ s

  -- A request is logged where the server is on and the filter passes it.
  abbrev pub Answered : Condition → Request → Server slab sq → Result → Type 0
  Answered condition r s o =
      ((s.enabled ≡ true)
        × (passes condition ≡ true)
        × Logged slab p lists sq tx f others (expected ops t r) s o)
      ⊎ (((s.enabled ≡ false) ⊎ (passes condition ≡ false)) × Untouched s o)

  -- What follows in the state that a request leaves.
  abbrev Then : (Bool → Site slab sq → Type 0) → Result → Type 0
  Then P failed = ⊥
  Then P overflow = ⊥
  Then P (built (rc, s')) = (s' ≡ server s'.enabled s'.site) × P s'.enabled s'.site

  -- Each of the requests is answered so, in the state that those before it leave.
  abbrev pub AllAnswered : List (Condition × Request × p.State) → Bool → Site slab sq → Type 0
  AllAnswered [] enabled site = Unit {0}
  AllAnswered ((condition, r, m) ∷ requests) enabled site =
      Answered condition r (server enabled site) (answer condition r m (server enabled site))
      × Then (AllAnswered requests) (answer condition r m (server enabled site))

  abbrev Holds : Bool → Site slab sq → Type 0
  Holds enabled site = Fit slab p lists sq tx fmt (length ops) others site
