-- ===== src/Served/Requests.antt =====
-- A request in a server that the configuration file sets up.
use ngx_sqlite_log.Base.{ℕ, Bool, List, map}
use ngx_sqlite_log.Util.{Str}
use ngx_sqlite_log.Memory.{Pool, Lists}
use ngx_sqlite_log.Slab.{Slab}
use ngx_sqlite_log.Op.Request.{Request, Formats}
use ngx_sqlite_log.Entry.Named.{named_field}
use ngx_sqlite_log.Sqlite.{Sqlite}
use ngx_sqlite_log.Sqlite.Transactions.{Transactions}
use ngx_sqlite_log.Db.{Bind}
use ngx_sqlite_log.Format.{Format}
use ngx_sqlite_log.File.{Files}
use ngx_sqlite_log.Conf.Main.{Nginx}
use ngx_sqlite_log.Conf.Block.{Block}

module _ (p : Pool) (files : Files) (sq : Sqlite) (ngx : Nginx) (stale : p.State → Bool)
    (beyond : ℕ → Bind) (slab : Slab) (lists : Lists p) (tx : Transactions sq) (f : Formats) where
  -- The row of a request, from the columns of a format.
  abbrev pub row_of : Format → Request → List Str
  row_of fmt r = map (named_field ngx.variable_index r) fmt.columns
