-- ===== src/Served.antt =====
-- From the directives of a configuration file to the request: what a worker of
-- src/ngx_http_sqlitelog_module.c has in hand when ngx_http_sqlitelog_handler runs.
pub mod Accepted
pub mod Requests
use ngx_sqlite_log.Base.{ℕ, Bool, List, [], Option, none, some}
use ngx_sqlite_log.Util.{Str}
use ngx_sqlite_log.Memory.{Pool}
use ngx_sqlite_log.Slab.{Slab}
use ngx_sqlite_log.Buf.{Buf}
use ngx_sqlite_log.Entry.Named.{ops_of}
use ngx_sqlite_log.Sqlite.{Sqlite}
use ngx_sqlite_log.Db.{Bind}
use ngx_sqlite_log.Format.{Format}
use ngx_sqlite_log.File.{Files}
use ngx_sqlite_log.Conf.{FormatRef, SrvConf, is_on}
use ngx_sqlite_log.Conf.Main.{Nginx, is_given}
use ngx_sqlite_log.Conf.Directive.{Ctx, database}
use ngx_sqlite_log.Handler.Request.{Server}
use ngx_sqlite_log.Handler.Cycle.{ServerConf, Worker}

module _ (slab : Slab) (sq : Sqlite) where
  -- A server as the handler finds it in a worker that has started, `fmt` being what its database
  -- points to.
  abbrev pub server_of : Format → ℕ → ServerConf → Worker slab sq → Server slab sq
  server_of fmt b s w =
      let (zone, buf) = w.bufs b in
      record {
        enabled = s.enabled;
        buffered = is_given s.buf;
        ops = ops_of fmt.columns;
        site = record { buf = buf; db = s.db; shared = w.zones zone; dbs = w.dbs };
      }

module _ (p : Pool) (files : Files) (sq : Sqlite) (ngx : Nginx) (stale : p.State → Bool)
    (beyond : ℕ → Bind) where
  abbrev C : Type 0
  C = Ctx p files sq ngx stale beyond

  abbrev pub numbered : ℕ → Option (ℕ × Buf) → Option ℕ
  numbered b none = none
  numbered b (some buf) = some b

  abbrev bytes_of : Str → List ℕ
  bytes_of none = []
  bytes_of (some s) = s

  -- A server after the merge, with what its path and format point to, and its buffer as one of the
  -- worker's.
  abbrev pub conf_of : FormatRef → ℕ → SrvConf → C → ServerConf
  conf_of ref b srv c = record {
    enabled = is_on srv.enabled;
    buf = numbered b srv.settings.buf;
    db =
        database p files sq ngx stale beyond (bytes_of srv.settings.filename) ref srv.settings
          c.main;
  }
