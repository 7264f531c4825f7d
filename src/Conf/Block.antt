-- ===== src/Conf/Block.antt =====
-- The directives of a whole http block, in src/ngx_http_sqlitelog_module.c. nginx calls the handler
-- of each directive in the order of the file, the sqlitelog directive with the configuration of the
-- block or that of the server that it stands in, and merges the servers at the end of the block. A
-- refused directive ends the reading.
pub mod Settled
pub mod Merged
use ngx_sqlite_log.Base.{ℕ, ◌+◌, ◌*◌, ◌^◌, ◌<◌, ◌≡◌, Bool, List, [], ◌∷◌, ◌++◌, map, length}
use ngx_sqlite_log.Memory.{Pool, built}
use ngx_sqlite_log.Sqlite.{Sqlite}
use ngx_sqlite_log.Db.{Bind}
use ngx_sqlite_log.Format.{fmt_n_variables}
use ngx_sqlite_log.File.{Files}
use ngx_sqlite_log.Conf.{SrvConf, new_srv_conf, merge_srv_conf}
use ngx_sqlite_log.Conf.Main.{Nginx, MainConf, format, async}
use ngx_sqlite_log.Conf.Directive.{Ctx, sqlitelog}

module _ (p : Pool) (files : Files) (sq : Sqlite) (ngx : Nginx) (stale : p.State → Bool)
    (beyond : ℕ → Bind) where
  -- What has been read so far: the main configuration with the rest of the context, the
  -- configuration of the block itself, and those of its servers.
  pub record Block : Type 0 where
    pub ctx : Ctx p files sq ngx stale beyond
    pub http : SrvConf
    pub servers : List SrvConf

  -- A block with nothing in it.
  abbrev pub empty : Ctx p files sq ngx stale beyond → Block
  empty c = record { ctx = c; http = new_srv_conf; servers = [] }

  -- The servers at the end of the block.
  abbrev pub merged : Block → List SrvConf
  merged b = map (merge_srv_conf b.http) b.servers

  -- A directive that is accepted, or the begin of a server. A format's name, and its variables
  -- twice, are fewer than 2 ^ 63.
  pub data Step (b : Block) : Block → Type 0 where
    new_server : Step b (record b { servers = b.servers ++ new_srv_conf ∷ [] })
    defines :
        (directive fmt_name : List ℕ) (args : List (List ℕ)) (lmcf : MainConf) (m : p.State)
        → length fmt_name + fmt_n_variables (directive ∷ fmt_name ∷ args) * 2 < 2 ^ 63
        → format p ngx directive fmt_name args (b.ctx.main, b.ctx.mem) ≡ built (lmcf, m)
        → Step b (record b { ctx = record b.ctx { main = lmcf; mem = m } })
    threads :
        (arg : List ℕ) (lmcf : MainConf) (cycle : ngx.Cycle)
        → async ngx arg (b.ctx.main, b.ctx.cycle) ≡ built (lmcf, cycle)
        → Step b (record b { ctx = record b.ctx { main = lmcf; cycle = cycle } })
    logs :
        (value : List ℕ) (args : List (List ℕ)) (http : SrvConf)
        (c : Ctx p files sq ngx stale beyond)
        → sqlitelog p files sq ngx stale beyond value args (b.http, b.ctx) ≡ built (http, c)
        → Step b (record b { ctx = c; http = http })
    server_logs :
        (value : List ℕ) (args : List (List ℕ)) (before : List SrvConf) (old : SrvConf)
        (after : List SrvConf) (srv : SrvConf) (c : Ctx p files sq ngx stale beyond)
        → b.servers ≡ before ++ old ∷ after
        → sqlitelog p files sq ngx stale beyond value args (old, b.ctx) ≡ built (srv, c)
        → Step b (record b { ctx = c; servers = before ++ srv ∷ after })

  -- What can be read from a state on.
  pub data Reach (b : Block) : Block → Type 0 where
    start : Reach b b
    later : {c d : Block} → Reach b c → Step c d → Reach b d
