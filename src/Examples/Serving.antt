-- ===== src/Examples/Serving.antt =====
-- The theorems from the configuration file to the request, at a small input.
use ngx_sqlite_log.Base.{true, Option, none, some}
use ngx_sqlite_log.Conf.{another, SrvConf}
use ngx_sqlite_log.Handler.Cycle.{ServerConf, Worker, init_server}
use ngx_sqlite_log.Handler.Request.{Server}
use ngx_sqlite_log.Served.{server_of, conf_of}
use ngx_sqlite_log.Examples.Engine.{engine}
use ngx_sqlite_log.Examples.Memory.{slab, pool}
use ngx_sqlite_log.Examples.Reading.{files}
use ngx_sqlite_log.Examples.Directives.{nginx, uncleared, texts}
use ngx_sqlite_log.Examples.Storage.{empty}
use ngx_sqlite_log.Examples.Handling.{idle}
use ngx_sqlite_log.Examples.Blocks.{fifth, brief}

abbrev worker : Worker slab engine
worker = record {
  bufs = λ b. (0, record { max = 5; flush = 5000; event = some true });
  zones = λ z. idle;
  flush_db = λ b. none;
  dbs = empty;
}

abbrev conf : SrvConf → ServerConf
conf srv = conf_of pool files engine nginx uncleared texts (another brief) 0 srv fifth.ctx

abbrev started_or : ServerConf → Option ServerConf → ServerConf
started_or s none = s
started_or s (some s') = s'

abbrev start_of : SrvConf → ServerConf × Worker slab engine
start_of srv =
    let (s, w) = init_server slab engine 0 (some (conf srv)) worker in (started_or (conf srv) s, w)

abbrev server : SrvConf → Server slab engine
server srv = server_of slab engine brief 0 (start_of srv).0 (start_of srv).1
