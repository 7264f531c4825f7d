-- ===== src/Examples/Posting.antt =====
-- The theorems on a server with a thread pool at small inputs.
use ngx_sqlite_log.Base.{ℕ, ◌+◌, refl, Bool, true, List, [], Option, some}
use ngx_sqlite_log.Buf.{Shared}
use ngx_sqlite_log.Handler.{handle_n}
use ngx_sqlite_log.Handler.Async.{
  Task, Threads, handle_n_async, handler_async, flush_async, run_tasks, completed,
}
use ngx_sqlite_log.Handler.Async.Same.{Same, handle_n_async-Same}
use ngx_sqlite_log.Handler.Async.Pools.{Lost, Accounts, handler_async-Accounts}
use ngx_sqlite_log.Examples.Engine.{engine}
use ngx_sqlite_log.Examples.Memory.{slab, pool, lists}
use ngx_sqlite_log.Examples.Statements.{formats, request, ops}
use ngx_sqlite_log.Examples.Storage.{entry}
use ngx_sqlite_log.Examples.Handling.{site}
use ngx_sqlite_log.Handler.Request.{Server}

abbrev server : Server slab engine
server = record { enabled = true; buffered = true; ops = ops; site = site }

-- Every task is accepted.
abbrev open_queue : List Task → Bool
open_queue tasks = true

abbrev alloc : ℕ → Option ℕ
alloc m = some (m + 1)

abbrev undisturbed : Shared slab → Shared slab
undisturbed sh = sh

handle_n_async-Same_example :
    let ((rc, s'), t) =
      handle_n_async slab pool engine open_queue alloc entry 0 site
        (record { tasks = []; pools = 1 }) in
    Same slab pool lists engine
      (run_tasks slab pool lists engine undisturbed t.tasks 1 s')
      (handle_n slab pool lists engine entry 1 site).1
handle_n_async-Same_example =
    handle_n_async-Same slab pool lists engine open_queue alloc entry 0 1 site 1 refl refl refl

-- No task waits, and no pool is lost.
abbrev calm : Threads
calm = record { tasks = []; pools = 0 }

handler_async-Accounts_example :
    Accounts slab pool engine open_queue alloc 0 calm
      (some 0)
      (handler_async slab pool engine open_queue alloc formats (some 0) request server calm)
    × Lost 0 (completed calm)
    × Lost 0 (flush_async slab pool engine open_queue alloc (some 0) site calm).1
handler_async-Accounts_example =
    handler_async-Accounts slab pool engine open_queue alloc formats 0 (some 0) request server calm
      refl
