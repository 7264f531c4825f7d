-- ===== src/Examples/Leaving.antt =====
-- The theorems on a worker that starts and on one that exits at small inputs.
use ngx_sqlite_log.Base.{false, ℕ, ◌^◌, ◌<◌, refl, true, [], ◌∷◌, none, some, arith, List, Option}
use ngx_sqlite_log.Base.{All}
use ngx_sqlite_log.Handler.Cycle.Start.{AllStarted, IfOn, init_worker-Starts}
use ngx_sqlite_log.Handler.Cycle.{init_worker, ServerConf, Worker, exit_worker}
use ngx_sqlite_log.Handler.Cycle.Exit.{Leaves, exit_worker-Leaves}
use ngx_sqlite_log.Examples.Engine.{engine, transactions}
use ngx_sqlite_log.Examples.Memory.{slab, pool, lists}
use ngx_sqlite_log.Examples.Storage.{waiting, waiting-Owns, db, empty, nobody}

-- Two servers share a buffer, and a third has none of the module's configuration.
abbrev servers : List (Option ServerConf)
servers =
    some (record { enabled = true; buf = some 0; db = db })
    ∷ some (record { enabled = true; buf = some 0; db = db })
    ∷ none
    ∷ []

abbrev worker : Worker slab engine
worker = record {
  bufs = λ b. (0, record { max = 2; flush = 5000; event = some false });
  zones = λ z. waiting;
  flush_db = λ b. none;
  dbs = empty;
}

abbrev draws : ℕ → ℕ → ℕ
draws i j = 1234567

draws_bound : (i j : ℕ) → draws i j < 2 ^ 63
draws_bound i j = omega arith

exit_worker-Leaves_example :
    Leaves slab pool lists engine transactions draws
      (λ z. nobody)
      worker
      (exit_worker slab pool lists engine draws 0 0 servers worker)
exit_worker-Leaves_example =
    exit_worker-Leaves slab pool lists engine transactions draws (λ z. nobody) 0 0 servers worker
      draws_bound (λ z. waiting-Owns)
      ((refl, omega arith, (refl, tt)), ((refl, omega arith, (refl, tt)), (tt, tt)))

init_worker-Starts_example :
    let (ss', w') = init_worker slab engine 0 servers worker in
    AllStarted slab engine servers ss' × All (IfOn slab engine w') ss'
init_worker-Starts_example = init_worker-Starts slab engine 0 servers worker
