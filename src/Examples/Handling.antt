-- ===== src/Examples/Handling.antt =====
-- The theorems on a worker's buffer, its flush and its checkpoint at small inputs.
use ngx_sqlite_log.Base.{ℕ, ◌^◌, ◌<◌, ◌≡◌, ◌⊎◌, refl, [], ◌∷◌, none, some, arith}
use ngx_sqlite_log.Buf.{move_locked, copy_nodes, destroy_nodes, Shared, list_locked}
use ngx_sqlite_log.Buf.Invariant.{rows, Owns}
use ngx_sqlite_log.Sqlite.Code
use ngx_sqlite_log.Sqlite.Wrap.{sqlite3_exec, sqlite3_step, sqlite3_finalize, sqlite3_prepare_v2}
use ngx_sqlite_log.Db.{
  end_transaction, insert_parts, bind_all, finalize_insert, try_insert, try_insert_list,
}
use ngx_sqlite_log.Handler.Thread.{thread_flush, thread_flush_lem}
use ngx_sqlite_log.Handler.Blank.{blank_row_lem}
use ngx_sqlite_log.Db.Insert.{table}
use ngx_sqlite_log.Db.Row.{nulls}
use ngx_sqlite_log.Handler.{Site, handle_n}
use ngx_sqlite_log.Handler.Conserve.{Handled, handle_n_lem}
use ngx_sqlite_log.Handler.Flush.{
  Fits, Drained, buf_flush, buf_flush_lem, exit_transaction, exit_transaction_lem,
}
use ngx_sqlite_log.Db.Checkpoint.{Answers, attempt, attempt_lem}
use ngx_sqlite_log.Examples.Engine.{engine, transactions}
use ngx_sqlite_log.Examples.Memory.{slab, no_blocks, pool, lists}
use ngx_sqlite_log.Examples.Storage.{entry, waiting, waiting-Owns, db, empty, nobody}

-- A worker whose buffer is full with the next entry.
abbrev pub site : Site slab engine
site = record {
  buf = record { max = 2; flush = 0; event = none };
  db = db;
  shared = waiting;
  dbs = empty;
}

handle_n_example :
    Handled slab pool lists engine transactions nobody entry
      (entry ∷ [])
      site
      (handle_n slab pool lists engine entry 0 site)
handle_n_example =
    handle_n_lem slab pool lists engine transactions nobody entry 0 site refl (omega arith)
      (refl, tt) waiting-Owns

site-Fits : Fits slab pool lists engine transactions nobody site
site-Fits = record {
  statement = refl;
  some_column = omega arith;
  full = (refl, tt);
  owns = waiting-Owns;
}

-- Other workers leave the queue alone.
abbrev untouched : Shared slab → Shared slab
untouched sh = sh

buf_flush_example :
    ((rows site.shared.queue ≡ [])
      × Drained slab pool lists engine transactions nobody
          (some 0)
          site
          (buf_flush slab pool lists engine untouched (some 0) site))
    ⊎ Drained slab pool lists engine transactions nobody
        (some 0)
        site
        (buf_flush slab pool lists engine untouched (some 0) site)
buf_flush_example =
    buf_flush_lem slab pool lists engine transactions nobody untouched (some 0) site site-Fits
      site-Fits

exit_transaction_example :
    Drained slab pool lists engine transactions nobody
      (some 0)
      site
      (exit_transaction slab pool lists engine 0 site)
exit_transaction_example =
    exit_transaction_lem slab pool lists engine transactions nobody 0 site site-Fits

abbrev random : ℕ → ℕ
random i = 1234567

random-bound : (j : ℕ) → random j < 2 ^ 63
random-bound j = omega arith

attempt_example : Answers engine random 1000 (attempt engine random db 1000 empty)
attempt_example = attempt_lem engine random db 1000 empty random-bound

-- No entry waits.
abbrev pub idle : Shared slab
idle = record { mem = no_blocks; queue = []; queue_len = 0 }

pub idle-Owns : Owns slab nobody idle
idle-Owns = record { counted = refl; owned = λ q. refl }

idle_list : list_locked slab pool lists 2 idle 0 ≡ (some ((2, [] ∷ []), 2), idle)
unfolding list_locked move_locked copy_nodes destroy_nodes
idle_list = refl

blank_insert : (try_insert_list engine db ([] ∷ []) empty).0 ≡ Code.ok
unfolding try_insert_list sqlite3_exec end_transaction insert_parts try_insert sqlite3_prepare_v2
    bind_all finalize_insert sqlite3_step sqlite3_finalize
blank_insert = refl

blank_row_example :
    table engine transactions (try_insert_list engine db ([] ∷ []) empty).1 ≡ nulls 2 ∷ []
blank_row_example =
    blank_row_lem slab pool lists engine transactions nobody 2 idle idle 0 2 (2, [] ∷ []) db empty
      (omega arith) idle-Owns refl idle_list refl blank_insert

thread_flush_example :
    Drained slab pool lists engine transactions nobody
      (some 0)
      site
      (thread_flush slab pool lists engine 0 site)
thread_flush_example = thread_flush_lem slab pool lists engine transactions nobody 0 site site-Fits
