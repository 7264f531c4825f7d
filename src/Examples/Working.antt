-- ===== src/Examples/Working.antt =====
-- The theorems on several workers at small inputs.
use ngx_sqlite_log.Base.{◌≡◌, refl, inl, [], ◌∷◌, none, arith}
use ngx_sqlite_log.Buf.{
  list_locked, move_locked, copy_nodes, copy_elts, copy_elt, destroy_nodes, push_locked, Buf,
}
use ngx_sqlite_log.Node.{node_create_locked, node_destroy_locked}
use ngx_sqlite_log.Buf.Invariant.{Owns}
use ngx_sqlite_log.Sqlite.Wrap.{
  sqlite3_exec, sqlite3_step, sqlite3_finalize, sqlite3_prepare_v2, sqlite3_bind_text,
}
use ngx_sqlite_log.Db.{
  db_insert_list, end_transaction, insert_parts, bind_all, finalize_insert, try_insert,
  try_insert_list,
}
use ngx_sqlite_log.Db.Insert.{table}
use ngx_sqlite_log.Db.Retry.{Stays}
use ngx_sqlite_log.Handler.{handle_n}
use ngx_sqlite_log.Handler.Workers.{
  System, Batch, batch, lock_section, pushed, inserted, request, insert, Reach, start, later,
}
use ngx_sqlite_log.Handler.Workers.Interleaved.{at_rest, Accounted, interleaved-Accounted}
use ngx_sqlite_log.Handler.Workers.Runs.{site_of, Ran, handle_n-Ran}
use ngx_sqlite_log.Examples.Engine.{engine, transactions}
use ngx_sqlite_log.Examples.Memory.{slab, pool, lists}
use ngx_sqlite_log.Examples.Storage.{entry, waiting, waiting-Owns, db, empty, nobody}
use ngx_sqlite_log.Examples.Handling.{idle, idle-Owns}

-- The first request's entry waits, the second's fills the buffer, and the third comes before the
-- second's worker has stored the two.
abbrev one_waits : System slab engine
one_waits =
    pushed slab pool lists engine entry (lock_section slab pool lists 2 entry 0 idle)
      (at_rest slab engine idle empty)

abbrev both_taken : System slab engine
both_taken =
    pushed slab pool lists engine entry (lock_section slab pool lists 2 entry 0 one_waits.shared)
      one_waits

abbrev third_waits : System slab engine
third_waits =
    pushed slab pool lists engine entry (lock_section slab pool lists 2 entry 0 both_taken.shared)
      both_taken

abbrev two : Batch
two = batch (entry ∷ entry ∷ []) none

abbrev two_stored : System slab engine
two_stored =
    inserted slab engine two [] (db_insert_list engine db two.parts third_waits.dbs) third_waits

third_waits_flight : third_waits.flight ≡ two ∷ []
unfolding lock_section push_locked node_create_locked list_locked move_locked copy_nodes copy_elts
    copy_elt destroy_nodes node_destroy_locked ngx_sqlite_log.Node.copy_fields
third_waits_flight = refl

third_waits_dbs : third_waits.dbs ≡ empty
unfolding lock_section push_locked node_create_locked list_locked move_locked copy_nodes copy_elts
    copy_elt destroy_nodes node_destroy_locked ngx_sqlite_log.Node.copy_fields
third_waits_dbs = refl

two-Stays : Stays engine db two.parts empty
unfolding try_insert_list sqlite3_exec end_transaction insert_parts try_insert sqlite3_prepare_v2
    bind_all finalize_insert sqlite3_step sqlite3_finalize sqlite3_bind_text
two-Stays = inl refl

two_stored-Reach : Reach slab pool lists engine db.fmt 2 (at_rest slab engine idle empty) two_stored
two_stored-Reach =
    later
      (later (later (later start (request entry 0 refl)) (request entry 0 refl))
        (request entry 0 refl))
      (insert [] two [] db third_waits_flight refl (rw third_waits_dbs two-Stays))

interleaved-Accounted_example :
    Owns slab nobody two_stored.shared
    × Accounted slab pool lists engine transactions db.fmt 2
        (table engine transactions empty)
        two_stored
interleaved-Accounted_example =
    interleaved-Accounted slab pool lists engine transactions db.fmt 2 nobody idle empty two_stored
      refl (omega arith) idle-Owns refl two_stored-Reach

one-Stays : Stays engine db (entry ∷ []) empty
unfolding try_insert_list sqlite3_exec end_transaction insert_parts try_insert sqlite3_prepare_v2
    bind_all finalize_insert sqlite3_step sqlite3_finalize sqlite3_bind_text
one-Stays = inl refl

abbrev full : Buf
full = record { max = 2; flush = 0; event = none }

handle_n-Ran_example :
    Ran slab pool lists engine db.fmt 2 entry (at_rest slab engine waiting empty) (
      handle_n slab pool lists engine entry 0
        (site_of slab pool lists engine full db (at_rest slab engine waiting empty)))
handle_n-Ran_example =
    handle_n-Ran slab pool lists engine nobody db.fmt full db entry 0
      (at_rest slab engine waiting empty) refl refl (omega arith) (refl, tt) waiting-Owns two-Stays
      one-Stays
