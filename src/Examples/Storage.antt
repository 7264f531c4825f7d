-- ===== src/Examples/Storage.antt =====
-- The theorems on shared memory, the queue and the database at small inputs.
use ngx_sqlite_log.Base.{ℕ, ◌+◌, ◌≡◌, ◌⊎◌, refl, List, [], ◌∷◌, map, none, some, arith, codes}
use ngx_sqlite_log.Util.{Str}
use ngx_sqlite_log.Node.{Node, node_create_locked, node_destroy_locked}
use ngx_sqlite_log.Node.Blocks.{blocks, Created, node_create_lem, node_destroy_lem}
use ngx_sqlite_log.Buf.{Shared, push_locked, unshift_locked, list_locked}
use ngx_sqlite_log.Buf.Invariant.{Owns, Pushed, push_lem, Unshifted, unshift_lem}
use ngx_sqlite_log.Buf.Rows.{Listed, list_lem}
use ngx_sqlite_log.Sqlite.Wrap.{
  State, sqlite3_open_v2, sqlite3_busy_timeout, sqlite3_exec, sqlite3_close, sqlite3_prepare_v2,
  sqlite3_bind_text, sqlite3_bind_blob, sqlite3_finalize, sqlite3_step,
}
use ngx_sqlite_log.Sqlite.Names.{rcname}
use ngx_sqlite_log.Sqlite.Names.Legible.{Legible, rcname_lem}
use ngx_sqlite_log.Sql.Insert.{insert_text}
use ngx_sqlite_log.Db.{
  Db, bind_text, db_init, db_open, db_setup, db_close, bind_all, finalize_insert, db_insert,
  try_insert, try_insert_list, db_insert_list,
}
use ngx_sqlite_log.Db.Insert.{pending, stored_row, Inserted, try_insert_lem}
use ngx_sqlite_log.Db.Atomic.{Stores, try_insert_list_lem}
use ngx_sqlite_log.Db.Single.{reopened_after, StoredRow, db_insert_lem}
use ngx_sqlite_log.Db.Retry.{Stored, db_insert_list_lem}
use ngx_sqlite_log.Examples.Engine.{engine, transactions, fresh}
use ngx_sqlite_log.Examples.Memory.{slab, no_blocks, pool, lists}

abbrev pub entry : List Str
entry = some (codes "GET /") ∷ none ∷ []

-- A node that holds the entry, and memory in which its blocks are all that is in use.
abbrev pub node : Node
node = record { self = 3; elts = 1; fields = some (2, codes "GET /") ∷ none ∷ [] }

abbrev pub node_memory : slab.State
node_memory = (4, λ q. blocks node q)

node_create_example : Created slab entry no_blocks (node_create_locked slab entry no_blocks)
node_create_example = node_create_lem slab entry no_blocks

node_destroy_example :
    slab.held (node_destroy_locked slab node node_memory) 2 + blocks node 2
    ≡ slab.held node_memory 2
node_destroy_example = node_destroy_lem slab node node_memory (λ q. omega arith) 2

-- One entry waits.
abbrev pub waiting : Shared slab
waiting = record { mem = node_memory; queue = node ∷ []; queue_len = 1 }

abbrev pub nobody : ℕ → ℕ
nobody q = 0

pub waiting-Owns : Owns slab nobody waiting
waiting-Owns = record { counted = refl; owned = λ q. omega arith }

push_example :
    Owns slab nobody (push_locked slab 2 entry waiting).1
    × Pushed slab 2 entry waiting (push_locked slab 2 entry waiting)
push_example = push_lem slab nobody 2 entry waiting waiting-Owns

unshift_example :
    Owns slab nobody (unshift_locked slab entry waiting).1
    × Unshifted slab entry waiting (unshift_locked slab entry waiting)
unshift_example = unshift_lem slab nobody entry waiting waiting-Owns

list_example : Listed slab pool lists nobody 2 waiting (list_locked slab pool lists 2 waiting 0)
list_example = list_lem slab pool lists nobody 2 waiting 0 (omega arith) (refl, tt) waiting-Owns

abbrev pub db : Db
db = record {
  conn = some 1;
  filename = codes "/var/log/access.db";
  fmt = record {
    name = codes "combined";
    ncols = 2;
    binds = λ i. bind_text;
    sql_create = [];
    sql_insert = insert_text (codes "combined") 2;
  };
  init_sql = none;
}

abbrev pub empty : State engine
empty = record { world = fresh; log = [] }

rcname_example : (rcname 1032 ≡ []) ⊎ Legible 1032 (rcname 1032)
rcname_example = rcname_lem 1032

moved_test : rcname 1032 ≡ codes "SQLITE_READONLY_DBMOVED"
unfolding rcname
moved_test = refl

-- SQLite gives SQLITE_CONSTRAINT_DATATYPE this number.
no_case_test : rcname 3091 ≡ []
unfolding rcname
no_case_test = refl

try_insert_example :
    Inserted engine transactions
      (stored_row engine transactions db.fmt entry)
      empty
      (try_insert engine db entry empty)
try_insert_example = try_insert_lem engine transactions db entry empty refl

still_alone : pending engine transactions (reopened_after engine db entry empty) ≡ none
unfolding db_init db_open sqlite3_open_v2 db_setup sqlite3_busy_timeout sqlite3_exec try_insert
    db_close sqlite3_close sqlite3_prepare_v2 bind_all sqlite3_bind_text sqlite3_bind_blob
    finalize_insert sqlite3_finalize sqlite3_step
still_alone = refl

db_insert_example : StoredRow engine transactions db entry empty (db_insert engine db entry empty)
db_insert_example = db_insert_lem engine transactions db entry empty refl refl still_alone

try_insert_list_example :
    Stores engine transactions
      (map (stored_row engine transactions db.fmt) (entry ∷ entry ∷ []))
      empty
      (try_insert_list engine db (entry ∷ entry ∷ []) empty)
try_insert_list_example = try_insert_list_lem engine transactions db (entry ∷ entry ∷ []) empty refl

db_insert_list_example :
    Stored engine transactions db (entry ∷ []) empty (db_insert_list engine db (entry ∷ []) empty)
db_insert_list_example = db_insert_list_lem engine transactions db (entry ∷ []) empty refl
