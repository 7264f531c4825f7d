-- ===== src/Db.antt =====
-- src/ngx_http_sqlitelog_db.c and db.h: a worker's connection to a log database. A function here
-- takes the state of the databases and the error log, and returns its code with the next state.
pub mod Row
pub mod Insert
pub mod Atomic
pub mod Retry
pub mod Single
pub mod Checkpoint
use ngx_sqlite_log.Base.{
  ℕ, zero, suc, ◌+◌, Bool, true, false, not, ◌||◌, List, [], ◌∷◌, Option, none, some, length, ◌==◌,
  if◌then◌else◌, codes,
}
use ngx_sqlite_log.Util.{Str}
use ngx_sqlite_log.Sqlite.{Sqlite, Handle}
use ngx_sqlite_log.Sqlite.Code
use ngx_sqlite_log.Sqlite.Wrap
use ngx_sqlite_log.Sqlite.Wrap.{
  State, sqlite3_open_v2, sqlite3_close, sqlite3_busy_timeout, sqlite3_exec, sqlite3_prepare_v2,
  sqlite3_bind_text, sqlite3_bind_blob, sqlite3_step, sqlite3_finalize,
}

-- A column's bind function.
pub data Bind : Type 0 where
  bind_text bind_blob : Bind

-- ngx_http_sqlitelog_fmt_t, as the database functions read it: `binds` is the array of columns as
-- it lies in memory, of which the first `ncols` are the format's.
pub record Fmt : Type 0 where
  pub name : List ℕ
  pub ncols : ℕ
  pub binds : ℕ → Bind
  pub sql_create : List ℕ
  pub sql_insert : List ℕ

-- ngx_http_sqlitelog_db_t
pub record Db : Type 0 where
  pub conn : Handle
  pub filename : List ℕ
  pub fmt : Fmt
  pub init_sql : Str

abbrev pub is_some : Handle → Bool
is_some none = false
is_some (some h) = true

module _ (sq : Sqlite) where
  unfoldable pub db_close : Db → State sq → ℕ × Db × State sq
  db_close db st =
      let (rc_close, st') = sqlite3_close sq db.conn st in
      (rc_close, if rc_close == Code.ok then record db { conn = none } else db, st')

  abbrev pub init_script : Db → Str → State sq → ℕ × Db × State sq
  init_script db none st = (Code.ok, db, st)
  init_script db (some sql) st =
      let (rc_script, st') = sqlite3_exec sq db.conn sql st in (rc_script, db, st')

  -- From "Set busy timeout" on.
  unfoldable pub db_setup : Db → State sq → ℕ × Db × State sq
  db_setup db st =
      let (rc_timeout, st₁) = sqlite3_busy_timeout sq db.conn 1000 st in
      if not (rc_timeout == Code.ok)
      then (rc_timeout, db, st₁)
      else let (rc_table, st₂) = sqlite3_exec sq db.conn db.fmt.sql_create st₁ in
        if not (rc_table == Code.ok) then (rc_table, db, st₂) else init_script db db.init_sql st₂

  -- From "Open new connection" on.
  unfoldable pub db_open : Db → State sq → ℕ × Db × State sq
  db_open db st =
      let (rc_open, conn, st₁) = sqlite3_open_v2 sq db.filename st in
      let db₁ = record db { conn = conn } in
      if rc_open == Code.ok
      then db_setup db₁ st₁
      else let (rc_close, db₂, st₂) = db_close db₁ st₁ in
        (if not (rc_close == Code.ok) then rc_close else rc_open, db₂, st₂)

  unfoldable pub db_init : Db → State sq → ℕ × Db × State sq
  db_init db st =
      if not (is_some db.conn)
      then db_open db st
      else let (rc_close, db₁, st₁) = db_close db st in
        if not (rc_close == Code.ok) then (rc_close, db₁, st₁) else db_open db₁ st₁

  -- The configuration is tried out on a database in memory.
  unfoldable pub db_test : Db → State sq → ℕ × State sq
  db_test db st =
      let memdb = record db { conn = none; filename = codes ":memory:" } in
      let (rc_init, memdb₁, st₁) = db_init memdb st in
      let (rc_close, memdb₂, st₂) = db_close memdb₁ st₁ in
      (if not (rc_init == Code.ok) then rc_init else rc_close, st₂)

  abbrev pub call_bind : Bind → Handle → Handle → ℕ → Str → State sq → ℕ × State sq
  call_bind bind_text = sqlite3_bind_text sq
  call_bind bind_blob = sqlite3_bind_blob sq

  -- The loop from index i on; it ends at the first code that is not SQLITE_OK.
  unfoldable pub bind_all : Db → Handle → ℕ → List Str → State sq → ℕ × State sq
  bind_all db stmt i [] st = (Code.ok, st)
  bind_all db stmt i (elt ∷ elts) st =
      let (rc_bind, st') = call_bind (db.fmt.binds i) db.conn stmt (i + 1) elt st in
      let rest = bind_all db stmt (i + 1) elts st' in
      if not (rc_bind == Code.ok) then (rc_bind, st') else rest

  -- The label `finalize`, and which code is returned.
  unfoldable pub finalize_insert : Db → Handle → ℕ → ℕ → ℕ → State sq → ℕ × State sq
  finalize_insert db stmt rc_prepare rc_bind rc_step st =
      let (rc_finalize, st') = sqlite3_finalize sq db.conn stmt st in
      (
        if not (rc_prepare == Code.ok)
            then rc_prepare
            else if not (rc_bind == Code.ok)
            then rc_bind
            else if not (rc_step == Code.done)
            then rc_step
            else rc_finalize,
        st',
      )

  unfoldable pub try_insert : Db → List Str → State sq → ℕ × State sq
  try_insert db elts st =
      let (rc_prepare, stmt, st₁) = sqlite3_prepare_v2 sq db.conn db.fmt.sql_insert st in
      if not (rc_prepare == Code.ok)
      then finalize_insert db stmt rc_prepare Code.ok Code.ok st₁
      else let (rc_bind, st₂) = bind_all db stmt 0 elts st₁ in
        if not (rc_bind == Code.ok)
        then finalize_insert db stmt rc_prepare rc_bind Code.ok st₂
        else let (rc_step, st₃) = sqlite3_step sq db.conn stmt st₂ in
          finalize_insert db stmt rc_prepare rc_bind rc_step st₃

  unfoldable pub db_insert : Db → List Str → State sq → ℕ × Db × State sq
  db_insert db elts st =
      let (rc_insert, st₁) = try_insert db elts st in
      if rc_insert == Code.ok
      then (rc_insert, db, st₁)
      else if not (sq.extended_errcode db.conn st₁.world == Code.readonly_dbmoved)
      then (rc_insert, db, st₁)
      else let (rc_init, db₂, st₂) = db_init db st₁ in
        if not (rc_init == Code.ok)
        then (rc_init, db₂, st₂)
        else let (rc, st₃) = try_insert db₂ elts st₂ in (rc, db₂, st₃)

  -- The loop over the parts of the list, each a row; it ends at the first failure. An ngx_list_t
  -- always has a first part, so that no caller gives the empty list.
  unfoldable pub insert_parts : Db → List (List Str) → State sq → ℕ × State sq
  insert_parts db [] st = (Code.ok, st)
  insert_parts db (part ∷ parts) st =
      let (rc_insert, st') = try_insert db part st in
      let rest = insert_parts db parts st' in
      if not (rc_insert == Code.ok) then (rc_insert, st') else rest

  -- The label `end`: the insertion's code is preferred to that of COMMIT or ROLLBACK.
  unfoldable pub end_transaction : Db → ℕ → State sq → ℕ × State sq
  end_transaction db rc_insert st =
      let sql_end = if rc_insert == Code.ok then codes "COMMIT" else codes "ROLLBACK" in
      let (rc_end, st') = sqlite3_exec sq db.conn sql_end st in
      (if not (rc_insert == Code.ok) then rc_insert else rc_end, st')

  unfoldable pub try_insert_list : Db → List (List Str) → State sq → ℕ × State sq
  try_insert_list db parts st =
      let (rc_begin, st₁) = sqlite3_exec sq db.conn (codes "BEGIN EXCLUSIVE TRANSACTION") st in
      if not (rc_begin == Code.ok)
      then (rc_begin, st₁)
      else let (rc_insert, st₂) = insert_parts db parts st₁ in end_transaction db rc_insert st₂

  unfoldable pub db_insert_list : Db → List (List Str) → State sq → ℕ × Db × State sq
  db_insert_list db parts st =
      let (rc_list, st₁) = try_insert_list db parts st in
      if rc_list == Code.ok
      then (rc_list, db, st₁)
      else let rc_extended = sq.extended_errcode db.conn st₁.world in
        if not (rc_extended == Code.readonly_dbmoved || rc_extended == Code.ok)
        then (rc_list, db, st₁)
        else let (rc_init, db₂, st₂) = db_init db st₁ in
          if not (rc_init == Code.ok)
          then (rc_init, db₂, st₂)
          else let (rc, st₃) = try_insert_list db₂ parts st₂ in (rc, db₂, st₃)
