-- ===== src/Handler/Cycle.antt =====
-- src/ngx_http_sqlitelog_module.c: ngx_http_sqlitelog_init_worker and
-- ngx_http_sqlitelog_exit_worker, which go through the servers when a worker starts and when it
-- exits, and the zone's set-up.
pub mod Exit
pub mod Start
use ngx_sqlite_log.Base.{
  ℕ, suc, ◌+◌, Bool, true, false, ◌&&◌, not, List, [], ◌∷◌, Option, none, some, ◌==◌, if◌then◌else◌,
}
use ngx_sqlite_log.Memory.{Pool, Lists}
use ngx_sqlite_log.Slab.{Slab}
use ngx_sqlite_log.Buf.{Shared, Buf, timer_start}
use ngx_sqlite_log.Sqlite.{Sqlite}
use ngx_sqlite_log.Sqlite.Code
use ngx_sqlite_log.Sqlite.Wrap.{State}
use ngx_sqlite_log.Db.{Db, is_some, db_init, db_close}
use ngx_sqlite_log.Db.Checkpoint.{db_checkpoint}
use ngx_sqlite_log.Handler.{Site}
use ngx_sqlite_log.Handler.Flush.{exit_transaction}

-- ngx_http_sqlitelog_init_shm_zone, with the shared context of the previous cycle, if there is one.
unfoldable pub init_shm_zone :
    (slab : Slab) → Option (Shared slab) → slab.State → Option (Shared slab)
init_shm_zone slab (some old_data) mem = some old_data
init_shm_zone slab none mem = elim (slab.alloc 24 mem) [
  | none ↦ none
  | some (ctx, mem') ↦ some (record { mem = mem'; queue = []; queue_len = 0 })
]

-- A server's configuration in a worker. Servers that inherit the same directive point to the same
-- buffer.
pub record ServerConf : Type 0 where
  pub enabled : Bool
  pub buf : Option ℕ
  pub db : Db

-- What the servers point to: the buffers, each with its zone, the zones, the server whose
-- connection a buffer's flush event uses, and the databases.
pub record Worker (slab : Slab) (sq : Sqlite) : Type 0 where
  pub bufs : ℕ → ℕ × Buf
  pub zones : ℕ → Shared slab
  pub flush_db : ℕ → Option ℕ
  pub dbs : State sq

abbrev pub set_at {ℓ} : {A : Type ℓ} → (ℕ → A) → ℕ → A → ℕ → A
set_at f b v z = if b == z then v else f z

module _ (slab : Slab) (sq : Sqlite) where
  -- The step "Flush setup" of the i-th server.
  abbrev pub flush_setup : ℕ → Option ℕ → Worker slab sq → Worker slab sq
  flush_setup i none w = w
  flush_setup i (some b) w =
      let (zone, buf) = w.bufs b in
      if not (buf.flush == 0)
      then record w {
        bufs = set_at w.bufs b (zone, timer_start buf);
        flush_db = set_at w.flush_db b (some i);
      }
      else w

  abbrev pub init_server :
      ℕ → Option ServerConf → Worker slab sq → Option ServerConf × Worker slab sq
  init_server i none w = (none, w)
  init_server i (some s) w =
      let (rc_init, db', st') = db_init sq s.db w.dbs in
      if not s.enabled
      then (some s, w)
      else if not (rc_init == Code.ok)
      then (some (record s { enabled = false; db = db' }), record w { dbs = st' })
      else (some (record s { db = db' }), flush_setup i s.buf (record w { dbs = st' }))

  -- The loop from the i-th server on.
  unfoldable pub init_worker :
      ℕ → List (Option ServerConf) → Worker slab sq → List (Option ServerConf) × Worker slab sq
  init_worker i [] w = ([], w)
  init_worker i (s ∷ ss) w =
      let (s', w') = init_server i s w in
      let (ss', w'') = init_worker (suc i) ss w' in (s' ∷ ss', w'')

-- `random i j` is the j-th random number that the i-th server's checkpoint draws.
module _ (slab : Slab) (p : Pool) (lists : Lists p) (sq : Sqlite) (random : ℕ → ℕ → ℕ) where
  abbrev pub exit_buffer : p.State → ℕ → ServerConf → Worker slab sq → ServerConf × Worker slab sq
  exit_buffer m b s w =
      let (zone, buf) = w.bufs b in
      let before : Site slab sq = record {
        buf = buf;
        db = s.db;
        shared = w.zones zone;
        dbs = w.dbs;
      } in
      let after = exit_transaction slab p lists sq m before in
      (
        record s { db = after.db },
        record w {
          bufs = set_at w.bufs b (zone, after.buf);
          zones = set_at w.zones zone after.shared;
          dbs = after.dbs;
        },
      )

  -- The step "Buffered transaction".
  abbrev pub exit_pending :
      p.State → Option ℕ → ServerConf → Worker slab sq → ServerConf × Worker slab sq
  exit_pending m none s w = (s, w)
  exit_pending m (some b) s w = if is_some s.db.conn then exit_buffer m b s w else (s, w)

  -- The step "Close", after the checkpoint. `none` where the checkpoint's rounds run out.
  abbrev pub exit_close :
      ServerConf
      → Worker slab sq
      → Option (ℕ × ℕ × State sq)
      → Option (Option ServerConf × Worker slab sq)
  exit_close s w none = none
  exit_close s w (some (rc_ckpt, slept, st)) =
      let (rc_close, db', st') = db_close sq s.db st in
      some (
        if is_some s.db.conn
        then (some (record s { db = db' }), record w { dbs = st' })
        else (some s, record w { dbs = st }))

  abbrev pub exit_server :
      ℕ → p.State → Option ServerConf → Worker slab sq → Option (Option ServerConf × Worker slab sq)
  exit_server i m none w = some (none, w)
  exit_server i m (some s) w =
      let (s', w') = exit_pending m s.buf s w in
      if not s.enabled
      then some (some s, w)
      else exit_close s' w' (db_checkpoint sq (random i) s'.db w'.dbs)

  abbrev pub exit_rest :
      (Worker slab sq → Option (List (Option ServerConf) × Worker slab sq))
      → Option (Option ServerConf × Worker slab sq)
      → Option (List (Option ServerConf) × Worker slab sq)
  exit_rest rest none = none
  exit_rest rest (some (s, w)) = elim (rest w) [ none ↦ none | some (ss, w') ↦ some (s ∷ ss, w') ]

  -- The loop from the i-th server on.
  unfoldable pub exit_worker :
      ℕ
      → p.State
      → List (Option ServerConf)
      → Worker slab sq
      → Option (List (Option ServerConf) × Worker slab sq)
  exit_worker i m [] w = some ([], w)
  exit_worker i m (s ∷ ss) w = exit_rest (exit_worker (suc i) m ss) (exit_server i m s w)
