-- ===== src/Sqlite/Wrap/Report.antt =====
-- What a wrapper adds to its SQLite call: the code and the databases are the call's own, and the
-- error log gets one line for a failure and none otherwise.
use ngx_sqlite_log.Base.{ℕ, ◌≡◌, refl, Bool, false, ◌||◌, List, ◌∷◌, arith, ◌==◌, if◌then◌else◌}
use ngx_sqlite_log.Util.{Str}
use ngx_sqlite_log.Sqlite.{Sqlite, Handle}
use ngx_sqlite_log.Sqlite.Code
use ngx_sqlite_log.Sqlite.Names.{rcname, errmsg}
use ngx_sqlite_log.Sqlite.Wrap.{
  State, Call, opening, binding_text, binding_null, binding_blob, stepping, finalizing,
  setting_timeout, executing, closing, checkpointing, preparing, Line, failure, checked,
  sqlite3_prepare_v2, sqlite3_bind_text, sqlite3_bind_blob, sqlite3_bind_null, sqlite3_open_v2,
  sqlite3_step, sqlite3_finalize, sqlite3_busy_timeout, sqlite3_exec, sqlite3_close,
  sqlite3_wal_checkpoint_v2,
}

module _ (sq : Sqlite) where
  -- The line of a failed call: its message, and the name and number of the extended code, or of the
  -- call's own code where `primary_first` holds.
  abbrev pub line : Call → Bool → Handle → ℕ → sq.World → Line
  line call primary_first db rc w =
      let code = if primary_first then rc else sq.extended_errcode db w in
      record { call = call; name = rcname code; code = code; message = errmsg sq db w }

  -- After a call that gave `rc` and `w`, from a log that held `log`.
  abbrev pub Wraps : Call → Bool → Bool → Handle → ℕ → sq.World → List Line → ℕ × State sq → Type 0
  Wraps call fine primary_first db rc w log (rc', st') =
      (rc' ≡ rc)
      × (st'.world ≡ w)
      × (st'.log ≡ (if fine then log else line call primary_first db rc w ∷ log))

  checked_lem :
      (call : Call) (fine primary_first : Bool) (db : Handle) (rc : ℕ) (st : State sq)
      → Wraps call fine primary_first db rc st.world st.log
          (checked sq call fine primary_first db rc st)
  unfolding failure
  checked_lem call fine primary_first db rc st = ground arith

  -- Of the bind functions: SQLITE_TOOBIG is printed itself, for a text and a blob.
  abbrev pub BindWraps : Handle → Handle → ℕ → Str → State sq → Type 0
  BindWraps db stmt position val st =
      (let (rc, w) = sq.bind_text stmt position val st.world in
        Wraps binding_text (rc == Code.ok) (rc == Code.toobig) db rc w st.log
          (sqlite3_bind_text sq db stmt position val st))
      × (let (rc, w) = sq.bind_blob stmt position val st.world in
          Wraps binding_blob (rc == Code.ok) (rc == Code.toobig) db rc w st.log
            (sqlite3_bind_blob sq db stmt position val st))
      × (let (rc, w) = sq.bind_null stmt position st.world in
          Wraps binding_null (rc == Code.ok) false db rc w st.log
            (sqlite3_bind_null sq db stmt position st))

  pub bind-Wraps :
      (db stmt : Handle) (position : ℕ) (val : Str) (st : State sq)
      → BindWraps db stmt position val st
  unfolding sqlite3_bind_text sqlite3_bind_blob sqlite3_bind_null
  bind-Wraps db stmt position val st = (
    checked_lem binding_text _ _ db _
        (record st { world = (sq.bind_text stmt position val st.world).1 }),
    checked_lem binding_blob _ _ db _
        (record st { world = (sq.bind_blob stmt position val st.world).1 }),
    checked_lem binding_null _ false db _
        (record st { world = (sq.bind_null stmt position st.world).1 }),
  )

  -- Of the calls on a statement and on a connection: SQLITE_DONE and SQLITE_ROW are no failures of
  -- a step, and SQLITE_BUSY is none of a checkpoint.
  abbrev pub CallWraps : Handle → Handle → List ℕ → ℕ → State sq → Type 0
  CallWraps db stmt sql ms st =
      (let (rc, w) = sq.step stmt st.world in
        Wraps stepping (rc == Code.done || rc == Code.row) false db rc w st.log
          (sqlite3_step sq db stmt st))
      × (let (rc, w) = sq.finalize stmt st.world in
          Wraps finalizing (rc == Code.ok) false db rc w st.log (sqlite3_finalize sq db stmt st))
      × (let (rc, w) = sq.exec db sql st.world in
          Wraps executing (rc == Code.ok) false db rc w st.log (sqlite3_exec sq db sql st))
      × (let (rc, w) = sq.busy_timeout db ms st.world in
          Wraps setting_timeout (rc == Code.ok) false db rc w st.log
            (sqlite3_busy_timeout sq db ms st))
      × (let (rc, w) = sq.close db st.world in
          Wraps closing (rc == Code.ok) false db rc w st.log (sqlite3_close sq db st))
      × (let (rc, w) = sq.wal_checkpoint_v2 db st.world in
          Wraps checkpointing (rc == Code.ok || rc == Code.busy) false db rc w st.log
            (sqlite3_wal_checkpoint_v2 sq db st))

  pub call-Wraps :
      (db stmt : Handle) (sql : List ℕ) (ms : ℕ) (st : State sq) → CallWraps db stmt sql ms st
  unfolding sqlite3_step sqlite3_finalize sqlite3_exec sqlite3_busy_timeout sqlite3_close
      sqlite3_wal_checkpoint_v2
  call-Wraps db stmt sql ms st = (
    checked_lem stepping _ false db _ (record st { world = (sq.step stmt st.world).1 }),
    checked_lem finalizing _ false db _ (record st { world = (sq.finalize stmt st.world).1 }),
    checked_lem executing _ false db _ (record st { world = (sq.exec db sql st.world).1 }),
    checked_lem setting_timeout _ false db _
        (record st { world = (sq.busy_timeout db ms st.world).1 }),
    checked_lem closing _ false db _ (record st { world = (sq.close db st.world).1 }),
    checked_lem checkpointing _ false db _
        (record st { world = (sq.wal_checkpoint_v2 db st.world).1 }),
  )

  -- Of the calls that give a handle, which is the call's own; the message of a failed opening is
  -- that of the handle that it gave.
  abbrev pub HandleWraps : Handle → List ℕ → List ℕ → State sq → Type 0
  HandleWraps db filename sql st =
      (let (rc, stmt, w) = sq.prepare_v2 db sql st.world in
        let (rc', stmt', st') = sqlite3_prepare_v2 sq db sql st in
        (stmt' ≡ stmt) × Wraps preparing (rc == Code.ok) false db rc w st.log (rc', st'))
      × (let (rc, conn, w) = sq.open_v2 filename st.world in
          let (rc', conn', st') = sqlite3_open_v2 sq filename st in
          (conn' ≡ conn) × Wraps opening (rc == Code.ok) false conn rc w st.log (rc', st'))

  pub handle-Wraps :
      (db : Handle) (filename sql : List ℕ) (st : State sq) → HandleWraps db filename sql st
  unfolding sqlite3_prepare_v2 sqlite3_open_v2
  handle-Wraps db filename sql st =
      let (rc, stmt, w) = sq.prepare_v2 db sql st.world in
      let (rc', conn, w') = sq.open_v2 filename st.world in
      (
        (refl, checked_lem preparing (rc == Code.ok) false db rc (record st { world = w })),
        (refl, checked_lem opening (rc' == Code.ok) false conn rc' (record st { world = w' })),
      )
