-- ===== src/Sqlite/Wrap.antt =====
-- src/ngx_http_sqlitelog_sqlite3.c: each wrapper makes its SQLite call, returns that call's code,
-- and writes one line to the error log if the call failed.
pub mod Report
use ngx_sqlite_log.Base.{
  ℕ, Bool, true, false, ◌&&◌, ◌||◌, List, [], ◌∷◌, Option, ◌==◌, if◌then◌else◌,
}
use ngx_sqlite_log.Util.{Str}
use ngx_sqlite_log.Sqlite.{Sqlite, Handle}
use ngx_sqlite_log.Sqlite.Code
use ngx_sqlite_log.Sqlite.Names.{rcname, errmsg}

-- What the line says was attempted.
pub data Call : Type 0 where
  opening preparing binding_text binding_null binding_blob stepping finalizing setting_timeout
        executing closing checkpointing :
      Call

-- A line of the error log: the name and the code that are printed, and SQLite's message.
pub record Line : Type 0 where
  pub call : Call
  pub name : List ℕ
  pub code : ℕ
  pub message : List ℕ

module _ (sq : Sqlite) where
  -- The databases and the error log, the newest line first.
  pub record State : Type 0 where
    pub world : sq.World
    pub log : List Line

  -- The extended code is printed, which may be the primary one; but the primary one where
  -- `primary_first` holds, as for SQLITE_TOOBIG in the two bind functions.
  unfoldable pub failure : Call → Bool → Handle → ℕ → State → State
  failure call primary_first db rc_primary st =
      let rc_extended = sq.extended_errcode db st.world in
      let line = λ (code : ℕ).
        let l : Line = record {
          call = call;
          name = rcname code;
          code = code;
          message = errmsg sq db st.world;
        } in
        l in
      if primary_first
      then record st { log = line rc_primary ∷ st.log }
      else if rc_primary == rc_extended
      then record st { log = line rc_primary ∷ st.log }
      else record st { log = line rc_extended ∷ st.log }

  -- `fine` is the wrapper's test for an early return.
  abbrev pub checked : Call → Bool → Bool → Handle → ℕ → State → ℕ × State
  checked call fine primary_first db rc st =
      (rc, if fine then st else failure call primary_first db rc st)

  unfoldable pub sqlite3_open_v2 : List ℕ → State → ℕ × Handle × State
  unfolding failure
  sqlite3_open_v2 filename st =
      let (rc, db, w) = sq.open_v2 filename st.world in
      let st' = record st { world = w } in
      (rc, db, if rc == Code.ok then st' else failure opening false db rc st')

  unfoldable pub sqlite3_prepare_v2 : Handle → List ℕ → State → ℕ × Handle × State
  unfolding failure
  sqlite3_prepare_v2 db sql st =
      let (rc, stmt, w) = sq.prepare_v2 db sql st.world in
      let st' = record st { world = w } in
      (rc, stmt, if rc == Code.ok then st' else failure preparing false db rc st')

  unfoldable pub sqlite3_bind_text : Handle → Handle → ℕ → Str → State → ℕ × State
  unfolding failure
  sqlite3_bind_text db stmt position val st =
      let (rc, w) = sq.bind_text stmt position val st.world in
      checked binding_text (rc == Code.ok) (rc == Code.toobig) db rc (record st { world = w })

  unfoldable pub sqlite3_bind_null : Handle → Handle → ℕ → State → ℕ × State
  unfolding failure
  sqlite3_bind_null db stmt position st =
      let (rc, w) = sq.bind_null stmt position st.world in
      checked binding_null (rc == Code.ok) false db rc (record st { world = w })

  unfoldable pub sqlite3_bind_blob : Handle → Handle → ℕ → Str → State → ℕ × State
  unfolding failure
  sqlite3_bind_blob db stmt position val st =
      let (rc, w) = sq.bind_blob stmt position val st.world in
      checked binding_blob (rc == Code.ok) (rc == Code.toobig) db rc (record st { world = w })

  unfoldable pub sqlite3_step : Handle → Handle → State → ℕ × State
  unfolding failure
  sqlite3_step db stmt st =
      let (rc, w) = sq.step stmt st.world in
      checked stepping (rc == Code.done || rc == Code.row) false db rc (record st { world = w })

  unfoldable pub sqlite3_finalize : Handle → Handle → State → ℕ × State
  unfolding failure
  sqlite3_finalize db stmt st =
      let (rc, w) = sq.finalize stmt st.world in
      checked finalizing (rc == Code.ok) false db rc (record st { world = w })

  unfoldable pub sqlite3_busy_timeout : Handle → ℕ → State → ℕ × State
  unfolding failure
  sqlite3_busy_timeout db duration_ms st =
      let (rc, w) = sq.busy_timeout db duration_ms st.world in
      checked setting_timeout (rc == Code.ok) false db rc (record st { world = w })

  unfoldable pub sqlite3_exec : Handle → List ℕ → State → ℕ × State
  unfolding failure
  sqlite3_exec db sql st =
      let (rc, w) = sq.exec db sql st.world in
      checked executing (rc == Code.ok) false db rc (record st { world = w })

  unfoldable pub sqlite3_close : Handle → State → ℕ × State
  unfolding failure
  sqlite3_close db st =
      let (rc, w) = sq.close db st.world in
      checked closing (rc == Code.ok) false db rc (record st { world = w })

  unfoldable pub sqlite3_wal_checkpoint_v2 : Handle → State → ℕ × State
  unfolding failure
  sqlite3_wal_checkpoint_v2 db st =
      let (rc, w) = sq.wal_checkpoint_v2 db st.world in
      checked checkpointing (rc == Code.ok || rc == Code.busy) false db rc (record st { world = w })
