-- ===== src/Sqlite.antt =====
-- The SQLite library, which the source calls and does not define: its functions are the fields of a
-- record, over a state of all databases. `Wrap` models the source's wrappers around them,
-- `Transactions` names what the source relies on.
pub mod Code
pub mod Names
pub mod Wrap
pub mod Transactions
use ngx_sqlite_log.Base.{ℕ, List, Option}
use ngx_sqlite_log.Util.{Str}

-- A connection or a statement, `none` being NULL.
abbrev pub Handle : Type 0
Handle = Option ℕ

pub record Sqlite : Type 1 where
  pub World : Type 0
  -- Each call returns a result code and the next state; open and prepare also set a handle.
  pub open_v2 : List ℕ → World → ℕ × Handle × World
  pub close : Handle → World → ℕ × World
  pub busy_timeout : Handle → ℕ → World → ℕ × World
  pub exec : Handle → List ℕ → World → ℕ × World
  pub prepare_v2 : Handle → List ℕ → World → ℕ × Handle × World
  pub bind_text : Handle → ℕ → Str → World → ℕ × World
  pub bind_blob : Handle → ℕ → Str → World → ℕ × World
  pub bind_null : Handle → ℕ → World → ℕ × World
  pub step : Handle → World → ℕ × World
  pub finalize : Handle → World → ℕ × World
  pub wal_checkpoint_v2 : Handle → World → ℕ × World
  -- Reading calls.
  pub extended_errcode : Handle → World → ℕ
  pub errmsg : Handle → World → List ℕ
  pub column_count : Handle → World → ℕ
  pub column_text : Handle → ℕ → World → List ℕ
  pub column_int : Handle → ℕ → World → ℕ
