-- ===== src/Entry.antt =====
-- src/ngx_http_sqlitelog_module.c: ngx_http_sqlitelog_log_entry, which turns a request into the
-- row of values to be stored.
pub mod Shape
pub mod Named
pub mod Cells
pub mod Memory
use ngx_sqlite_log.Base.{
  ℕ, ◌+◌, ◌-◌, List, [], ◌∷◌, ◌++◌, Option, none, some, length, leb, ltb, ◌==◌, if◌then◌else◌,
}
use ngx_sqlite_log.Memory.{Pool, Outcome, failed, overflow, built, ◌>>=◌, or_failed, zeros, take}
use ngx_sqlite_log.Util.{Str}
use ngx_sqlite_log.Op.Request.{Request, Formats}
use ngx_sqlite_log.Op.Run.{Op, call_getlen, call_run}

abbrev pub printed : Option (List ℕ) → List ℕ
printed none = []
printed (some s) = s

-- A zeroed buffer of the given size after `s` is printed to its start.
pub fill : ℕ → List ℕ → Option (List ℕ)
fill size s = if leb (length s) size then some (s ++ zeros (size - length s)) else none

-- Large values are cut off.
pub field_len : ℕ → ℕ
field_len buf_len = if ltb 4096 buf_len then 4096 else buf_len

module _ (p : Pool) where
  -- One column's value, of which `buf_len` bytes were announced and `s` is what `run` prints.
  unfoldable pub value : ℕ → List ℕ → Request → p.State → Outcome (Str × Request × p.State)
  unfolding field_len fill
  value buf_len s r m =
      if buf_len == 0 then built (none, r, m) else elim (p.pcalloc (buf_len + 1) m) [
        | none ↦ failed
        | some m' ↦ elim (fill (buf_len + 1) s) [
          | none ↦ overflow
          | some buf ↦ built (some (take (field_len buf_len) buf), r, m')
        ]
      ]

module _ (p : Pool) (f : Formats) where
  -- One column, after its slot in the row is taken.
  unfoldable pub field : Op → Request → p.State → Outcome (Str × Request × p.State)
  field op r m =
      let (buf_len, r') = call_getlen op.measure r op.index in
      value p buf_len (printed (call_run f op.print r' op.index)) r' m

  -- The loop over the columns.
  unfoldable pub fields : List Op → Request → p.State → Outcome (List Str × Request × p.State)
  fields [] r m = built ([], r, m)
  fields (op ∷ ops) r m = do
    m₁ ← or_failed (p.array_push m)
    (s, r₂, m₂) ← field op r m₁
    (row, r₃, m₃) ← fields ops r₂ m₂
    built (s ∷ row, r₃, m₃)

  unfoldable pub log_entry : List Op → Request → p.State → Outcome (List Str × Request × p.State)
  log_entry ops r m = do m' ← or_failed (p.array_create (length ops) m); fields ops r m'
