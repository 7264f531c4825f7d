-- ===== src/Sql.antt =====
-- src/ngx_http_sqlitelog_sql.c: the two statements of a format, built byte by byte in a buffer
-- whose size is computed first.
pub mod Buffers
pub mod Insert
pub mod Create
use ngx_sqlite_log.Base.{
  ℕ, zero, suc, ◌+◌, ◌-◌, ◌*◌, ◌%◌, ◌^◌, Bool, false, List, [], ◌∷◌, ◌++◌, Option, none, some,
  length, ltb, ◌==◌, if◌then◌else◌, codes,
}
use mathlib.Core.List.{reverse}
use ngx_sqlite_log.Memory.{Pool, Outcome, failed, overflow, built, ◌>>=◌, or_failed, zeros}

-- A zeroed buffer: its size, and what is written so far, the newest byte first. Both builders
-- write at the end of what is written, `j` being its length: a name in a configuration file holds
-- no NUL byte, so strlen(buf) is that length too.
pub record Buffer : Type 0 where
  pub size : ℕ
  pub written : List ℕ

-- buf[j++] = c
unfoldable pub put : ℕ → Buffer → Outcome Buffer
put c b =
    if ltb (length b.written) b.size then built (record b { written = c ∷ b.written }) else overflow

-- ngx_memcpy(&buf[j], s, strlen(s)), ngx_sprintf
unfoldable pub puts : List ℕ → Buffer → Outcome Buffer
puts [] b = built b
puts (c ∷ s) b = put c b >>= puts s

-- strlen(buf) stops at a NUL inside the buffer, or reads past it.
unfoldable pub terminated : Buffer → Outcome Buffer
terminated b = if ltb (length b.written) b.size then built b else overflow

-- The first `len` bytes of the buffer are the result.
unfoldable pub contents : Buffer → List ℕ
contents b = reverse b.written ++ zeros (b.size - 1 - length b.written)

-- A column as the statement names it.
pub record ColDef : Type 0 where
  pub name : List ℕ
  pub type : List ℕ

-- strlen(" ") and, but for the last column, strlen(", ")
unfoldable pub columns_len : List ColDef → ℕ
columns_len [] = 0
columns_len (c ∷ []) = length c.name + 1 + length c.type
columns_len (c ∷ d ∷ cs) = length c.name + 1 + length c.type + 2 + columns_len (d ∷ cs)

-- The loop that writes the columns; the last one is followed by the closing bracket.
unfoldable pub put_columns : List ColDef → Buffer → Outcome Buffer
put_columns [] b = built b
put_columns (c ∷ []) b = do b₁ ← puts c.name b; b₂ ← put b' ' b₁; b₃ ← puts c.type b₂; put b')' b₃
put_columns (c ∷ d ∷ cs) b = do
  b₁ ← puts c.name b
  b₂ ← put b' ' b₁
  b₃ ← puts c.type b₂
  b₄ ← puts (codes ", ") b₃
  put_columns (d ∷ cs) b₄

-- buf[j-1] == '?'
abbrev last_is_mark : List ℕ → Bool
last_is_mark [] = false
last_is_mark (c ∷ s) = c == b'?'

-- The loop that alternates ',' and '?', by the byte before.
unfoldable pub put_marks : ℕ → Buffer → Outcome Buffer
put_marks zero b = built b
put_marks (suc k) b = do b₁ ← put (if last_is_mark b.written then b',' else b'?') b; put_marks k b₁

module _ (p : Pool) where
  unfoldable pub create_table : List ℕ → List ColDef → p.State → Outcome (List ℕ × p.State)
  create_table table cols m = do
    let sql_len = 27 + length table + 2 + columns_len cols + 1
    m' ← or_failed (p.pcalloc (sql_len + 1) m)
    b₁ ← puts (codes "CREATE TABLE IF NOT EXISTS ") (record { size = sql_len + 1; written = [] })
    b₂ ← puts table b₁
    b₃ ← puts (codes " (") b₂
    b₄ ← terminated b₃
    b₅ ← put_columns cols b₄
    built (contents b₅, m')

  -- The length is computed in 64 bits, so that `n - 1` wraps around at n = 0.
  unfoldable pub insert : List ℕ → ℕ → p.State → Outcome (List ℕ × p.State)
  insert table n m = do
    let sql_len = (12 + length table + 9 + n + (n + 2 ^ 64 - 1) + 1) % 2 ^ 64
    m' ← or_failed (p.pcalloc (sql_len + 1) m)
    b₁ ← puts (codes "INSERT INTO ") (record { size = sql_len + 1; written = [] })
    b₂ ← puts table b₁
    b₃ ← puts (codes " VALUES (?") b₂
    b₄ ← terminated b₃
    b₅ ← put_marks (sql_len - 1 - length b₄.written) b₄
    b₆ ← put b')' b₅
    built (contents b₆, m')
