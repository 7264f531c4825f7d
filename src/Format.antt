-- ===== src/Format.antt =====
-- src/ngx_http_sqlitelog_fmt.c and src/ngx_http_sqlitelog_col.c: a log format is made from the
-- arguments of its directive, each variable with an optional type behind it.
pub mod Answers
pub mod Described
pub mod Columns
use ngx_sqlite_log.Base.{
  ℕ, suc, ◌+◌, ◌-◌, Bool, true, false, ◌&&◌, not, List, [], ◌∷◌, map, Option, none, some, length,
  leb, ◌==◌, if◌then◌else◌, codes,
}
use ngx_sqlite_log.Util.{Str, str_eq_cs}
use ngx_sqlite_log.Memory.{Pool, Outcome, failed, overflow, built, ◌>>=◌, or_failed}
use ngx_sqlite_log.Op.Run.{Op}
use ngx_sqlite_log.Op.Compile.{compile}
use ngx_sqlite_log.Sql.{ColDef, create_table, insert}
use ngx_sqlite_log.Db.{Bind, bind_text, bind_blob, Fmt}

-- ngx_http_sqlitelog_fmt_col_types
abbrev pub col_types : List (List ℕ × List ℕ)
col_types =
    (codes "binary_remote_addr", codes "BLOB")
    ∷ (codes "body_bytes_sent", codes "INTEGER")
    ∷ (codes "bytes_sent", codes "INTEGER")
    ∷ (codes "connection", codes "INTEGER")
    ∷ (codes "connection_requests", codes "INTEGER")
    ∷ (codes "connection_time", codes "REAL")
    ∷ (codes "connections_active", codes "INTEGER")
    ∷ (codes "connections_reading", codes "INTEGER")
    ∷ (codes "connections_waiting", codes "INTEGER")
    ∷ (codes "connections_writing", codes "INTEGER")
    ∷ (codes "content_length", codes "INTEGER")
    ∷ (codes "gzip_ratio", codes "REAL")
    ∷ (codes "limit_rate", codes "INTEGER")
    ∷ (codes "msec", codes "REAL")
    ∷ (codes "pid", codes "INTEGER")
    ∷ (codes "proxy_port", codes "INTEGER")
    ∷ (codes "proxy_protocol_port", codes "INTEGER")
    ∷ (codes "proxy_protocol_server_port", codes "INTEGER")
    ∷ (codes "remote_port", codes "INTEGER")
    ∷ (codes "request_time", codes "REAL")
    ∷ (codes "server_port", codes "INTEGER")
    ∷ (codes "status", codes "INTEGER")
    ∷ []

-- The loop over the table.
unfoldable pub find_type : List (List ℕ × List ℕ) → List ℕ → Str
unfolding str_eq_cs
find_type [] col_name = none
find_type ((key, val) ∷ types) col_name =
    if str_eq_cs col_name key then some val else find_type types col_name

abbrev pub fmt_col_type : List ℕ → Str
fmt_col_type col_name = find_type col_types col_name

-- An argument that begins with '$'. The bytes of an argument end with a NUL, so that the first byte
-- of an empty one is no '$'.
abbrev pub is_variable : List ℕ → Bool
is_variable [] = false
is_variable (c ∷ s) = c == b'$'

-- The arguments from position i on.
unfoldable pub n_variables_from : ℕ → List (List ℕ) → ℕ
n_variables_from i [] = 0
n_variables_from i (arg ∷ args) =
    (if leb 2 i && is_variable arg then 1 else 0) + n_variables_from (suc i) args

unfoldable pub fmt_n_variables : List (List ℕ) → ℕ
unfolding n_variables_from
fmt_n_variables args = n_variables_from 0 args

-- ngx_toupper
abbrev pub toupper : ℕ → ℕ
toupper c = if leb b'a' c && leb c b'z' then c - 32 else c

abbrev pub type_or_text : Str → List ℕ
type_or_text none = codes "TEXT"
type_or_text (some type) = type

-- The type of a column, from its name and the arguments behind it.
unfoldable pub column_type : List ℕ → List (List ℕ) → List ℕ
unfolding find_type
column_type name [] = type_or_text (fmt_col_type name)
column_type name (next ∷ args) =
    if leb 1 (length next) && not (is_variable next)
    then map toupper next
    else type_or_text (fmt_col_type name)

-- ngx_http_sqlitelog_col_t
pub record Column : Type 0 where
  pub name : List ℕ
  pub type : List ℕ
  pub op : Op
  pub bind : Bind

abbrev pub bind_of : List ℕ → Bind
bind_of type = if str_eq_cs type (codes "BLOB") then bind_blob else bind_text

-- ngx_http_sqlitelog_fmt_t
pub record Format : Type 0 where
  pub name : List ℕ
  pub columns : List Column
  pub sql_create : List ℕ
  pub sql_insert : List ℕ

abbrev pub col_def : Column → ColDef
col_def c = record { name = c.name; type = c.type }

abbrev pub without_dollar : List ℕ → List ℕ
without_dollar [] = []
without_dollar (c ∷ s) = s

abbrev pub combined_columns : List (List ℕ)
combined_columns =
    codes "$remote_addr"
    ∷ codes "$remote_user"
    ∷ codes "$time_local"
    ∷ codes "$request"
    ∷ codes "$status"
    ∷ codes "$body_bytes_sent"
    ∷ codes "$http_referer"
    ∷ codes "$http_user_agent"
    ∷ []

module _ (p : Pool) (variable_index : List ℕ → Option ℕ) where
  -- After the operation's memory (24 bytes) is allocated.
  unfoldable pub col_init : List ℕ → List ℕ → p.State → Outcome (Column × p.State)
  col_init name type m = do
    m' ← or_failed (p.palloc 24 m)
    op ← or_failed (compile variable_index name type)
    built (record { name = name; type = type; op = op; bind = bind_of type }, m')

  -- The loop over the arguments from the third on.
  unfoldable pub columns_of : List (List ℕ) → p.State → Outcome (List Column × p.State)
  columns_of [] m = built ([], m)
  columns_of (value ∷ args) m = elim (is_variable value) [
    | true ↦ or_failed (p.array_push m) >>= λ m₁.
        col_init (without_dollar value) (column_type (without_dollar value) args) m₁
        >>= λ (col, m₂). columns_of args m₂ >>= λ (cols, m₃). built (col ∷ cols, m₃)
    | false ↦ columns_of args m
  ]

  -- The directive, its table name and the other arguments.
  unfoldable pub fmt_init : List ℕ → List ℕ → List (List ℕ) → p.State → Outcome (Format × p.State)
  fmt_init directive table_name args m = do
    let n = fmt_n_variables (directive ∷ table_name ∷ args)
    m₁ ← or_failed (p.array_create n m)
    (columns, m₂) ← columns_of args m₁
    (sql_create, m₃) ← create_table p table_name (map col_def columns) m₂
    (sql_insert, m₄) ← insert p table_name n m₃
    built (
      record {
        name = table_name;
        columns = columns;
        sql_create = sql_create;
        sql_insert = sql_insert;
      },
      m₄,
    )

  -- The predefined format, as its directive would be written.
  unfoldable pub fmt_init_combined : p.State → Outcome (Format × p.State)
  fmt_init_combined m = do
    m' ← or_failed (p.array_create 10 m)
    fmt_init [] (codes "combined") combined_columns m'

-- The i-th column's bind function; `beyond` is what memory holds behind the columns.
abbrev pub binds_of : List Column → (ℕ → Bind) → ℕ → Bind
binds_of [] beyond i = beyond i
binds_of (c ∷ cs) beyond i = if i == 0 then c.bind else binds_of cs beyond (i - 1)

-- A format as the database functions read it.
abbrev pub to_fmt : Format → (ℕ → Bind) → Fmt
to_fmt f beyond = record {
  name = f.name;
  ncols = length f.columns;
  binds = binds_of f.columns beyond;
  sql_create = f.sql_create;
  sql_insert = f.sql_insert;
}
