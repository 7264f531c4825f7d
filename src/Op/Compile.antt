-- ===== src/Op/Compile.antt =====
-- src/ngx_http_sqlitelog_op.c: ngx_http_sqlitelog_op_compile, which picks the two functions of a
-- column, and the table of src/ngx_http_sqlitelog_var.h.
use ngx_sqlite_log.Base.{
  ℕ, Bool, true, false, List, [], ◌∷◌, Option, none, some, if◌then◌else◌, codes,
}
use ngx_sqlite_log.Util.{str_eq, str_eq_cs}
use ngx_sqlite_log.Op.Run.{
  Op, Getlen, getlen, getlen_unescaped, getlen_pipe, getlen_time_local, getlen_time_iso8601,
  getlen_status, Run, run, run_unescaped, run_pipe, run_time_local, run_time_iso8601, run_msec,
  run_request_time, run_status, run_bytes_sent, run_body_bytes_sent, run_request_length,
}

-- ngx_http_sqlitelog_var_t
pub record Var : Type 0 where
  pub name : List ℕ
  pub measure : Getlen
  pub print : Run

abbrev pub var : List ℕ → Getlen → Run → Var
var n g p = record { name = n; measure = g; print = p }

-- ngx_http_sqlitelog_vars
abbrev pub vars : List Var
vars =
    var (codes "binary_remote_addr") getlen_unescaped run_unescaped
    ∷ var (codes "pipe") getlen_pipe run_pipe
    ∷ var (codes "time_local") getlen_time_local run_time_local
    ∷ var (codes "time_iso8601") getlen_time_iso8601 run_time_iso8601
    ∷ var (codes "msec") getlen run_msec
    ∷ var (codes "request_time") getlen run_request_time
    ∷ var (codes "status") getlen_status run_status
    ∷ var (codes "bytes_sent") getlen run_bytes_sent
    ∷ var (codes "body_bytes_sent") getlen run_body_bytes_sent
    ∷ var (codes "request_length") getlen run_request_length
    ∷ []

-- The loop over the table, which ends at the first entry of that name.
unfoldable pub find_var : List Var → List ℕ → Option Var
find_var [] name = none
find_var (v ∷ vs) name = if str_eq name v.name then some v else find_var vs name

abbrev pub functions : Bool → Option Var → Getlen × Run
functions true v = (getlen_unescaped, run_unescaped)
functions false none = (getlen, run)
functions false (some v) = (v.measure, v.print)

-- `variable_index` is nginx's ngx_http_get_variable_index, `none` its NGX_ERROR; and so is `none`
-- here.
unfoldable pub compile : (List ℕ → Option ℕ) → List ℕ → List ℕ → Option Op
compile variable_index name type =
    let (g, p) = functions (str_eq_cs type (codes "BLOB")) (find_var vars name) in
    elim (variable_index name) [
      | none ↦ none
      | some i ↦ some (record { measure = g; print = p; index = i })
    ]
