-- ===== src/Op/Run.antt =====
-- src/ngx_http_sqlitelog_op.c: the functions that measure (getlen) and print (run) a variable.
pub mod Exact
use ngx_sqlite_log.Base.{
  ℕ, ◌+◌, ◌-◌, ◌*◌, ◌/◌, ◌%◌, Bool, true, false, not, List, [], ◌∷◌, Option, none, some, length,
  ltb, ◌==◌, if◌then◌else◌,
}
use ngx_sqlite_log.Op.Escape.{escape_count, escape_copy}
use ngx_sqlite_log.Op.Request.{Request, Variable, Formats, set_variable}

-- The functions that a getlen pointer may hold; the first is the generic one.
pub data Getlen : Type 0 where
  getlen getlen_unescaped getlen_pipe getlen_time_local getlen_time_iso8601 getlen_status : Getlen

-- The functions that a run pointer may hold; the first is the generic one.
pub data Run : Type 0 where
  run run_unescaped run_pipe run_time_local run_time_iso8601 run_msec run_request_time run_status
        run_bytes_sent run_body_bytes_sent run_request_length :
      Run

-- ngx_http_sqlitelog_op_s
pub record Op : Type 0 where
  pub measure : Getlen
  pub print : Run
  pub index : ℕ

abbrev pub measure_generic : ℕ → Request → Option Variable → ℕ × Request
measure_generic i r none = (0, r)
measure_generic i r (some v) = if v.not_found then (0, r) else (
  length v.bytes + escape_count v.bytes * 3,
  set_variable i (record v { escape = not (escape_count v.bytes == 0) }) r,
)

abbrev pub measure_unescaped : ℕ → Request → Option Variable → ℕ × Request
measure_unescaped i r none = (0, r)
measure_unescaped i r (some v) =
    if v.not_found then (0, r) else (length v.bytes, set_variable i (record v { escape = false }) r)

-- The buffer size for a variable, and the request with the variable's escape flag set.
unfoldable pub call_getlen : Getlen → Request → ℕ → ℕ × Request
call_getlen getlen r i = measure_generic i r (r.variables i)
call_getlen getlen_unescaped r i = measure_unescaped i r (r.variables i)
call_getlen getlen_pipe r i = (1, r)
call_getlen getlen_time_local r i = (26, r)
call_getlen getlen_time_iso8601 r i = (25, r)
call_getlen getlen_status r i = (3, r)

abbrev pub print_generic : Option Variable → Option (List ℕ)
print_generic none = none
print_generic (some v) =
    if v.not_found then none else some (if v.escape then escape_copy v.bytes else v.bytes)

abbrev pub print_unescaped : Option Variable → Option (List ℕ)
print_unescaped none = some []
print_unescaped (some v) = if v.not_found then some [] else some v.bytes

status_of : Request → ℕ
status_of r =
    if not (r.err_status == 0)
    then r.err_status
    else if not (r.out_status == 0)
    then r.out_status
    else if r.is_http_9
    then 9
    else 0

-- The milliseconds since the request's start, at least 0.
elapsed : Request → ℕ
elapsed r = r.now_sec * 1000 + r.now_msec - (r.start_sec * 1000 + r.start_msec)

-- The bytes that are written at `buf`; `none` where the function returns NULL.
unfoldable pub call_run : Formats → Run → Request → ℕ → Option (List ℕ)
unfolding status_of elapsed
call_run f run r i = print_generic (r.variables i)
call_run f run_unescaped r i = print_unescaped (r.variables i)
call_run f run_pipe r i = some ((if r.pipeline then b'p' else b'.') ∷ [])
call_run f run_time_local r i = some r.log_time
call_run f run_time_iso8601 r i = some r.log_iso8601
call_run f run_msec r i = some (f.seconds r.now_sec r.now_msec)
call_run f run_request_time r i = some (f.seconds (elapsed r / 1000) (elapsed r % 1000))
call_run f run_status r i = some (f.status (status_of r))
call_run f run_bytes_sent r i = some (f.offset r.sent)
call_run f run_body_bytes_sent r i =
    if ltb r.header_size r.sent then some (f.offset (r.sent - r.header_size)) else some (b'0' ∷ [])
call_run f run_request_length r i = some (f.offset r.request_length)
