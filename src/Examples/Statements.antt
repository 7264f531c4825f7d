-- ===== src/Examples/Statements.antt =====
-- The theorems on values and statements at small inputs.
use ngx_sqlite_log.Base.{
  ℕ, ◌+◌, ◌*◌, ◌<◌, ◌≡◌, refl, true, false, List, [], ◌∷◌, some, arith, codes, length, All,
}
use ngx_sqlite_log.Util.{has_prefix, str_is_false}
use ngx_sqlite_log.Op.Escape.{escape_count, escape_copy}
use ngx_sqlite_log.Op.Escape.Size.{length-escape_copy, escape_copy-printable, is_printable}
use ngx_sqlite_log.Op.Escape.Decode.{unescape, unescape-escape_copy}
use ngx_sqlite_log.Op.Request.{Request, Formats}
use ngx_sqlite_log.Op.Run.{Op, getlen, run, getlen_unescaped, run_unescaped, call_getlen, call_run}
use ngx_sqlite_log.Op.Run.Exact.{measured_exact}
use ngx_sqlite_log.Entry.{log_entry}
use ngx_sqlite_log.Entry.Shape.{Yields, expected, AllOwn, escaped, raw, log_entry_lem}
use ngx_sqlite_log.Examples.Memory.{pool}

-- A quotation mark between two letters.
abbrev quoted : List ℕ
quoted = b'a' ∷ b'"' ∷ b'b' ∷ []

quoted_bytes : All (λ c. c < 256) quoted
quoted_bytes = (omega arith, (omega arith, (omega arith, tt)))

-- A run of the escape function.
escape_test : escape_copy quoted ≡ codes "a\\x22b"
unfolding escape_copy
escape_test = refl

prefix_test : has_prefix (codes "$uri") (codes "$") ≡ true
unfolding has_prefix
prefix_test = refl

false_test : str_is_false (codes "0") ≡ true
unfolding str_is_false
false_test = refl

length-escape_copy_example : length (escape_copy quoted) ≡ length quoted + escape_count quoted * 3
length-escape_copy_example = length-escape_copy quoted

escape_copy-printable_example : All (λ c. is_printable c ≡ true) (escape_copy quoted)
escape_copy-printable_example = escape_copy-printable quoted quoted_bytes

unescape-escape_copy_example : unescape (escape_copy quoted) ≡ quoted
unescape-escape_copy_example = unescape-escape_copy quoted quoted_bytes

abbrev pub formats : Formats
formats = record {
  seconds = λ s ms. codes "1.000";
  status = λ s. codes "200";
  offset = λ n. codes "7";
}

-- Each variable holds the three bytes.
abbrev pub request : Request
request = record {
  variables = λ i. some (record { bytes = quoted; not_found = false; escape = false });
  pipeline = false;
  start_sec = 1;
  start_msec = 0;
  err_status = 0;
  out_status = 200;
  is_http_9 = false;
  sent = 7;
  header_size = 7;
  request_length = 7;
  now_sec = 2;
  now_msec = 0;
  log_time = codes "26/Nov/2026:13:00:00 +0000";
  log_iso8601 = codes "2026-11-26T13:00:00+00:00";
}

measured_exact_example :
    (let (n, r') = call_getlen getlen request 0 in
      (call_run formats run r' 0 ≡ some (escape_copy quoted)) × (length (escape_copy quoted) ≡ n))
    × (let (n, r') = call_getlen getlen_unescaped request 0 in
        (call_run formats run_unescaped r' 0 ≡ some quoted) × (length quoted ≡ n))
measured_exact_example = measured_exact formats request 0 quoted refl

-- An escaped column and a raw one.
abbrev pub ops : List Op
ops =
    record { measure = getlen; print = run; index = 0 }
    ∷ record { measure = getlen_unescaped; print = run_unescaped; index = 1 }
    ∷ []

abbrev pub own : AllOwn ops
own = (escaped, (raw, tt))

log_entry_example : Yields (expected ops own request) request (log_entry pool formats ops request 0)
log_entry_example = log_entry_lem pool formats ops own request 0
