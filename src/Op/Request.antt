-- ===== src/Op/Request.antt =====
-- What the operations read of nginx: the request with its variables, the clock's cached texts and
-- the number formats of ngx_sprintf. The texts and formats are fields, whatever nginx puts there.
use ngx_sqlite_log.Base.{ℕ, Bool, List, Option, some, ◌==◌, if◌then◌else◌}

-- ngx_http_variable_value_t, as far as the operations use it.
pub record Variable : Type 0 where
  pub bytes : List ℕ
  pub not_found : Bool
  pub escape : Bool

pub record Request : Type 0 where
  -- ngx_http_get_indexed_variable: `none` is its NULL.
  pub variables : ℕ → Option Variable
  pub pipeline : Bool
  pub start_sec : ℕ
  pub start_msec : ℕ
  pub err_status : ℕ
  pub out_status : ℕ
  pub is_http_9 : Bool
  pub sent : ℕ
  pub header_size : ℕ
  pub request_length : ℕ
  -- ngx_timeofday() and the cached texts of the same moment.
  pub now_sec : ℕ
  pub now_msec : ℕ
  pub log_time : List ℕ
  pub log_iso8601 : List ℕ

-- ngx_sprintf with the formats "%T.%03M", "%03ui" and "%O".
pub record Formats : Type 0 where
  pub seconds : ℕ → ℕ → List ℕ
  pub status : ℕ → List ℕ
  pub offset : ℕ → List ℕ

-- A write through the pointer that ngx_http_get_indexed_variable returned.
abbrev pub set_variable : ℕ → Variable → Request → Request
set_variable i v r = record r { variables = λ j. if i == j then some v else r.variables j }
