-- ===== src/Examples/Requests.antt =====
-- The theorem on the requests of a server at a small input.
use ngx_sqlite_log.Base.{ℕ, List, [], ◌∷◌, codes}
use ngx_sqlite_log.Op.Request.{Request}
use ngx_sqlite_log.Handler.Request.{Condition, no_filter, filter_failed, filter_value}
use ngx_sqlite_log.Examples.Statements.{request}

-- One that is logged, two that the filter stops, and two more that are logged.
abbrev requests : List (Condition × Request × ℕ)
requests =
    (no_filter, request, 0)
    ∷ (filter_value (codes "0"), request, 1)
    ∷ (filter_failed, request, 2)
    ∷ (filter_value (codes "yes"), request, 3)
    ∷ (no_filter, request, 4)
    ∷ []
