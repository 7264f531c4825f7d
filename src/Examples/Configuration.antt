-- ===== src/Examples/Configuration.antt =====
-- The theorems on formats and merged configurations at small inputs.
use ngx_sqlite_log.Base.{Option, some, ℕ, ◌∷◌, List, [], ◌≡◌, refl, arith, codes}
use ngx_sqlite_log.Format.{find_type, fmt_n_variables, fmt_init, column_type}
use ngx_sqlite_log.Format.Answers.{Answers}
use ngx_sqlite_log.Format.Described.{described}
use ngx_sqlite_log.Format.Columns.{Refused, Formatted, fmt_init_lem}
use ngx_sqlite_log.Examples.Memory.{pool}

-- sqlitelog_format brief $uri $status $msec numeric
abbrev arguments : List (List ℕ)
arguments = codes "$uri" ∷ codes "$status" ∷ codes "$msec" ∷ codes "numeric" ∷ []

implicit_type_test : column_type (codes "status") (codes "$msec" ∷ []) ≡ codes "INTEGER"
unfolding column_type
implicit_type_test = refl

explicit_type_test : column_type (codes "msec") (codes "numeric" ∷ []) ≡ codes "NUMERIC"
unfolding column_type
explicit_type_test = refl

described_test :
    described arguments
    ≡ (codes "uri", codes "TEXT")
      ∷ (codes "status", codes "INTEGER")
      ∷ (codes "msec", codes "NUMERIC")
      ∷ []
unfolding find_type
described_test = refl

abbrev known : List ℕ → Option ℕ
known name = some 7

three_variables : fmt_n_variables (codes "sqlitelog_format" ∷ codes "brief" ∷ arguments) ≡ 3
unfolding fmt_n_variables
three_variables = refl

fmt_init_example :
    Answers
      (Refused pool known (described arguments))
      (Formatted pool known
        (codes "brief")
        (fmt_n_variables (codes "sqlitelog_format" ∷ codes "brief" ∷ arguments))
        arguments)
      (fmt_init pool known (codes "sqlitelog_format") (codes "brief") arguments 0)
fmt_init_example =
    fmt_init_lem pool known (codes "sqlitelog_format") (codes "brief") arguments 0
      (omega (arith, three_variables)) (omega (arith, three_variables))
