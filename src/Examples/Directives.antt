-- ===== src/Examples/Directives.antt =====
-- The theorems on the directives at small inputs.
use ngx_sqlite_log.Base.{
  ℕ, ◌+◌, ◌≡◌, refl, Bool, true, false, List, [], ◌∷◌, ◌++◌, none, some, arith, codes,
}
use ngx_sqlite_log.Util.{str_eq}
use ngx_sqlite_log.Memory.{built}
use ngx_sqlite_log.Format.{fmt_n_variables, n_variables_from}
use ngx_sqlite_log.Format.Answers.{Builds}
use ngx_sqlite_log.Db.{Bind, bind_text}
use ngx_sqlite_log.Conf.Main.{
  Nginx, MainConf, sqlitelog_handler, other_handler, init, format, is_dangling,
}
use ngx_sqlite_log.Conf.Formats.{MainOk, Defines, format_lem}
use ngx_sqlite_log.Conf.Directive.{Ctx}
use ngx_sqlite_log.Conf.Found.{FoundAs, format-FoundAs}
use ngx_sqlite_log.Examples.Engine.{engine}
use ngx_sqlite_log.Examples.Memory.{pool}
use ngx_sqlite_log.Examples.Reading.{files}
use ngx_sqlite_log.Examples.Storage.{empty}

abbrev pub nginx : Nginx
nginx = record {
  Cycle = ℕ;
  pagesize = 4096;
  strcasecmp_eq = str_eq;
  atoi = λ s. some 5;
  parse_size = λ s. some 65536;
  parse_time = λ s. some 5000;
  full_name = λ s. some (codes "/etc/nginx/" ++ s);
  compile_complex_value = λ s. some 3;
  shared_memory_add = λ name size c. (some c, c + 1);
  thread_pool_add = λ name c. (some 1, c);
  thread_pool_get = λ name c. some 1;
  variable_index = λ name. some 7;
}

-- The main configuration before any directive.
abbrev pub main : MainConf
main = record {
  combined = record { name = codes "combined"; columns = []; sql_create = []; sql_insert = [] };
  others = [];
  combined_init = false;
  tp = none;
}

main-Ok : MainOk nginx.variable_index main
main-Ok = record {
  combined_named = refl;
  combined_ok = λ e. absurd (ground arith);
  others_ok = tt;
  distinct = (tt, tt);
}

abbrev pub arguments : List (List ℕ)
arguments = codes "$uri" ∷ codes "$status" ∷ codes "text" ∷ []

pub two_variables : fmt_n_variables (codes "sqlitelog_format" ∷ codes "brief" ∷ arguments) ≡ 2
unfolding fmt_n_variables n_variables_from
two_variables = refl

format_example :
    Builds
      (Defines pool nginx (codes "sqlitelog_format") (codes "brief") arguments main)
      (format pool nginx (codes "sqlitelog_format") (codes "brief") arguments (main, 0))
format_example =
    format_lem pool nginx (codes "sqlitelog_format") (codes "brief") arguments main 0 main-Ok
      (omega (arith, two_variables))

format-FoundAs_example :
    Builds
      (FoundAs pool nginx (codes "brief"))
      (format pool nginx (codes "sqlitelog_format") (codes "brief") arguments (main, 0))
format-FoundAs_example =
    format-FoundAs pool nginx (codes "sqlitelog_format") (codes "brief") arguments main 0
      (omega (arith, two_variables))

-- A type behind a table name that begins with '$' passes the check.
dangling_test : is_dangling 1 (codes "sqlitelog_format") (codes "$t" ∷ codes "text" ∷ []) ≡ false
unfolding is_dangling
dangling_test = refl

two_types_test :
    is_dangling 1
      (codes "sqlitelog_format")
      (codes "brief" ∷ codes "$uri" ∷ codes "text" ∷ codes "real" ∷ [])
    ≡ true
unfolding is_dangling
two_types_test = refl

abbrev pub uncleared : ℕ → Bool
uncleared m = true

abbrev pub texts : ℕ → Bind
texts i = bind_text

abbrev pub context : Ctx pool files engine nginx uncleared texts
context = record { mem = 0; fs = []; cycle = 0; dbs = empty; main = main }

abbrev pub buffering : List (List ℕ)
buffering = codes "buffer=64K" ∷ codes "max=5" ∷ codes "flush=5s" ∷ []

registered_test :
    init pool (other_handler 3 ∷ [], 0) ≡ built (other_handler 3 ∷ sqlitelog_handler ∷ [], 1)
unfolding init
registered_test = refl
