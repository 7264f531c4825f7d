-- ===== src/Examples/Blocks.antt =====
-- The theorem on a whole http block at a small input.
use ngx_sqlite_log.Base.{ℕ, ◌≡◌, refl, Bool, true, false, List, [], ◌∷◌, none, some, arith, codes}
use ngx_sqlite_log.Memory.{Outcome, failed, overflow, built}
use ngx_sqlite_log.Util.{strncmp_eq, has_prefix, str_eq, str_eq_cs}
use ngx_sqlite_log.Op.Compile.{find_var, compile}
use ngx_sqlite_log.Sql.{
  create_table, puts, put, columns_len, terminated, put_columns, insert, put_marks, contents,
}
use ngx_sqlite_log.Sqlite.Wrap.{sqlite3_open_v2, sqlite3_close, sqlite3_busy_timeout, sqlite3_exec}
use ngx_sqlite_log.Db.{db_close, db_init, db_open, db_setup, db_test}
use ngx_sqlite_log.Format.{
  Format, find_type, fmt_n_variables, n_variables_from, column_type, col_init, columns_of, fmt_init,
}
use ngx_sqlite_log.Op.Run.{getlen, getlen_unescaped, run, run_unescaped}
use ngx_sqlite_log.Db.{bind_text, bind_blob}
use ngx_sqlite_log.Conf.{SrvConf, another, on, new_srv_conf}
use ngx_sqlite_log.Conf.Main.{MainConf, create_main_conf, some_empty, is_taken, is_dangling, format}
use ngx_sqlite_log.Conf.Directive.{
  Ctx, find_format, opt_format, opt_buffer, opt_max, opt_flush, option, options, shm_zone,
  sqlitelog,
}
use ngx_sqlite_log.Conf.Block.{Block, empty, new_server, defines, server_logs, Reach, start, later}
use ngx_sqlite_log.Examples.Engine.{engine}
use ngx_sqlite_log.Examples.Memory.{pool}
use ngx_sqlite_log.Examples.Reading.{files}
use ngx_sqlite_log.Examples.Directives.{nginx, main, uncleared, texts, context, buffering}

-- What was built.
abbrev result : {A : Type 0} → A → Outcome A → A
result a failed = a
result a overflow = a
result a (built b) = b

abbrev succeeds : {A : Type 0} → Outcome A → Bool
succeeds failed = false
succeeds overflow = false
succeeds (built a) = true

result_lem : {A : Type 0} (a : A) (o : Outcome A) → succeeds o ≡ true → o ≡ built (result a o)
result_lem a failed h = absurd (ground arith)
result_lem a overflow h = absurd (ground arith)
result_lem a (built b) h = refl

abbrev B : Type 0
B = Block pool files engine nginx uncleared texts

abbrev pub nothing : B
nothing = empty pool files engine nginx uncleared texts context

-- sqlitelog_format brief $uri $status blob;
-- server { sqlitelog access.db brief buffer=64K max=5 flush=5s; } server { sqlitelog all.db brief; }
abbrev columns : List (List ℕ)
columns = codes "$uri" ∷ codes "$status" ∷ codes "blob" ∷ []

two_columns : fmt_n_variables (codes "sqlitelog_format" ∷ codes "brief" ∷ columns) ≡ 2
unfolding fmt_n_variables n_variables_from
two_columns = refl

abbrev defined : Outcome (MainConf × ℕ)
defined = format pool nginx (codes "sqlitelog_format") (codes "brief") columns (main, 0)

defined_lem : succeeds defined ≡ true
unfolding format some_empty is_taken fmt_n_variables is_dangling fmt_init columns_of col_init
    compile create_table puts put columns_len column_type terminated put_columns insert put_marks
    find_type n_variables_from find_var contents str_eq str_eq_cs strncmp_eq
defined_lem = refl

abbrev with_format : MainConf × ℕ
with_format = result (main, 0) defined

abbrev second : B
second = record nothing { ctx = record context { main = with_format.0; mem = with_format.1 } }

abbrev third : B
third = record second { servers = new_srv_conf ∷ [] }

abbrev pub brief : Format
brief = record {
  name = codes "brief";
  columns =
      record {
        name = codes "uri";
        type = codes "TEXT";
        op = record { measure = getlen; print = run; index = 7 };
        bind = bind_text;
      }
      ∷ record {
        name = codes "status";
        type = codes "BLOB";
        op = record { measure = getlen_unescaped; print = run_unescaped; index = 7 };
        bind = bind_blob;
      }
      ∷ [];
  sql_create = codes "CREATE TABLE IF NOT EXISTS brief (uri TEXT, status BLOB)";
  sql_insert = codes "INSERT INTO brief VALUES (?,?)";
}

-- The two servers.
abbrev pub served : SrvConf
served = record {
  enabled = on;
  settings = record {
    filename = some (codes "/etc/nginx/access.db");
    fmt = some (another brief);
    init_sql = none;
    buf = some (0, record { max = 5; flush = 5000; event = some true });
    filter = none;
  };
}

abbrev pub served_at_once : SrvConf
served_at_once = record {
  enabled = on;
  settings = record {
    filename = some (codes "/etc/nginx/all.db");
    fmt = some (another brief);
    init_sql = none;
    buf = none;
    filter = none;
  };
}

abbrev logged : Outcome (SrvConf × Ctx pool files engine nginx uncleared texts)
logged =
    sqlitelog pool files engine nginx uncleared texts (codes "access.db")
      (codes "brief" ∷ buffering) (new_srv_conf, third.ctx)

abbrev after_first : Ctx pool files engine nginx uncleared texts
after_first = (result (new_srv_conf, third.ctx) logged).1

logged_lem : logged ≡ built (served, after_first)
unfolding sqlitelog format some_empty is_taken fmt_n_variables is_dangling fmt_init columns_of
    col_init compile create_table puts put columns_len column_type terminated put_columns insert
    put_marks find_type n_variables_from find_var contents str_eq str_eq_cs strncmp_eq options
    option opt_format find_format opt_buffer opt_flush opt_max shm_zone db_close db_init db_open
    db_setup db_test has_prefix sqlite3_open_v2 sqlite3_close sqlite3_busy_timeout sqlite3_exec
logged_lem = refl

abbrev fourth : B
fourth = record { ctx = after_first; http = new_srv_conf; servers = served ∷ new_srv_conf ∷ [] }

abbrev logged_at_once : Outcome (SrvConf × Ctx pool files engine nginx uncleared texts)
logged_at_once =
    sqlitelog pool files engine nginx uncleared texts (codes "all.db") (codes "brief" ∷ [])
      (new_srv_conf, fourth.ctx)

abbrev after_second : Ctx pool files engine nginx uncleared texts
after_second = (result (new_srv_conf, fourth.ctx) logged_at_once).1

logged_at_once_lem : logged_at_once ≡ built (served_at_once, after_second)
unfolding sqlitelog format some_empty is_taken fmt_n_variables is_dangling fmt_init columns_of
    col_init compile create_table puts put columns_len column_type terminated put_columns insert
    put_marks find_type n_variables_from find_var contents str_eq str_eq_cs strncmp_eq options
    option opt_format find_format opt_buffer opt_flush opt_max shm_zone db_close db_init db_open
    db_setup db_test has_prefix sqlite3_open_v2 sqlite3_close sqlite3_busy_timeout sqlite3_exec
logged_at_once_lem = refl

abbrev pub fifth : B
fifth = record { ctx = after_second; http = new_srv_conf; servers = served ∷ served_at_once ∷ [] }

pub reading : Reach pool files engine nginx uncleared texts nothing fifth
reading =
    later
      (later
        (later
          (later
            (later start (
              defines (codes "sqlitelog_format") (codes "brief") columns with_format.0 with_format.1
                (omega (arith, two_columns)) (result_lem (main, 0) defined defined_lem)))
            new_server)
          (server_logs (codes "access.db") (codes "brief" ∷ buffering) [] new_srv_conf [] served
            after_first refl logged_lem))
        new_server)
      (server_logs (codes "all.db") (codes "brief" ∷ []) (served ∷ []) new_srv_conf []
        served_at_once after_second refl logged_at_once_lem)

pub main_made : create_main_conf pool 0 ≡ built (main, 58)
unfolding create_main_conf
main_made = refl
