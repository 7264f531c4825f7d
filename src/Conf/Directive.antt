-- ===== src/Conf/Directive.antt =====
-- src/ngx_http_sqlitelog_module.c: the sqlitelog directive and its options.
use ngx_sqlite_log.Base.{
  ℕ, ◌+◌, ◌*◌, Bool, true, not, List, [], ◌∷◌, ◌++◌, Option, none, some, length, ltb, ◌==◌,
  if◌then◌else◌, codes,
}
use ngx_sqlite_log.Util.{Str, has_prefix, str_eq, str_eq_cs}
use ngx_sqlite_log.Memory.{Pool, Outcome, failed, overflow, built, ◌>>=◌, or_failed, take}
use ngx_sqlite_log.Buf.{Buf}
use ngx_sqlite_log.Sqlite.{Sqlite}
use ngx_sqlite_log.Sqlite.Code
use ngx_sqlite_log.Sqlite.Wrap.{State}
use ngx_sqlite_log.Db.{Db, Bind, db_test}
use ngx_sqlite_log.Format.{Format, to_fmt, fmt_init_combined}
use ngx_sqlite_log.File.{Files, file_read}
use ngx_sqlite_log.Conf.{FormatRef, the_combined, another, Settings, SrvConf, on, off}
use ngx_sqlite_log.Conf.Main.{Nginx, MainConf, is_given}

-- The argument behind the name of an option.
abbrev pub behind : List ℕ → List ℕ → List ℕ
behind [] arg = arg
behind (c ∷ name) [] = []
behind (c ∷ name) (d ∷ arg) = behind name arg

-- The loop over the formats behind the first.
unfoldable pub find_format : List ℕ → List Format → Option FormatRef
unfolding str_eq
find_format arg [] = none
find_format arg (fmt ∷ fmts) =
    if str_eq fmt.name arg then some (another fmt) else find_format arg fmts

-- The format that is found, or else the one that was set before.
abbrev pub found_or : Option FormatRef → Option FormatRef → Option FormatRef
found_or none before = before
found_or (some ref) before = some ref

-- `before` is the format that the server has so far.
unfoldable pub opt_format : List ℕ → MainConf → Option FormatRef → Option FormatRef
unfolding str_eq_cs str_eq
opt_format arg lmcf before =
    if length arg == 0
    then none
    else if str_eq_cs arg (codes "combined")
    then some the_combined
    else if str_eq lmcf.combined.name arg
    then some the_combined
    else found_or (find_format arg lmcf.others) before

abbrev pub pointee : MainConf → FormatRef → Format
pointee lmcf the_combined = lmcf.combined
pointee lmcf (another fmt) = fmt

-- The parsed values of an option, `none` being an error.
module _ (ngx : Nginx) where
  abbrev pub at_least : ℕ → Option ℕ → Option ℕ
  at_least least none = none
  at_least least (some n) = if ltb n least then none else some n

  unfoldable pub opt_buffer : List ℕ → Option ℕ
  opt_buffer arg = at_least (8 * ngx.pagesize) (ngx.parse_size (behind (codes "buffer=") arg))

  unfoldable pub opt_max : List ℕ → Option ℕ
  opt_max arg = at_least 1 (ngx.atoi (behind (codes "max=") arg))

  unfoldable pub opt_flush : List ℕ → Option ℕ
  opt_flush arg = at_least 1000 (ngx.parse_time (behind (codes "flush=") arg))

-- The local variables of the directive, with what it has set in the server so far.
pub record Line : Type 0 where
  pub size : ℕ
  pub max : ℕ
  pub flush : ℕ
  pub srv : Settings

-- Of the memory that ngx_palloc returns, which is not cleared, `stale` tells whether the bit is set
-- where the event has its timer_set flag. `beyond` is as in to_fmt.
module _ (p : Pool) (files : Files) (sq : Sqlite) (ngx : Nginx) (stale : p.State → Bool)
    (beyond : ℕ → Bind) where
  -- What the directive reads and changes besides the server.
  pub record Ctx : Type 0 where
    pub mem : p.State
    pub fs : files.State
    pub cycle : ngx.Cycle
    pub dbs : State sq
    pub main : MainConf

  abbrev pub with_script : Line × Ctx → Str × p.State × files.State → Outcome (Line × Ctx)
  with_script (line, c) (none, m, fs) = failed
  with_script (line, c) (some sql, m, fs) =
      built (
        record line { srv = record line.srv { init_sql = some sql } },
        record c { mem = m; fs = fs },
      )

  unfoldable pub opt_init : List ℕ → Line × Ctx → Outcome (Line × Ctx)
  opt_init arg (line, c) = or_failed (ngx.full_name (behind (codes "init=") arg)) >>= λ name.
      with_script (line, c) (file_read files p name c.mem c.fs)

  unfoldable pub opt_if : List ℕ → Line × Ctx → Outcome (Line × Ctx)
  opt_if arg (line, c) = or_failed (p.palloc 48 c.mem) >>= λ m.
      or_failed (ngx.compile_complex_value (behind (codes "if=") arg)) >>= λ filter.
      built (record line { srv = record line.srv { filter = some filter } }, record c { mem = m })

  -- One round of the loop over the options.
  unfoldable pub option : List ℕ → Line × Ctx → Outcome (Line × Ctx)
  unfolding has_prefix
  option arg (line, c) =
      if has_prefix arg (codes "buffer=")
      then (or_failed (opt_buffer ngx arg) >>= λ n. built (record line { size = n }, c))
      else if has_prefix arg (codes "max=")
      then (or_failed (opt_max ngx arg) >>= λ n. built (record line { max = n }, c))
      else if has_prefix arg (codes "flush=")
      then (or_failed (opt_flush ngx arg) >>= λ n. built (record line { flush = n }, c))
      else if has_prefix arg (codes "init=")
      then opt_init arg (line, c)
      else if has_prefix arg (codes "if=")
      then opt_if arg (line, c)
      else or_failed (opt_format arg c.main line.srv.fmt) >>= λ ref.
          built (record line { srv = record line.srv { fmt = some ref } }, c)

  unfoldable pub options : List (List ℕ) → Line × Ctx → Outcome (Line × Ctx)
  options [] lc = built lc
  options (arg ∷ args) lc = option arg lc >>= options args

  -- The step "If no format specified, default to combined": the format of the server.
  abbrev pub use_combined : Ctx → Outcome (FormatRef × Ctx)
  use_combined c =
      if c.main.combined_init
      then built (the_combined, c)
      else fmt_init_combined p ngx.variable_index c.mem >>= λ (fmt, m). built (
        the_combined,
        record c { mem = m; main = record c.main { combined = fmt; combined_init = true } },
      )

  abbrev pub choose_format : Option FormatRef → Ctx → Outcome (FormatRef × Ctx)
  choose_format none c = use_combined c
  choose_format (some the_combined) c = use_combined c
  choose_format (some (another fmt)) c = built (another fmt, c)

  abbrev pub database : List ℕ → FormatRef → Settings → MainConf → Db
  database path ref srv lmcf = record {
    conn = none;
    filename = path;
    fmt = to_fmt (pointee lmcf ref) beyond;
    init_sql = srv.init_sql;
  }

  abbrev pub zone_name : List ℕ → List ℕ → List ℕ
  zone_name fmt filename = codes "sqlitelog_" ++ fmt ++ codes "_" ++ filename

  abbrev pub with_zone : Ctx → Option ℕ × ngx.Cycle → Outcome (ℕ × Ctx)
  with_zone c (none, cycle) = failed
  with_zone c (some zone, cycle) = built (zone, record c { cycle = cycle })

  -- The name is written by ngx_sprintf to a buffer of the length that is computed first.
  unfoldable pub shm_zone : ℕ → List ℕ → List ℕ → Ctx → Outcome (ℕ × Ctx)
  shm_zone size fmt filename c =
      let name_len = 10 + length fmt + 1 + length filename in
      or_failed (p.pcalloc name_len c.mem) >>= λ m.
      if ltb name_len (length (zone_name fmt filename))
      then overflow
      else with_zone (record c { mem = m })
          (ngx.shared_memory_add (take name_len (zone_name fmt filename)) size c.cycle)

  -- The event of a buffer that is flushed.
  abbrev pub with_event : ℕ → Buf → Ctx → Outcome (Buf × Ctx)
  with_event flush buf c =
      if flush == 0
      then built (buf, c)
      else or_failed (p.palloc 24 c.mem) >>= λ m₁. or_failed (p.palloc 96 m₁) >>= λ m₂.
          built (record buf { flush = flush; event = some (stale m₁) }, record c { mem = m₂ })

  -- The step "Buffer".
  abbrev pub with_buffer : List ℕ → FormatRef → Line → Ctx → Outcome (Option (ℕ × Buf) × Ctx)
  with_buffer path ref line c =
      if line.size == 0
      then built (line.srv.buf, c)
      else shm_zone line.size (pointee c.main ref).name path c >>= λ (zone, c₁).
          or_failed (p.pcalloc 32 c₁.mem) >>= λ m.
          with_event line.flush (record { max = line.max; flush = 0; event = none })
            (record c₁ { mem = m })
          >>= λ (buf, c₂). built (some (zone, buf), c₂)

  -- From the step "Test" on.
  abbrev pub tested : List ℕ → FormatRef → Line → Ctx → Outcome (SrvConf × Ctx)
  tested path ref line c =
      let (rc_test, dbs) = db_test sq (database path ref line.srv c.main) c.dbs in
      if not (rc_test == Code.ok)
      then failed
      else with_buffer path ref line (record c { dbs = dbs }) >>= λ (buf, c₁).
          built
            (record { enabled = on; settings = record line.srv { fmt = some ref; buf = buf } }, c₁)

  -- With the path and the other arguments of the directive.
  unfoldable pub sqlitelog : List ℕ → List (List ℕ) → SrvConf × Ctx → Outcome (SrvConf × Ctx)
  sqlitelog value args (lscf, c) =
      if is_given lscf.settings.filename
      then failed
      else if ngx.strcasecmp_eq value (codes "off")
      then built (record lscf { enabled = off }, c)
      else if length value == 0
      then failed
      else or_failed (ngx.full_name value) >>= λ path.
          options args (
            record {
              size = 0;
              max = 0;
              flush = 0;
              srv = record lscf.settings { filename = some path };
            },
            c,
          )
          >>= λ (line, c₁). choose_format line.srv.fmt c₁ >>= λ (ref, c₂). tested path ref line c₂
