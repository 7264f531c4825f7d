-- ===== src/Conf/Main.antt =====
-- The main configuration: the log formats that sqlitelog_format defines, and the thread pool of
-- sqlitelog_async.
use ngx_sqlite_log.Base.{
  ℕ, suc, Bool, true, false, ◌&&◌, ◌||◌, not, List, [], ◌∷◌, ◌++◌, Option, none, some, length, leb,
  ◌==◌, if◌then◌else◌, codes,
}
use ngx_sqlite_log.Util.{Str, str_eq, str_eq_cs}
use ngx_sqlite_log.Memory.{Pool, Outcome, failed, built, ◌>>=◌, or_failed}
use ngx_sqlite_log.Format.{Format, is_variable, fmt_n_variables, fmt_init}

-- What the directives call in nginx. `none` is the error that is documented for each: NGX_ERROR
-- of the parsers, NULL of the others. `strcasecmp_eq` says that ngx_strcasecmp returns 0.
pub record Nginx : Type 1 where
  pub Cycle : Type 0
  pub pagesize : ℕ
  pub strcasecmp_eq : List ℕ → List ℕ → Bool
  pub atoi : List ℕ → Option ℕ
  pub parse_size : List ℕ → Option ℕ
  pub parse_time : List ℕ → Option ℕ
  pub full_name : List ℕ → Str
  pub compile_complex_value : List ℕ → Option ℕ
  pub shared_memory_add : List ℕ → ℕ → Cycle → Option ℕ × Cycle
  pub thread_pool_add : List ℕ → Cycle → Option ℕ × Cycle
  pub thread_pool_get : List ℕ → Cycle → Option ℕ
  pub variable_index : List ℕ → Option ℕ

-- ngx_http_sqlitelog_main_conf_t. The array of formats is `combined`, which is made first, and the
-- others behind it.
pub record MainConf : Type 0 where
  pub combined : Format
  pub others : List Format
  pub combined_init : Bool
  pub tp : Option ℕ

abbrev pub is_given {ℓ} : {A : Type ℓ} → Option A → Bool
is_given none = false
is_given (some a) = true

module _ (p : Pool) where
  -- 56 bytes for the configuration; its first format has but a name.
  unfoldable pub create_main_conf : p.State → Outcome (MainConf × p.State)
  create_main_conf m = do
    m₁ ← or_failed (p.pcalloc 56 m)
    m₂ ← or_failed (p.array_create 1 m₁)
    m₃ ← or_failed (p.array_push m₂)
    built (
      record {
        combined = record {
          name = codes "combined";
          columns = [];
          sql_create = [];
          sql_insert = [];
        };
        others = [];
        combined_init = false;
        tp = none;
      },
      m₃,
    )

-- A handler of nginx's log phase: this module's, or another one.
pub data PhaseHandler : Type 0 where
  sqlitelog_handler : PhaseHandler
  other_handler : ℕ → PhaseHandler

module _ (p : Pool) where
  -- ngx_http_sqlitelog_init, after the directives are read.
  unfoldable pub init : List PhaseHandler × p.State → Outcome (List PhaseHandler × p.State)
  init (handlers, m) =
      or_failed (p.array_push m) >>= λ m'. built (handlers ++ sqlitelog_handler ∷ [], m')

-- The loops of ngx_http_sqlitelog_format over the arguments and the formats.
unfoldable pub some_empty : List (List ℕ) → Bool
some_empty [] = false
some_empty (arg ∷ args) = length arg == 0 || some_empty args

unfoldable pub is_taken : List ℕ → List Format → Bool
unfolding str_eq
is_taken fmt_name [] = false
is_taken fmt_name (fmt ∷ fmts) = str_eq fmt_name fmt.name || is_taken fmt_name fmts

-- Two arguments that are no variables follow one another, from position i on; `before` is the
-- argument before.
unfoldable pub is_dangling : ℕ → List ℕ → List (List ℕ) → Bool
is_dangling i before [] = false
is_dangling i before (value ∷ args) =
    leb 2 i && not (is_variable value) && not (is_variable before) || is_dangling (suc i) value args

module _ (p : Pool) (ngx : Nginx) where
  -- The directive with its arguments, the first of which is the format's name.
  unfoldable pub format :
      List ℕ → List ℕ → List (List ℕ) → MainConf × p.State → Outcome (MainConf × p.State)
  unfolding str_eq_cs
  format directive fmt_name args (lmcf, m) =
      if lmcf.combined_init
      then failed
      else if some_empty (directive ∷ fmt_name ∷ args)
      then failed
      else if str_eq_cs fmt_name (codes "combined")
      then failed
      else if is_taken fmt_name (lmcf.combined ∷ lmcf.others)
      then failed
      else if fmt_n_variables (directive ∷ fmt_name ∷ args) == 0
      then failed
      else if is_dangling 1 directive (fmt_name ∷ args)
      then failed
      else or_failed (p.array_push m) >>= λ m₁.
          fmt_init p ngx.variable_index directive fmt_name args m₁ >>= λ (fmt, m₂).
          built (record lmcf { others = lmcf.others ++ fmt ∷ [] }, m₂)

module _ (ngx : Nginx) where
  abbrev pub with_pool : MainConf → Option ℕ × ngx.Cycle → Outcome (MainConf × ngx.Cycle)
  with_pool lmcf (none, c) = failed
  with_pool lmcf (some tp, c) = built (record lmcf { tp = some tp }, c)

  unfoldable pub async : List ℕ → MainConf × ngx.Cycle → Outcome (MainConf × ngx.Cycle)
  unfolding str_eq_cs
  async arg (lmcf, c) =
      if is_given lmcf.tp
      then failed
      else if str_eq_cs arg (codes "on")
      then with_pool lmcf (ngx.thread_pool_add (codes "default") c)
      else if str_eq_cs arg (codes "off")
      then built (lmcf, c)
      else with_pool lmcf (ngx.thread_pool_get arg c, c)
