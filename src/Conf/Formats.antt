-- ===== src/Conf/Formats.antt =====
-- The formats of the main configuration: what holds of them whatever directives come.
use ngx_sqlite_log.Base.{
  ℕ, ◌+◌, ◌*◌, ◌^◌, ◌≤◌, ◌<◌, ◌≡◌, refl, sym, Bool, true, false, List, [], ◌∷◌, ◌++◌, map, Option,
  arith, length, All, All-append, ◌==◌, if◌then◌else◌, codes, Bool-cases, inl, inr,
}
use mathlib.Core.Path.{subst}
use ngx_sqlite_log.Util.{str_eq, str_eq_cs}
use ngx_sqlite_log.Memory.{Pool, Outcome, failed, overflow, built, or_failed}
use ngx_sqlite_log.Sql.Insert.{insert_text}
use ngx_sqlite_log.Sql.Create.{create_text}
use ngx_sqlite_log.Format.{
  Format, col_def, n_variables_from, fmt_n_variables, fmt_init, fmt_init_combined, combined_columns,
}
use ngx_sqlite_log.Format.Answers.{Builds, >>=-Builds, or_failed-Builds, Anything}
use ngx_sqlite_log.Format.Columns.{Compiled, Formatted, fmt_init-Builds}
use ngx_sqlite_log.Conf.Main.{
  Nginx, MainConf, create_main_conf, some_empty, is_taken, is_dangling, format,
}

-- A format that entries can be stored in: a column or more, with the statements and operations that
-- are made for them.
abbrev pub FormatOk : (List ℕ → Option ℕ) → Format → Type 0
FormatOk variable_index f =
    (1 ≤ length f.columns)
    × (f.sql_create ≡ create_text f.name (map col_def f.columns))
    × (f.sql_insert ≡ insert_text f.name (length f.columns))
    × All (Compiled variable_index) f.columns

-- No format has the name of one before it.
abbrev pub Distinct : List Format → Type 0
Distinct [] = Unit {0}
Distinct (f ∷ fs) = All (λ g. str_eq g.name f.name ≡ false) fs × Distinct fs

pub record MainOk (variable_index : List ℕ → Option ℕ) (lmcf : MainConf) : Type 0 where
  pub combined_named : lmcf.combined.name ≡ codes "combined"
  pub combined_ok : lmcf.combined_init ≡ true → FormatOk variable_index lmcf.combined
  pub others_ok : All (FormatOk variable_index) lmcf.others
  pub distinct : Distinct (lmcf.combined ∷ lmcf.others)

-- A test that refuses.
pub refused-Builds :
    {A : Type 0} (P : A → Type 0) (b : Bool) (o : Outcome A)
    → (b ≡ false → Builds P o)
    → Builds P (if b then failed else o)
refused-Builds P true o h = tt
refused-Builds P false o h = h refl

-- A result that has one property has another that follows from it.
pub weaken-Builds :
    {A : Type 0} (P Q : A → Type 0) (o : Outcome A)
    → Builds P o
    → ((a : A) → P a → Q a)
    → Builds Q o
weaken-Builds P Q failed h k = tt
weaken-Builds P Q overflow h k = h
weaken-Builds P Q (built a) h k = k a h

Distinct-append :
    (fs : List Format) (n : Format)
    → Distinct fs
    → All (λ g. str_eq n.name g.name ≡ false) fs
    → Distinct (fs ++ n ∷ [])
Distinct-append [] n h k = (tt, tt)
Distinct-append (f ∷ fs) n h k = (
  All-append (λ g. str_eq g.name f.name ≡ false) fs (n ∷ []) h.0 (k.0, tt),
  Distinct-append fs n h.1 k.1,
)

pub is_taken_lem :
    (name : List ℕ) (fs : List Format)
    → is_taken name fs ≡ false
    → All (λ g. str_eq name g.name ≡ false) fs
unfolding is_taken
is_taken_lem name [] h = tt
is_taken_lem name (f ∷ fs) h = elim (Bool-cases (str_eq name f.name)) [
  | inl e ↦ absurd (ground (arith, e, h))
  | inr e ↦ (e, is_taken_lem name fs (ground (arith, e, h)))
]

Formatted-Ok :
    (p : Pool) (variable_index : List ℕ → Option ℕ) (name : List ℕ) (n : ℕ) (args : List (List ℕ))
    (f : Format) (m : p.State)
    → 1 ≤ n
    → Formatted p variable_index name n args (f, m)
    → FormatOk variable_index f
Formatted-Ok p variable_index name n args f m pos h = (rw h.1 pos, rw h.0 h.2, rw h.0 h.3, h.4)

module _ (p : Pool) (ngx : Nginx) where
  -- The main configuration that a worker starts from satisfies the invariant.
  pub create_main_conf-Ok :
      (m : p.State) → Builds (λ (lmcf, m'). MainOk ngx.variable_index lmcf) (create_main_conf p m)
  unfolding create_main_conf
  create_main_conf-Ok m =
      >>=-Builds Anything _ (or_failed (p.pcalloc 56 m)) _ (or_failed-Builds (p.pcalloc 56 m))
        λ m₁ h₁.
          >>=-Builds Anything _ (or_failed (p.array_create 1 m₁)) _
            (or_failed-Builds (p.array_create 1 m₁))
            λ m₂ h₂.
              >>=-Builds Anything _ (or_failed (p.array_push m₂)) _
                (or_failed-Builds (p.array_push m₂))
                λ m₃ h₃. record {
                  combined_named = refl;
                  combined_ok = λ e. absurd (ground arith);
                  others_ok = tt;
                  distinct = (tt, tt);
                }

  combined_count : fmt_n_variables ([] ∷ codes "combined" ∷ combined_columns) ≡ 8
  unfolding fmt_n_variables n_variables_from
  combined_count = refl

  abbrev pub Initialized : Format × p.State → Type 0
  Initialized (f, m) = (f.name ≡ codes "combined") × FormatOk ngx.variable_index f

  -- The predefined format, once it is initialized.
  pub fmt_init_combined-Ok :
      (m : p.State) → Builds Initialized (fmt_init_combined p ngx.variable_index m)
  unfolding fmt_init_combined
  fmt_init_combined-Ok m =
      let n = fmt_n_variables ([] ∷ codes "combined" ∷ combined_columns) in
      >>=-Builds Anything Initialized (or_failed (p.array_create 10 m)) _
        (or_failed-Builds (p.array_create 10 m))
        λ m' h.
          weaken-Builds (Formatted p ngx.variable_index (codes "combined") n combined_columns)
            Initialized (fmt_init p ngx.variable_index [] (codes "combined") combined_columns m')
            (fmt_init-Builds p ngx.variable_index [] (codes "combined") combined_columns m'
              (omega (arith, combined_count)) (omega (arith, combined_count)))
            λ (f, m₂) k. (
              k.0,
              Formatted-Ok p ngx.variable_index (codes "combined") n combined_columns f m₂
                  (omega (arith, combined_count)) k,
            )

  -- What the sqlitelog_format directive comes to.
  abbrev pub Defines : List ℕ → List ℕ → List (List ℕ) → MainConf → MainConf × p.State → Type 0
  Defines directive fmt_name args lmcf (lmcf', m) =
      MainOk ngx.variable_index lmcf'
      × (lmcf.combined_init ≡ false)
      × (fmt : Format) × (lmcf'.others ≡ lmcf.others ++ fmt ∷ [])
      × (fmt.name ≡ fmt_name)
      × (length fmt.columns ≡ fmt_n_variables (directive ∷ fmt_name ∷ args))
      × (lmcf'.combined ≡ lmcf.combined)

  -- Where the main configuration satisfies its invariant, and the name's length and twice the
  -- number of variables together stay below 2 ^ 63: a format directive that is accepted keeps the
  -- invariant, so that every format but an unused combined one has a column, the operations that
  -- are compiled for its columns, and their two statements, and no two have the same name. It adds
  -- exactly one format, at the end, with the name it gives and a column for each variable, and
  -- comes before the combined format is used. In no case is a byte written past a buffer.
  pub format_lem :
      (directive fmt_name : List ℕ) (args : List (List ℕ)) (lmcf : MainConf) (m : p.State)
      → MainOk ngx.variable_index lmcf
      → length fmt_name + fmt_n_variables (directive ∷ fmt_name ∷ args) * 2 < 2 ^ 63
      → Builds
          (Defines directive fmt_name args lmcf)
          (format p ngx directive fmt_name args (lmcf, m))
  unfolding format
  format_lem directive fmt_name args lmcf m v bound = refused-Builds P lmcf.combined_init _ λ early.
      refused-Builds P (some_empty (directive ∷ fmt_name ∷ args)) _ λ no_empty.
        refused-Builds P (str_eq_cs fmt_name (codes "combined")) _ λ unreserved.
          refused-Builds P (is_taken fmt_name (lmcf.combined ∷ lmcf.others)) _ λ free.
            refused-Builds P (n == 0) _ λ some_variable.
              refused-Builds P (is_dangling 1 directive (fmt_name ∷ args)) _ λ attached.
                >>=-Builds Anything P (or_failed (p.array_push m)) _
                  (or_failed-Builds (p.array_push m))
                  λ m₁ h.
                    >>=-Builds (Formatted p ngx.variable_index fmt_name n args) P
                      (fmt_init p ngx.variable_index directive fmt_name args m₁) _
                      (fmt_init-Builds p ngx.variable_index directive fmt_name args m₁
                        (ground (arith, some_variable)) bound)
                      λ (fmt, m₂) k.
                        added fmt m₂ early
                          (is_taken_lem fmt_name (lmcf.combined ∷ lmcf.others) free)
                          (ground (arith, some_variable)) k
    where
      n : ℕ
      n = fmt_n_variables (directive ∷ fmt_name ∷ args)

      P : MainConf × p.State → Type 0
      P = Defines directive fmt_name args lmcf

      added :
          (fmt : Format) (m₂ : p.State)
          → lmcf.combined_init ≡ false
          → All (λ g. str_eq fmt_name g.name ≡ false) (lmcf.combined ∷ lmcf.others)
          → 1 ≤ n
          → Formatted p ngx.variable_index fmt_name n args (fmt, m₂)
          → P (record lmcf { others = lmcf.others ++ fmt ∷ [] }, m₂)
      added fmt m₂ early free pos k = (
        record {
          combined_named = v.combined_named;
          combined_ok = v.combined_ok;
          others_ok =
              All-append (FormatOk ngx.variable_index) lmcf.others (fmt ∷ []) v.others_ok
                (Formatted-Ok p ngx.variable_index fmt_name n args fmt m₂ pos k, tt);
          distinct = Distinct-append (lmcf.combined ∷ lmcf.others) fmt v.distinct (
              subst (λ name. All (λ g. str_eq name g.name ≡ false) (lmcf.combined ∷ lmcf.others))
                (sym k.0) free);
        },
        early,
        fmt,
        refl,
        k.0,
        k.1,
        refl,
      )
