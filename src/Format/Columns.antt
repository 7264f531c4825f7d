-- ===== src/Format/Columns.antt =====
-- What a format's directive yields: a column for each variable, and the two statements of exactly
-- these columns.
use ngx_sqlite_log.Base.{
  ℕ, zero, suc, ◌+◌, ◌*◌, ◌^◌, ◌≤◌, ◌<◌, ◌≡◌, refl, sym, ap, ◌∙◌, inl, inr, ◌⊎◌, Option-cases, Bool,
  true, false, ◌&&◌, List, [], ◌∷◌, map, Option, none, some, arith, length, All, leb, if◌then◌else◌,
  Bool-cases,
}
use ngx_sqlite_log.Memory.{Pool, built, ◌>>=◌, or_failed}
use ngx_sqlite_log.Op.Compile.{compile}
use ngx_sqlite_log.Sql.{create_table, insert}
use ngx_sqlite_log.Sql.Insert.{insert_text, insert_lem}
use ngx_sqlite_log.Sql.Create.{create_text, create_table_lem}
use mathlib.Core.Path.{ap₂}
use ngx_sqlite_log.Format.Answers.{
  Answers, >>=-Answers, some-Answers, RunsOut, SomeUnknown, Builds, Answers-Builds,
}
use ngx_sqlite_log.Format.Described.{described, described-variable, described-other}
use ngx_sqlite_log.Format.{
  is_variable, n_variables_from, fmt_n_variables, column_type, Column, bind_of, Format, col_def,
  without_dollar, col_init, columns_of, fmt_init,
}

skip : (b : Bool) (n : ℕ) → (if b && false then 1 else 0) + n ≡ n
skip b n = ground arith

take_one : (i n : ℕ) → 2 ≤ i → (if leb 2 i && true then 1 else 0) + n ≡ suc n
take_one i n h = ground arith

-- A column's operation is the compiled one of its name and type, and its bind function is that of
-- its type.
abbrev pub Compiled : (List ℕ → Option ℕ) → Column → Type 0
Compiled variable_index col =
    (compile variable_index col.name col.type ≡ some col.op) × (col.bind ≡ bind_of col.type)

compile_unknown :
    (variable_index : List ℕ → Option ℕ) (name type : List ℕ)
    → compile variable_index name type ≡ none
    → variable_index name ≡ none
unfolding compile
compile_unknown variable_index name type h = elim (Option-cases (variable_index name)) [
  | inl e ↦ e
  | inr (i, e) ↦ absurd (ground (arith, h, e))
]

-- Why there is no format of these columns: nginx runs out of memory, or knows no such variable.
abbrev pub Refused : Pool → (List ℕ → Option ℕ) → List (List ℕ × List ℕ) → Type 0
Refused p variable_index cols = RunsOut p ⊎ SomeUnknown variable_index cols

later :
    (p : Pool) (variable_index : List ℕ → Option ℕ) (col : List ℕ × List ℕ)
    (cols : List (List ℕ × List ℕ))
    → Refused p variable_index cols
    → Refused p variable_index (col ∷ cols)
later p variable_index col cols (inl h) = inl h
later p variable_index col cols (inr h) = inr (inr h)

abbrev pub named : Column → List ℕ × List ℕ
named col = (col.name, col.type)

module _ (p : Pool) (variable_index : List ℕ → Option ℕ) where
  -- A column of this name and type.
  abbrev Made : List ℕ → List ℕ → Column × p.State → Type 0
  Made name type (col, m) = Compiled variable_index col × (named col ≡ (name, type))

  col_init-Made :
      (name type : List ℕ) (cols : List (List ℕ × List ℕ)) (m : p.State)
      → Answers
          (Refused p variable_index ((name, type) ∷ cols))
          (Made name type)
          (col_init p variable_index name type m)
  unfolding col_init
  col_init-Made name type cols m =
      some-Answers (Made name type) (p.palloc 24 m) _ (λ out. inl (m, inr (24, inr (inl out))))
        λ m' h.
          some-Answers (Made name type) (compile variable_index name type) _
            (λ out. inr (inl (compile_unknown variable_index name type out)))
            λ op k. ((k, refl), refl)

  abbrev Counts : ℕ → List (List ℕ × List ℕ) → List Column × p.State → Type 0
  Counts n said (cols, m) =
      (length cols ≡ n) × All (Compiled variable_index) cols × (map named cols ≡ said)

  with_first :
      (n : ℕ) (name type : List ℕ) (args : List (List ℕ)) (m : p.State)
      → ((m₂ : p.State)
          → Answers
              (Refused p variable_index (described args))
              (Counts n (described args))
              (columns_of p variable_index args m₂))
      → Answers
          (Refused p variable_index ((name, type) ∷ described args))
          (Counts (suc n) ((name, type) ∷ described args))
          (or_failed (p.array_push m) >>= λ m₁.
            col_init p variable_index name type m₁ >>= λ (col, m₂).
            columns_of p variable_index args m₂ >>= λ (cols, m₃). built (col ∷ cols, m₃))
  with_first n name type args m rest =
      let Q = Counts (suc n) ((name, type) ∷ described args) in
      some-Answers Q (p.array_push m) _ (λ out. inl (m, inl out))
        λ m₁ u.
          >>=-Answers (Made name type) Q (col_init p variable_index name type m₁) _
            (col_init-Made name type (described args) m₁) (λ why. why)
            λ (col, m₂) v.
              >>=-Answers (Counts n (described args)) Q (columns_of p variable_index args m₂) _
                (rest m₂) (later p variable_index (name, type) (described args))
                λ (cols, m₃) k. (ap suc k.0, (v.0, k.1), ap₂ ◌∷◌ v.1 k.2)

  columns_of-Answers :
      (i : ℕ) (args : List (List ℕ)) (m : p.State)
      → 2 ≤ i
      → Answers
          (Refused p variable_index (described args))
          (Counts (n_variables_from i args) (described args))
          (columns_of p variable_index args m)
  unfolding n_variables_from columns_of
  columns_of-Answers i [] m h = (refl, tt, refl)
  columns_of-Answers i (value ∷ args) m h = elim (Bool-cases (is_variable value)) [
    | inl e ↦
        rw
          (
            described-variable value args e,
            columns_of,
            e,
            take_one i (n_variables_from (suc i) args) h,
          )
          (with_first (n_variables_from (suc i) args) (without_dollar value)
            (column_type (without_dollar value) args) args m
            λ m₂. columns_of-Answers (suc i) args m₂ (omega arith))
    | inr e ↦
        rw
          (
            described-other value args e,
            columns_of,
            e,
            skip (leb 2 i) (n_variables_from (suc i) args),
          )
          (columns_of-Answers (suc i) args m (omega arith))
  ]

  -- A format of this name, with so many columns, from these arguments.
  abbrev pub Formatted : List ℕ → ℕ → List (List ℕ) → Format × p.State → Type 0
  Formatted table_name n args (f, m) =
      (f.name ≡ table_name)
      × (length f.columns ≡ n)
      × (f.sql_create ≡ create_text table_name (map col_def f.columns))
      × (f.sql_insert ≡ insert_text table_name (length f.columns))
      × All (Compiled variable_index) f.columns
      × (map named f.columns ≡ described args)

  abbrev Texts : List ℕ → List ℕ × p.State → Type 0
  Texts text (sql, m) = sql ≡ text

  exactly :
      (size : ℕ) (text : List ℕ) (m : p.State)
      → Answers (RunsOut p) (Texts text) (or_failed (p.pcalloc size m) >>= λ m'. built (text, m'))
  exactly size text m =
      some-Answers (Texts text) (p.pcalloc size m) _ (λ out. (m, inr (size, inr (inr out))))
        λ m' h. refl

  create-Texts :
      (table_name : List ℕ) (cols : List Column) (m : p.State)
      → 1 ≤ length cols
      → Answers
          (RunsOut p)
          (Texts (create_text table_name (map col_def cols)))
          (create_table p table_name (map col_def cols) m)
  create-Texts table_name [] m h = absurd (omega arith)
  create-Texts table_name (c ∷ cs) m h =
      rw (create_table_lem p table_name (col_def c) (map col_def cs) m)
        (exactly _ (create_text table_name (map col_def (c ∷ cs))) m)

  insert-Texts :
      (table_name : List ℕ) (n : ℕ) (m : p.State)
      → 1 ≤ n
      → length table_name + n * 2 < 2 ^ 63
      → Answers (RunsOut p) (Texts (insert_text table_name n)) (insert p table_name n m)
  insert-Texts table_name zero m h k = absurd (omega arith)
  insert-Texts table_name (suc n) m h k =
      rw (insert_lem p table_name n m (omega arith)) (exactly _ (insert_text table_name (suc n)) m)

  counted :
      (directive table_name : List ℕ) (args : List (List ℕ))
      → fmt_n_variables (directive ∷ table_name ∷ args) ≡ n_variables_from 2 args
  unfolding fmt_n_variables n_variables_from
  counted directive table_name args = omega arith

  -- With at least one variable among its arguments, and a table name whose length and twice the
  -- number of variables together stay below 2 ^ 63: a format is made, with one column for each
  -- variable, in order, named like it without the '$'; a column's type is the argument behind the
  -- variable in capitals, if there is one that is not empty and no variable, or else the type that
  -- the module's table has for the variable, or else TEXT; each column has the operation that is
  -- compiled for its name and type and the bind function of its type; the CREATE TABLE names
  -- exactly these columns, and the INSERT has one mark for each. If no format is made, then there
  -- is a state in which nginx's pool returns NULL, or nginx knows no variable of a column's name.
  -- In no case is a byte written past a buffer.
  pub fmt_init_lem :
      (directive table_name : List ℕ) (args : List (List ℕ)) (m : p.State)
      → 1 ≤ fmt_n_variables (directive ∷ table_name ∷ args)
      → length table_name + fmt_n_variables (directive ∷ table_name ∷ args) * 2 < 2 ^ 63
      → Answers
          (Refused p variable_index (described args))
          (Formatted table_name (fmt_n_variables (directive ∷ table_name ∷ args)) args)
          (fmt_init p variable_index directive table_name args m)
  unfolding fmt_init
  fmt_init_lem directive table_name args m pos bound =
      let n = fmt_n_variables (directive ∷ table_name ∷ args) in
      let F = Formatted table_name n args in
      some-Answers F (p.array_create n m) _ (λ out. inl (m, inr (n, inl out)))
        λ m₁ u.
          >>=-Answers (Counts n (described args)) F (columns_of p variable_index args m₁) _
            (rw (counted directive table_name args) (columns_of-Answers 2 args m₁ (omega arith)))
            (λ why. why)
            λ (cols, m₂) c.
              >>=-Answers (Texts (create_text table_name (map col_def cols))) F
                (create_table p table_name (map col_def cols) m₂) _
                (create-Texts table_name cols m₂ (rw c.0 pos)) inl
                λ (sql_create, m₃) d.
                  >>=-Answers (Texts (insert_text table_name n)) F (insert p table_name n m₃) _
                    (insert-Texts table_name n m₃ pos bound) inl
                    λ (sql_insert, m₄) e.
                      (refl, c.0, d, e ∙ ap (insert_text table_name) (sym c.0), c.1, c.2)

  pub fmt_init-Builds :
      (directive table_name : List ℕ) (args : List (List ℕ)) (m : p.State)
      → 1 ≤ fmt_n_variables (directive ∷ table_name ∷ args)
      → length table_name + fmt_n_variables (directive ∷ table_name ∷ args) * 2 < 2 ^ 63
      → Builds
          (Formatted table_name (fmt_n_variables (directive ∷ table_name ∷ args)) args)
          (fmt_init p variable_index directive table_name args m)
  fmt_init-Builds directive table_name args m pos bound =
      Answers-Builds (Refused p variable_index (described args))
        (Formatted table_name (fmt_n_variables (directive ∷ table_name ∷ args)) args)
        (fmt_init p variable_index directive table_name args m)
        (fmt_init_lem directive table_name args m pos bound)
