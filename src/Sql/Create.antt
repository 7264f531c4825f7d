-- ===== src/Sql/Create.antt =====
-- ngx_http_sqlitelog_sql_create_table against the text that it should build.
use ngx_sqlite_log.Base.{
  ℕ, ◌+◌, ◌≤◌, ◌≡◌, refl, ap, ◌∙◌, List, [], ◌∷◌, ◌++◌, arith, length, length-append, append_assoc,
  codes,
}
use ngx_sqlite_log.Memory.{Pool, Outcome, built, ◌>>=◌, or_failed}
use ngx_sqlite_log.Sql.{Buffer, put, puts, ColDef, columns_len, put_columns, create_table}
use ngx_sqlite_log.Sql.Buffers.{
  holding, holding-empty, put-holding, puts-holding, terminated-holding, contents-holding,
}

-- "name type, name type, …"
abbrev pub columns_text : List ColDef → List ℕ
columns_text [] = []
columns_text (c ∷ []) = c.name ++ b' ' ∷ c.type
columns_text (c ∷ d ∷ cs) = c.name ++ (b' ' ∷ (c.type ++ (codes ", " ++ columns_text (d ∷ cs))))

abbrev head : List ℕ → List ℕ
head table = (codes "CREATE TABLE IF NOT EXISTS " ++ table) ++ codes " ("

-- CREATE TABLE IF NOT EXISTS table (name type, …)
abbrev pub create_text : List ℕ → List ColDef → List ℕ
create_text table cols = head table ++ (columns_text cols ++ b')' ∷ [])

length-columns_text : (cols : List ColDef) → length (columns_text cols) ≡ columns_len cols
unfolding columns_len
length-columns_text [] = refl
length-columns_text (c ∷ []) = omega (arith, length-append c.name (b' ' ∷ c.type))
length-columns_text (c ∷ d ∷ cs) = omega (
  arith,
  length-append c.name (b' ' ∷ (c.type ++ (codes ", " ++ columns_text (d ∷ cs)))),
  length-append c.type (codes ", " ++ columns_text (d ∷ cs)),
  length-columns_text (d ∷ cs),
)

-- Name, blank and type of one column.
write_column :
    (n : ℕ) (s : List ℕ) (c : ColDef) (k : Buffer → Outcome Buffer)
    → length s + (length c.name + 1 + length c.type) ≤ n
    → (puts c.name (holding n s) >>= λ b₁. put b' ' b₁ >>= λ b₂. puts c.type b₂ >>= k)
      ≡ k (holding n (s ++ (c.name ++ b' ' ∷ c.type)))
write_column n s c k h =
    rw
      (
        puts-holding n s c.name (omega arith),
        put-holding n b' ' (s ++ c.name) (omega (arith, length-append s c.name)),
        puts-holding n ((s ++ c.name) ++ b' ' ∷ []) c.type
            (omega (arith, length-append s c.name, length-append (s ++ c.name) (b' ' ∷ []))),
      )
      (ap (λ z. k (holding n z)) (simp append_assoc))

put_columns-holding :
    (n : ℕ) (s : List ℕ) (c : ColDef) (cs : List ColDef)
    → length s + columns_len (c ∷ cs) + 1 ≤ n
    → put_columns (c ∷ cs) (holding n s)
      ≡ built (holding n (s ++ (columns_text (c ∷ cs) ++ b')' ∷ [])))
unfolding put_columns columns_len
put_columns-holding n s c [] h =
    write_column n s c (put b')') (omega arith)
    ∙ put-holding n b')' (s ++ (c.name ++ b' ' ∷ c.type)) (
        omega
          (arith, length-append s (c.name ++ b' ' ∷ c.type), length-append c.name (b' ' ∷ c.type)))
    ∙ ap (λ z. built (holding n z)) (append_assoc s (c.name ++ b' ' ∷ c.type) (b')' ∷ []))
put_columns-holding n s c (d ∷ cs) h =
    write_column n s c (λ b₃. puts (codes ", ") b₃ >>= put_columns (d ∷ cs)) (omega arith)
    ∙ rw (puts-holding n (s ++ (c.name ++ b' ' ∷ c.type)) (codes ", ") (omega (arith, len))) (
        put_columns-holding n ((s ++ (c.name ++ b' ' ∷ c.type)) ++ codes ", ") d cs
          (omega (arith, len, length-append (s ++ (c.name ++ b' ' ∷ c.type)) (codes ", ")))
        ∙ ap (λ z. built (holding n z)) (simp append_assoc))
  where
    len : length (s ++ (c.name ++ b' ' ∷ c.type)) ≡ length s + (length c.name + 1 + length c.type)
    len =
        omega
          (arith, length-append s (c.name ++ b' ' ∷ c.type), length-append c.name (b' ' ∷ c.type))

length-head : (table : List ℕ) → length (head table) ≡ length table + 29
length-head table = omega (arith, length-append table (codes " ("))

length-create_text :
    (table : List ℕ) (cols : List ColDef)
    → length (create_text table cols) ≡ 27 + length table + 2 + columns_len cols + 1
length-create_text table cols = omega (
  arith,
  length-append (head table) (columns_text cols ++ b')' ∷ []),
  length-append (columns_text cols) (b')' ∷ []),
  length-columns_text cols,
  length-head table,
)

-- For one column or more the function builds exactly CREATE TABLE IF NOT EXISTS table (name type,
-- …), in a buffer of that length and one more byte; it fails only where that buffer cannot be
-- allocated.
pub create_table_lem :
    (p : Pool) (table : List ℕ) (c : ColDef) (cs : List ColDef) (m : p.State)
    → create_table p table (c ∷ cs) m ≡ (
        or_failed (p.pcalloc (length (create_text table (c ∷ cs)) + 1) m) >>= λ m'.
        built (create_text table (c ∷ cs), m'))
unfolding create_table
create_table_lem p table c cs m = rw (
  ← holding-empty (L + 1),
  puts-holding (L + 1) [] (codes "CREATE TABLE IF NOT EXISTS ") (omega arith),
  puts-holding (L + 1) (codes "CREATE TABLE IF NOT EXISTS ") table (omega arith),
  puts-holding (L + 1) (codes "CREATE TABLE IF NOT EXISTS " ++ table) (codes " (")
      (omega (arith, length-head table)),
  terminated-holding (L + 1) (head table) (omega (arith, length-head table)),
  put_columns-holding (L + 1) (head table) c cs (omega (arith, length-head table)),
  ← length-create_text table (c ∷ cs),
  contents-holding (create_text table (c ∷ cs)),
)
  where
    L : ℕ
    L = 27 + length table + 2 + columns_len (c ∷ cs) + 1
