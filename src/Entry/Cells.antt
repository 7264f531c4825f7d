-- ===== src/Entry/Cells.antt =====
-- The row that should be bound for a request, from the names and types of the columns.
use ngx_sqlite_log.Base.{
  ℕ, suc, ◌+◌, ◌-◌, ◌==◌, length, ◌≡◌, refl, sym, ap, ◌∙◌, Bool, true, false, List, [], ◌∷◌, map,
  Option, All, arith, codes, if◌then◌else◌,
}
use ngx_sqlite_log.Util.{Str, str_eq_cs}
use ngx_sqlite_log.Op.Request.{Request}
use ngx_sqlite_log.Sqlite.Transactions.{Value, null, text_value, blob_value, values_from}
use ngx_sqlite_log.Db.{Bind, bind_text, bind_blob}
use ngx_sqlite_log.Db.Row.{value, row_from, overlay, values_from-overlay, fmt_row}
use ngx_sqlite_log.Format.{Column, Format, bind_of, binds_of, to_fmt}
use ngx_sqlite_log.Format.Columns.{Compiled}
use ngx_sqlite_log.Entry.Named.{named_field}

-- The value that is bound for a column, from its string: a blob, a text, or null.
abbrev pub cell : Column → Str → Value
cell col s = if str_eq_cs col.type (codes "BLOB") then blob_value s else text_value s

-- The row that is bound, from the names and types of the columns.
abbrev pub cells : (List ℕ → Option ℕ) → Request → List Column → List Value
cells variable_index r cols = map (λ col. cell col (named_field variable_index r col)) cols

plus_zero : (i : ℕ) → i ≡ i + 0
plus_zero i = omega arith

zero_plus : (j : ℕ) → 0 + j ≡ j
zero_plus j = omega arith

plus_one : (i j : ℕ) → i + 1 + j ≡ i + (j + 1)
plus_one i j = omega arith

behind_first :
    (col : Column) (cols : List Column) (beyond : ℕ → Bind) (j : ℕ)
    → binds_of (col ∷ cols) beyond (j + 1) ≡ binds_of cols beyond j
behind_first col cols beyond j = rw (not_zero j) (ap (binds_of cols beyond) (plus_minus j))
  where
    not_zero : (j : ℕ) → j + 1 == 0 ≡ false
    not_zero j = ground arith

    plus_minus : (j : ℕ) → j + 1 - 1 ≡ j
    plus_minus j = omega arith

module _ (variable_index : List ℕ → Option ℕ) where
  bind_cell : (col : Column) (s : Str) → col.bind ≡ bind_of col.type → value col.bind s ≡ cell col s
  bind_cell col s h = ap (λ b. value b s) h ∙ go (str_eq_cs col.type (codes "BLOB"))
    where
      go :
          (b : Bool)
          → value (if b then bind_blob else bind_text) s
            ≡ (if b then blob_value s else text_value s)
      go true = refl
      go false = refl

  -- Columns at the front of a format bind by their types.
  cells-from :
      (cols : List Column) (binds : ℕ → Bind) (i : ℕ) (beyond : ℕ → Bind) (r : Request)
      → ((j : ℕ) → binds (i + j) ≡ binds_of cols beyond j)
      → All (Compiled variable_index) cols
      → row_from binds i (map (named_field variable_index r) cols) ≡ cells variable_index r cols
  cells-from [] binds i beyond r h c = refl
  cells-from (col ∷ cols) binds i beyond r h c =
      let v = named_field variable_index r col in
      ap (λ b. value b v ∷ row_from binds (i + 1) (map (named_field variable_index r) cols))
        (ap binds (plus_zero i) ∙ h 0)
      ∙ ap (λ x. x ∷ row_from binds (i + 1) (map (named_field variable_index r) cols))
          (bind_cell col v c.0.1)
      ∙ ap (◌∷◌ (cell col v)) (
          cells-from cols binds (i + 1) beyond r
            (λ j. ap binds (plus_one i j) ∙ h (j + 1) ∙ behind_first col cols beyond j) c.1)

  length-fields :
      (cols : List Column) (r : Request)
      → length (map (named_field variable_index r) cols) ≡ length cols
  length-fields [] r = refl
  length-fields (col ∷ cols) r = ap suc (length-fields cols r)

  -- The row that is bound, in a format of columns that bind by their types.
  pub fmt_row-cells :
      (fmt : Format) (beyond : ℕ → Bind) (r : Request)
      → All (Compiled variable_index) fmt.columns
      → fmt_row (to_fmt fmt beyond) (map (named_field variable_index r) fmt.columns)
        ≡ cells variable_index r fmt.columns
  fmt_row-cells fmt beyond r c =
      ap (λ n. values_from 1 n (overlay binds 0 entry (λ j. null)))
        (sym (length-fields fmt.columns r))
      ∙ values_from-overlay binds 0 entry (λ j. null)
      ∙ cells-from fmt.columns binds 0 beyond r (λ j. ap binds (zero_plus j)) c
    where
      binds : ℕ → Bind
      binds = binds_of fmt.columns beyond

      entry : List Str
      entry = map (named_field variable_index r) fmt.columns
