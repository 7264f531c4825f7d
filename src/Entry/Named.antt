-- ===== src/Entry/Named.antt =====
-- The row that a request should leave, from the names and types of the columns alone.
use mathlib.Core.Path.{subst}
use ngx_sqlite_log.Base.{
  ℕ, ◌≡◌, refl, sym, ap, ◌∙◌, inl, inr, ◌⊎◌, Bool, true, false, List, [], ◌∷◌, map, Option, none,
  some, All, arith, codes, if◌then◌else◌, Option-cases,
}
use ngx_sqlite_log.Util.{Str, str_eq_cs}
use ngx_sqlite_log.Op.Escape.{escape_copy}
use ngx_sqlite_log.Op.Request.{Request}
use ngx_sqlite_log.Op.Run.{Op, Getlen, Run}
use ngx_sqlite_log.Op.Run.Exact.{value_of}
use ngx_sqlite_log.Op.Compile.{Var, find_var, vars, functions, compile}
use ngx_sqlite_log.Entry.Shape.{OwnText, escaped, raw, text, clip, stored, AllOwn, expected}
use ngx_sqlite_log.Format.{Column}
use ngx_sqlite_log.Format.Columns.{Compiled}

-- A column of type BLOB, or of a variable that has no functions of its own.
abbrev pub Plain : Column → Type 0
Plain col = (find_var vars col.name ≡ none) ⊎ (str_eq_cs col.type (codes "BLOB") ≡ true)

-- A BLOB is stored as it is, anything else escaped.
abbrev pub printed : List ℕ → List ℕ → List ℕ
printed type s = if str_eq_cs type (codes "BLOB") then s else escape_copy s

abbrev pub stored_as : List ℕ → Option (List ℕ) → Str
stored_as type none = none
stored_as type (some s) = clip (printed type s)

abbrev value_at : Request → Option ℕ → Option (List ℕ)
value_at r none = none
value_at r (some i) = value_of r i

-- NULL where the request has no such variable or an empty one, else the first 4096 bytes of what is
-- stored of its value.
abbrev pub named_field : (List ℕ → Option ℕ) → Request → Column → Str
named_field variable_index r col = stored_as col.type (value_at r (variable_index col.name))

-- The operations of columns.
abbrev pub ops_of : List Column → List Op
ops_of cols = map (λ (col : Column). col.op) cols

-- Functions that print a variable's own text, and which text that is.
abbrev Prints : Bool → Getlen × Run → Type 0
Prints blob (g, p) =
    (t : OwnText g p) × ((s : List ℕ) → text t s ≡ (if blob then s else escape_copy s))

functions-Prints :
    (blob : Bool) (v : Option Var) → (v ≡ none) ⊎ (blob ≡ true) → Prints blob (functions blob v)
functions-Prints true v h = (raw, λ s. refl)
functions-Prints false none h = (escaped, λ s. refl)
functions-Prints false (some v) (inl h) = absurd (ground arith)
functions-Prints false (some v) (inr h) = absurd (ground arith)

stored-printed :
    {g : Getlen} {p : Run} (t : OwnText g p) (type : List ℕ) (o : Option (List ℕ))
    → ((s : List ℕ) → text t s ≡ printed type s)
    → stored t o ≡ stored_as type o
stored-printed t type none h = refl
stored-printed t type (some s) h = ap clip (h s)

module _ (variable_index : List ℕ → Option ℕ) where
  -- The operation stores what the column's name and type say.
  abbrev Own : List ℕ → List ℕ → Op → Type 0
  Own name type op =
      (t : OwnText op.measure op.print) × ((r : Request)
        → stored t (value_of r op.index) ≡ stored_as type (value_at r (variable_index name)))

  abbrev op_or : Op → Option Op → Op
  op_or op none = op
  op_or op (some op') = op'

  compiled_op :
      (name type : List ℕ) (i : ℕ)
      → variable_index name ≡ some i
      → let (g, p) = functions (str_eq_cs type (codes "BLOB")) (find_var vars name) in
        compile variable_index name type ≡ some (record { measure = g; print = p; index = i })
  unfolding compile
  compiled_op name type i h = rw (h, compile) refl

  not_compiled :
      (name type : List ℕ) (op : Op)
      → variable_index name ≡ none
      → compile variable_index name type ≡ some op
      → ⊥
  unfolding compile
  not_compiled name type op h e = ground (arith, h, e)

  Compiled-Own :
      (col : Column) → Compiled variable_index col → Plain col → Own col.name col.type col.op
  Compiled-Own col (e, b) plain = elim (Option-cases (variable_index col.name)) [
    | inl h ↦ absurd (not_compiled col.name col.type col.op h e)
    | inr (i, h) ↦
        let (t, k) =
          functions-Prints (str_eq_cs col.type (codes "BLOB")) (find_var vars col.name) plain in
        let (g, p) = functions (str_eq_cs col.type (codes "BLOB")) (find_var vars col.name) in
        let op : Op = record { measure = g; print = p; index = i } in
        subst (Own col.name col.type) (ap (op_or op) (sym (compiled_op col.name col.type i h) ∙ e))
          (
            t,
            λ r.
                stored-printed t col.type (value_of r i) k
                ∙ ap (λ o. stored_as col.type (value_at r o)) (sym h),
          )
  ]

  -- Columns of this kind store exactly the values of the variables that they are named after.
  pub columns-Named :
      (cols : List Column)
      → All (Compiled variable_index) cols
      → All Plain cols
      → (t : AllOwn (ops_of cols)) × ((r : Request)
          → expected (ops_of cols) t r ≡ map (named_field variable_index r) cols)
  columns-Named [] c plain = (tt, λ r. refl)
  columns-Named (col ∷ cols) c plain =
      let (t, h) = Compiled-Own col c.0 plain.0 in
      let (ts, hs) = columns-Named cols c.1 plain.1 in
      (
        (t, ts),
        λ r.
            ap (λ x. x ∷ expected (ops_of cols) ts r) (h r)
            ∙ ap (◌∷◌ (named_field variable_index r col)) (hs r),
      )
