-- ===== src/Db/Row.antt =====
-- The row that an entry's strings make, as the loop of ngx_http_sqlitelog_db_try_insert in
-- src/ngx_http_sqlitelog_db.c binds them.
use ngx_sqlite_log.Base.{
  ℕ, zero, suc, ◌+◌, ◌≤◌, ◌≡◌, refl, ap, ◌∙◌, List, [], ◌∷◌, arith, length, ◌==◌, if◌then◌else◌,
}
use ngx_sqlite_log.Util.{Str}
use ngx_sqlite_log.Sqlite.Transactions.{Value, null, text_value, blob_value, values_from}
use ngx_sqlite_log.Db.{Bind, bind_text, bind_blob, Fmt, Db}

abbrev pub value : Bind → Str → Value
value bind_text = text_value
value bind_blob = blob_value

-- The row that an entry should become: column i binds the i-th string.
abbrev pub row_from : (ℕ → Bind) → ℕ → List Str → List Value
row_from binds i [] = []
row_from binds i (e ∷ es) = value (binds i) e ∷ row_from binds (i + 1) es

abbrev pub row : Db → List Str → List Value
row db elts = row_from db.fmt.binds 0 elts

-- The parameters after the loop, from those before.
abbrev pub overlay : (ℕ → Bind) → ℕ → List Str → (ℕ → Value) → ℕ → Value
overlay binds i [] f j = f j
overlay binds i (e ∷ es) f j =
    overlay binds (i + 1) es (λ k. if i + 1 == k then value (binds i) e else f k) j

pub overlay_below :
    (binds : ℕ → Bind) (i : ℕ) (es : List Str) (f : ℕ → Value) (j : ℕ)
    → j ≤ i
    → overlay binds i es f j ≡ f j
overlay_below binds i [] f j h = refl
overlay_below binds i (e ∷ es) f j h =
    overlay_below binds (i + 1) es (λ k. if i + 1 == k then value (binds i) e else f k) j
      (omega arith)
    ∙ ground arith

pub values_from-same :
    (i n : ℕ) (f g : ℕ → Value) → ((j : ℕ) → f j ≡ g j) → values_from i n f ≡ values_from i n g
values_from-same i zero f g h = refl
values_from-same i (suc n) f g h = rw (h i, values_from-same (suc i) n f g h)

pub values_from-overlay :
    (binds : ℕ → Bind) (i : ℕ) (es : List Str) (f : ℕ → Value)
    → values_from (suc i) (length es) (overlay binds i es f) ≡ row_from binds i es
values_from-overlay binds i [] f = refl
values_from-overlay binds i (e ∷ es) f =
    ap (λ v. v ∷ values_from (suc (suc i)) (length es) (overlay binds (i + 1) es g)) here
    ∙ ap (◌∷◌ (value (binds i) e)) (
        ap (λ k. values_from (suc k) (length es) (overlay binds (i + 1) es g)) next
        ∙ values_from-overlay binds (i + 1) es g)
  where
    g : ℕ → Value
    g k = if i + 1 == k then value (binds i) e else f k

    here : overlay binds (i + 1) es g (suc i) ≡ value (binds i) e
    here = overlay_below binds (i + 1) es g (suc i) (omega arith) ∙ ground arith

    next : suc i ≡ i + 1
    next = omega arith

pub overlay-same :
    (binds : ℕ → Bind) (i : ℕ) (es : List Str) (f g : ℕ → Value)
    → ((j : ℕ) → f j ≡ g j)
    → (j : ℕ) → overlay binds i es f j ≡ overlay binds i es g j
overlay-same binds i [] f g h j = h j
overlay-same binds i (e ∷ es) f g h j =
    overlay-same binds (i + 1) es _ _
      (λ k. ap (λ v. if i + 1 == k then value (binds i) e else v) (h k)) j

-- As many null values.
abbrev pub nulls : ℕ → List Value
nulls zero = []
nulls (suc n) = null ∷ nulls n

-- The row made of the strings that are bound and of nulls for the columns that are left.
abbrev pub fmt_row : Fmt → List Str → List Value
fmt_row fmt elts = values_from 1 fmt.ncols (overlay fmt.binds 0 elts (λ j. null))

values_from-null : (i n : ℕ) → values_from i n (λ j. null) ≡ nulls n
values_from-null i zero = refl
values_from-null i (suc n) = ap (◌∷◌ null) (values_from-null (suc i) n)

-- Of an entry with a string for each column its row is bound.
pub fmt_row-full :
    (db : Db) (elts : List Str) → length elts ≡ db.fmt.ncols → fmt_row db.fmt elts ≡ row db elts
fmt_row-full db elts h = rw (← h) (values_from-overlay db.fmt.binds 0 elts (λ j. null))

-- Of an entry with no string at all a row of nulls is bound.
pub fmt_row-empty : (db : Db) → fmt_row db.fmt [] ≡ nulls db.fmt.ncols
fmt_row-empty db = values_from-null 1 db.fmt.ncols
