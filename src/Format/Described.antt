-- ===== src/Format/Described.antt =====
-- The columns that the arguments of a format's directive describe, each argument read with the one
-- behind it.
use ngx_sqlite_log.Base.{
  ℕ, suc, ◌≡◌, refl, ap, ◌∙◌, Bool, true, false, List, [], ◌∷◌, ◌++◌, map, Option, none, some,
  arith, ◌==◌, if◌then◌else◌, codes, length, leb, not, ◌&&◌,
}
use ngx_sqlite_log.Format.{
  is_variable, toupper, type_or_text, fmt_col_type, column_type, without_dollar,
}

abbrev next_of : List (List ℕ) → Option (List ℕ)
next_of [] = none
next_of (arg ∷ args) = some arg

-- Each argument with the one behind it.
abbrev with_next : List (List ℕ) → List (List ℕ × Option (List ℕ))
with_next [] = []
with_next (arg ∷ args) = (arg, next_of args) ∷ with_next args

-- A type that is given: what is behind a variable, in capitals, unless it is another variable or
-- empty.
abbrev given_type : Option (List ℕ) → Option (List ℕ)
given_type none = none
given_type (some []) = none
given_type (some (c ∷ s)) = if c == b'$' then none else some (map toupper (c ∷ s))

-- The type that is given, or that of the table of variables, or TEXT.
abbrev chosen_type : Option (List ℕ) → Option (List ℕ) → List ℕ
chosen_type (some type) implicit = type
chosen_type none (some type) = type
chosen_type none none = codes "TEXT"

-- A variable is a column, named without its '$'; any other argument is none.
abbrev column_from : List ℕ × Option (List ℕ) → List (List ℕ × List ℕ)
column_from ([], next) = []
column_from (c ∷ name, next) =
    if c == b'$' then (name, chosen_type (given_type next) (fmt_col_type name)) ∷ [] else []

abbrev all_of : List (List (List ℕ × List ℕ)) → List (List ℕ × List ℕ)
all_of [] = []
all_of (cols ∷ rest) = cols ++ all_of rest

-- The names and types of the columns.
abbrev pub described : List (List ℕ) → List (List ℕ × List ℕ)
described args = all_of (map column_from (with_next args))

implicit : (o : Option (List ℕ)) → type_or_text o ≡ chosen_type none o
implicit none = refl
implicit (some type) = refl

some_byte : (n : ℕ) (b : Bool) → leb 1 (suc n) && not b ≡ not b
some_byte n b = ground arith

given :
    (b : Bool) (type : List ℕ) (o : Option (List ℕ))
    → (if not b then type else type_or_text o) ≡ chosen_type (if b then none else some type) o
given true type o = implicit o
given false type o = refl

column_type_lem :
    (name : List ℕ) (args : List (List ℕ))
    → column_type name args ≡ chosen_type (given_type (next_of args)) (fmt_col_type name)
unfolding column_type
column_type_lem name [] = implicit (fmt_col_type name)
column_type_lem name ([] ∷ args) = implicit (fmt_col_type name)
column_type_lem name ((c ∷ s) ∷ args) =
    ap (λ b. if b then map toupper (c ∷ s) else type_or_text (fmt_col_type name))
      (some_byte (length s) (c == b'$'))
    ∙ given (c == b'$') (map toupper (c ∷ s)) (fmt_col_type name)

-- A variable describes the column that is made of it.
pub described-variable :
    (value : List ℕ) (args : List (List ℕ))
    → is_variable value ≡ true
    → described (value ∷ args)
      ≡ (without_dollar value, column_type (without_dollar value) args) ∷ described args
described-variable [] args h = absurd (ground (arith, h))
described-variable (c ∷ name) args h = rw (h, column_type_lem name args) refl

-- Any other argument describes none.
pub described-other :
    (value : List ℕ) (args : List (List ℕ))
    → is_variable value ≡ false
    → described (value ∷ args) ≡ described args
described-other [] args h = refl
described-other (c ∷ name) args h = rw h refl
