-- ===== src/Op/Run/Exact.antt =====
-- Measuring and printing agree: what is printed after measuring has the measured length.
use ngx_sqlite_log.Base.{
  ℕ, ◌≡◌, refl, inl, inr, List, Option, none, some, arith, length, if◌then◌else◌, ==_refl,
  Option-cases,
}
use ngx_sqlite_log.Op.Escape.{escape_copy}
use ngx_sqlite_log.Op.Escape.Size.{length-escape_copy, escape_copy-plain}
use ngx_sqlite_log.Op.Request.{Request, Variable, Formats}
use ngx_sqlite_log.Op.Run.{
  Getlen, getlen, getlen_unescaped, getlen_pipe, getlen_time_local, getlen_time_iso8601,
  getlen_status, run, run_unescaped, call_getlen, call_run,
}

-- The text of a found variable.
abbrev pub found : Option Variable → Option (List ℕ)
found none = none
found (some v) = if v.not_found then none else some v.bytes

abbrev pub value_of : Request → ℕ → Option (List ℕ)
value_of r i = found (r.variables i)

-- The generic functions, one after the other as ngx_http_sqlitelog_log_entry calls them: a found
-- variable is printed escaped, whole, and in exactly as many bytes as were measured.
pub generic_exact :
    (f : Formats) (r : Request) (i : ℕ) (s : List ℕ)
    → value_of r i ≡ some s
    → let (n, r') = call_getlen getlen r i in
      (call_run f run r' i ≡ some (escape_copy s)) × (length (escape_copy s) ≡ n)
unfolding call_getlen call_run
generic_exact f r i s h = elim (Option-cases (r.variables i)) [
  | inl e ↦ absurd (ground arith)
  | inr (v, e) ↦ ground (
    arith,
    ==_refl i,
    length-escape_copy s,
    escape_copy-plain s,
    length-escape_copy v.bytes,
    escape_copy-plain v.bytes,
  )
]

-- The unescaped functions print a found variable as it is, in as many bytes as were measured.
pub unescaped_exact :
    (f : Formats) (r : Request) (i : ℕ) (s : List ℕ)
    → value_of r i ≡ some s
    → let (n, r') = call_getlen getlen_unescaped r i in
      (call_run f run_unescaped r' i ≡ some s) × (length s ≡ n)
unfolding call_getlen call_run
unescaped_exact f r i s h = elim (Option-cases (r.variables i)) [
  | inl e ↦ absurd (ground arith)
  | inr (v, e) ↦ ground (arith, ==_refl i)
]

-- A found variable is printed whole, and in exactly as many bytes as were measured before: by the
-- generic functions with its escapes, by the unescaped ones as it is.
pub measured_exact :
    (f : Formats) (r : Request) (i : ℕ) (s : List ℕ)
    → value_of r i ≡ some s
    → (let (n, r') = call_getlen getlen r i in
        (call_run f run r' i ≡ some (escape_copy s)) × (length (escape_copy s) ≡ n))
      × (let (n, r') = call_getlen getlen_unescaped r i in
          (call_run f run_unescaped r' i ≡ some s) × (length s ≡ n))
measured_exact f r i s h = (generic_exact f r i s h, unescaped_exact f r i s h)

-- A variable that is not found measures 0, under either function.
pub missing_getlen :
    (r : Request) (i : ℕ)
    → value_of r i ≡ none
    → ((call_getlen getlen r i).0 ≡ 0) × ((call_getlen getlen_unescaped r i).0 ≡ 0)
unfolding call_getlen
missing_getlen r i h = elim (Option-cases (r.variables i)) [
  | inl e ↦ ground arith
  | inr (v, e) ↦ ground arith
]

-- Measuring sets an escape flag and nothing else: every variable keeps its text.
pub value_of-getlen :
    (g : Getlen) (r : Request) (i j : ℕ) → value_of (call_getlen g r i).1 j ≡ value_of r j
unfolding call_getlen
value_of-getlen getlen r i j = elim (Option-cases (r.variables i)) [
  | inl e ↦ ground arith
  | inr (v, e) ↦ ground arith
]
value_of-getlen getlen_unescaped r i j = elim (Option-cases (r.variables i)) [
  | inl e ↦ ground arith
  | inr (v, e) ↦ ground arith
]
value_of-getlen getlen_pipe r i j = refl
value_of-getlen getlen_time_local r i j = refl
value_of-getlen getlen_time_iso8601 r i j = refl
value_of-getlen getlen_status r i j = refl
