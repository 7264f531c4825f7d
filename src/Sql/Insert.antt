-- ===== src/Sql/Insert.antt =====
-- ngx_http_sqlitelog_sql_insert against the text that it should build.
use ngx_sqlite_log.Base.{
  ℕ, zero, suc, ◌+◌, ◌-◌, ◌*◌, ◌%◌, ◌^◌, ◌≤◌, ◌<◌, ◌≡◌, refl, ap, ◌∙◌, List, [], ◌∷◌, ◌++◌, some,
  arith, length, length-append, append-nil, append_assoc, codes,
}
use ngx_sqlite_log.Memory.{Pool, overflow, built, ◌>>=◌, or_failed}
use ngx_sqlite_log.Sql.{put_marks, insert, terminated}
use ngx_sqlite_log.Sql.Buffers.{
  holding, last-holding, length-written, holding-empty, put-holding, puts-holding,
  terminated-holding, terminated_full, contents-holding,
}

abbrev pub more_marks : ℕ → List ℕ
more_marks zero = []
more_marks (suc n) = b',' ∷ b'?' ∷ more_marks n

-- "?,?,…,?" with n marks.
abbrev pub marks : ℕ → List ℕ
marks zero = []
marks (suc n) = b'?' ∷ more_marks n

-- INSERT INTO table VALUES (?,?,…,?)
abbrev pub insert_text : List ℕ → ℕ → List ℕ
insert_text table n =
    ((codes "INSERT INTO " ++ table) ++ codes " VALUES (") ++ (marks n ++ b')' ∷ [])

length-more_marks : (n : ℕ) → length (more_marks n) ≡ n * 2
length-more_marks zero = refl
length-more_marks (suc n) = omega (arith, length-more_marks n)

put_marks-holding :
    (n k : ℕ) (s : List ℕ)
    → length s + 1 + k * 2 ≤ n
    → put_marks (k * 2) (holding n (s ++ b'?' ∷ []))
      ≡ built (holding n ((s ++ b'?' ∷ []) ++ more_marks k))
unfolding put_marks
put_marks-holding n zero s h = rw append-nil
put_marks-holding n (suc k) s h =
    rw
      (
        twice,
        last-holding n b'?' s,
        put-holding n b',' (s ++ b'?' ∷ []) (omega (arith, len₁)),
        last-holding n b',' (s ++ b'?' ∷ []),
        put-holding n b'?' ((s ++ b'?' ∷ []) ++ b',' ∷ []) (omega (arith, len₁, len₂)),
      )
      (put_marks-holding n k ((s ++ b'?' ∷ []) ++ b',' ∷ []) (omega (arith, len₁, len₂))
        ∙ ap (λ z. built (holding n z)) regroup)
  where
    twice : suc k * 2 ≡ suc (suc (k * 2))
    twice = omega arith

    len₁ : length (s ++ b'?' ∷ []) ≡ length s + 1
    len₁ = length-append s (b'?' ∷ [])

    len₂ : length ((s ++ b'?' ∷ []) ++ b',' ∷ []) ≡ length (s ++ b'?' ∷ []) + 1
    len₂ = length-append (s ++ b'?' ∷ []) (b',' ∷ [])

    regroup :
        (((s ++ b'?' ∷ []) ++ b',' ∷ []) ++ b'?' ∷ []) ++ more_marks k
        ≡ (s ++ b'?' ∷ []) ++ b',' ∷ b'?' ∷ more_marks k
    regroup = simp append_assoc

-- The length that the function computes, where `n - 1` does not wrap around.
insert_len :
    (t k : ℕ)
    → t + k * 2 < 2 ^ 63
    → (12 + t + 9 + suc k + (suc k + 2 ^ 64 - 1) + 1) % 2 ^ 64 ≡ t + k * 2 + 23
insert_len t k h = omega arith

abbrev head : List ℕ → List ℕ
head table = (codes "INSERT INTO " ++ table) ++ codes " VALUES ("

length-head : (table : List ℕ) → length (head table) ≡ length table + 21
length-head table = omega (arith, length-append table (codes " VALUES ("))

head-mark :
    (table : List ℕ)
    → (codes "INSERT INTO " ++ table) ++ codes " VALUES (?" ≡ head table ++ b'?' ∷ []
head-mark table = simp append_assoc

length-insert_text :
    (table : List ℕ) (k : ℕ) → length (insert_text table (suc k)) ≡ length table + k * 2 + 23
length-insert_text table k = omega (
  arith,
  length-append (head table) (marks (suc k) ++ b')' ∷ []),
  length-head table,
  length-append (more_marks k) (b')' ∷ []),
  length-more_marks k,
)

-- For one column or more, and names that leave the length within 63 bits, the function builds
-- exactly INSERT INTO table VALUES (?,…,?) with one mark for each column, in a buffer of that
-- length and one more byte; it fails only where that buffer cannot be allocated.
pub insert_lem :
    (p : Pool) (table : List ℕ) (k : ℕ) (m : p.State)
    → length table + k * 2 < 2 ^ 63
    → insert p table (suc k) m ≡ (
        or_failed (p.pcalloc (length (insert_text table (suc k)) + 1) m) >>= λ m'.
        built (insert_text table (suc k), m'))
unfolding insert
insert_lem p table k m h = rw (
  insert_len (length table) k h,
  ← holding-empty (L + 1),
  puts-holding (L + 1) [] (codes "INSERT INTO ") (omega arith),
  puts-holding (L + 1) (codes "INSERT INTO ") table (omega arith),
  puts-holding (L + 1) (codes "INSERT INTO " ++ table) (codes " VALUES (?") (omega arith),
  head-mark table,
  terminated-holding (L + 1) (head table ++ b'?' ∷ []) (omega (arith, len)),
  length-written (L + 1) (head table ++ b'?' ∷ []),
  rest,
  put_marks-holding (L + 1) k (head table) (omega (arith, length-head table)),
  put-holding (L + 1) b')' ((head table ++ b'?' ∷ []) ++ more_marks k) (omega (arith, all)),
  regroup,
  ← length-insert_text table k,
  contents-holding (insert_text table (suc k)),
)
  where
    L : ℕ
    L = length table + k * 2 + 23

    len : length (head table ++ b'?' ∷ []) ≡ length table + 22
    len = omega (arith, length-append (head table) (b'?' ∷ []), length-head table)

    rest : L - 1 - length (head table ++ b'?' ∷ []) ≡ k * 2
    rest = omega (arith, len)

    all : length ((head table ++ b'?' ∷ []) ++ more_marks k) ≡ length table + 22 + k * 2
    all =
        omega
          (arith, len, length-append (head table ++ b'?' ∷ []) (more_marks k), length-more_marks k)

    regroup : ((head table ++ b'?' ∷ []) ++ more_marks k) ++ b')' ∷ [] ≡ insert_text table (suc k)
    regroup = simp append_assoc

-- With no column at all `n - 1` wraps around: the computed length is too small by one byte for the
-- text that ngx_sprintf writes, and the search for the closing NUL byte runs past the buffer.
pub insert_zero :
    (p : Pool) (table : List ℕ) (m m' : p.State)
    → length table < 2 ^ 63
    → p.pcalloc (length table + 22) m ≡ some m'
    → insert p table 0 m ≡ overflow
unfolding insert
insert_zero p table m m' h e = rw (
  zero_len,
  e,
  or_failed,
  ← holding-empty (length table + 22),
  puts-holding (length table + 22) [] (codes "INSERT INTO ") (omega arith),
  puts-holding (length table + 22) (codes "INSERT INTO ") table (omega arith),
  puts-holding (length table + 22) (codes "INSERT INTO " ++ table) (codes " VALUES (?")
      (omega arith),
  head-mark table,
  full,
)
  where
    zero_len : (12 + length table + 9 + 0 + (0 + 2 ^ 64 - 1) + 1) % 2 ^ 64 + 1 ≡ length table + 22
    zero_len = omega arith

    full : terminated (holding (length table + 22) (head table ++ b'?' ∷ [])) ≡ overflow
    full =
        terminated_full (length table + 22) (head table ++ b'?' ∷ [])
          (omega (arith, length-append (head table) (b'?' ∷ []), length-head table))
