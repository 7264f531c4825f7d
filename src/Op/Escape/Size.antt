-- ===== src/Op/Escape/Size.antt =====
-- How much the escape function writes, and which bytes.
use ngx_sqlite_log.Base.{
  ℕ, ◌+◌, ◌*◌, ◌<◌, ◌≡◌, refl, inl, inr, Bool, true, ◌&&◌, not, List, [], ◌∷◌, arith, leb, ◌==◌,
  if◌then◌else◌, Bool-cases, length, length-append, All, All-append, all_bytes, all_bytes_lem,
}
use ngx_sqlite_log.Op.Escape.{is_escaped, escape_byte, escape_count, escape_copy}

length-escape_byte : (c : ℕ) → length (escape_byte c) ≡ 1 + 3 * (if is_escaped c then 1 else 0)
unfolding escape_byte
length-escape_byte c = elim (Bool-cases (is_escaped c)) [ inl e ↦ rw e | inr e ↦ rw e ]

-- The two calls of the function agree: the copy is three bytes longer than the source for each
-- byte that the counting call counts, which is the length that the caller reserves.
pub length-escape_copy : (s : List ℕ) → length (escape_copy s) ≡ length s + escape_count s * 3
unfolding escape_copy escape_count
length-escape_copy [] = refl
length-escape_copy (c ∷ s) = omega (
  arith,
  length-append (escape_byte c) (escape_copy s),
  length-escape_byte c,
  length-escape_copy s,
)

-- Where nothing is counted the copy is the source itself.
pub escape_copy-plain : (s : List ℕ) → escape_count s ≡ 0 → escape_copy s ≡ s
unfolding escape_copy escape_count escape_byte
escape_copy-plain [] h = refl
escape_copy-plain (c ∷ s) h = ground (arith, escape_copy-plain s)

-- A byte that may stand in a text column: printable ASCII, and no quotation mark.
abbrev pub is_printable : ℕ → Bool
is_printable c = leb 32 c && leb c 126 && not (c == b'"')

abbrev all_printable : List ℕ → Bool
all_printable [] = true
all_printable (c ∷ s) = is_printable c && all_printable s

bytes_printable : all_bytes (λ c. all_printable (escape_byte c)) ≡ true
unfolding all_bytes escape_byte
bytes_printable = refl

All-printable : (s : List ℕ) → all_printable s ≡ true → All (λ c. is_printable c ≡ true) s
All-printable [] h = tt
All-printable (c ∷ s) h = (ground arith, All-printable s (ground arith))

-- Whatever bytes a request brings, what is written is printable ASCII with no quotation mark.
pub escape_copy-printable :
    (s : List ℕ) → All (λ c. c < 256) s → All (λ c. is_printable c ≡ true) (escape_copy s)
unfolding escape_copy
escape_copy-printable [] h = tt
escape_copy-printable (c ∷ s) h =
    All-append _ (escape_byte c) (escape_copy s)
      (All-printable (escape_byte c) (all_bytes_lem _ c bytes_printable h.0))
      (escape_copy-printable s h.1)
