-- ===== src/Util.antt =====
-- src/ngx_http_sqlitelog_util.h and the string type of nginx.
use ngx_sqlite_log.Base.{
  ℕ, zero, suc, List, [], ◌∷◌, Bool, true, false, ◌&&◌, ◌||◌, Option, length, leb, ◌==◌,
}

-- An ngx_str_t: `none` is the NULL string, `some` the bytes that `data` and `len` delimit.
abbrev pub Str : Type 0
Str = Option (List ℕ)

-- strncmp(a, b, n) == 0: at most n bytes are read, and the comparison ends at a NUL byte.
-- A string that ends here is followed by the NUL that nginx and the compiler put there.
unfoldable pub strncmp_eq : ℕ → List ℕ → List ℕ → Bool
strncmp_eq zero a b = true
strncmp_eq (suc n) [] [] = true
strncmp_eq (suc n) [] (y ∷ b) = y == 0
strncmp_eq (suc n) (x ∷ a) [] = x == 0
strncmp_eq (suc n) (x ∷ a) (y ∷ b) = x == y && (x == 0 || strncmp_eq n a b)

unfoldable pub has_prefix : List ℕ → List ℕ → Bool
unfolding strncmp_eq
has_prefix ns cs = leb (length cs) (length ns) && strncmp_eq (length cs) ns cs

unfoldable pub str_eq : List ℕ → List ℕ → Bool
unfolding strncmp_eq
str_eq a b = length a == length b && strncmp_eq (length a) a b

unfoldable pub str_eq_cs : List ℕ → List ℕ → Bool
unfolding strncmp_eq
str_eq_cs ns cs = length ns == length cs && strncmp_eq (length ns) ns cs

-- "" and "0" are false.
unfoldable pub str_is_false : List ℕ → Bool
str_is_false [] = true
str_is_false (c ∷ []) = c == b'0'
str_is_false (c ∷ d ∷ s) = false
