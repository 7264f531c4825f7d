-- ===== src/Sql/Buffers.antt =====
-- A write within the size appends to what a buffer holds.
use mathlib.Core.List.{reverse, reverse-append, reverse-cons, reverse-reverse}
use ngx_sqlite_log.Base.{
  ℕ, ◌+◌, ◌-◌, ◌≤◌, ◌<◌, ◌≡◌, refl, ap, ◌∙◌, List, [], ◌∷◌, ◌++◌, arith, length, length-append,
  append-nil, append_assoc, ◌==◌,
}
use ngx_sqlite_log.Memory.{built, overflow, zeros}
use ngx_sqlite_log.Sql.{Buffer, last_is_mark, put, puts, terminated, contents}

-- The buffer of that size that holds the text.
pub holding : ℕ → List ℕ → Buffer
holding n s = record { size = n; written = reverse s }

length-reverse : (s : List ℕ) → length (reverse s) ≡ length s
length-reverse [] = refl
length-reverse (c ∷ s) =
    omega
      (arith, ap length (reverse-cons c s), length-append (reverse s) (c ∷ []), length-reverse s)

pub length-written : (n : ℕ) (s : List ℕ) → length (holding n s).written ≡ length s
unfolding holding
length-written n s = length-reverse s

pub holding-empty : (n : ℕ) → holding n [] ≡ record { size = n; written = [] }
unfolding holding
holding-empty n = refl

pub put-holding :
    (n c : ℕ) (s : List ℕ) → length s < n → put c (holding n s) ≡ built (holding n (s ++ c ∷ []))
unfolding put holding
put-holding n c s h = rw (reverse-append s (c ∷ [])) (ground (arith, length-reverse s))

pub puts-holding :
    (n : ℕ) (s t : List ℕ)
    → length s + length t ≤ n
    → puts t (holding n s) ≡ built (holding n (s ++ t))
unfolding puts
puts-holding n s [] h = rw append-nil
puts-holding n s (c ∷ t) h = rw (put-holding n c s (omega arith)) (
    puts-holding n (s ++ c ∷ []) t (omega (arith, length-append s (c ∷ [])))
    ∙ ap (λ z. built (holding n z)) (append_assoc s (c ∷ []) t))

pub terminated-holding :
    (n : ℕ) (s : List ℕ) → length s < n → terminated (holding n s) ≡ built (holding n s)
unfolding terminated holding
terminated-holding n s h = ground (arith, length-reverse s)

-- A full buffer, but for the closing NUL byte.
pub contents-holding : (s : List ℕ) → contents (holding (length s + 1) s) ≡ s
unfolding contents holding
contents-holding s =
    rw (reverse-reverse s, length-reverse s) (ap (λ k. s ++ zeros k) none_left ∙ append-nil s)
  where
    none_left : length s + 1 - 1 - length s ≡ 0
    none_left = omega arith

pub last-holding :
    (n c : ℕ) (s : List ℕ) → last_is_mark (holding n (s ++ c ∷ [])).written ≡ (c == b'?')
unfolding holding
last-holding n c s = rw (reverse-append s (c ∷ []))

pub terminated_full : (n : ℕ) (s : List ℕ) → n ≤ length s → terminated (holding n s) ≡ overflow
unfolding terminated holding
terminated_full n s h = ground (arith, length-reverse s)
