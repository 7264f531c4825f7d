-- ===== src/Sqlite/Names/Legible.antt =====
-- What an operator learns from a name in the error log.
use mathlib.Core.Path.{subst}
use ngx_sqlite_log.Base.{
  ℕ, ◌%◌, ◌≡◌, refl, sym, ap, inl, inr, ◌⊎◌, Bool, true, false, ◌&&◌, List, [], ◌∷◌, ◌++◌, Option,
  none, some, arith, ◌==◌, if◌then◌else◌, Bool-cases, branch, ==_iff,
}
use ngx_sqlite_log.Util.{str_eq_cs}
use ngx_sqlite_log.Sqlite.Names.{cases, switch, c_string, rcname}

-- The code of a name.
unfoldable code_of_in : List (ℕ × List ℕ) → List ℕ → Option ℕ
unfolding str_eq_cs
code_of_in [] s = none
code_of_in ((code, name) ∷ rest) s = if str_eq_cs s name then some code else code_of_in rest s

unfoldable pub code_of : List ℕ → Option ℕ
unfolding code_of_in
code_of s = code_of_in cases s

-- What stands behind a prefix.
unfoldable behind : List ℕ → List ℕ → Option (List ℕ)
behind s [] = some s
behind [] (c ∷ prefix) = none
behind (d ∷ s) (c ∷ prefix) = if d == c then behind s prefix else none

then_some :
    (d c : ℕ) (s prefix : List ℕ) → d == c ≡ true → behind (d ∷ s) (c ∷ prefix) ≡ behind s prefix
unfolding behind
then_some d c s prefix e = rw (e, behind) refl

behind_lem : (s prefix t : List ℕ) → behind s prefix ≡ some t → s ≡ prefix ++ t
unfolding behind
behind_lem s [] t h = ground arith
behind_lem [] (c ∷ prefix) t h = absurd (ground arith)
behind_lem (d ∷ s) (c ∷ prefix) t h = elim (Bool-cases (d == c)) [
  | inl e ↦
      rw (← (==_iff d c).0 e)
        (ap (◌∷◌ d) (behind_lem s prefix t (rw (← then_some d c s prefix e) h)))
  | inr e ↦ absurd (ground (arith, e, h))
]

-- Nothing, or a word that an underscore separates.
abbrev pub Word : List ℕ → Type 0
Word [] = Unit {0}
Word (c ∷ s) = c ≡ b'_'

abbrev is_word : List ℕ → Bool
is_word [] = true
is_word (c ∷ s) = c == b'_'

is_word_lem : (s : List ℕ) → is_word s ≡ true → Word s
is_word_lem [] h = tt
is_word_lem (c ∷ s) h = (==_iff c b'_').0 h

-- The name determines the code, and is that of the primary code, which is the lowest byte, with
-- perhaps a word behind it.
abbrev pub Legible : ℕ → List ℕ → Type 0
Legible rc name =
    (code_of name ≡ some rc) × (word : List ℕ) × (name ≡ rcname (rc % 256) ++ word) × Word word

abbrev is_code : ℕ → Option ℕ → Bool
is_code rc none = false
is_code rc (some code) = code == rc

abbrev is_behind : Option (List ℕ) → Bool
is_behind none = false
is_behind (some word) = is_word word

unfoldable legible : ℕ → List ℕ → Bool
unfolding code_of behind rcname
legible rc name = is_code rc (code_of name) && is_behind (behind name (rcname (rc % 256)))

unfoldable all_legible : List (ℕ × List ℕ) → Bool
unfolding legible c_string
all_legible [] = true
all_legible ((rc, name) ∷ rest) = legible rc (c_string name) && all_legible rest

cases_legible : all_legible cases ≡ true
unfolding all_legible
cases_legible = refl

and_cases : (a b : Bool) → (a && b) ≡ true → (a ≡ true) × (b ≡ true)
and_cases a b h = ground arith

is_code_lem : (rc : ℕ) (o : Option ℕ) → is_code rc o ≡ true → o ≡ some rc
is_code_lem rc none h = absurd (ground arith)
is_code_lem rc (some code) h = ap some ((==_iff code rc).0 h)

legible_lem : (rc : ℕ) (name : List ℕ) → legible rc name ≡ true → Legible rc name
unfolding legible
legible_lem rc name h =
    let (a, b) = and_cases (is_code rc (code_of name)) _ h in
    let (word, e, w) = go (behind name (rcname (rc % 256))) refl b in
    (is_code_lem rc (code_of name) a, word, e, w)
  where
    go :
        (o : Option (List ℕ))
        → behind name (rcname (rc % 256)) ≡ o
        → is_behind o ≡ true
        → (word : List ℕ) × (name ≡ rcname (rc % 256) ++ word) × Word word
    go none e h = absurd (ground arith)
    go (some word) e h = (word, behind_lem name (rcname (rc % 256)) word e, is_word_lem word h)

switch_lem :
    (ns : List (ℕ × List ℕ)) (rc : ℕ)
    → all_legible ns ≡ true
    → (c_string (switch ns rc) ≡ []) ⊎ Legible rc (c_string (switch ns rc))
unfolding all_legible switch c_string
switch_lem [] rc h = inl refl
switch_lem ((code, name) ∷ ns) rc h =
    let (a, b) = and_cases (legible code (c_string name)) _ h in
    branch (λ s. (c_string s ≡ []) ⊎ Legible rc (c_string s)) (rc == code) name (switch ns rc)
      (λ e. inr (
        subst (λ c. Legible c (c_string name)) (sym ((==_iff rc code).0 e))
          (legible_lem code (c_string name) a)))
      λ e. switch_lem ns rc b

-- Each code is printed with no name, or with one that determines the code, and that is the name of
-- the code's lowest byte, the primary code, with perhaps a word behind it.
pub rcname_lem : (rc : ℕ) → (rcname rc ≡ []) ⊎ Legible rc (rcname rc)
unfolding rcname
rcname_lem rc = switch_lem cases rc cases_legible
