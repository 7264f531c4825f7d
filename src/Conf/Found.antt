-- ===== src/Conf/Found.antt =====
-- A format that a directive has defined is found under its name.
use ngx_sqlite_log.Base.{
  ℕ, zero, suc, ◌+◌, ◌*◌, ◌^◌, ◌<◌, ◌≡◌, refl, ap, ◌∙◌, inl, inr, Bool, true, false, ◌||◌, List, [],
  ◌∷◌, ◌++◌, Option, some, arith, length, All, ◌==◌, codes, Bool-cases, ==_refl, ==_iff,
}
use ngx_sqlite_log.Util.{strncmp_eq, str_eq, str_eq_cs}
use ngx_sqlite_log.Memory.{Pool}
use ngx_sqlite_log.Format.{Format, fmt_n_variables, fmt_init}
use ngx_sqlite_log.Format.Answers.{Builds, >>=-Builds, some-Builds}
use ngx_sqlite_log.Format.Columns.{Formatted, fmt_init-Builds}
use ngx_sqlite_log.Conf.{FormatRef, another}
use ngx_sqlite_log.Conf.Main.{Nginx, MainConf, some_empty, is_taken, is_dangling, format}
use ngx_sqlite_log.Conf.Formats.{refused-Builds, is_taken_lem}
use ngx_sqlite_log.Conf.Directive.{find_format, opt_format}

strncmp_eq_refl : (n : ℕ) (a : List ℕ) → strncmp_eq n a a ≡ true
unfolding strncmp_eq
strncmp_eq_refl zero a = refl
strncmp_eq_refl (suc n) [] = refl
strncmp_eq_refl (suc n) (x ∷ a) =
    rw (==_refl x, strncmp_eq_refl n a)
      (elim (Bool-cases (x == 0)) [ inl e ↦ rw e refl | inr e ↦ rw e refl ])

flip : (x y : ℕ) → (x == y) ≡ (y == x)
flip x y = ground arith

strncmp_eq_sym : (n : ℕ) (a b : List ℕ) → strncmp_eq n a b ≡ strncmp_eq n b a
unfolding strncmp_eq
strncmp_eq_sym zero a b = refl
strncmp_eq_sym (suc n) [] [] = refl
strncmp_eq_sym (suc n) [] (y ∷ b) = refl
strncmp_eq_sym (suc n) (x ∷ a) [] = refl
strncmp_eq_sym (suc n) (x ∷ a) (y ∷ b) = elim (Bool-cases (x == y)) [
  | inl e ↦ rw (← flip x y, e, (==_iff x y).0 e, strncmp_eq_sym n a b) refl
  | inr e ↦ rw (← flip x y, e) refl
]

pub str_eq_refl : (a : List ℕ) → str_eq a a ≡ true
unfolding str_eq
str_eq_refl a = rw (==_refl (length a), strncmp_eq_refl (length a) a) refl

pub str_eq_sym : (a b : List ℕ) → str_eq a b ≡ str_eq b a
unfolding str_eq
str_eq_sym a b = elim (Bool-cases (length a == length b)) [
  | inl e ↦
      rw
        (
          ← flip (length a) (length b),
          e,
          (==_iff (length a) (length b)).0 e,
          strncmp_eq_sym (length b) a b,
        )
        refl
  | inr e ↦ rw (← flip (length a) (length b), e) refl
]

find_format-append :
    (arg : List ℕ) (fs : List Format) (f : Format)
    → All (λ g. str_eq g.name arg ≡ false) fs
    → str_eq f.name arg ≡ true
    → find_format arg (fs ++ f ∷ []) ≡ some (another f)
unfolding find_format
find_format-append arg [] f h k = rw (k, find_format) refl
find_format-append arg (g ∷ fs) f h k = rw (h.0, find_format) (find_format-append arg fs f h.1 k)

flip_all :
    (name : List ℕ) (fs : List Format)
    → All (λ g. str_eq name g.name ≡ false) fs
    → All (λ g. str_eq g.name name ≡ false) fs
flip_all name [] h = tt
flip_all name (f ∷ fs) h = (str_eq_sym f.name name ∙ h.0, flip_all name fs h.1)

opt_format_other :
    (name : List ℕ) (lmcf : MainConf) (f : Format) (before : Option FormatRef)
    → (length name == 0) ≡ false
    → str_eq_cs name (codes "combined") ≡ false
    → str_eq lmcf.combined.name name ≡ false
    → find_format name lmcf.others ≡ some (another f)
    → opt_format name lmcf before ≡ some (another f)
unfolding opt_format
opt_format_other name lmcf f before some_name unreserved differs found =
    rw (some_name, unreserved, differs, found) refl

module _ (p : Pool) (ngx : Nginx) where
  -- The format named last, as the option of a sqlitelog directive finds it.
  abbrev pub FoundAs : List ℕ → MainConf × p.State → Type 0
  FoundAs fmt_name (lmcf, m) =
      (fmt : Format) × (fmt.name ≡ fmt_name)
      × ((before : Option FormatRef) → opt_format fmt_name lmcf before ≡ some (another fmt))

  -- Where the name's length and twice the number of variables together stay below 2 ^ 63: once a
  -- format directive is accepted, the option of a sqlitelog directive that gives the same name is
  -- accepted and selects the format of that name, whatever format was selected before.
  pub format-FoundAs :
      (directive fmt_name : List ℕ) (args : List (List ℕ)) (lmcf : MainConf) (m : p.State)
      → length fmt_name + fmt_n_variables (directive ∷ fmt_name ∷ args) * 2 < 2 ^ 63
      → Builds (FoundAs fmt_name) (format p ngx directive fmt_name args (lmcf, m))
  unfolding format some_empty
  format-FoundAs directive fmt_name args lmcf m bound =
      refused-Builds P lmcf.combined_init _ λ early.
        refused-Builds P (some_empty (directive ∷ fmt_name ∷ args)) _ λ no_empty.
          refused-Builds P (str_eq_cs fmt_name (codes "combined")) _ λ unreserved.
            refused-Builds P (is_taken fmt_name (lmcf.combined ∷ lmcf.others)) _ λ free.
              refused-Builds P (n == 0) _ λ some_variable.
                refused-Builds P (is_dangling 1 directive (fmt_name ∷ args)) _ λ attached.
                  some-Builds P (p.array_push m) _ λ m₁ h.
                    >>=-Builds (Formatted p ngx.variable_index fmt_name n args) P
                      (fmt_init p ngx.variable_index directive fmt_name args m₁) _
                      (fmt_init-Builds p ngx.variable_index directive fmt_name args m₁
                        (ground (arith, some_variable)) bound)
                      λ (fmt, m₂) k. (
                        fmt,
                        k.0,
                        λ before.
                            let apart = is_taken_lem fmt_name (lmcf.combined ∷ lmcf.others) free in
                            opt_format_other fmt_name _ fmt before
                              (named (length directive == 0) (length fmt_name == 0)
                                (some_empty args) no_empty)
                              unreserved (str_eq_sym lmcf.combined.name fmt_name ∙ apart.0)
                              (find_format-append fmt_name lmcf.others fmt
                                (flip_all fmt_name lmcf.others apart.1)
                                (ap (λ a. str_eq a fmt_name) k.0 ∙ str_eq_refl fmt_name)),
                      )
    where
      n : ℕ
      n = fmt_n_variables (directive ∷ fmt_name ∷ args)

      P : MainConf × p.State → Type 0
      P = FoundAs fmt_name

      named : (a b c : Bool) → (a || (b || c)) ≡ false → b ≡ false
      named true b c h = absurd (ground arith)
      named false true c h = absurd (ground arith)
      named false false c h = refl
