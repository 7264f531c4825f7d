-- ===== src/Conf/Chosen.antt =====
-- The options of the sqlitelog directive and the choice of its format.
use mathlib.Core.Path.{subst}
use ngx_sqlite_log.Base.{
  ℕ, ◌*◌, ◌≤◌, ◌≡◌, refl, sym, ap, ◌∙◌, inl, inr, ◌⊎◌, Bool, true, false, List, [], ◌∷◌, Option,
  none, some, arith, length, All, ◌==◌, ltb, branch, Bool-cases, if◌then◌else◌, codes,
}
use ngx_sqlite_log.Util.{Str, has_prefix, str_eq, str_eq_cs}
use ngx_sqlite_log.Memory.{Pool}
use ngx_sqlite_log.Buf.{Buf}
use ngx_sqlite_log.Sqlite.{Sqlite}
use ngx_sqlite_log.Db.{Bind}
use ngx_sqlite_log.Format.{Format, fmt_init_combined}
use ngx_sqlite_log.Format.Answers.{Builds, >>=-Builds, some-Builds}
use ngx_sqlite_log.File.{Files, file_read}
use ngx_sqlite_log.Conf.{FormatRef, the_combined, another}
use ngx_sqlite_log.Conf.Main.{Nginx, MainConf}
use ngx_sqlite_log.Conf.Formats.{FormatOk, MainOk, fmt_init_combined-Ok, Initialized}
use ngx_sqlite_log.Conf.Directive.{
  behind, find_format, found_or, opt_format, pointee, at_least, opt_buffer, opt_max, opt_flush,
  Line, Ctx, with_script, opt_init, opt_if, option, options, use_combined, choose_format,
}

abbrev pub Among : List Format → Format → Type 0
Among [] f = ⊥
Among (g ∷ gs) f = (f ≡ g) ⊎ Among gs f

pub Among-All : (P : Format → Type 0) (fs : List Format) (f : Format) → Among fs f → All P fs → P f
Among-All P [] f h k = absurd h
Among-All P (g ∷ gs) f (inl e) k = subst P (sym e) k.0
Among-All P (g ∷ gs) f (inr h) k = Among-All P gs f h k.1

-- A pointer into the array of formats.
abbrev pub Points : MainConf → FormatRef → Type 0
Points lmcf the_combined = Unit {0}
Points lmcf (another f) = Among lmcf.others f

abbrev pub Chosen : MainConf → Option FormatRef → Type 0
Chosen lmcf none = Unit {0}
Chosen lmcf (some ref) = Points lmcf ref

-- A pointer to the combined format is set only once the format is initialized,
abbrev pub Pinned : MainConf → FormatRef → Type 0
Pinned lmcf the_combined = lmcf.combined_init ≡ true
Pinned lmcf (another f) = Unit {0}

-- and the format does not change after that.
abbrev pub Extends : MainConf → MainConf → Type 0
Extends lmcf lmcf' =
    (lmcf.combined_init ≡ false) ⊎ ((lmcf'.combined_init ≡ true) × (lmcf'.combined ≡ lmcf.combined))

pub Extends-refl : (lmcf : MainConf) → Extends lmcf lmcf
Extends-refl lmcf = elim (Bool-cases lmcf.combined_init) [ inl e ↦ inr (e, refl) | inr e ↦ inl e ]

find_format-Chosen :
    (arg : List ℕ) (fs : List Format) (lmcf : MainConf)
    → ((f : Format) → Among fs f → Among lmcf.others f)
    → Chosen lmcf (find_format arg fs)
unfolding find_format
find_format-Chosen arg [] lmcf h = tt
find_format-Chosen arg (f ∷ fs) lmcf h =
    branch (Chosen lmcf) (str_eq f.name arg) (some (another f)) (find_format arg fs)
      (λ found. h f (inl refl)) λ other. find_format-Chosen arg fs lmcf λ g k. h g (inr k)

opt_format-Chosen :
    (arg : List ℕ) (lmcf : MainConf) (before : Option FormatRef)
    → Chosen lmcf before
    → Chosen lmcf (opt_format arg lmcf before)
unfolding opt_format
opt_format-Chosen arg lmcf before h =
    branch (Chosen lmcf) (length arg == 0) none _ (λ empty. tt)
      λ some_name.
        branch (Chosen lmcf) (str_eq_cs arg (codes "combined")) (some the_combined) _ (λ is. tt)
          λ other.
            branch (Chosen lmcf) (str_eq lmcf.combined.name arg) (some the_combined)
              (found_or (find_format arg lmcf.others) before) (λ is. tt)
              λ differs.
                go (find_format arg lmcf.others)
                  (find_format-Chosen arg lmcf.others lmcf (λ f k. k))
  where
    go : (o : Option FormatRef) → Chosen lmcf o → Chosen lmcf (found_or o before)
    go none k = h
    go (some ref) k = k

value_of : Option ℕ → ℕ
value_of none = 0
value_of (some n) = n

at_least_lem :
    (ngx : Nginx) (least : ℕ) (o : Option ℕ) (n : ℕ) → at_least ngx least o ≡ some n → least ≤ n
at_least_lem ngx least none n e = absurd (ground arith)
at_least_lem ngx least (some k) n e = go (ltb k least) refl e
  where
    short : none ≡ some n → ⊥
    short h = cc

    go : (b : Bool) → ltb k least ≡ b → (if b then none else some k) ≡ some n → least ≤ n
    go true e h = absurd (short h)
    go false e h = ground (arith, e, ap value_of h)

module _ (p : Pool) (files : Files) (sq : Sqlite) (ngx : Nginx) (stale : p.State → Bool)
    (beyond : ℕ → Bind) where
  -- What the options leave as it was, and the bounds that they check.
  abbrev pub Parsed :
      MainConf → Str → Option (ℕ × Buf) → Line × Ctx p files sq ngx stale beyond → Type 0
  Parsed lmcf filename buf (line, c) =
      (c.main ≡ lmcf)
      × (line.srv.filename ≡ filename)
      × (line.srv.buf ≡ buf)
      × Chosen lmcf line.srv.fmt
      × ((line.size ≡ 0) ⊎ (8 * ngx.pagesize ≤ line.size))
      × ((line.flush ≡ 0) ⊎ (1000 ≤ line.flush))

  option-Parsed :
      (lmcf : MainConf) (filename : Str) (buf : Option (ℕ × Buf)) (arg : List ℕ) (line : Line)
      (c : Ctx p files sq ngx stale beyond)
      → Parsed lmcf filename buf (line, c)
      → Builds (Parsed lmcf filename buf) (option p files sq ngx stale beyond arg (line, c))
  unfolding option opt_buffer opt_flush opt_init opt_if
  option-Parsed lmcf filename buf arg line c (m, f, b, s, z, t) =
      branch (Builds P) (has_prefix arg (codes "buffer=")) _ _
        (λ is. some-Builds P (opt_buffer ngx arg) _ λ n e. (
          m,
          f,
          b,
          s,
          inr (
              at_least_lem ngx (8 * ngx.pagesize) (ngx.parse_size (behind (codes "buffer=") arg)) n
                e),
          t,
        ))
        λ no.
          branch (Builds P) (has_prefix arg (codes "max=")) _ _
            (λ is. some-Builds P (opt_max ngx arg) _ λ n e. (m, f, b, s, z, t))
            λ no.
              branch (Builds P) (has_prefix arg (codes "flush=")) _ _
                (λ is. some-Builds P (opt_flush ngx arg) _ λ n e. (
                  m,
                  f,
                  b,
                  s,
                  z,
                  inr (at_least_lem ngx 1000 (ngx.parse_time (behind (codes "flush=") arg)) n e),
                ))
                λ no.
                  branch (Builds P) (has_prefix arg (codes "init=")) _ _
                    (λ is.
                      some-Builds P (ngx.full_name _) _
                        λ name e. script (file_read files p name c.mem c.fs))
                    λ no.
                      branch (Builds P) (has_prefix arg (codes "if=")) _ _
                        (λ is. some-Builds P (p.palloc 48 c.mem) _ λ m' e.
                          some-Builds P (ngx.compile_complex_value _) _
                            λ filter e. (m, f, b, s, z, t))
                        λ no.
                          some-Builds P (opt_format arg c.main line.srv.fmt) _
                            λ ref e. (m, f, b, chosen ref e, z, t)
    where
      P : Line × Ctx p files sq ngx stale beyond → Type 0
      P = Parsed lmcf filename buf

      script :
          (o : Str × p.State × files.State)
          → Builds P (with_script p files sq ngx stale beyond (line, c) o)
      script (none, m', fs) = tt
      script (some sql, m', fs) = (m, f, b, s, z, t)

      chosen : (ref : FormatRef) → opt_format arg c.main line.srv.fmt ≡ some ref → Points lmcf ref
      chosen ref e = subst (Chosen lmcf) e (
          subst (λ l. Chosen lmcf (opt_format arg l line.srv.fmt)) (sym m)
            (opt_format-Chosen arg lmcf line.srv.fmt s))

  pub options-Parsed :
      (lmcf : MainConf) (filename : Str) (buf : Option (ℕ × Buf)) (args : List (List ℕ))
      (line : Line) (c : Ctx p files sq ngx stale beyond)
      → Parsed lmcf filename buf (line, c)
      → Builds (Parsed lmcf filename buf) (options p files sq ngx stale beyond args (line, c))
  unfolding options
  options-Parsed lmcf filename buf [] line c h = h
  options-Parsed lmcf filename buf (arg ∷ args) line c h =
      >>=-Builds (Parsed lmcf filename buf) (Parsed lmcf filename buf)
        (option p files sq ngx stale beyond arg (line, c))
        (options p files sq ngx stale beyond args) (option-Parsed lmcf filename buf arg line c h)
        λ (line', c') k. options-Parsed lmcf filename buf args line' c' k

  -- The format that a server is left with, from a main configuration `lmcf`, can be logged with,
  -- and the combined format is as it was if it was initialized.
  abbrev pub Ready : MainConf → FormatRef × Ctx p files sq ngx stale beyond → Type 0
  Ready lmcf (ref, c) =
      MainOk ngx.variable_index c.main
      × FormatOk ngx.variable_index (pointee c.main ref)
      × Pinned c.main ref
      × Extends lmcf c.main

  use_combined-Ready :
      (c : Ctx p files sq ngx stale beyond)
      → MainOk ngx.variable_index c.main
      → Builds (Ready c.main) (use_combined p files sq ngx stale beyond c)
  use_combined-Ready c v =
      branch (Builds (Ready c.main)) c.main.combined_init _ _
        (λ init. (v, v.combined_ok init, init, inr (init, refl)))
        λ uninit.
          >>=-Builds (Initialized p ngx) (Ready c.main)
            (fmt_init_combined p ngx.variable_index c.mem) _ (fmt_init_combined-Ok p ngx c.mem)
            λ (fmt, m) k. (
              record {
                combined_named = k.0;
                combined_ok = λ e. k.1;
                others_ok = v.others_ok;
                distinct = (
                  subst (λ name. All (λ g. str_eq g.name name ≡ false) c.main.others)
                      (v.combined_named ∙ sym k.0) v.distinct.0,
                  v.distinct.1,
                );
              },
              k.1,
              refl,
              inl uninit,
            )

  pub choose_format-Ready :
      (o : Option FormatRef) (c : Ctx p files sq ngx stale beyond)
      → MainOk ngx.variable_index c.main
      → Chosen c.main o
      → Builds (Ready c.main) (choose_format p files sq ngx stale beyond o c)
  choose_format-Ready none c v h = use_combined-Ready c v
  choose_format-Ready (some the_combined) c v h = use_combined-Ready c v
  choose_format-Ready (some (another f)) c v h = (
    v,
    Among-All (FormatOk ngx.variable_index) c.main.others f h v.others_ok,
    tt,
    Extends-refl c.main,
  )
