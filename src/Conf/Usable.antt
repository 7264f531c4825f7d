-- ===== src/Conf/Usable.antt =====
-- What the sqlitelog directive makes of a server.
use mathlib.Core.Path.{subst}
use ngx_sqlite_log.Base.{
  ℕ, ◌*◌, ◌≤◌, ◌≡◌, refl, sym, ap, inl, inr, ◌⊎◌, Bool, not, List, none, some, length, ◌==◌, branch,
  codes, eq_of_not,
}
use ngx_sqlite_log.Memory.{Pool}
use ngx_sqlite_log.Sqlite.{Sqlite}
use ngx_sqlite_log.Sqlite.Code
use ngx_sqlite_log.Sqlite.Wrap.{State}
use ngx_sqlite_log.Db.{Bind, db_test}
use ngx_sqlite_log.Format.Answers.{Builds, >>=-Builds, some-Builds}
use ngx_sqlite_log.File.{Files}
use ngx_sqlite_log.Conf.{FormatRef, SrvConf, on, off, new_srv_conf}
use ngx_sqlite_log.Conf.Main.{Nginx, is_given}
use ngx_sqlite_log.Conf.Formats.{FormatOk, MainOk, refused-Builds}
use ngx_sqlite_log.Conf.Directive.{
  pointee, Line, Ctx, options, choose_format, database, with_buffer, tested, sqlitelog,
}
use ngx_sqlite_log.Conf.Chosen.{
  Chosen, Pinned, Extends, Extends-refl, Parsed, options-Parsed, Ready, choose_format-Ready,
}
use ngx_sqlite_log.Conf.Buffered.{Buffered, with_buffer-Buffered}

module _ (p : Pool) (files : Files) (sq : Sqlite) (ngx : Nginx) (stale : p.State → Bool)
    (beyond : ℕ → Bind) where
  -- The directive's context.
  abbrev C : Type 0
  C = Ctx p files sq ngx stale beyond

  -- A server that is on, with its path, a format of the main configuration, the test in memory
  -- passed, and the buffer that it asked for.
  abbrev pub Usable : List ℕ → SrvConf × C → Type 0
  Usable value (srv, c) =
      (srv.enabled ≡ on)
      × (path : List ℕ) × (ngx.full_name value ≡ some path)
      × (srv.settings.filename ≡ some path)
      × (ref : FormatRef) × (srv.settings.fmt ≡ some ref)
      × FormatOk ngx.variable_index (pointee c.main ref)
      × Pinned c.main ref
      × ((st : State sq) × ((db_test sq
              (database p files sq ngx stale beyond path ref srv.settings c.main) st).0
            ≡ Code.ok))
      × Buffered p files sq ngx stale beyond (pointee c.main ref).name path srv.settings.buf

  abbrev pub Configured : List ℕ → SrvConf × C → SrvConf × C → Type 0
  Configured value (lscf, c) (srv, c') =
      MainOk ngx.variable_index c'.main
      × Extends c.main c'.main
      × (((srv ≡ record lscf { enabled = off }) × (c' ≡ c)) ⊎ Usable value (srv, c'))

  tested-Configured :
      (value path : List ℕ) (lscf : SrvConf) (ref : FormatRef) (line : Line) (c₀ c : C)
      → ngx.full_name value ≡ some path
      → Ready p files sq ngx stale beyond c₀.main (ref, c)
      → line.srv.filename ≡ some path
      → line.srv.buf ≡ none
      → (line.size ≡ 0) ⊎ (8 * ngx.pagesize ≤ line.size)
      → (line.flush ≡ 0) ⊎ (1000 ≤ line.flush)
      → Builds (Configured value (lscf, c₀)) (tested p files sq ngx stale beyond path ref line c)
  tested-Configured value path lscf ref line c₀ c name r f b size flush =
      let (rc, dbs) =
        db_test sq (database p files sq ngx stale beyond path ref line.srv c.main) c.dbs in
      refused-Builds (Configured value (lscf, c₀)) (not (rc == Code.ok)) _ λ passed.
        >>=-Builds
          (λ (buf, c').
            Buffered p files sq ngx stale beyond (pointee c.main ref).name path buf
            × (c'.main ≡ c.main))
          (Configured value (lscf, c₀))
          (with_buffer p files sq ngx stale beyond path ref line (record c { dbs = dbs })) _
          (with_buffer-Buffered p files sq ngx stale beyond path ref line (record c { dbs = dbs }) b
            size flush)
          λ (buf, c₁) z.
            let ok : (db_test sq (database p files sq ngx stale beyond path ref line.srv c.main)
                  c.dbs).0
                ≡ Code.ok =
              eq_of_not rc Code.ok passed in
            (
              subst (MainOk ngx.variable_index) (sym z.1) r.0,
              subst (Extends c₀.main) (sym z.1) r.3,
              inr (
                refl,
                path,
                name,
                f,
                ref,
                refl,
                subst (λ l. FormatOk ngx.variable_index (pointee l ref)) (sym z.1) r.1,
                subst (λ l. Pinned l ref) (sym z.1) r.2,
                (
                  c.dbs,
                  subst
                      (λ l.
                        (db_test sq (database p files sq ngx stale beyond path ref line.srv l)
                          c.dbs).0
                        ≡ Code.ok)
                      (sym z.1) ok,
                ),
                subst (λ l. Buffered p files sq ngx stale beyond (pointee l ref).name path buf)
                    (sym z.1) z.0,
              ),
            )

  pub sqlitelog_lem :
      (value : List ℕ) (args : List (List ℕ)) (lscf : SrvConf) (c : C)
      → lscf.settings ≡ new_srv_conf.settings
      → MainOk ngx.variable_index c.main
      → Builds
          (Configured value (lscf, c))
          (sqlitelog p files sq ngx stale beyond value args (lscf, c))
  unfolding sqlitelog
  sqlitelog_lem value args lscf c new v =
      refused-Builds P (is_given lscf.settings.filename) _ λ first.
        branch (Builds P) (ngx.strcasecmp_eq value (codes "off")) _ _
          (λ is_off. (v, Extends-refl c.main, inl (refl, refl)))
          λ is_on. refused-Builds P (length value == 0) _ λ some_path.
            some-Builds P (ngx.full_name value) _ λ path name.
              >>=-Builds (Parsed p files sq ngx stale beyond c.main (some path) none) P
                (options p files sq ngx stale beyond args (begin path, c)) _
                (options-Parsed p files sq ngx stale beyond c.main (some path) none args
                  (begin path) c
                  (
                    refl,
                    refl,
                    ap (λ s. s.buf) new,
                    subst (λ s. Chosen c.main s.fmt) (sym new) tt,
                    inl refl,
                    inl refl,
                  ))
                λ (line, c₁) (m, f, b, s, z, t).
                  >>=-Builds (Ready p files sq ngx stale beyond c₁.main) P
                    (choose_format p files sq ngx stale beyond line.srv.fmt c₁) _
                    (choose_format-Ready p files sq ngx stale beyond line.srv.fmt c₁
                      (subst (MainOk ngx.variable_index) (sym m) v)
                      (subst (λ l. Chosen l line.srv.fmt) (sym m) s))
                    λ (ref, c₂) r.
                      tested-Configured value path lscf ref line c c₂ name
                        (r.0, r.1, r.2, subst (λ l. Extends l c₂.main) m r.3) f b z t
    where
      P : SrvConf × C → Type 0
      P = Configured value (lscf, c)

      begin : List ℕ → Line
      begin path = record {
        size = 0;
        max = 0;
        flush = 0;
        srv = record lscf.settings { filename = some path };
      }
