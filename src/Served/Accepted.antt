-- ===== src/Served/Accepted.antt =====
-- What the configuration and the start of the worker make sure of before the first request.
use ngx_sqlite_log.Base.{
  ℕ, suc, ◌++◌, ◌≤◌, ◌≡◌, refl, sym, ap, ◌∙◌, inl, inr, Bool, false, not, List, [], ◌∷◌, map,
  Option, none, some, arith, length, All, All-split, ◌==◌, branch,
}
use mathlib.Core.Path.{subst}
use ngx_sqlite_log.Memory.{Pool, built}
use ngx_sqlite_log.Slab.{Slab}
use ngx_sqlite_log.Buf.{Buf}
use ngx_sqlite_log.Op.Request.{Request}
use ngx_sqlite_log.Entry.Shape.{AllOwn, expected}
use ngx_sqlite_log.Entry.Cells.{cells, fmt_row-cells}
use ngx_sqlite_log.Entry.Named.{Plain, named_field, ops_of, columns-Named}
use ngx_sqlite_log.Sql.Insert.{insert_text}
use ngx_sqlite_log.Sqlite.{Sqlite}
use ngx_sqlite_log.Sqlite.Code
use ngx_sqlite_log.Db.{Bind, Fmt, db_init}
use ngx_sqlite_log.Db.Row.{fmt_row}
use ngx_sqlite_log.Db.Retry.{db_init-fmt}
use ngx_sqlite_log.Format.{Column}
use ngx_sqlite_log.File.{Files}
use ngx_sqlite_log.Conf.{FormatRef, the_combined, SrvConf, off, on, merge_srv_conf}
use ngx_sqlite_log.Conf.Main.{Nginx, create_main_conf, is_given}
use ngx_sqlite_log.Conf.Formats.{FormatOk}
use ngx_sqlite_log.Conf.Directive.{pointee, Ctx}
use ngx_sqlite_log.Conf.Usable.{Usable}
use ngx_sqlite_log.Conf.Block.{Block, empty, Reach}
use ngx_sqlite_log.Conf.Block.Merged.{Decided, Reach-Decided}
use ngx_sqlite_log.Handler.Cycle.{ServerConf, Worker, init_server}
use ngx_sqlite_log.Served.{numbered, conf_of}

length-ops_of : (cols : List Column) → length (ops_of cols) ≡ length cols
length-ops_of [] = refl
length-ops_of (col ∷ cols) = ap suc (length-ops_of cols)

module _ (slab : Slab) (sq : Sqlite) where
  -- The start changes no format and no buffer.
  abbrev SameConf : ServerConf → Option ServerConf × Worker slab sq → Type 0
  SameConf s (none, w) = ⊥
  SameConf s (some s', w) = (s'.db.fmt ≡ s.db.fmt) × (s'.buf ≡ s.buf)

  init_server-SameConf :
      (i : ℕ) (s : ServerConf) (w : Worker slab sq) → SameConf s (init_server slab sq i (some s) w)
  init_server-SameConf i s w =
      let (rc, db', st') = db_init sq s.db w.dbs in
      let same = db_init-fmt sq s.db w.dbs in
      branch (SameConf s) (not s.enabled) (some s, w) _ (λ disabled. (refl, refl))
        λ enabled.
          branch (SameConf s) (not (rc == Code.ok))
            (some (record s { enabled = false; db = db' }), record w { dbs = st' }) _
            (λ bad. (same, refl)) λ good. (same, refl)

module _ (p : Pool) (files : Files) (sq : Sqlite) (ngx : Nginx) (stale : p.State → Bool)
    (beyond : ℕ → Bind) where
  abbrev C : Type 0
  C = Ctx p files sq ngx stale beyond

  abbrev ref_or : Option FormatRef → FormatRef
  ref_or none = the_combined
  ref_or (some ref) = ref

  -- The format of a server that can be used.
  Usable-format :
      (value : List ℕ) (srv : SrvConf) (c : C) (ref : FormatRef)
      → Usable p files sq ngx stale beyond value (srv, c)
      → srv.settings.fmt ≡ some ref
      → FormatOk ngx.variable_index (pointee c.main ref)
  Usable-format value srv c ref (e, path, name, file, ref', fmt, ok, pin, test, buf) h =
      subst (λ x. FormatOk ngx.variable_index (pointee c.main x)) (ap ref_or (sym fmt ∙ h)) ok

  Decided-format :
      (c : C) (http old : SrvConf) (ref : FormatRef)
      → Decided p files sq ngx stale beyond c http old
      → (merge_srv_conf http old).enabled ≡ on
      → (merge_srv_conf http old).settings.fmt ≡ some ref
      → FormatOk ngx.variable_index (pointee c.main ref)
  Decided-format c http old ref (inl ((value, u), why)) e h =
      Usable-format value (merge_srv_conf http old) c ref u h
  Decided-format c http old ref (inr (is_off, why)) e h = absurd (off_on (sym is_off ∙ e))
    where
      off_on : off ≡ on → ⊥
      off_on h = absurd (ground arith)

  -- The format of a server that is on after the directives of a block.
  accepted_format :
      (m₀ m₁ : p.State) (c : C) (blk : Block p files sq ngx stale beyond) (before : List SrvConf)
      (old : SrvConf) (after : List SrvConf) (ref : FormatRef)
      → create_main_conf p m₀ ≡ built (c.main, m₁)
      → Reach p files sq ngx stale beyond (empty p files sq ngx stale beyond c) blk
      → blk.servers ≡ before ++ old ∷ after
      → (merge_srv_conf blk.http old).enabled ≡ on
      → (merge_srv_conf blk.http old).settings.fmt ≡ some ref
      → FormatOk ngx.variable_index (pointee blk.ctx.main ref)
  accepted_format m₀ m₁ c blk before old after ref made read at enabled chosen =
      let (v, servers) = Reach-Decided p files sq ngx stale beyond m₀ m₁ c blk made read in
      let (_, decided, _) =
        All-split (Decided p files sq ngx stale beyond blk.ctx blk.http) before old after
          (subst (All (Decided p files sq ngx stale beyond blk.ctx blk.http)) at servers) in
      Decided-format blk.ctx blk.http old ref decided enabled chosen

  numbered_given :
      (b : ℕ) (o : Option (ℕ × Buf))
      → is_given (numbered p files sq ngx stale beyond b o) ≡ is_given o
  numbered_given b none = refl
  numbered_given b (some buf) = refl

  -- What the handler needs of a server that is on.
  abbrev pub Prepared : FormatRef → SrvConf → C → ServerConf → Type 0
  Prepared ref merged c started =
      (1 ≤ length (ops_of (pointee c.main ref).columns))
      × (started.db.fmt.sql_insert ≡ insert_text started.db.fmt.name started.db.fmt.ncols)
      × (is_given started.buf ≡ is_given merged.settings.buf)
      × ((t : AllOwn (ops_of (pointee c.main ref).columns)) × ((r : Request)
            → expected (ops_of (pointee c.main ref).columns) t r
              ≡ map (named_field ngx.variable_index r) (pointee c.main ref).columns))
      × ((r : Request)
          → fmt_row started.db.fmt
              (map (named_field ngx.variable_index r) (pointee c.main ref).columns)
            ≡ cells ngx.variable_index r (pointee c.main ref).columns)

  pub started-Prepared :
      (m₀ m₁ : p.State) (c : C) (blk : Block p files sq ngx stale beyond) (before : List SrvConf)
      (old : SrvConf) (after : List SrvConf) (ref : FormatRef) (slab : Slab) (i b : ℕ)
      (w w' : Worker slab sq) (started : ServerConf)
      → create_main_conf p m₀ ≡ built (c.main, m₁)
      → Reach p files sq ngx stale beyond (empty p files sq ngx stale beyond c) blk
      → blk.servers ≡ before ++ old ∷ after
      → (merge_srv_conf blk.http old).enabled ≡ on
      → (merge_srv_conf blk.http old).settings.fmt ≡ some ref
      → All Plain (pointee blk.ctx.main ref).columns
      → init_server slab sq i
          (some (conf_of p files sq ngx stale beyond ref b (merge_srv_conf blk.http old) blk.ctx))
          w
        ≡ (some started, w')
      → Prepared ref (merge_srv_conf blk.http old) blk.ctx started
  started-Prepared m₀ m₁ c blk before old after ref slab i b w w' started made read at enabled
        chosen plain init =
      let merged = merge_srv_conf blk.http old in
      let conf = conf_of p files sq ngx stale beyond ref b merged blk.ctx in
      let cols = (pointee blk.ctx.main ref).columns in
      let (pos, create, insert, compiled) =
        accepted_format m₀ m₁ c blk before old after ref made read at enabled chosen in
      let (same_fmt, same_buf) =
        subst (SameConf slab sq conf) init (init_server-SameConf slab sq i conf w) in
      (
        rw (length-ops_of cols) pos,
        subst (λ (x : Fmt). x.sql_insert ≡ insert_text x.name x.ncols) (sym same_fmt) insert,
        ap is_given same_buf ∙ numbered_given b merged.settings.buf,
        columns-Named ngx.variable_index cols compiled plain,
        λ r.
            ap (λ x. fmt_row x (map (named_field ngx.variable_index r) cols)) same_fmt
            ∙ fmt_row-cells ngx.variable_index (pointee blk.ctx.main ref) beyond r compiled,
      )
