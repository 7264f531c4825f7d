-- ===== src/Conf/Block/Settled.antt =====
-- What holds of each server of an http block, however its directives are mixed.
use mathlib.Core.Path.{subst}
use ngx_sqlite_log.Base.{
  ℕ, ◌≡◌, ◌≢◌, refl, sym, ap, ◌∙◌, inl, inr, ◌⊎◌, Bool, List, [], ◌∷◌, Option, none, some, arith,
  All, All-append, All-split, branch, codes,
}
use ngx_sqlite_log.Util.{str_eq_cs}
use ngx_sqlite_log.Memory.{Pool, failed, built}
use ngx_sqlite_log.Sqlite.{Sqlite}
use ngx_sqlite_log.Sqlite.Code
use ngx_sqlite_log.Db.{Bind, db_test}
use ngx_sqlite_log.Format.Answers.{Builds}
use ngx_sqlite_log.File.{Files}
use ngx_sqlite_log.Conf.{FormatRef, the_combined, another, SrvConf, unset, on, off, new_srv_conf}
use ngx_sqlite_log.Conf.Main.{Nginx, MainConf, is_given, with_pool, async}
use ngx_sqlite_log.Conf.Formats.{FormatOk, MainOk, refused-Builds, Defines, format_lem}
use ngx_sqlite_log.Conf.Directive.{pointee, Ctx, database, sqlitelog}
use ngx_sqlite_log.Conf.Chosen.{Pinned, Extends, Extends-refl}
use ngx_sqlite_log.Conf.Buffered.{Buffered}
use ngx_sqlite_log.Conf.Usable.{Usable, Configured, sqlitelog_lem}
use ngx_sqlite_log.Conf.Block.{
  Block, empty, Step, new_server, defines, threads, logs, server_logs, Reach, start, later,
}

-- What a pointer points to does not change.
Pinned-Extends :
    (l l' : MainConf) (ref : FormatRef)
    → Pinned l ref
    → Extends l l'
    → (pointee l' ref ≡ pointee l ref) × Pinned l' ref
Pinned-Extends l l' the_combined h (inl uninit) = absurd (ground (arith, h, uninit))
Pinned-Extends l l' the_combined h (inr (init, same)) = (same, init)
Pinned-Extends l l' (another f) h e = (refl, tt)

with_tp :
    (variable_index : List ℕ → Option ℕ) (lmcf : MainConf) (tp : ℕ)
    → MainOk variable_index lmcf
    → MainOk variable_index (record lmcf { tp = some tp })
with_tp variable_index lmcf tp v = record {
  combined_named = v.combined_named;
  combined_ok = v.combined_ok;
  others_ok = v.others_ok;
  distinct = v.distinct;
}

module _ (ngx : Nginx) where
  -- The sqlitelog_async directive changes no format.
  abbrev Threaded : MainConf → MainConf × ngx.Cycle → Type 0
  Threaded lmcf (lmcf', cycle) = MainOk ngx.variable_index lmcf' × Extends lmcf lmcf'

  with_pool-Threaded :
      (lmcf : MainConf) (o : Option ℕ × ngx.Cycle)
      → MainOk ngx.variable_index lmcf
      → Builds (Threaded lmcf) (with_pool ngx lmcf o)
  with_pool-Threaded lmcf (none, cycle) v = tt
  with_pool-Threaded lmcf (some tp, cycle) v =
      (with_tp ngx.variable_index lmcf tp v, Extends-refl lmcf)

  async-Threaded :
      (arg : List ℕ) (lmcf : MainConf) (cycle : ngx.Cycle)
      → MainOk ngx.variable_index lmcf
      → Builds (Threaded lmcf) (async ngx arg (lmcf, cycle))
  unfolding async
  async-Threaded arg lmcf cycle v = refused-Builds (Threaded lmcf) (is_given lmcf.tp) _ λ first.
      branch (Builds (Threaded lmcf)) (str_eq_cs arg (codes "on")) _ _
        (λ is_on. with_pool-Threaded lmcf (ngx.thread_pool_add (codes "default") cycle) v)
        λ is_no_on.
          branch (Builds (Threaded lmcf)) (str_eq_cs arg (codes "off")) _ _
            (λ is_off. (v, Extends-refl lmcf))
            λ named. with_pool-Threaded lmcf (ngx.thread_pool_get arg cycle, cycle) v

module _ (p : Pool) (files : Files) (sq : Sqlite) (ngx : Nginx) (stale : p.State → Bool)
    (beyond : ℕ → Bind) where
  abbrev C : Type 0
  C = Ctx p files sq ngx stale beyond

  abbrev B : Type 0
  B = Block p files sq ngx stale beyond

  Usable-Extends :
      (value : List ℕ) (srv : SrvConf) (c c' : C)
      → Extends c.main c'.main
      → Usable p files sq ngx stale beyond value (srv, c)
      → Usable p files sq ngx stale beyond value (srv, c')
  Usable-Extends value srv c c' h (is_on, path, name, file, ref, fmt, ok, pin, (st, passed), buf) =
      let (same, pin') = Pinned-Extends c.main c'.main ref pin h in
      (
        is_on,
        path,
        name,
        file,
        ref,
        fmt,
        subst (FormatOk ngx.variable_index) (sym same) ok,
        pin',
        (
          st,
          subst
              (λ f.
                (db_test sq
                  (database p files sq ngx stale beyond path (another f) srv.settings c.main) st).0
                ≡ Code.ok)
              (sym same) passed,
        ),
        subst (λ f. Buffered p files sq ngx stale beyond f.name path srv.settings.buf) (sym same)
            buf,
      )

  -- A server is as no directive has set it up, and not on, or it can be used.
  abbrev pub Settled : C → SrvConf → Type 0
  Settled c srv =
      ((srv.settings ≡ new_srv_conf.settings) × (srv.enabled ≢ on))
      ⊎ ((value : List ℕ) × Usable p files sq ngx stale beyond value (srv, c))

  Settled-Extends :
      (c c' : C) (srv : SrvConf) → Extends c.main c'.main → Settled c srv → Settled c' srv
  Settled-Extends c c' srv h (inl new) = inl new
  Settled-Extends c c' srv h (inr (value, u)) = inr (value, Usable-Extends value srv c c' h u)

  All-Settled-Extends :
      (c c' : C) (srvs : List SrvConf)
      → Extends c.main c'.main
      → All (Settled c) srvs
      → All (Settled c') srvs
  All-Settled-Extends c c' [] h a = tt
  All-Settled-Extends c c' (srv ∷ srvs) h a =
      (Settled-Extends c c' srv h a.0, All-Settled-Extends c c' srvs h a.1)

  off_not_on : off ≢ on
  off_not_on h = absurd (ground arith)

  refused_again :
      (value : List ℕ) (args : List (List ℕ)) (srv : SrvConf) (c : C) (path : List ℕ)
      → srv.settings.filename ≡ some path
      → sqlitelog p files sq ngx stale beyond value args (srv, c) ≡ failed
  unfolding sqlitelog
  refused_again value args srv c path h = rw h refl

  failed_built : {A : Type 0} {a : A} → failed ≡ built a → ⊥
  failed_built e = ground arith

  sqlitelog-Settled :
      (value : List ℕ) (args : List (List ℕ)) (old srv : SrvConf) (c c' : C)
      → MainOk ngx.variable_index c.main
      → Settled c old
      → sqlitelog p files sq ngx stale beyond value args (old, c) ≡ built (srv, c')
      → MainOk ngx.variable_index c'.main × Extends c.main c'.main × Settled c' srv
  sqlitelog-Settled value args old srv c c' v (inl (new, not_on)) e =
      let (v', h, o) =
        subst (Builds (Configured p files sq ngx stale beyond value (old, c))) e
          (sqlitelog_lem p files sq ngx stale beyond value args old c new v) in
      (v', h, go o)
    where
      go :
          ((srv ≡ record old { enabled = off }) × (c' ≡ c))
            ⊎ Usable p files sq ngx stale beyond value (srv, c')
          → Settled c' srv
      go (inl (s, k)) = inl (
        ap (λ (x : SrvConf). x.settings) s ∙ new,
        subst (λ (f : SrvConf). f.enabled ≢ on) (sym s) off_not_on,
      )
      go (inr u) = inr (value, u)
  sqlitelog-Settled value args old srv c c' v
        (inr (value', (is_on, path, name, file, ref, fmt, ok, pin, test, buf))) e =
      absurd (failed_built (sym (refused_again value args old c path file) ∙ e))

  -- What holds at any point of the reading.
  abbrev pub BlockOk : B → Type 0
  BlockOk b =
      MainOk ngx.variable_index b.ctx.main × Settled b.ctx b.http × All (Settled b.ctx) b.servers

  new-Settled : (c : C) → Settled c new_srv_conf
  new-Settled c = inl (refl, unset_not_on)
    where
      unset_not_on : unset ≢ on
      unset_not_on h = absurd (ground arith)

  -- Where only the main configuration has changed.
  moved_on :
      (b : B) (c : C)
      → MainOk ngx.variable_index c.main
      → Extends b.ctx.main c.main
      → BlockOk b
      → BlockOk (record b { ctx = c })
  moved_on b c v h (w, http, servers) =
      (v, Settled-Extends b.ctx c b.http h http, All-Settled-Extends b.ctx c b.servers h servers)

  Step-BlockOk : {b c : B} → BlockOk b → Step p files sq ngx stale beyond b c → BlockOk c
  Step-BlockOk {b} {c} (v, http, servers) new_server =
      (v, http, All-append (Settled b.ctx) b.servers _ servers (new-Settled b.ctx, tt))
  Step-BlockOk {b} {c} v (defines directive fmt_name args lmcf m bound e) =
      let d =
        subst (Builds (Defines p ngx directive fmt_name args b.ctx.main)) e
          (format_lem p ngx directive fmt_name args b.ctx.main b.ctx.mem v.0 bound) in
      moved_on b (record b.ctx { main = lmcf; mem = m }) d.0 (inl d.1) v
  Step-BlockOk {b} {c} v (threads arg lmcf cycle e) =
      let (ok, h) =
        subst (Builds (Threaded ngx b.ctx.main)) e
          (async-Threaded ngx arg b.ctx.main b.ctx.cycle v.0) in
      moved_on b (record b.ctx { main = lmcf; cycle = cycle }) ok h v
  Step-BlockOk {b} {c} v (logs value args http c' e) =
      let (ok, h, s) = sqlitelog-Settled value args b.http http b.ctx c' v.0 v.1 e in
      (ok, s, All-Settled-Extends b.ctx c' b.servers h v.2)
  Step-BlockOk {b} {c} v (server_logs value args before old after srv c' at e) =
      let (l, one, r) =
        All-split (Settled b.ctx) before old after (subst (All (Settled b.ctx)) at v.2) in
      let (ok, h, s) = sqlitelog-Settled value args old srv b.ctx c' v.0 one e in
      (
        ok,
        Settled-Extends b.ctx c' b.http h v.1,
        All-append (Settled c') before (srv ∷ after) (All-Settled-Extends b.ctx c' before h l)
            (s, All-Settled-Extends b.ctx c' after h r),
      )

  pub Reach-BlockOk : {b c : B} → BlockOk b → Reach p files sq ngx stale beyond b c → BlockOk c
  Reach-BlockOk v start = v
  Reach-BlockOk v (later r s) = Step-BlockOk (Reach-BlockOk v r) s

  pub empty-BlockOk :
      (c : C) → MainOk ngx.variable_index c.main → BlockOk (empty p files sq ngx stale beyond c)
  empty-BlockOk c v = (v, new-Settled c, tt)
