-- ===== src/Conf/Block/Merged.antt =====
-- The servers of an http block that nginx accepts.
use mathlib.Core.Path.{subst}
use ngx_sqlite_log.Base.{ℕ, ◌≡◌, ◌≢◌, refl, inl, inr, ◌⊎◌, Bool, List, [], ◌∷◌, All}
use ngx_sqlite_log.Memory.{Pool, built}
use ngx_sqlite_log.Sqlite.{Sqlite}
use ngx_sqlite_log.Db.{Bind}
use ngx_sqlite_log.Format.Answers.{Builds}
use ngx_sqlite_log.File.{Files}
use ngx_sqlite_log.Conf.{Flag, unset, off, on, Settings, SrvConf, merge_srv_conf}
use ngx_sqlite_log.Conf.Main.{Nginx, create_main_conf}
use ngx_sqlite_log.Conf.Formats.{MainOk, create_main_conf-Ok}
use ngx_sqlite_log.Conf.Directive.{Ctx}
use ngx_sqlite_log.Conf.Merge.{merge_srv_conf_lem}
use ngx_sqlite_log.Conf.Usable.{Usable}
use ngx_sqlite_log.Conf.Block.{Block, empty, Reach}
use ngx_sqlite_log.Conf.Block.Settled.{Settled, Reach-BlockOk, empty-BlockOk}

module _ (p : Pool) (files : Files) (sq : Sqlite) (ngx : Nginx) (stale : p.State → Bool)
    (beyond : ℕ → Bind) where
  abbrev C : Type 0
  C = Ctx p files sq ngx stale beyond

  -- What a server comes to under a block, from what the two say.
  abbrev pub Decided : C → SrvConf → SrvConf → Type 0
  Decided c http srv =
      let merged = merge_srv_conf http srv in
      (((value : List ℕ) × Usable p files sq ngx stale beyond value (merged, c))
        × (((srv.enabled ≡ on) × (http.enabled ≢ off) × (merged.settings ≡ srv.settings))
            ⊎ ((srv.enabled ≡ unset) × (http.enabled ≡ on) × (merged.settings ≡ http.settings))))
      ⊎ ((merged.enabled ≡ off)
          × ((http.enabled ≡ off)
              ⊎ ((srv.enabled ≡ off) ⊎ ((srv.enabled ≡ unset) × (http.enabled ≡ unset)))))

  abbrev flagged : Flag → Settings → SrvConf
  flagged e s = record { enabled = e; settings = s }

  -- Settings that a server can be on with.
  abbrev Serves : C → Settings → Type 0
  Serves c s = (value : List ℕ) × Usable p files sq ngx stale beyond value (flagged on s, c)

  with_flag :
      (c : C) (value : List ℕ) (e e' : Flag) (s : Settings)
      → e' ≡ on
      → Usable p files sq ngx stale beyond value (flagged e s, c)
      → Usable p files sq ngx stale beyond value (flagged e' s, c)
  with_flag c value e e' s h (k, path, name, file, ref, fmt, ok, pin, test, buf) =
      (h, path, name, file, ref, fmt, ok, pin, test, buf)

  Settled-Serves :
      (c : C) (srv : SrvConf)
      → Settled p files sq ngx stale beyond c srv
      → srv.enabled ≡ on
      → Serves c srv.settings
  Settled-Serves c srv (inl (new, not_on)) is_on = absurd (not_on is_on)
  Settled-Serves c srv (inr (value, u)) is_on =
      (value, with_flag c value srv.enabled on srv.settings refl u)

  Settled-Decided :
      (c : C) (http srv : SrvConf)
      → Settled p files sq ngx stale beyond c http
      → Settled p files sq ngx stale beyond c srv
      → Decided c http srv
  Settled-Decided c http srv h k =
      elim (merge_srv_conf_lem (Serves c) http srv (Settled-Serves c http h)
        (Settled-Serves c srv k)).1 [
          | inl (is_on, (value, u), why) ↦ inl (
            (
              value,
              with_flag c value on (merge_srv_conf http srv).enabled
                  (merge_srv_conf http srv).settings is_on u,
            ),
            why,
          )
          | inr is_off ↦ inr is_off
        ]

  All-Settled-Decided :
      (c : C) (http : SrvConf) (srvs : List SrvConf)
      → Settled p files sq ngx stale beyond c http
      → All (Settled p files sq ngx stale beyond c) srvs
      → All (Decided c http) srvs
  All-Settled-Decided c http [] h a = tt
  All-Settled-Decided c http (srv ∷ srvs) h a =
      (Settled-Decided c http srv h a.0, All-Settled-Decided c http srvs h a.1)

  pub Reach-Decided :
      (m m' : p.State) (c : C) (b : Block p files sq ngx stale beyond)
      → create_main_conf p m ≡ built (c.main, m')
      → Reach p files sq ngx stale beyond (empty p files sq ngx stale beyond c) b
      → MainOk ngx.variable_index b.ctx.main × All (Decided b.ctx b.http) b.servers
  Reach-Decided m m' c b e r =
      let ok =
        subst (Builds (λ (lmcf, m₁). MainOk ngx.variable_index lmcf)) e
          (create_main_conf-Ok p ngx m) in
      let (v, http, servers) =
        Reach-BlockOk p files sq ngx stale beyond (empty-BlockOk p files sq ngx stale beyond c ok)
          r in
      (v, All-Settled-Decided b.ctx b.http b.servers http servers)
