-- ===== src/Conf/Buffered.antt =====
-- The buffer of the sqlitelog directive: its zone and its flush event.
use mathlib.Core.Path.{subst}
use ngx_sqlite_log.Base.{
  ℕ, ◌+◌, ◌*◌, ◌≤◌, ◌≡◌, refl, sym, ap, ◌∙◌, inl, inr, ◌⊎◌, Bool, false, List, [], ◌∷◌, ◌++◌,
  Option, none, some, arith, length, length-append, ◌==◌, ltb, branch, codes,
}
use ngx_sqlite_log.Memory.{Pool, overflow, built, take}
use ngx_sqlite_log.Buf.{Buf}
use ngx_sqlite_log.Sqlite.{Sqlite}
use ngx_sqlite_log.Db.{Bind}
use ngx_sqlite_log.Format.Answers.{Builds, >>=-Builds, some-Builds}
use ngx_sqlite_log.File.{Files}
use ngx_sqlite_log.Conf.{FormatRef}
use ngx_sqlite_log.Conf.Main.{Nginx}
use ngx_sqlite_log.Conf.Directive.{
  pointee, Line, Ctx, zone_name, with_zone, shm_zone, with_event, with_buffer,
}

take_all : (s : List ℕ) → take (length s) s ≡ s
take_all [] = refl
take_all (c ∷ s) = ap (◌∷◌ c) (take_all s)

module _ (p : Pool) (files : Files) (sq : Sqlite) (ngx : Nginx) (stale : p.State → Bool)
    (beyond : ℕ → Bind) where
  -- The directive's context.
  abbrev C : Type 0
  C = Ctx p files sq ngx stale beyond

  -- A zone of at least eight pages, under the name of the format and the path.
  abbrev pub Zoned : List ℕ → List ℕ → ℕ → Type 0
  Zoned fmt path zone =
      (size : ℕ) × (cycle : ngx.Cycle) × (8 * ngx.pagesize ≤ size)
      × ((ngx.shared_memory_add (zone_name p files sq ngx stale beyond fmt path) size cycle).0
          ≡ some zone)

  -- A buffer that is flushed has a time of a second or more, and an event whose timer_set flag is
  -- what its memory held.
  abbrev pub Timed : Buf → Type 0
  Timed buf =
      ((buf.flush ≡ 0) × (buf.event ≡ none))
      ⊎ ((1000 ≤ buf.flush) × (m : p.State) × (buf.event ≡ some (stale m)))

  abbrev pub Buffered : List ℕ → List ℕ → Option (ℕ × Buf) → Type 0
  Buffered fmt path none = Unit {0}
  Buffered fmt path (some (zone, buf)) = Zoned fmt path zone × Timed buf

  length-zone_name :
      (fmt path : List ℕ)
      → length (zone_name p files sq ngx stale beyond fmt path) ≡ 10 + length fmt + 1 + length path
  length-zone_name fmt path = omega (
    arith,
    length-append (codes "sqlitelog_" ++ fmt ++ codes "_") path,
    length-append (codes "sqlitelog_" ++ fmt) (codes "_"),
    length-append (codes "sqlitelog_") fmt,
  )

  shm_zone-Zoned :
      (size : ℕ) (fmt path : List ℕ) (c : C)
      → 8 * ngx.pagesize ≤ size
      → Builds
          (λ (zone, c'). Zoned fmt path zone × (c'.main ≡ c.main))
          (shm_zone p files sq ngx stale beyond size fmt path c)
  unfolding shm_zone
  shm_zone-Zoned size fmt path c large = some-Builds P (p.pcalloc len c.mem) _ λ m e.
      branch (Builds P) (ltb len (length name)) overflow _
        (λ long. absurd (ground (arith, long, length-zone_name fmt path)))
        λ fits. go m (ngx.shared_memory_add (take len name) size c.cycle) (
          ap (λ s. (ngx.shared_memory_add s size c.cycle).0)
            (ap (λ k. take k name) (sym (length-zone_name fmt path)) ∙ take_all name))
    where
      len : ℕ
      len = 10 + length fmt + 1 + length path

      name : List ℕ
      name = zone_name p files sq ngx stale beyond fmt path

      P : ℕ × C → Type 0
      P (zone, c') = Zoned fmt path zone × (c'.main ≡ c.main)

      go :
          (m : p.State) (o : Option ℕ × ngx.Cycle)
          → o.0 ≡ (ngx.shared_memory_add name size c.cycle).0
          → Builds P (with_zone p files sq ngx stale beyond (record c { mem = m }) o)
      go m (none, cycle) e = tt
      go m (some zone, cycle) e = ((size, c.cycle, large, sym e), refl)

  with_event-Timed :
      (flush : ℕ) (buf : Buf) (c : C)
      → (flush ≡ 0) ⊎ (1000 ≤ flush)
      → buf.flush ≡ 0
      → buf.event ≡ none
      → Builds
          (λ (buf', c'). Timed buf' × (c'.main ≡ c.main))
          (with_event p files sq ngx stale beyond flush buf c)
  with_event-Timed flush buf c h f e =
      branch (Builds P) (flush == 0) (built (buf, c)) _ (λ zero. (inl (f, e), refl))
        λ nonzero.
          some-Builds P (p.palloc 24 c.mem) _
            λ m₁ e₁. some-Builds P (p.palloc 96 m₁) _ λ m₂ e₂. (inr (long nonzero, m₁, refl), refl)
    where
      P : Buf × C → Type 0
      P (buf', c') = Timed buf' × (c'.main ≡ c.main)

      long : (flush == 0) ≡ false → 1000 ≤ flush
      long k = elim h [ inl z ↦ absurd (ground (arith, z, k)) | inr l ↦ l ]

  pub with_buffer-Buffered :
      (path : List ℕ) (ref : FormatRef) (line : Line) (c : C)
      → line.srv.buf ≡ none
      → (line.size ≡ 0) ⊎ (8 * ngx.pagesize ≤ line.size)
      → (line.flush ≡ 0) ⊎ (1000 ≤ line.flush)
      → Builds
          (λ (buf, c'). Buffered (pointee c.main ref).name path buf × (c'.main ≡ c.main))
          (with_buffer p files sq ngx stale beyond path ref line c)
  with_buffer-Buffered path ref line c none_yet size flush =
      branch (Builds P) (line.size == 0) (built (line.srv.buf, c)) _
        (λ zero. (subst (Buffered fmt path) (sym none_yet) tt, refl))
        λ nonzero.
          >>=-Builds (λ (zone, c'). Zoned fmt path zone × (c'.main ≡ c.main)) P
            (shm_zone p files sq ngx stale beyond line.size fmt path c) _
            (shm_zone-Zoned line.size fmt path c (large nonzero))
            λ (zone, c₁) z. some-Builds P (p.pcalloc 32 c₁.mem) _ λ m e.
              >>=-Builds (λ (buf', c'). Timed buf' × (c'.main ≡ c₁.main)) P
                (with_event p files sq ngx stale beyond line.flush
                  (record { max = line.max; flush = 0; event = none }) (record c₁ { mem = m }))
                _ (with_event-Timed line.flush _ (record c₁ { mem = m }) flush refl refl)
                λ (buf, c₂) t. ((z.0, t.0), t.1 ∙ z.1)
    where
      fmt : List ℕ
      fmt = (pointee c.main ref).name

      P : Option (ℕ × Buf) × C → Type 0
      P (buf, c') = Buffered fmt path buf × (c'.main ≡ c.main)

      large : (line.size == 0) ≡ false → 8 * ngx.pagesize ≤ line.size
      large k = elim size [ inl z ↦ absurd (ground (arith, z, k)) | inr l ↦ l ]
