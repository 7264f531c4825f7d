-- ===== src/Handler/Cycle/Start.antt =====
-- A worker that starts: which servers are on, and which flush timers run.
use ngx_sqlite_log.Base.{
  ℕ, suc, ◌≡◌, ◌≢◌, refl, inl, inr, ◌⊎◌, Bool, true, false, not, List, [], ◌∷◌, Option, none, some,
  arith, All, ◌==◌, branch, Bool-cases, ==_refl, ne_of_not, eq_of_not,
}
use ngx_sqlite_log.Slab.{Slab}
use ngx_sqlite_log.Buf.{timer_start, is_unset}
use ngx_sqlite_log.Sqlite.{Sqlite}
use ngx_sqlite_log.Sqlite.Code
use ngx_sqlite_log.Sqlite.Wrap.{State}
use ngx_sqlite_log.Db.{db_init}
use ngx_sqlite_log.Handler.Cycle.{ServerConf, Worker, set_at, flush_setup, init_server, init_worker}

timer_start_sets :
    (flush max : ℕ) (event : Option Bool)
    → not (flush == 0) ≡ true
    → is_unset (timer_start (record { max = max; flush = flush; event = event })).event ≡ false
unfolding timer_start
timer_start_sets flush max none h = ground arith
timer_start_sets flush max (some true) h = ground arith
timer_start_sets flush max (some false) h = ground arith

abbrev IsGiven {ℓ} : {A : Type ℓ} → Option A → Type 0
IsGiven none = ⊥
IsGiven (some a) = Unit

module _ (slab : Slab) (sq : Sqlite) where
  -- A buffer that is flushed in time has no event whose timer is not set, and its flush event has a
  -- connection.
  abbrev pub Running : Worker slab sq → ℕ → Type 0
  Running w b =
      ((w.bufs b).1.flush ≡ 0) ⊎ ((is_unset (w.bufs b).1.event ≡ false) × IsGiven (w.flush_db b))

  abbrev RunningBuf : Worker slab sq → Option ℕ → Type 0
  RunningBuf w none = Unit {0}
  RunningBuf w (some b) = Running w b

  -- Where a server is on, its buffer is running.
  abbrev pub IfOn : Worker slab sq → Option ServerConf → Type 0
  IfOn w none = Unit {0}
  IfOn w (some s) = s.enabled ≡ true → RunningBuf w s.buf

  abbrev Keeps : Worker slab sq → Worker slab sq → Type 0
  Keeps w w' = (b : ℕ) → Running w b → Running w' b

  -- What the start makes of a server, in the state that it finds.
  abbrev pub Started : Option ServerConf → Option ServerConf → Type 0
  Started none none = Unit {0}
  Started none (some s') = ⊥
  Started (some s) none = ⊥
  Started (some s) (some s') =
      ((s.enabled ≡ false) × (s' ≡ s))
      ⊎ ((s.enabled ≡ true)
          × (st : State sq) × (let (rc, db', st') = db_init sq s.db st in
              ((rc ≡ Code.ok) × (s' ≡ record s { db = db' }))
              ⊎ ((rc ≢ Code.ok) × (s' ≡ record s { enabled = false; db = db' }))))

  abbrev pub AllStarted : List (Option ServerConf) → List (Option ServerConf) → Type 0
  AllStarted [] [] = Unit {0}
  AllStarted [] (s' ∷ ss') = ⊥
  AllStarted (s ∷ ss) [] = ⊥
  AllStarted (s ∷ ss) (s' ∷ ss') = Started s s' × AllStarted ss ss'

  -- The worker with the buffer's timer started.
  abbrev ran : ℕ → ℕ → Worker slab sq → Worker slab sq
  ran i b w = record w {
    bufs = set_at w.bufs b ((w.bufs b).0, timer_start (w.bufs b).1);
    flush_db = set_at w.flush_db b (some i);
  }

  ran-Running :
      (i b c : ℕ) (w : Worker slab sq)
      → b == c ≡ true
      → not ((w.bufs b).1.flush == 0) ≡ true
      → Running (ran i b w) c
  ran-Running i b c w e h =
      inr
        (rw e (timer_start_sets (w.bufs b).1.flush (w.bufs b).1.max (w.bufs b).1.event h), rw e tt)

  flush_setup-Keeps :
      (i : ℕ) (buf : Option ℕ) (w : Worker slab sq) → Keeps w (flush_setup slab sq i buf w)
  flush_setup-Keeps i none w c h = h
  flush_setup-Keeps i (some b) w c h =
      branch (λ (w' : Worker slab sq). Running w' c) (not ((w.bufs b).1.flush == 0)) (ran i b w) w
        (λ flushed. elim (Bool-cases (b == c)) [
          | inl e ↦ ran-Running i b c w e flushed
          | inr e ↦ rw e h
        ])
        λ never. h

  flush_setup-Running :
      (i : ℕ) (buf : Option ℕ) (w : Worker slab sq) → RunningBuf (flush_setup slab sq i buf w) buf
  flush_setup-Running i none w = tt
  flush_setup-Running i (some b) w =
      branch (λ (w' : Worker slab sq). Running w' b) (not ((w.bufs b).1.flush == 0)) (ran i b w) w
        (λ flushed. ran-Running i b b w (==_refl b) flushed)
        λ never. inl (eq_of_not (w.bufs b).1.flush 0 never)

  -- One round of the loop.
  abbrev Round : Worker slab sq → Option ServerConf → Option ServerConf × Worker slab sq → Type 0
  Round w s (s', w') = Started s s' × IfOn w' s' × Keeps w w'

  init_server-Round :
      (i : ℕ) (s : Option ServerConf) (w : Worker slab sq) → Round w s (init_server slab sq i s w)
  init_server-Round i none w = (tt, tt, λ b h. h)
  init_server-Round i (some s) w =
      let (rc, db', st') = db_init sq s.db w.dbs in
      let w₁ = record w { dbs = st' } in
      branch (Round w (some s)) (not s.enabled) (some s, w) _
        (λ disabled. (
          inl (ground (arith, disabled), refl),
          (λ e. absurd (ground (arith, disabled, e))),
          λ b h. h,
        ))
        λ enabled.
          branch (Round w (some s)) (not (rc == Code.ok))
            (some (record s { enabled = false; db = db' }), w₁)
            (some (record s { db = db' }), flush_setup slab sq i s.buf w₁)
            (λ bad. (
              inr (ground (arith, enabled), w.dbs, inr (ne_of_not rc Code.ok bad, refl)),
              (λ e. absurd (ground (arith, e))),
              λ b h. h,
            ))
            λ good. (
              inr (ground (arith, enabled), w.dbs, inl (eq_of_not rc Code.ok good, refl)),
              (λ e. flush_setup-Running i s.buf w₁),
              flush_setup-Keeps i s.buf w₁,
            )

  IfOn-Keeps : (w w' : Worker slab sq) (s : Option ServerConf) → Keeps w w' → IfOn w s → IfOn w' s
  IfOn-Keeps w w' none h u = tt
  IfOn-Keeps w w' (some s) h u = λ e. go s.buf (u e)
    where
      go : (buf : Option ℕ) → RunningBuf w buf → RunningBuf w' buf
      go none u = tt
      go (some b) u = h b u

  init_worker-Rounds :
      (i : ℕ) (ss : List (Option ServerConf)) (w : Worker slab sq)
      → let (ss', w') = init_worker slab sq i ss w in
        AllStarted ss ss' × All (IfOn w') ss' × Keeps w w'
  unfolding init_worker
  init_worker-Rounds i [] w = (tt, tt, λ b h. h)
  init_worker-Rounds i (s ∷ ss) w =
      let (s', w₁) = init_server slab sq i s w in
      let (started, on, keeps) = init_server-Round i s w in
      let (ss', w₂) = init_worker slab sq (suc i) ss w₁ in
      let (all_started, all_on, all_keep) = init_worker-Rounds (suc i) ss w₁ in
      (
        (started, all_started),
        (IfOn-Keeps w₁ w₂ s' all_keep on, all_on),
        λ b h. all_keep b (keeps b h),
      )

  -- When a worker has started, a server that was off is as it was; one that was on is still on,
  -- with the connection that its database gave, exactly if the opening of the database returned
  -- SQLITE_OK, whatever became of the other servers. For each server that is on, the flush timer of
  -- its buffer is set, if it has a flush time and an event, and the event has a connection to use.
  pub init_worker-Starts :
      (i : ℕ) (ss : List (Option ServerConf)) (w : Worker slab sq)
      → let (ss', w') = init_worker slab sq i ss w in AllStarted ss ss' × All (IfOn w') ss'
  init_worker-Starts i ss w = let (a, b, c) = init_worker-Rounds i ss w in (a, b)
