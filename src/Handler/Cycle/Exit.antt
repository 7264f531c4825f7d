-- ===== src/Handler/Cycle/Exit.antt =====
-- A worker that exits: the loop over the servers ends, and what it leaves of the queues.
use mathlib.Core.Path.{subst}
use ngx_sqlite_log.Base.{
  ℕ, suc, ◌^◌, ◌≤◌, ◌<◌, ◌≡◌, refl, sym, ap, ◌∙◌, inl, inr, ◌⊎◌, not, List, [], ◌∷◌, Option, none,
  some, length, All, ◌==◌, branch, ==_iff,
}
use ngx_sqlite_log.Memory.{Pool, Lists}
use ngx_sqlite_log.Slab.{Slab}
use ngx_sqlite_log.Buf.Invariant.{rows, Owns}
use ngx_sqlite_log.Sqlite.{Sqlite}
use ngx_sqlite_log.Sqlite.Code
use ngx_sqlite_log.Sqlite.Wrap.{State}
use ngx_sqlite_log.Sqlite.Transactions.{Transactions}
use ngx_sqlite_log.Sql.Insert.{insert_text}
use ngx_sqlite_log.Db.{Db, is_some, db_close}
use ngx_sqlite_log.Db.Checkpoint.{
  Answers, attempt, attempt_lem, db_is_wal, db_get_busy_timeout, db_checkpoint,
}
use ngx_sqlite_log.Handler.{Site}
use ngx_sqlite_log.Handler.Flush.{exit_transaction, exit_transaction_lem, Drained}
use ngx_sqlite_log.Handler.Cycle.{
  ServerConf, Worker, exit_buffer, exit_pending, exit_close, exit_server, exit_rest, exit_worker,
}

abbrev Given {ℓ} : {A : Type ℓ} → Option A → Type 0
Given none = ⊥
Given (some a) = Unit

Answers-Given :
    (sq : Sqlite) (random : ℕ → ℕ) (busy_timeout : ℕ) (o : Option (ℕ × ℕ × State sq))
    → Answers sq random busy_timeout o
    → Given o
Answers-Given sq random busy_timeout none h = h
Answers-Given sq random busy_timeout (some a) h = tt

-- A checkpoint ends.
db_checkpoint-Given :
    (sq : Sqlite) (random : ℕ → ℕ) (db : Db) (st : State sq)
    → ((j : ℕ) → random j < 2 ^ 63)
    → Given (db_checkpoint sq random db st)
unfolding db_checkpoint
db_checkpoint-Given sq random db st h =
    let (rc_wal, is_wal, st₁) = db_is_wal sq random db st in
    let (rc_timeout, busy_timeout, st₂) = db_get_busy_timeout sq random db st₁ in
    branch Given (not (rc_wal == Code.ok)) (some (rc_wal, 0, st₁)) _ (λ failed. tt)
      λ good.
        branch Given (not is_wal) (some (Code.ok, 0, st₁)) _ (λ journal. tt)
          λ wal.
            branch Given (not (rc_timeout == Code.ok)) (some (rc_timeout, 0, st₂))
              (attempt sq random db busy_timeout st₂) (λ failed. tt)
              λ fine.
                Answers-Given sq random busy_timeout (attempt sq random db busy_timeout st₂)
                  (attempt_lem sq random db busy_timeout st₂ h)

module _ (slab : Slab) (p : Pool) (lists : Lists p) (sq : Sqlite) (tx : Transactions sq)
    (random : ℕ → ℕ → ℕ) (others : ℕ → ℕ → ℕ) where
  abbrev pub AllOwn : Worker slab sq → Type 0
  AllOwn w = (z : ℕ) → Owns slab (others z) (w.zones z)

  -- Every zone's queue satisfies its invariant, and holds what it held or nothing.
  abbrev pub Kept : Worker slab sq → Worker slab sq → Type 0
  Kept w w' =
      AllOwn w'
      × ((z : ℕ)
          → (rows (w'.zones z).queue ≡ rows (w.zones z).queue) ⊎ (rows (w'.zones z).queue ≡ []))
      × ((b : ℕ) → (w'.bufs b).0 ≡ (w.bufs b).0)

  -- The entries that wait in a buffer are of the format of the connection.
  abbrev pub SuitsBuf : Worker slab sq → Db → Option ℕ → Type 0
  SuitsBuf w db none = Unit {0}
  SuitsBuf w db (some b) =
      (db.fmt.sql_insert ≡ insert_text db.fmt.name db.fmt.ncols)
      × (1 ≤ db.fmt.ncols)
      × All (λ r. length r ≡ db.fmt.ncols) (rows (w.zones (w.bufs b).0).queue)

  abbrev pub Suits : Worker slab sq → Option ServerConf → Type 0
  Suits w none = Unit {0}
  Suits w (some s) = SuitsBuf w s.db s.buf

  Kept-trans : (w w' w'' : Worker slab sq) → Kept w w' → Kept w' w'' → Kept w w''
  Kept-trans w w' w'' (v, r, b) (v', r', b') = (
    v',
    (λ z. elim (r' z) [
      | inr e ↦ inr e
      | inl e ↦ elim (r z) [ inl f ↦ inl (e ∙ f) | inr f ↦ inr (e ∙ f) ]
    ]),
    λ k. b' k ∙ b k,
  )

  Suits-Kept : (w w' : Worker slab sq) (o : Option ServerConf) → Kept w w' → Suits w o → Suits w' o
  Suits-Kept w w' none h u = tt
  Suits-Kept w w' (some s) h u = go s.buf u
    where
      go : (buf : Option ℕ) → SuitsBuf w s.db buf → SuitsBuf w' s.db buf
      go none u = tt
      go (some b) (statement, pos, full) = (
        statement,
        pos,
        subst (λ z. All (λ r. length r ≡ s.db.fmt.ncols) (rows (w'.zones z).queue)) (sym (h.2 b))
            (elim (h.1 (w.bufs b).0) [
              | inl e ↦ subst (All (λ r. length r ≡ s.db.fmt.ncols)) (sym e) full
              | inr e ↦ subst (All (λ r. length r ≡ s.db.fmt.ncols)) (sym e) tt
            ]),
      )

  All-Suits-Kept :
      (w w' : Worker slab sq) (os : List (Option ServerConf))
      → Kept w w'
      → All (Suits w) os
      → All (Suits w') os
  All-Suits-Kept w w' [] h u = tt
  All-Suits-Kept w w' (o ∷ os) h u = (Suits-Kept w w' o h u.0, All-Suits-Kept w w' os h u.1)

  exit_buffer-Kept :
      (m : p.State) (b : ℕ) (s : ServerConf) (w : Worker slab sq)
      → AllOwn w
      → SuitsBuf w s.db (some b)
      → Kept w (exit_buffer slab p lists sq random m b s w).1
  exit_buffer-Kept m b s w v (statement, pos, full) = (
    (λ z.
        branch (λ sh. Owns slab (others z) sh) (zone == z) after.shared (w.zones z)
          (λ e. subst (λ k. Owns slab (others k) after.shared) ((==_iff zone z).0 e) d.0) λ e. v z),
    (λ z.
        branch (λ sh. (rows sh.queue ≡ rows (w.zones z).queue) ⊎ (rows sh.queue ≡ [])) (zone == z)
          after.shared (w.zones z)
          (λ e.
            subst
              (λ k.
                (rows after.shared.queue ≡ rows (w.zones k).queue) ⊎ (rows after.shared.queue ≡ []))
              ((==_iff zone z).0 e) (elim d.1 [ inl u ↦ inl u.1 | inr u ↦ inr u.0 ]))
          λ e. inl refl),
    λ k.
        branch (λ v. v.0 ≡ (w.bufs k).0) (b == k) (zone, after.buf) (w.bufs k)
          (λ e. ap (λ j. (w.bufs j).0) ((==_iff b k).0 e)) λ e. refl,
  )
    where
      zone : ℕ
      zone = (w.bufs b).0

      before : Site slab sq
      before = record { buf = (w.bufs b).1; db = s.db; shared = w.zones zone; dbs = w.dbs }

      after : Site slab sq
      after = exit_transaction slab p lists sq m before

      d : Drained slab p lists sq tx (others zone) (some m) before after
      d =
          exit_transaction_lem slab p lists sq tx (others zone) m before
            (record { statement = statement; some_column = pos; full = full; owns = v zone })

  -- A step of the loop that ends, with the queues kept.
  abbrev pub Leaves {ℓ} : {A : Type ℓ} → Worker slab sq → Option (A × Worker slab sq) → Type 0
  Leaves w none = ⊥
  Leaves w (some (a, w')) = Kept w w'

  exit_pending-Kept :
      (m : p.State) (s : ServerConf) (w : Worker slab sq)
      → AllOwn w
      → SuitsBuf w s.db s.buf
      → Kept w (exit_pending slab p lists sq random m s.buf s w).1
  exit_pending-Kept m s w v u = go s.buf u
    where
      go :
          (buf : Option ℕ)
          → SuitsBuf w s.db buf
          → Kept w (exit_pending slab p lists sq random m buf s w).1
      go none u = (v, (λ z. inl refl), λ b. refl)
      go (some b) u =
          branch (λ (o : ServerConf × Worker slab sq). Kept w o.1) (is_some s.db.conn)
            (exit_buffer slab p lists sq random m b s w) (s, w)
            (λ connected. exit_buffer-Kept m b s w v u) λ closed. (v, (λ z. inl refl), λ b. refl)

  exit_close-Leaves :
      (s : ServerConf) (w w' : Worker slab sq) (o : Option (ℕ × ℕ × State sq))
      → Given o
      → Kept w w'
      → Leaves w (exit_close slab p lists sq random s w' o)
  exit_close-Leaves s w w' none g h = absurd g
  exit_close-Leaves s w w' (some (rc_ckpt, slept, st)) g h =
      let (rc_close, db', st') = db_close sq s.db st in
      branch (λ (o : Option ServerConf × Worker slab sq). Kept w o.1) (is_some s.db.conn)
        (some (record s { db = db' }), record w' { dbs = st' }) (some s, record w' { dbs = st })
        (λ connected. h) λ closed. h

  exit_server-Leaves :
      (i : ℕ) (m : p.State) (o : Option ServerConf) (w : Worker slab sq)
      → ((j : ℕ) → random i j < 2 ^ 63)
      → AllOwn w
      → Suits w o
      → Leaves w (exit_server slab p lists sq random i m o w)
  exit_server-Leaves i m none w bound v u = (v, (λ z. inl refl), λ b. refl)
  exit_server-Leaves i m (some s) w bound v u =
      let (s', w') = exit_pending slab p lists sq random m s.buf s w in
      branch (Leaves w) (not s.enabled) (some (some s, w))
        (exit_close slab p lists sq random s' w' (db_checkpoint sq (random i) s'.db w'.dbs))
        (λ off. (v, (λ z. inl refl), λ b. refl))
        λ on.
          exit_close-Leaves s' w w' (db_checkpoint sq (random i) s'.db w'.dbs)
            (db_checkpoint-Given sq (random i) s'.db w'.dbs bound) (exit_pending-Kept m s w v u)

  exit_rest-Leaves :
      (w : Worker slab sq)
      (rest : Worker slab sq → Option (List (Option ServerConf) × Worker slab sq))
      (r : Option (Option ServerConf × Worker slab sq))
      → Leaves w r
      → ((w' : Worker slab sq) → Kept w w' → Leaves w' (rest w'))
      → Leaves w (exit_rest slab p lists sq random rest r)
  exit_rest-Leaves w rest none h k = absurd h
  exit_rest-Leaves w rest (some (s, w')) h k = go (rest w') (k w' h)
    where
      go :
          (r : Option (List (Option ServerConf) × Worker slab sq))
          → Leaves w' r
          → Leaves w (elim r [ none ↦ none | some (ss, w'') ↦ some (s ∷ ss, w'') ])
      go none l = absurd l
      go (some (ss, w'')) l = Kept-trans w w' w'' h l

  -- For random numbers below 2 ^ 63, queues that satisfy their invariant, and servers each of whose
  -- buffer holds entries of its format, of one column at least, whose INSERT is the text that the
  -- module builds: the loop over the servers of a worker that exits ends, whatever fails in one
  -- server and however long its database is busy. Every queue still satisfies its invariant, and
  -- holds exactly the entries that it held, or none.
  pub exit_worker-Leaves :
      (i : ℕ) (m : p.State) (servers : List (Option ServerConf)) (w : Worker slab sq)
      → ((k j : ℕ) → random k j < 2 ^ 63)
      → AllOwn w
      → All (Suits w) servers
      → Leaves w (exit_worker slab p lists sq random i m servers w)
  unfolding exit_worker
  exit_worker-Leaves i m [] w bound v u = (v, (λ z. inl refl), λ b. refl)
  exit_worker-Leaves i m (o ∷ os) w bound v u =
      exit_rest-Leaves w (exit_worker slab p lists sq random (suc i) m os)
        (exit_server slab p lists sq random i m o w) (exit_server-Leaves i m o w (bound i) v u.0)
        λ w' h. exit_worker-Leaves (suc i) m os w' bound h.0 (All-Suits-Kept w w' os h u.1)
