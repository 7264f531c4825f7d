-- ===== src/Handler/Flush.antt =====
-- src/ngx_http_sqlitelog_buf.c: ngx_http_sqlitelog_buf_flush, which stores the queue when the flush
-- timer has elapsed, and the same steps in ngx_http_sqlitelog_exit_worker of
-- src/ngx_http_sqlitelog_module.c.
use ngx_sqlite_log.Base.{
  ℕ, ◌≤◌, ◌≡◌, ◌≢◌, refl, sym, ap, ◌∙◌, inl, inr, ◌⊎◌, true, false, List, [], ◌∷◌, ◌++◌, Option,
  none, some, arith, length, All, ◌==◌, if◌then◌else◌, branch, ==_iff,
}
use native.Mathlib.Decide.{ℕ_discrete}
use ngx_sqlite_log.Util.{Str}
use ngx_sqlite_log.Memory.{Pool, Lists}
use ngx_sqlite_log.Slab.{Slab}
use ngx_sqlite_log.Node.{Node}
use ngx_sqlite_log.Buf.{Shared, Buf, get_len_locked, list_locked, timer_reset, timer_stop}
use ngx_sqlite_log.Buf.Invariant.{rows, Owns}
use ngx_sqlite_log.Buf.Rows.{parts_of, Listed, list_lem}
use ngx_sqlite_log.Sqlite.{Sqlite}
use ngx_sqlite_log.Sqlite.Code
use ngx_sqlite_log.Sqlite.Transactions.{Transactions, Value}
use ngx_sqlite_log.Sql.Insert.{insert_text}
use ngx_sqlite_log.Db.{db_insert_list}
use ngx_sqlite_log.Db.Insert.{table}
use ngx_sqlite_log.Db.Retry.{Reopens, reopened, db_insert_list_lem}
use ngx_sqlite_log.Handler.{Site}
use ngx_sqlite_log.Handler.Conserve.{fmt_rows}

module _ (slab : Slab) (p : Pool) (lists : Lists p) (sq : Sqlite) where
  -- The steps "Reset", "Unlock" and "Insert", where the list was made.
  abbrev pub drain_listed : (Buf → Buf) → Option (lists.L × p.State) → Site slab sq → Site slab sq
  drain_listed timer none s = s
  drain_listed timer (some (l, m)) s =
      let (rc_insert, db', st') = db_insert_list sq s.db (lists.parts l) s.dbs in
      record s { buf = timer s.buf; db = db'; dbs = st' }

  -- From the step "List" on.
  abbrev pub drain : (Buf → Buf) → p.State → Site slab sq → Site slab sq
  drain timer m s =
      let (list, sh) = list_locked slab p lists s.db.fmt.ncols s.shared m in
      drain_listed timer list (record s { shared = sh })

  abbrev flush_pool : Option p.State → Site slab sq → Site slab sq
  flush_pool none s = s
  flush_pool (some m) s = drain timer_reset m s

  -- From the step "Lock" on.
  abbrev flush_locked : Option p.State → Site slab sq → Site slab sq
  flush_locked pool s =
      if get_len_locked slab s.shared == 0
      then record s { buf = timer_reset s.buf }
      else flush_pool pool s

  -- `meanwhile` is what other workers do to the queue after its length is first read; `pool` is
  -- what nginx returns for a new pool.
  unfoldable pub buf_flush :
      (Shared slab → Shared slab) → Option p.State → Site slab sq → Site slab sq
  buf_flush meanwhile pool s =
      if get_len_locked slab s.shared == 0
      then record s { buf = timer_reset s.buf }
      else flush_locked pool (record s { shared = meanwhile s.shared })

  -- The buffered transaction of a worker that exits.
  unfoldable pub exit_transaction : p.State → Site slab sq → Site slab sq
  exit_transaction m s = if get_len_locked slab s.shared == 0 then s else drain timer_stop m s

parts_of-nonempty : (rs : List (List Str)) → rs ≢ [] → parts_of rs ≡ rs
parts_of-nonempty [] h = absurd (h refl)
parts_of-nonempty (r ∷ rs) h = refl

rows-nonempty : (ns : List Node) → length ns ≢ 0 → rows ns ≢ []
rows-nonempty [] h e = absurd (h refl)
rows-nonempty (n ∷ ns) h e = absurd (ground arith)

rows-empty : (ns : List Node) → length ns ≡ 0 → rows ns ≡ []
rows-empty [] h = refl
rows-empty (n ∷ ns) h = absurd (ground arith)

module _ (slab : Slab) (p : Pool) (lists : Lists p) (sq : Sqlite) (tx : Transactions sq) where
  -- There is nothing to store, or no memory for the pool or the list.
  abbrev pub Skips : Option p.State → Site slab sq → Type 0
  Skips none s = Unit {0}
  Skips (some m) s =
      (rows s.shared.queue ≡ []) ⊎ ((list_locked slab p lists s.db.fmt.ncols s.shared m).0 ≡ none)

  -- The code of the insertion of these entries.
  abbrev pub code_of : Site slab sq → List (List Str) → ℕ
  code_of s parts = (db_insert_list sq s.db parts s.dbs).0

  -- What a flush comes to, from a site that has the lock, by the pool that nginx returns: where it
  -- skips, the queue is as it was and nothing is stored; or the queue is empty, and its entries are
  -- stored, all of them, if the insertion of the list gives SQLITE_OK, or none if it gives another
  -- code.
  abbrev pub Drained : (ℕ → ℕ) → Option p.State → Site slab sq → Site slab sq → Type 0
  Drained others pool s s' =
      Owns slab others s'.shared
      × ((Skips pool s
            × (rows s'.shared.queue ≡ rows s.shared.queue)
            × (table sq tx s'.dbs ≡ table sq tx s.dbs))
          ⊎ ((rows s'.shared.queue ≡ [])
              × (base : List (List Value)) × ((base ≡ table sq tx s.dbs)
                  ⊎ (Reopens sq s.db (rows s.shared.queue) s.dbs
                      × (base ≡ table sq tx (reopened sq s.db (rows s.shared.queue) s.dbs))))
              × (((code_of s (rows s.shared.queue) ≡ Code.ok)
                    × (table sq tx s'.dbs ≡ base ++ fmt_rows sq tx s.db.fmt (rows s.shared.queue)))
                  ⊎ ((code_of s (rows s.shared.queue) ≢ Code.ok) × (table sq tx s'.dbs ≡ base)))))

  -- A site whose queue holds entries of the format.
  pub record Fits (others : ℕ → ℕ) (s : Site slab sq) : Type 0 where
    pub statement : s.db.fmt.sql_insert ≡ insert_text s.db.fmt.name s.db.fmt.ncols
    pub some_column : 1 ≤ s.db.fmt.ncols
    pub full : All (λ r. length r ≡ s.db.fmt.ncols) (rows s.shared.queue)
    pub owns : Owns slab others s.shared

  none_waits :
      (others : ℕ → ℕ) (s : Site slab sq)
      → Fits others s
      → get_len_locked slab s.shared == 0 ≡ true
      → rows s.shared.queue ≡ []
  unfolding get_len_locked
  none_waits others s fits empty =
      rows-empty s.shared.queue (sym fits.owns.counted ∙ (==_iff _ 0).0 empty)

  pub empty-Drained :
      (others : ℕ → ℕ) (pool : Option p.State) (s : Site slab sq) (buf : Buf)
      → Fits others s
      → get_len_locked slab s.shared == 0 ≡ true
      → Drained others pool s (record s { buf = buf })
  empty-Drained others none s buf fits empty = (fits.owns, inl (tt, refl, refl))
  empty-Drained others (some m) s buf fits empty =
      (fits.owns, inl (inl (none_waits others s fits empty), refl, refl))

  drain_listed-Drained :
      (others : ℕ → ℕ) (timer : Buf → Buf) (l : lists.L) (m : p.State) (sh : Shared slab)
      (first : p.State) (s : Site slab sq)
      → Fits others s
      → lists.parts l ≡ rows s.shared.queue
      → sh.queue ≡ []
      → Owns slab others sh
      → Drained others
          (some first)
          s
          (drain_listed slab p lists sq timer (some (l, m)) (record s { shared = sh }))
  drain_listed-Drained others timer l m sh first s fits ps e v =
      let (_, base, found, stored, not_stored) =
        db_insert_list_lem sq tx s.db (lists.parts l) s.dbs fits.statement in
      let rc = (db_insert_list sq s.db (lists.parts l) s.dbs).0 in
      (
        v,
        inr (
          ap rows e,
          base,
          rw (← ps) found,
          elim (ℕ_discrete rc Code.ok) [
            | yes good ↦ inl (
              ap (code_of s) (sym ps) ∙ good,
              stored good ∙ ap (λ r. base ++ fmt_rows sq tx s.db.fmt r) ps,
            )
            | no bad ↦ inr ((λ e. bad (ap (code_of s) ps ∙ e)), not_stored bad)
          ],
        ),
      )

  pub drain-Drained :
      (others : ℕ → ℕ) (timer : Buf → Buf) (m : p.State) (s : Site slab sq)
      → Fits others s
      → get_len_locked slab s.shared ≢ 0
      → Drained others (some m) s (drain slab p lists sq timer m s)
  unfolding get_len_locked
  drain-Drained others timer m s fits some_entry =
      go (list_locked slab p lists s.db.fmt.ncols s.shared m) refl (
        list_lem slab p lists others s.db.fmt.ncols s.shared m fits.some_column fits.full fits.owns)
    where
      nonempty : rows s.shared.queue ≢ []
      nonempty = rows-nonempty s.shared.queue λ e. some_entry (fits.owns.counted ∙ e)

      go :
          (o : Option (lists.L × p.State) × Shared slab)
          → list_locked slab p lists s.db.fmt.ncols s.shared m ≡ o
          → Listed slab p lists others s.db.fmt.ncols s.shared o
          → Drained others
              (some m)
              s
              (drain_listed slab p lists sq timer o.0 (record s { shared = o.1 }))
      go (none, sh) at e =
          (rw e fits.owns, inl (inr (ap (λ o. o.0) at), ap (λ x. rows x.queue) e, refl))
      go (some (l, m'), sh) at (ps, e, v) =
          drain_listed-Drained others timer l m' sh m s fits
            (ps ∙ parts_of-nonempty (rows s.shared.queue) nonempty) e v

  pub nonzero : (a : ℕ) → a == 0 ≡ false → a ≢ 0
  nonzero a h = ground arith

  -- For a format of at least one column whose INSERT is the text that the module builds, and
  -- whatever other workers do to the queue between the two locks, as long as it satisfies its
  -- invariant and its entries have a string for each column: if the queue was empty at first a
  -- flush stores nothing; else, of the entries that wait at the second lock, it leaves them on the
  -- queue and stores nothing, which happens only if there are none or there is no memory for the
  -- pool or the list; or it takes them off the queue, and stores each of them, once and in order,
  -- and no blank row, if the insertion of the list gives SQLITE_OK, and drops them, with nothing
  -- stored, if it gives another code. The queue's invariant is kept.
  pub buf_flush_lem :
      (others : ℕ → ℕ) (meanwhile : Shared slab → Shared slab) (pool : Option p.State)
      (s : Site slab sq)
      → Fits others s
      → Fits others (record s { shared = meanwhile s.shared })
      → ((rows s.shared.queue ≡ [])
          × Drained others pool s (buf_flush slab p lists sq meanwhile pool s))
        ⊎ Drained others pool
            (record s { shared = meanwhile s.shared })
            (buf_flush slab p lists sq meanwhile pool s)
  unfolding buf_flush
  buf_flush_lem others meanwhile pool s first second =
      branch
        (λ s'.
          ((rows s.shared.queue ≡ []) × Drained others pool s s')
          ⊎ Drained others pool (record s { shared = meanwhile s.shared }) s')
        (get_len_locked slab s.shared == 0) (record s { buf = timer_reset s.buf })
        (flush_locked slab p lists sq pool (record s { shared = meanwhile s.shared }))
        (λ empty. inl (
          none_waits others s first empty,
          empty-Drained others pool s (timer_reset s.buf) first empty,
        ))
        λ waiting. inr (
          branch (Drained others pool (record s { shared = meanwhile s.shared }))
            (get_len_locked slab (meanwhile s.shared) == 0)
            (record s { buf = timer_reset s.buf; shared = meanwhile s.shared })
            (flush_pool slab p lists sq pool (record s { shared = meanwhile s.shared }))
            (λ empty.
              empty-Drained others pool (record s { shared = meanwhile s.shared })
                (timer_reset s.buf) second empty)
            λ here. pooled pool (nonzero _ here))
    where
      pooled :
          (pool : Option p.State)
          → get_len_locked slab (meanwhile s.shared) ≢ 0
          → Drained others pool
              (record s { shared = meanwhile s.shared })
              (flush_pool slab p lists sq pool (record s { shared = meanwhile s.shared }))
      pooled none h = (second.owns, inl (tt, refl, refl))
      pooled (some m) h =
          drain-Drained others timer_reset m (record s { shared = meanwhile s.shared }) second h

  -- The buffered transaction of a worker that exits, under the same conditions on the format and
  -- the queue: the entries that wait are left on the queue and nothing is stored, which happens
  -- only if there are none or there is no memory for the list; or they leave it, and each is
  -- stored, once and in order, and no blank row, if the insertion of the list gives SQLITE_OK, and
  -- none is if it gives another code. The queue's invariant is kept.
  pub exit_transaction_lem :
      (others : ℕ → ℕ) (m : p.State) (s : Site slab sq)
      → Fits others s
      → Drained others (some m) s (exit_transaction slab p lists sq m s)
  unfolding exit_transaction
  exit_transaction_lem others m s fits =
      branch (Drained others (some m) s) (get_len_locked slab s.shared == 0) s
        (drain slab p lists sq timer_stop m s)
        (λ empty. empty-Drained others (some m) s s.buf fits empty)
        λ waiting. drain-Drained others timer_stop m s fits (nonzero _ waiting)
