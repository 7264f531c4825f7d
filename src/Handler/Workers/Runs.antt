-- ===== src/Handler/Workers/Runs.antt =====
-- The handler of buffered requests, run without interruption, as steps of the system.
use ngx_sqlite_log.Base.{
  ℕ, ◌≤◌, ◌≡◌, ◌≢◌, refl, inl, inr, not, List, [], ◌∷◌, ◌++◌, Option, none, some, length, All, ◌==◌,
  if◌then◌else◌, Bool-cases,
}
use ngx_sqlite_log.Util.{Str}
use ngx_sqlite_log.Memory.{Pool, Lists}
use ngx_sqlite_log.Slab.{Slab}
use ngx_sqlite_log.Buf.{
  NgxRc, ok, done, error, Shared, Buf, push_locked, unshift_locked, list_locked, timer_reset,
}
use ngx_sqlite_log.Buf.Invariant.{rows, Owns}
use ngx_sqlite_log.Buf.Rows.{parts_of}
use ngx_sqlite_log.Sqlite.{Sqlite}
use ngx_sqlite_log.Sqlite.Code
use ngx_sqlite_log.Sqlite.Wrap.{State}
use ngx_sqlite_log.Db.{Db, Fmt, db_insert_list}
use ngx_sqlite_log.Db.Retry.{Stays}
use ngx_sqlite_log.Handler.{Site, unshift_rc, unshift_entry, insert_listed, after_push, handle_n}
use ngx_sqlite_log.Handler.Workers.{
  section_list, section_after, lock_section, System, Batch, batch, back_of, to_list, pushed,
  refused, taken, queued, inserted, unshifted, request, insert, unshift, Reach, start, later,
}
use ngx_sqlite_log.Handler.Workers.Locked.{Sectioned, lock_section_lem}

module _ (slab : Slab) (p : Pool) (lists : Lists p) (sq : Sqlite) where
  -- The site of a worker with this buffer and this connection.
  abbrev pub site_of : Buf → Db → System slab sq → Site slab sq
  site_of buf db s = record { buf = buf; db = db; shared = s.shared; dbs = s.dbs }

  -- A handler's result as the end of a run: what the workers share is as the run leaves it, nothing
  -- stays in hand, and with NGX_OK nothing is given up.
  abbrev pub Ran : Fmt → ℕ → List Str → System slab sq → NgxRc × Site slab sq → Type 0
  Ran fmt max entry s (rc, s') =
      (t : System slab sq) × Reach slab p lists sq fmt max s t
      × (t.shared ≡ s'.shared)
      × (t.dbs ≡ s'.dbs)
      × (t.flight ≡ s.flight)
      × (t.backs ≡ s.backs)
      × (t.arrived ≡ s.arrived ++ entry ∷ [])
      × (rc ≡ ok → t.dropped ≡ s.dropped)

  error_ne_ok : error ≡ ok → ⊥
  error_ne_ok e = cc

  module _ (fmt : Fmt) (buf : Buf) (entry : List Str) (s : System slab sq) where
    -- The end of a run in which the push failed and the list was stored.
    unshift_entry-Ran :
        (s' : Site slab sq) (t : System slab sq)
        → Reach slab p lists sq fmt buf.max s t
        → t.shared ≡ s'.shared
        → t.dbs ≡ s'.dbs
        → t.flight ≡ s.flight
        → t.backs ≡ entry ∷ s.backs
        → t.arrived ≡ s.arrived ++ entry ∷ []
        → t.dropped ≡ s.dropped
        → Ran fmt buf.max entry s (unshift_entry slab sq entry error s')
    unshift_entry-Ran s' t r sh st fl ba ar dr =
        go (unshift_locked slab entry s'.shared) (rw (← sh) (later r (unshift [] entry s.backs ba)))
      where
        go :
            (o : NgxRc × Shared slab)
            → Reach slab p lists sq fmt buf.max s (unshifted slab sq entry s.backs o t)
            → Ran fmt buf.max entry s (unshift_rc slab sq o.0, record s' { shared = o.1 })
        go (ok, sh') r' =
            (unshifted slab sq entry s.backs (ok, sh') t, r', refl, st, fl, refl, ar, λ e. dr)
        go (done, sh') r' = (
          unshifted slab sq entry s.backs (done, sh') t,
          r',
          refl,
          st,
          fl,
          refl,
          ar,
          λ e. absurd (error_ne_ok e),
        )
        go (error, sh') r' = (
          unshifted slab sq entry s.backs (error, sh') t,
          r',
          refl,
          st,
          fl,
          refl,
          ar,
          λ e. absurd (error_ne_ok e),
        )

    -- The run from a batch in hand on.
    insert_listed-Ran :
        (rc : NgxRc) (l : lists.L) (m : p.State) (sh : Shared slab) (db : Db)
        → db.fmt ≡ fmt
        → Stays sq db (lists.parts l) s.dbs
        → rc ≢ ok
        → Reach slab p lists sq fmt buf.max s (pushed slab p lists sq entry (taken rc (l, m), sh) s)
        → Ran fmt buf.max entry s (
            insert_listed slab p lists sq entry rc
              (some (l, m))
              (record { buf = buf; db = db; shared = sh; dbs = s.dbs }))
    insert_listed-Ran rc l m sh db f stays h r =
        go (db_insert_list sq db (lists.parts l) s.dbs)
          (later r (insert [] b s.flight db refl f stays))
      where
        b : Batch
        b = batch (lists.parts l) (back_of rc entry)

        held : System slab sq
        held = pushed slab p lists sq entry (taken rc (l, m), sh) s

        after : Db → State sq → Site slab sq
        after db' st' = record { buf = timer_reset buf; db = db'; shared = sh; dbs = st' }

        stored :
            (rc : NgxRc) (db' : Db) (st' : State sq) (t : System slab sq)
            → rc ≢ ok
            → Reach slab p lists sq fmt buf.max s t
            → t.shared ≡ sh
            → t.dbs ≡ st'
            → t.flight ≡ s.flight
            → t.backs ≡ to_list (back_of rc entry) ++ s.backs
            → t.arrived ≡ s.arrived ++ entry ∷ []
            → t.dropped ≡ s.dropped
            → Ran fmt buf.max entry s (unshift_entry slab sq entry rc (after db' st'))
        stored ok db' st' t h r' e st fl ba ar dr = absurd (h refl)
        stored done db' st' t h r' e st fl ba ar dr = (t, r', e, st, fl, ba, ar, λ k. dr)
        stored error db' st' t h r' e st fl ba ar dr =
            unshift_entry-Ran (after db' st') t r' e st fl ba ar dr

        go :
            (o : ℕ × Db × State sq)
            → Reach slab p lists sq fmt buf.max s (inserted slab sq b s.flight o held)
            → Ran fmt buf.max entry s (
                if not (o.0 == Code.ok)
                then (error, after o.1 o.2)
                else unshift_entry slab sq entry rc (after o.1 o.2))
        go (rc_insert, db', st') r' = elim (Bool-cases (rc_insert == Code.ok)) [
          | inl good ↦
              let t = inserted slab sq b s.flight (rc_insert, db', st') held in
              rw good (
                stored rc db' st' t h r' (rw good refl) (rw good refl) (rw good refl) (rw good refl)
                  (rw good refl) (rw good refl))
          | inr bad ↦
              let t = inserted slab sq b s.flight (rc_insert, db', st') held in
              rw bad (
                t,
                r',
                rw bad refl,
                rw bad refl,
                rw bad refl,
                rw bad refl,
                rw bad refl,
                λ e. absurd (error_ne_ok e),
              )
        ]

    -- From the step "List" on, for a push that returned NGX_DONE or NGX_ERROR.
    execute_buffer-Ran :
        (rc : NgxRc) (db : Db) (m : p.State) (o : Option (lists.L × p.State) × Shared slab)
        → db.fmt ≡ fmt
        → Stays sq db (rows s.shared.queue ++ entry ∷ []) s.dbs
        → Stays sq db (parts_of (rows s.shared.queue)) s.dbs
        → rc ≢ ok
        → Sectioned slab p lists entry s.shared (section_list slab p lists rc o)
        → Reach slab p lists sq fmt buf.max s
            (pushed slab p lists sq entry (section_list slab p lists rc o) s)
        → Ran fmt buf.max entry s (
            insert_listed slab p lists sq entry rc o.0
              (record { buf = buf; db = db; shared = o.1; dbs = s.dbs }))
    execute_buffer-Ran rc db m (none, sh) f stay_new stay_old h u r = (
      pushed slab p lists sq entry (refused rc, sh) s,
      r,
      refl,
      refl,
      refl,
      refl,
      refl,
      λ e. absurd (error_ne_ok e),
    )
    execute_buffer-Ran ok db m (some (l, m'), sh) f stay_new stay_old h u r = absurd u
    execute_buffer-Ran done db m (some (l, m'), sh) f stay_new stay_old h u r =
        insert_listed-Ran done l m' sh db f (rw u.1 stay_new) h r
    execute_buffer-Ran error db m (some (l, m'), sh) f stay_new stay_old h u r =
        insert_listed-Ran error l m' sh db f (rw u.1 stay_old) h r

    done_ne_ok : done ≡ ok → ⊥
    done_ne_ok e = cc

    after_push-Ran :
        (db : Db) (m : p.State) (o : NgxRc × Shared slab)
        → db.fmt ≡ fmt
        → Stays sq db (rows s.shared.queue ++ entry ∷ []) s.dbs
        → Stays sq db (parts_of (rows s.shared.queue)) s.dbs
        → Sectioned slab p lists entry s.shared (section_after slab p lists entry m o)
        → Reach slab p lists sq fmt buf.max s
            (pushed slab p lists sq entry (section_after slab p lists entry m o) s)
        → Ran fmt buf.max entry s (
            after_push slab p lists sq entry o.0 m
              (record { buf = buf; db = db; shared = o.1; dbs = s.dbs }))
    after_push-Ran db m (ok, sh) f stay_new stay_old u r =
        (pushed slab p lists sq entry (queued, sh) s, r, refl, refl, refl, refl, refl, λ e. refl)
    after_push-Ran db m (done, sh) f stay_new stay_old u r =
        execute_buffer-Ran done db m (list_locked slab p lists (length entry) sh m) f stay_new
          stay_old done_ne_ok u r
    after_push-Ran db m (error, sh) f stay_new stay_old u r =
        execute_buffer-Ran error db m (list_locked slab p lists (length entry) sh m) f stay_new
          stay_old error_ne_ok u r

  -- For entries of the format, all with at least one string, a queue that satisfies its invariant,
  -- and insertions that need no second attempt: the handler of buffered requests is a run of the
  -- system's steps, which leaves the shared memory and the databases as the handler does, adds the
  -- entry to those that arrived and leaves nothing in this worker's hands. If the handler returns
  -- NGX_OK, the run gave no entry up.
  pub handle_n-Ran :
      (others : ℕ → ℕ) (fmt : Fmt) (buf : Buf) (db : Db) (entry : List Str) (m : p.State)
      (s : System slab sq)
      → db.fmt ≡ fmt
      → length entry ≡ fmt.ncols
      → 1 ≤ length entry
      → All (λ r. length r ≡ length entry) (rows s.shared.queue)
      → Owns slab others s.shared
      → Stays sq db (rows s.shared.queue ++ entry ∷ []) s.dbs
      → Stays sq db (parts_of (rows s.shared.queue)) s.dbs
      → Ran fmt buf.max entry s (handle_n slab p lists sq entry m (site_of buf db s))
  unfolding handle_n lock_section
  handle_n-Ran others fmt buf db entry m s f w pos all v stay_new stay_old =
      after_push-Ran fmt buf entry s db m (push_locked slab buf.max entry s.shared) f stay_new
        stay_old (lock_section_lem slab p lists others buf.max entry m s.shared pos all v).1
        (later start (request entry m w))
