-- ===== src/Handler/Conserve.antt =====
-- No entry is lost or stored twice: the rows of the table and the entries that wait on the queue,
-- one after the other, before and after a request is handled.
use ngx_sqlite_log.Base.{
  ℕ, ◌≤◌, ◌≡◌, ◌≢◌, refl, sym, ap, ◌∙◌, inl, inr, ◌⊎◌, not, List, [], ◌∷◌, ◌++◌, map, Option, none,
  some, length, All, All-append, ◌==◌, branch, ne_of_not, eq_of_not, append_assoc, append-nil,
}
use ngx_sqlite_log.Util.{Str}
use ngx_sqlite_log.Memory.{Pool, Lists}
use ngx_sqlite_log.Slab.{Slab}
use ngx_sqlite_log.Buf.{
  NgxRc, ok, done, error, Shared, push_locked, unshift_locked, list_locked, timer_reset,
}
use ngx_sqlite_log.Buf.Invariant.{rows, Owns, Pushed, push_lem, Unshifted, unshift_lem}
use ngx_sqlite_log.Buf.Rows.{parts_of, Listed, list_lem}
use ngx_sqlite_log.Sqlite.{Sqlite}
use ngx_sqlite_log.Sqlite.Code
use ngx_sqlite_log.Sqlite.Transactions.{Transactions, Value}
use ngx_sqlite_log.Sql.Insert.{insert_text}
use ngx_sqlite_log.Db.{Fmt, db_insert_list}
use ngx_sqlite_log.Db.Insert.{table, stored_row}
use ngx_sqlite_log.Db.Retry.{Reopens, reopened, db_insert_list_lem}
use ngx_sqlite_log.Handler.{
  Site, unshift_rc, unshift_entry, insert_listed, execute_buffer, after_push, handle_n,
}

module _ (sq : Sqlite) (tx : Transactions sq) where
  -- The rows that the table holds of these entries when they are stored.
  abbrev pub fmt_rows : Fmt → List (List Str) → List (List Value)
  fmt_rows fmt rs = map (stored_row sq tx fmt) rs

  pub fmt_rows-append :
      (fmt : Fmt) (rs ss : List (List Str))
      → fmt_rows fmt (rs ++ ss) ≡ fmt_rows fmt rs ++ fmt_rows fmt ss
  fmt_rows-append fmt [] ss = refl
  fmt_rows-append fmt (r ∷ rs) ss = ap (◌∷◌ (stored_row sq tx fmt r)) (fmt_rows-append fmt rs ss)

pub parts_of-more : (rs : List (List Str)) (r : List Str) → parts_of (rs ++ r ∷ []) ≡ rs ++ r ∷ []
parts_of-more [] r = refl
parts_of-more (x ∷ rs) r = refl

parts_of-cases : (rs : List (List Str)) → (parts_of rs ≡ rs) ⊎ ((rs ≡ []) × (parts_of rs ≡ [] ∷ []))
parts_of-cases [] = inr (refl, refl)
parts_of-cases (x ∷ rs) = inl refl

module _ (slab : Slab) (p : Pool) (lists : Lists p) (sq : Sqlite) (tx : Transactions sq) where
  -- A table that the connection may find: the present one, or, only where the first attempt to
  -- store the list that was made after the push failed and the code opens the connection again, the
  -- one that it finds then.
  abbrev pub Found : List Str → List (List Str) → Site slab sq → List (List Value) → Type 0
  Found entry old s base =
      (base ≡ table sq tx s.dbs)
      ⊎ ((parts : List (List Str)) × ((parts ≡ parts_of old) ⊎ (parts ≡ old ++ entry ∷ []))
          × Reopens sq s.db parts s.dbs
          × (base ≡ table sq tx (reopened sq s.db parts s.dbs)))

  -- No list could be made of the queue: the entries wait on it, and nothing is stored.
  abbrev pub Unlisted : List Str → List (List Str) → Site slab sq → Site slab sq → Type 0
  Unlisted entry old s s' =
      ((m : p.State) × ((list_locked slab p lists (length entry) s'.shared m).0 ≡ none))
      × ((rows s'.shared.queue ≡ old) ⊎ (rows s'.shared.queue ≡ old ++ entry ∷ []))
      × (table sq tx s'.dbs ≡ table sq tx s.dbs)

  -- The queue was listed, and then the insertion failed, or an entry that is not stored found no
  -- room on the queue.
  abbrev pub Dropped : List Str → List (List Str) → Site slab sq → Site slab sq → Type 0
  Dropped entry old s s' =
      (parts : List (List Str)) × ((parts ≡ parts_of old) ⊎ (parts ≡ old ++ entry ∷ []))
      × (rows s'.shared.queue ≡ [])
      × (base : List (List Value)) × Found entry old s base
      × ((((db_insert_list sq s.db parts s.dbs).0 ≢ Code.ok) × (table sq tx s'.dbs ≡ base))
          ⊎ (((db_insert_list sq s.db parts s.dbs).0 ≡ Code.ok)
              × ((sh : Shared slab) × (sh.queue ≡ []) × ((unshift_locked slab entry sh).0 ≡ error))
              × (table sq tx s'.dbs ≡ base ++ fmt_rows sq tx s.db.fmt (parts_of old))))

  -- Given the entries `old` that waited before. On success the table and then the queue hold what
  -- the table held, the old entries and the new one; or a blank row and the new one, if no entry
  -- waited. On failure no list could be made, or the queue was listed and entries are dropped.
  abbrev pub Kept : List Str → List (List Str) → Site slab sq → NgxRc × Site slab sq → Type 0
  Kept entry old s (ok, s') =
      (base : List (List Value)) × (listed : List (List Str)) × Found entry old s base
      × ((listed ≡ old) ⊎ ((old ≡ []) × (listed ≡ [] ∷ [])))
      × (table sq tx s'.dbs ++ fmt_rows sq tx s.db.fmt (rows s'.shared.queue)
          ≡ base ++ fmt_rows sq tx s.db.fmt (listed ++ entry ∷ []))
  Kept entry old s (done, s') = ⊥
  Kept entry old s (error, s') = Unlisted entry old s s' ⊎ Dropped entry old s s'

  abbrev pub Handled :
      (ℕ → ℕ) → List Str → List (List Str) → Site slab sq → NgxRc × Site slab sq → Type 0
  Handled others entry old s o = Owns slab others o.1.shared × Kept entry old s o

  -- Which entries are listed after a push.
  abbrev Batch : NgxRc → List Str → List (List Str) → List (List Str) → Type 0
  Batch ok entry old listed = ⊥
  Batch done entry old listed = listed ≡ old ++ entry ∷ []
  Batch error entry old listed = listed ≡ parts_of old

  unshift_entry_lem :
      (others : ℕ → ℕ) (entry : List Str) (rc_push : NgxRc) (old listed : List (List Str))
      (base : List (List Value)) (s s' : Site slab sq)
      → Batch rc_push entry old listed
      → Found entry old s base
      → table sq tx s'.dbs ≡ base ++ fmt_rows sq tx s.db.fmt listed
      → (db_insert_list sq s.db listed s.dbs).0 ≡ Code.ok
      → Owns slab others s'.shared
      → s'.shared.queue ≡ []
      → Handled others entry old s (unshift_entry slab sq entry rc_push s')
  unshift_entry_lem others entry ok old listed base s s' b f t k v e = absurd b
  unshift_entry_lem others entry done old listed base s s' b f t k v e = (
    v,
    (
      base,
      old,
      f,
      inl refl,
      ap (λ q. table sq tx s'.dbs ++ fmt_rows sq tx s.db.fmt (rows q)) e
          ∙ append-nil (table sq tx s'.dbs)
          ∙ t
          ∙ ap (λ r. base ++ fmt_rows sq tx s.db.fmt r) b,
    ),
  )
  unshift_entry_lem others entry error old listed base s s' b f t k v e =
      go (unshift_locked slab entry s'.shared) refl (unshift_lem slab others entry s'.shared v)
    where
      t' : table sq tx s'.dbs ≡ base ++ fmt_rows sq tx s.db.fmt (parts_of old)
      t' = t ∙ ap (λ r. base ++ fmt_rows sq tx s.db.fmt r) b

      go :
          (o : NgxRc × Shared slab)
          → unshift_locked slab entry s'.shared ≡ o
          → Owns slab others o.1 × Unshifted slab entry s'.shared o
          → Handled others entry old s (unshift_rc slab sq o.0, record s' { shared = o.1 })
      go (ok, sh) at (w, u) = (
        w,
        (
          base,
          parts_of old,
          f,
          parts_of-cases old,
          ap (λ r. table sq tx s'.dbs ++ fmt_rows sq tx s.db.fmt r) (u ∙ ap (λ q. entry ∷ rows q) e)
              ∙ ap (λ r. r ++ fmt_rows sq tx s.db.fmt (entry ∷ [])) t'
              ∙ append_assoc base (fmt_rows sq tx s.db.fmt (parts_of old))
                  (fmt_rows sq tx s.db.fmt (entry ∷ []))
              ∙ ap (λ r. base ++ r)
                  (sym (fmt_rows-append sq tx s.db.fmt (parts_of old) (entry ∷ []))),
        ),
      )
      go (done, sh) at (w, u) = absurd u
      go (error, sh) at (w, u) = (
        w,
        inr (listed, inl b, u ∙ ap rows e, base, f, inr (k, (s'.shared, e, ap (λ o. o.0) at), t')),
      )

  insert_listed_lem :
      (others : ℕ → ℕ) (entry : List Str) (rc_push : NgxRc) (old : List (List Str)) (l : lists.L)
      (m : p.State) (s : Site slab sq)
      → s.db.fmt.sql_insert ≡ insert_text s.db.fmt.name s.db.fmt.ncols
      → Batch rc_push entry old (lists.parts l)
      → Owns slab others s.shared
      → s.shared.queue ≡ []
      → Handled others entry old s (insert_listed slab p lists sq entry rc_push (some (l, m)) s)
  insert_listed_lem others entry rc_push old l m s h b v e =
      let (rc, db', st') = db_insert_list sq s.db (lists.parts l) s.dbs in
      let (_, base, found, stored, not_stored) =
        db_insert_list_lem sq tx s.db (lists.parts l) s.dbs h in
      let s' = record s { buf = timer_reset s.buf; db = db'; dbs = st' } in
      let f = found_one rc_push (lists.parts l) base b found in
      branch (Handled others entry old s) (not (rc == Code.ok)) (error, s')
        (unshift_entry slab sq entry rc_push s')
        (λ bad. (
          v,
          inr (
            lists.parts l,
            listed_as rc_push (lists.parts l) b,
            ap rows e,
            base,
            f,
            inl (ne_of_not rc Code.ok bad, not_stored (ne_of_not rc Code.ok bad)),
          ),
        ))
        λ good.
          unshift_entry_lem others entry rc_push old (lists.parts l) base s s' b f
            (stored (eq_of_not rc Code.ok good)) (eq_of_not rc Code.ok good) v e
    where
      listed_as :
          (rc_push : NgxRc) (parts : List (List Str))
          → Batch rc_push entry old parts
          → (parts ≡ parts_of old) ⊎ (parts ≡ old ++ entry ∷ [])
      listed_as ok parts b = absurd b
      listed_as done parts b = inr b
      listed_as error parts b = inl b

      found_one :
          (rc_push : NgxRc) (parts : List (List Str)) (base : List (List Value))
          → Batch rc_push entry old parts
          → (base ≡ table sq tx s.dbs)
            ⊎ (Reopens sq s.db parts s.dbs × (base ≡ table sq tx (reopened sq s.db parts s.dbs)))
          → Found entry old s base
      found_one rc_push parts base b (inl x) = inl x
      found_one ok parts base b (inr x) = absurd b
      found_one done parts base b (inr x) = inr (parts, inr b, x.0, x.1)
      found_one error parts base b (inr x) = inr (parts, inl b, x.0, x.1)

  execute_buffer_lem :
      (others : ℕ → ℕ) (entry : List Str) (rc_push : NgxRc) (old : List (List Str)) (m : p.State)
      (s : Site slab sq)
      → s.db.fmt.sql_insert ≡ insert_text s.db.fmt.name s.db.fmt.ncols
      → 1 ≤ length entry
      → All (λ r. length r ≡ length entry) (rows s.shared.queue)
      → Batch rc_push entry old (parts_of (rows s.shared.queue))
      → (rows s.shared.queue ≡ old) ⊎ (rows s.shared.queue ≡ old ++ entry ∷ [])
      → Owns slab others s.shared
      → Handled others entry old s (execute_buffer slab p lists sq entry rc_push m s)
  execute_buffer_lem others entry rc_push old m s h pos all b waits v =
      go (list_locked slab p lists (length entry) s.shared m) refl
        (list_lem slab p lists others (length entry) s.shared m pos all v)
    where
      go :
          (o : Option (lists.L × p.State) × Shared slab)
          → list_locked slab p lists (length entry) s.shared m ≡ o
          → Listed slab p lists others (length entry) s.shared o
          → Handled others entry old s
              (insert_listed slab p lists sq entry rc_push o.0 (record s { shared = o.1 }))
      go (none, sh) at e = rw e (v, inl ((m, ap (λ o. o.0) at), waits, refl))
      go (some (l, m'), sh) at (ps, e, w) =
          insert_listed_lem others entry rc_push old l m' (record s { shared = sh }) h (rw ps b) w e

  -- For a format whose INSERT is the text that the module builds, and entries that all have the
  -- same number of strings, at least one: if the handler of buffered requests returns NGX_OK, the
  -- table followed by the queue is the table that was found followed by the entries that waited
  -- and the new one, each once and in order, but that a blank row may stand for the entries that
  -- waited where there were none; if it returns NGX_ERROR, then no list could be made of the
  -- queue, the entries that waited are on it, and the new one where it was pushed, and nothing is
  -- stored; or the queue is empty, and the insertion of the list gave another code than SQLITE_OK
  -- and the table has gained nothing, or it gave SQLITE_OK and the table has gained, once and in
  -- order, all the entries that waited, or a blank row if none did, and the new one found no room
  -- on the queue. The table that was found is the one before the request, or, only where a first
  -- attempt to store failed and the code opens the connection again, the one that is found then; a
  -- row is in the table as SQLite stores what is bound. The queue's invariant, which is assumed
  -- before, holds after in each case.
  pub handle_n_lem :
      (others : ℕ → ℕ) (entry : List Str) (m : p.State) (s : Site slab sq)
      → s.db.fmt.sql_insert ≡ insert_text s.db.fmt.name s.db.fmt.ncols
      → 1 ≤ length entry
      → All (λ r. length r ≡ length entry) (rows s.shared.queue)
      → Owns slab others s.shared
      → Handled others entry (rows s.shared.queue) s (handle_n slab p lists sq entry m s)
  unfolding handle_n
  handle_n_lem others entry m s h pos all v =
      go (push_locked slab s.buf.max entry s.shared)
        (push_lem slab others s.buf.max entry s.shared v)
    where
      old : List (List Str)
      old = rows s.shared.queue

      go :
          (o : NgxRc × Shared slab)
          → Owns slab others o.1 × Pushed slab s.buf.max entry s.shared o
          → Handled others entry old s
              (after_push slab p lists sq entry o.0 m (record s { shared = o.1 }))
      go (ok, sh) (w, u) = (
        w,
        (
          table sq tx s.dbs,
          old,
          inl refl,
          inl refl,
          ap (λ r. table sq tx s.dbs ++ fmt_rows sq tx s.db.fmt r) u.0,
        ),
      )
      go (done, sh) (w, u) =
          execute_buffer_lem others entry done old m (record s { shared = sh }) h pos
            (rw u.0 (All-append _ old (entry ∷ []) all (refl, tt)))
            (ap parts_of u.0 ∙ parts_of-more old entry) (inr u.0) w
      go (error, sh) (w, u) =
          execute_buffer_lem others entry error old m (record s { shared = sh }) h pos (rw u all)
            (ap parts_of u) (inl u) w
