-- ===== src/Db/Single.antt =====
-- ngx_http_sqlitelog_db_insert, the insertion of one entry outside a transaction, with its second
-- attempt on a connection opened again.
use ngx_sqlite_log.Base.{
  ℕ, ◌≡◌, ◌≢◌, refl, sym, ap, ◌∙◌, inl, inr, ◌⊎◌, false, not, List, [], ◌∷◌, ◌++◌, none, arith,
  ◌==◌, branch, ne_of_not, eq_of_not, ==_iff,
}
use ngx_sqlite_log.Util.{Str}
use ngx_sqlite_log.Sqlite.{Sqlite}
use ngx_sqlite_log.Sqlite.Code
use ngx_sqlite_log.Sqlite.Wrap.{State}
use ngx_sqlite_log.Sqlite.Transactions.{Transactions, Value}
use ngx_sqlite_log.Sql.Insert.{insert_text}
use ngx_sqlite_log.Db.{Db, db_init, try_insert, db_insert}
use ngx_sqlite_log.Db.Insert.{table, pending, stored_row, try_insert_lem}
use ngx_sqlite_log.Db.Retry.{db_init-fmt}

module _ (sq : Sqlite) where
  -- The state after a first attempt that failed, with the connection opened again.
  abbrev pub reopened_after : Db → List Str → State sq → State sq
  reopened_after db elts st = (db_init sq db (try_insert sq db elts st).1).2

  -- The first attempt failed, with the code of a database that has moved.
  abbrev pub ReopensAfter : Db → List Str → State sq → Type 0
  ReopensAfter db elts st =
      ((try_insert sq db elts st).0 ≢ Code.ok)
      × (sq.extended_errcode db.conn (try_insert sq db elts st).1.world ≡ Code.readonly_dbmoved)

module _ (sq : Sqlite) (tx : Transactions sq) where
  -- What the insertion comes to. `base` is the table at the call or, only where the first attempt
  -- failed because the database has moved, the table that is found when it is opened again.
  abbrev pub StoredRow : Db → List Str → State sq → ℕ × Db × State sq → Type 0
  StoredRow db elts st (rc, db', st') =
      (db'.fmt ≡ db.fmt)
      × (base : List (List Value)) × ((base ≡ table sq tx st)
          ⊎ (ReopensAfter sq db elts st × (base ≡ table sq tx (reopened_after sq db elts st))))
      × (rc ≡ Code.ok
          → (table sq tx st' ≡ base ++ stored_row sq tx db.fmt elts ∷ [])
            × (pending sq tx st' ≡ none))
      × (rc ≢ Code.ok → table sq tx st' ≡ base)

  not_ok : (rc : ℕ) → rc ≡ Code.ok → rc == Code.ok ≡ false → ⊥
  not_ok rc e h = ground arith

  fails : (rc : ℕ) → rc == Code.ok ≡ false → rc ≢ Code.ok
  fails rc h e = absurd (not_ok rc e h)

  -- For a format whose INSERT is the text that the module builds, where no transaction is open, nor
  -- would one be after the connection is opened again: with SQLITE_OK the table gains exactly the
  -- row of the entry, once, whether the first attempt stored it or the second did, and none is
  -- open; with any other code the table gains nothing. The table is the one of the call, or, only
  -- where the first attempt failed with the code of a database that has moved, the one that is
  -- found when the connection is opened again. A stored row is what SQLite makes of the row that is
  -- bound.
  pub db_insert_lem :
      (db : Db) (elts : List Str) (st : State sq)
      → db.fmt.sql_insert ≡ insert_text db.fmt.name db.fmt.ncols
      → pending sq tx st ≡ none
      → pending sq tx (reopened_after sq db elts st) ≡ none
      → StoredRow db elts st (db_insert sq db elts st)
  unfolding db_insert
  db_insert_lem db elts st h alone again_alone =
      let A = try_insert_lem sq tx db elts st h in
      let (rc, st₁) = try_insert sq db elts st in
      let (rc_init, db₂, st₂) = db_init sq db st₁ in
      let same = db_init-fmt sq db st₁ in
      let moved = not (sq.extended_errcode db.conn st₁.world == Code.readonly_dbmoved) in
      branch (StoredRow db elts st) (rc == Code.ok) (rc, db, st₁) _
        (λ good. (
          refl,
          table sq tx st,
          inl refl,
          (λ e. A.1 e alone),
          λ e. absurd (e ((==_iff rc Code.ok).0 good)),
        ))
        λ bad.
          branch (StoredRow db elts st) moved (rc, db, st₁) _
            (λ give_up.
              (refl, table sq tx st, inl refl, (λ e. absurd (not_ok rc e bad)), λ e. A.0 e alone))
            λ retried.
              branch (StoredRow db elts st) (not (rc_init == Code.ok)) (rc_init, db₂, st₂) _
                (λ failed. (
                  same,
                  table sq tx st₂,
                  inr ((fails rc bad, eq_of_not _ Code.readonly_dbmoved retried), refl),
                  (λ e. absurd (ne_of_not rc_init Code.ok failed e)),
                  λ e. refl,
                ))
                λ fine.
                  let B = try_insert_lem sq tx db₂ elts st₂ (
                    ap (λ f. f.sql_insert) same
                    ∙ h
                    ∙ ap (λ f. insert_text f.name f.ncols) (sym same)) in
                  (
                    same,
                    table sq tx st₂,
                    inr ((fails rc bad, eq_of_not _ Code.readonly_dbmoved retried), refl),
                    (λ e. (
                      (B.1 e again_alone).0
                          ∙ ap (λ f. table sq tx st₂ ++ stored_row sq tx f elts ∷ []) same,
                      (B.1 e again_alone).1,
                    )),
                    λ e. B.0 e again_alone,
                  )
