-- ===== src/Db/Atomic.antt =====
-- A list of entries is stored as one transaction: all of it or nothing.
use ngx_sqlite_log.Base.{
  ℕ, ◌≡◌, ◌≢◌, refl, sym, ap, ◌∙◌, inl, inr, not, List, [], ◌∷◌, ◌++◌, map, none, some, arith, ◌==◌,
  Bool-cases, branch, ne_of_not, eq_of_not, ==_iff, append-nil, append_assoc, codes,
}
use ngx_sqlite_log.Util.{Str}
use ngx_sqlite_log.Sqlite.{Sqlite}
use ngx_sqlite_log.Sqlite.Code
use ngx_sqlite_log.Sqlite.Wrap.{State, sqlite3_exec}
use ngx_sqlite_log.Sqlite.Wrap.Report.{call-Wraps}
use ngx_sqlite_log.Sqlite.Transactions.{Transactions, Value}
use ngx_sqlite_log.Sql.Insert.{insert_text}
use ngx_sqlite_log.Db.{Db, try_insert, insert_parts, end_transaction, try_insert_list}
use ngx_sqlite_log.Db.Insert.{table, pending, stored_row, try_insert_lem}

module _ (sq : Sqlite) (tx : Transactions sq) where
  -- Inside a transaction the committed table does not change, and success means that every row is
  -- in the transaction.
  insert_parts_lem :
      (db : Db) (parts : List (List Str)) (rs : List (List Value)) (st : State sq)
      → db.fmt.sql_insert ≡ insert_text db.fmt.name db.fmt.ncols
      → pending sq tx st ≡ some rs
      → let (rc, st') = insert_parts sq db parts st in
        (table sq tx st' ≡ table sq tx st)
        × (rc ≡ Code.ok → pending sq tx st' ≡ some (rs ++ map (stored_row sq tx db.fmt) parts))
  unfolding insert_parts
  insert_parts_lem db [] rs st h p = (refl, λ e. p ∙ ap some (sym (append-nil rs)))
  insert_parts_lem db (part ∷ parts) rs st h p =
      let (rc, st₁) = try_insert sq db part st in
      let (t, q) = (try_insert_lem sq tx db part st h).2 rs p in
      elim (Bool-cases (rc == Code.ok)) [
        | inl good ↦
            let fine = (==_iff rc Code.ok).0 good in
            let R =
              insert_parts_lem db parts (rs ++ stored_row sq tx db.fmt part ∷ []) st₁ h (q fine) in
            rw good (
              R.0 ∙ t,
              λ e.
                  R.1 e
                  ∙ ap some (
                      append_assoc rs (stored_row sq tx db.fmt part ∷ [])
                        (map (stored_row sq tx db.fmt) parts)),
            )
        | inr bad ↦ rw bad (t, λ e. absurd (ground arith))
      ]

  exec_lem :
      (db : Db) (sql : List ℕ) (st : State sq)
      → let (rc, w) = sq.exec db.conn sql st.world in
        let (rc', st') = sqlite3_exec sq db.conn sql st in
        (rc' ≡ rc) × (table sq tx st' ≡ tx.table w) × (pending sq tx st' ≡ tx.pending w)
  exec_lem db sql st =
      let (c, w, _) = (call-Wraps sq db.conn none sql 0 st).2 in (c, ap tx.table w, ap tx.pending w)

  -- All or nothing.
  abbrev pub Stores : List (List Value) → State sq → ℕ × State sq → Type 0
  Stores rs st (rc, st') =
      (rc ≡ Code.ok → (table sq tx st' ≡ table sq tx st ++ rs) × (pending sq tx st' ≡ none))
      × (rc ≢ Code.ok → table sq tx st' ≡ table sq tx st)

  end_lem :
      (db : Db) (rc : ℕ) (rs : List (List Value)) (st st₂ : State sq)
      → table sq tx st₂ ≡ table sq tx st
      → (rc ≡ Code.ok → pending sq tx st₂ ≡ some rs)
      → Stores rs st (end_transaction sq db rc st₂)
  unfolding end_transaction
  end_lem db rc rs st st₂ t p = elim (Bool-cases (rc == Code.ok)) [
    | inl good ↦
        let (c, t', p') = exec_lem db (codes "COMMIT") st₂ in
        let C = tx.commit db.conn st₂.world rs (p ((==_iff rc Code.ok).0 good)) in
        rw good (
          (λ e. (t' ∙ (C.0 (sym c ∙ e)).0 ∙ ap (λ z. z ++ rs) t, p' ∙ (C.0 (sym c ∙ e)).1)),
          λ e. t' ∙ C.1 (λ z. e (c ∙ z)) ∙ t,
        )
    | inr bad ↦
        let (c, t', p') = exec_lem db (codes "ROLLBACK") st₂ in
        rw bad ((λ e. absurd (ground arith)), λ e. t' ∙ tx.rollback db.conn st₂.world ∙ t)
  ]

  -- For a format whose INSERT is the text that the module builds: with SQLITE_OK the rows of all
  -- the entries are committed, in order, behind what the table held, and no transaction is left
  -- open; with any other code the table is as it was, wherever in the sequence the failure came. A
  -- row is what SQLite stores of the entry's strings as the format binds them.
  pub try_insert_list_lem :
      (db : Db) (parts : List (List Str)) (st : State sq)
      → db.fmt.sql_insert ≡ insert_text db.fmt.name db.fmt.ncols
      → Stores (map (stored_row sq tx db.fmt) parts) st (try_insert_list sq db parts st)
  unfolding try_insert_list
  try_insert_list_lem db parts st h =
      let sql_begin = codes "BEGIN EXCLUSIVE TRANSACTION" in
      let (rc, st₁) = sqlite3_exec sq db.conn sql_begin st in
      let (c, t', p') = exec_lem db sql_begin st in
      let B = tx.begin db.conn st.world in
      branch (Stores (map (stored_row sq tx db.fmt) parts) st) (not (rc == Code.ok)) _ _
        (λ bad. ((λ e. absurd (ne_of_not rc Code.ok bad e)), λ e. t' ∙ B.0))
        λ good.
          let P =
            insert_parts_lem db parts [] st₁ h (p' ∙ B.1 (sym c ∙ eq_of_not rc Code.ok good)) in
          end_lem db (insert_parts sq db parts st₁).0 (map (stored_row sq tx db.fmt) parts) st
            (insert_parts sq db parts st₁).1 (P.0 ∙ t' ∙ B.0) P.1
