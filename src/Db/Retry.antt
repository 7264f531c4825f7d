-- ===== src/Db/Retry.antt =====
-- ngx_http_sqlitelog_db_insert_list with its second attempt on a connection opened again.
use ngx_sqlite_log.Base.{
  ℕ, ◌≡◌, ◌≢◌, refl, sym, ap, ◌∙◌, inl, inr, ◌⊎◌, Bool, true, false, not, ◌||◌, List, ◌++◌, map,
  none, some, arith, ◌==◌, if◌then◌else◌, branch, ne_of_not, ==_iff,
}
use ngx_sqlite_log.Util.{Str}
use ngx_sqlite_log.Sqlite.{Sqlite}
use ngx_sqlite_log.Sqlite.Code
use ngx_sqlite_log.Sqlite.Wrap.{State, sqlite3_busy_timeout, sqlite3_exec, sqlite3_open_v2}
use ngx_sqlite_log.Sqlite.Transactions.{Transactions, Value}
use ngx_sqlite_log.Sql.Insert.{insert_text}
use ngx_sqlite_log.Db.{
  Db, is_some, init_script, db_close, db_setup, db_open, db_init, try_insert_list, db_insert_list,
}
use ngx_sqlite_log.Db.Insert.{table, stored_row}
use ngx_sqlite_log.Db.Atomic.{try_insert_list_lem}

module _ (sq : Sqlite) where
  -- The connection keeps its format, whatever a call comes to.
  abbrev KeepsFmt : Db → ℕ × Db × State sq → Type 0
  KeepsFmt db (rc, db', st) = db'.fmt ≡ db.fmt

  init_script-fmt : (db : Db) (s : Str) (st : State sq) → KeepsFmt db (init_script sq db s st)
  init_script-fmt db none st = refl
  init_script-fmt db (some s) st = refl

  pub db_close-fmt : (db : Db) (st : State sq) → KeepsFmt db (db_close sq db st)
  unfolding db_close
  db_close-fmt db st = ground arith

  db_setup-fmt : (db : Db) (st : State sq) → KeepsFmt db (db_setup sq db st)
  unfolding db_setup
  db_setup-fmt db st =
      let (rc_timeout, st₁) = sqlite3_busy_timeout sq db.conn 1000 st in
      let (rc_table, st₂) = sqlite3_exec sq db.conn db.fmt.sql_create st₁ in
      branch (KeepsFmt db) (not (rc_timeout == Code.ok)) (rc_timeout, db, st₁)
        (if not (rc_table == Code.ok)
          then (rc_table, db, st₂)
          else init_script sq db db.init_sql st₂)
        (λ bad. refl)
        λ good.
          branch (KeepsFmt db) (not (rc_table == Code.ok)) (rc_table, db, st₂)
            (init_script sq db db.init_sql st₂) (λ bad. refl)
            λ fine. init_script-fmt db db.init_sql st₂

  db_open-fmt : (db : Db) (st : State sq) → KeepsFmt db (db_open sq db st)
  unfolding db_open
  db_open-fmt db st =
      let (rc_open, conn, st₁) = sqlite3_open_v2 sq db.filename st in
      let db₁ = record db { conn = conn } in
      let (rc_close, db₂, st₂) = db_close sq db₁ st₁ in
      branch (KeepsFmt db) (rc_open == Code.ok) (db_setup sq db₁ st₁)
        (if not (rc_close == Code.ok) then rc_close else rc_open, db₂, st₂)
        (λ good. db_setup-fmt db₁ st₁) λ bad. db_close-fmt db₁ st₁

  pub db_init-fmt : (db : Db) (st : State sq) → KeepsFmt db (db_init sq db st)
  unfolding db_init
  db_init-fmt db st =
      let (rc_close, db₁, st₁) = db_close sq db st in
      branch (KeepsFmt db) (not (is_some db.conn)) (db_open sq db st)
        (if not (rc_close == Code.ok) then (rc_close, db₁, st₁) else db_open sq db₁ st₁)
        (λ new. db_open-fmt db st)
        λ old.
          branch (KeepsFmt db) (not (rc_close == Code.ok)) (rc_close, db₁, st₁) (db_open sq db₁ st₁)
            (λ bad. db_close-fmt db st) λ good. db_open-fmt db₁ st₁ ∙ db_close-fmt db st

  -- The state after a first attempt that failed, with the connection opened again.
  abbrev pub reopened : Db → List (List Str) → State sq → State sq
  reopened db parts st = (db_init sq db (try_insert_list sq db parts st).1).2

  -- Whether an attempt that failed is the last.
  abbrev gives_up : Db → State sq → Bool
  gives_up db st = not (
      sq.extended_errcode db.conn st.world == Code.readonly_dbmoved
      || sq.extended_errcode db.conn st.world == Code.ok)

  -- The first attempt to insert a list failed, with the code of a database that has moved or with
  -- none of its own, so that the connection is opened again.
  abbrev pub Reopens : Db → List (List Str) → State sq → Type 0
  Reopens db parts st =
      ((try_insert_list sq db parts st).0 ≢ Code.ok)
      × (gives_up db (try_insert_list sq db parts st).1 ≡ false)

  -- The first attempt to insert a list is the last.
  abbrev pub Stays : Db → List (List Str) → State sq → Type 0
  Stays db parts st =
      ((try_insert_list sq db parts st).0 ≡ Code.ok)
      ⊎ (gives_up db (try_insert_list sq db parts st).1 ≡ true)

module _ (sq : Sqlite) (tx : Transactions sq) where
  -- What the insertion of a list comes to. `base` is the table at the call or, only where the first
  -- attempt failed and the connection is opened again, the table that is found then.
  abbrev pub Stored : Db → List (List Str) → State sq → ℕ × Db × State sq → Type 0
  Stored db parts st (rc, db', st') =
      (db'.fmt ≡ db.fmt)
      × (base : List (List Value)) × ((base ≡ table sq tx st)
          ⊎ (Reopens sq db parts st × (base ≡ table sq tx (reopened sq db parts st))))
      × (rc ≡ Code.ok → table sq tx st' ≡ base ++ map (stored_row sq tx db.fmt) parts)
      × (rc ≢ Code.ok → table sq tx st' ≡ base)

  not_ok : (rc : ℕ) → rc ≡ Code.ok → rc == Code.ok ≡ false → ⊥
  not_ok rc e h = ground arith

  fails : (rc : ℕ) → rc == Code.ok ≡ false → rc ≢ Code.ok
  fails rc h e = absurd (not_ok rc e h)

  -- For a format whose INSERT is the text that the module builds: with SQLITE_OK the table gains
  -- exactly the rows of the list, in order, and once, whether the first attempt stored them or the
  -- second did; with any other code it gains none of them. The table is the one of the call, or,
  -- only where the first attempt failed and the code opens the connection again, the one that is
  -- found then. A stored row is what SQLite makes of the row that is bound.
  pub db_insert_list_lem :
      (db : Db) (parts : List (List Str)) (st : State sq)
      → db.fmt.sql_insert ≡ insert_text db.fmt.name db.fmt.ncols
      → Stored db parts st (db_insert_list sq db parts st)
  unfolding db_insert_list
  db_insert_list_lem db parts st h =
      let A = try_insert_list_lem sq tx db parts st h in
      let (rc, st₁) = try_insert_list sq db parts st in
      let (rc_init, db₂, st₂) = db_init sq db st₁ in
      let same = db_init-fmt sq db st₁ in
      branch (Stored db parts st) (rc == Code.ok) (rc, db, st₁) (otherwise rc st₁)
        (λ good. (
          refl,
          table sq tx st,
          inl refl,
          (λ e. (A.0 e).0),
          λ e. absurd (e ((==_iff rc Code.ok).0 good)),
        ))
        λ bad.
          branch (Stored db parts st) (gives_up sq db st₁) (rc, db, st₁)
            (again_from rc_init db₂ st₂)
            (λ give_up. (refl, table sq tx st, inl refl, (λ e. absurd (not_ok rc e bad)), A.1))
            λ again.
              branch (Stored db parts st) (not (rc_init == Code.ok)) (rc_init, db₂, st₂)
                (last db₂ st₂)
                (λ failed. (
                  same,
                  table sq tx st₂,
                  inr ((fails rc bad, again), refl),
                  (λ e. absurd (ne_of_not rc_init Code.ok failed e)),
                  λ e. refl,
                ))
                λ fine.
                  let B = try_insert_list_lem sq tx db₂ parts st₂ (
                    ap (λ f. f.sql_insert) same
                    ∙ h
                    ∙ ap (λ f. insert_text f.name f.ncols) (sym same)) in
                  (
                    same,
                    table sq tx st₂,
                    inr ((fails rc bad, again), refl),
                    (λ e.
                        (B.0 e).0
                        ∙ ap (λ f. table sq tx st₂ ++ map (stored_row sq tx f) parts) same),
                    B.1,
                  )
    where
      last : Db → State sq → ℕ × Db × State sq
      last db₂ st₂ = let (rc, st₃) = try_insert_list sq db₂ parts st₂ in (rc, db₂, st₃)

      again_from : ℕ → Db → State sq → ℕ × Db × State sq
      again_from rc_init db₂ st₂ =
          if not (rc_init == Code.ok) then (rc_init, db₂, st₂) else last db₂ st₂

      otherwise : ℕ → State sq → ℕ × Db × State sq
      otherwise rc st₁ =
          let (rc_init, db₂, st₂) = db_init sq db st₁ in
          if gives_up sq db st₁ then (rc, db, st₁) else again_from rc_init db₂ st₂

  -- With no second attempt the connection and its format stay, and the table is the one that the
  -- attempt found.
  abbrev pub StoredOnce : Db → List (List Str) → State sq → ℕ × Db × State sq → Type 0
  StoredOnce db parts st (rc, db', st') =
      (db' ≡ db)
      × (rc ≡ Code.ok → table sq tx st' ≡ table sq tx st ++ map (stored_row sq tx db.fmt) parts)
      × (rc ≢ Code.ok → table sq tx st' ≡ table sq tx st)

  pub Stays-StoredOnce :
      (db : Db) (parts : List (List Str)) (st : State sq)
      → db.fmt.sql_insert ≡ insert_text db.fmt.name db.fmt.ncols
      → Stays sq db parts st
      → StoredOnce db parts st (db_insert_list sq db parts st)
  unfolding db_insert_list
  Stays-StoredOnce db parts st h stays =
      let A = try_insert_list_lem sq tx db parts st h in
      let (rc, st₁) = try_insert_list sq db parts st in
      branch (StoredOnce db parts st) (rc == Code.ok) (rc, db, st₁) (otherwise rc st₁)
        (λ good. (refl, (λ e. (A.0 e).0), λ e. absurd (e ((==_iff rc Code.ok).0 good))))
        λ bad.
          branch (StoredOnce db parts st) (gives_up sq db st₁) (rc, db, st₁) (again st₁)
            (λ give_up. (refl, (λ e. absurd (not_ok rc e bad)), A.1))
            λ goes_on.
              absurd (elim stays [
                | inl e ↦ not_ok rc e bad
                | inr e ↦ absurd (ground (arith, e, goes_on))
              ])
    where
      again : State sq → ℕ × Db × State sq
      again st₁ =
          let (rc_init, db₂, st₂) = db_init sq db st₁ in
          if not (rc_init == Code.ok)
          then (rc_init, db₂, st₂)
          else let (rc, st₃) = try_insert_list sq db₂ parts st₂ in (rc, db₂, st₃)

      otherwise : ℕ → State sq → ℕ × Db × State sq
      otherwise rc st₁ = if gives_up sq db st₁ then (rc, db, st₁) else again st₁
