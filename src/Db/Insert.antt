-- ===== src/Db/Insert.antt =====
-- One row: the bound parameters, and what an attempt to insert leaves in the table.
use ngx_sqlite_log.Base.{
  ℕ, ◌+◌, ◌≡◌, ◌≢◌, refl, sym, ap, ◌∙◌, inl, inr, ◌⊎◌, true, not, List, [], ◌∷◌, ◌++◌, Option, none,
  some, arith, ◌==◌, if◌then◌else◌, Bool-cases, branch, ne_of_not, eq_of_not, ==_iff,
}
use mathlib.Core.Path.{ap₂}
use native.Mathlib.Decide.{ℕ_discrete}
use ngx_sqlite_log.Util.{Str}
use ngx_sqlite_log.Sqlite.{Sqlite, Handle}
use ngx_sqlite_log.Sqlite.Code
use ngx_sqlite_log.Sqlite.Wrap.{State, sqlite3_prepare_v2, sqlite3_step}
use ngx_sqlite_log.Sqlite.Wrap.Report.{bind-Wraps, call-Wraps, handle-Wraps}
use ngx_sqlite_log.Sqlite.Transactions.{Transactions, Value, null, values_from}
use ngx_sqlite_log.Sql.Insert.{insert_text}
use ngx_sqlite_log.Db.Row.{value, overlay, values_from-same, overlay-same, fmt_row}
use ngx_sqlite_log.Db.{
  Bind, bind_text, bind_blob, Fmt, Db, call_bind, bind_all, finalize_insert, try_insert,
}

module _ (sq : Sqlite) (tx : Transactions sq) where
  abbrev pub table : State sq → List (List Value)
  table st = tx.table st.world

  abbrev pub pending : State sq → Option (List (List Value))
  pending st = tx.pending st.world

  -- What the table holds of an entry's row when it is stored.
  abbrev pub stored_row : Fmt → List Str → List Value
  stored_row fmt elts = tx.as_stored (fmt_row fmt elts)

  -- Nothing is stored, committed or not.
  abbrev pub Keeps : State sq → State sq → Type 0
  Keeps st st' = (table st' ≡ table st) × (pending st' ≡ pending st)

  call_bind-Keeps :
      (b : Bind) (c s : Handle) (i : ℕ) (v : Str) (st : State sq)
      → let (rc, st') = call_bind sq b c s i v st in
        Keeps st st'
        × (tx.params st'.world s ≡ tx.params st.world s)
        × (tx.is_insert st'.world s ≡ tx.is_insert st.world s)
        × (rc ≡ Code.ok
            → (j : ℕ)
            → tx.bound st'.world s j ≡ (if i == j then value b v else tx.bound st.world s j))
  call_bind-Keeps bind_text c s i v st =
      let (rc, w, _) = (bind-Wraps sq c s i v st).0 in
      let (t, p, n, i_keeps) = tx.text_keeps s i v st.world in
      (
        (ap tx.table w ∙ t, ap tx.pending w ∙ p),
        ap (λ x. tx.params x s) w ∙ n,
        ap (λ x. tx.is_insert x s) w ∙ i_keeps,
        λ h j. ap (λ x. tx.bound x s j) w ∙ tx.text_bound s i v st.world (sym rc ∙ h) j,
      )
  call_bind-Keeps bind_blob c s i v st =
      let (rc, w, _) = (bind-Wraps sq c s i v st).1 in
      let (t, p, n, i_keeps) = tx.blob_keeps s i v st.world in
      (
        (ap tx.table w ∙ t, ap tx.pending w ∙ p),
        ap (λ x. tx.params x s) w ∙ n,
        ap (λ x. tx.is_insert x s) w ∙ i_keeps,
        λ h j. ap (λ x. tx.bound x s j) w ∙ tx.blob_bound s i v st.world (sym rc ∙ h) j,
      )

  -- The loop over the strings of an entry: if it ends well, the parameters are overlaid.
  bind_all_lem :
      (db : Db) (s : Handle) (i : ℕ) (elts : List Str) (st : State sq)
      → let (rc, st') = bind_all sq db s i elts st in
        Keeps st st'
        × (tx.params st'.world s ≡ tx.params st.world s)
        × (tx.is_insert st'.world s ≡ tx.is_insert st.world s)
        × (rc ≡ Code.ok
            → (j : ℕ)
            → tx.bound st'.world s j ≡ overlay db.fmt.binds i elts (tx.bound st.world s) j)
  unfolding bind_all
  bind_all_lem db s i [] st = ((refl, refl), refl, refl, λ h j. refl)
  bind_all_lem db s i (e ∷ elts) st =
      let K = call_bind-Keeps (db.fmt.binds i) db.conn s (i + 1) e st in
      let R =
        bind_all_lem db s (i + 1) elts (call_bind sq (db.fmt.binds i) db.conn s (i + 1) e st).1 in
      elim (Bool-cases ((call_bind sq (db.fmt.binds i) db.conn s (i + 1) e st).0 == Code.ok)) [
        | inl good ↦ rw good (
          (R.0.0 ∙ K.0.0, R.0.1 ∙ K.0.1),
          R.1 ∙ K.1,
          R.2 ∙ K.2,
          λ h j. R.3 h j ∙ overlay-same db.fmt.binds (i + 1) elts _ _ (K.3 ((==_iff _ _).0 good)) j,
        )
        | inr bad ↦ rw bad (K.0, K.1, K.2, λ h j. absurd (ground arith))
      ]

  -- What an attempt to insert comes to: with SQLITE_OK the row is stored, in the transaction if one
  -- is open; with any other code the committed table is as it was.
  abbrev pub Inserted : List Value → State sq → ℕ × State sq → Type 0
  Inserted r st (rc, st') =
      (rc ≢ Code.ok → pending st ≡ none → table st' ≡ table st)
      × (rc ≡ Code.ok → pending st ≡ none → (table st' ≡ table st ++ r ∷ []) × (pending st' ≡ none))
      × ((rs : List (List Value))
          → pending st ≡ some rs
          → (table st' ≡ table st) × (rc ≡ Code.ok → pending st' ≡ some (rs ++ r ∷ [])))

  finalize_insert-Keeps :
      (db : Db) (s : Handle) (a b c : ℕ) (st : State sq)
      → let (rc, st') = finalize_insert sq db s a b c st in Keeps st st'
  unfolding finalize_insert
  finalize_insert-Keeps db s a b c st =
      let (_, w, _) = (call-Wraps sq db.conn s [] 0 st).1 in
      let (t, p) = tx.finalize_keeps s st.world in (ap tx.table w ∙ t, ap tx.pending w ∙ p)

  finalize_failed :
      (db : Db) (s : Handle) (a b c : ℕ) (st : State sq)
      → (a ≢ Code.ok)
        ⊎ ((b ≢ Code.ok) ⊎ ((a ≡ Code.ok) × (b ≡ Code.ok) × (c ≢ Code.done) × (c ≢ Code.ok)))
      → (finalize_insert sq db s a b c st).0 ≢ Code.ok
  unfolding finalize_insert
  finalize_failed db s a b c st h = ground arith

  failed_Inserted :
      (r : List Value) (st : State sq) (o : ℕ × State sq)
      → o.0 ≢ Code.ok
      → table o.1 ≡ table st
      → Inserted r st o
  failed_Inserted r st o bad t =
      ((λ h p. t), (λ h p. absurd (bad h)), λ rs p. (t, λ h. absurd (bad h)))

  finalize_fine :
      (db : Db) (s : Handle) (a c : ℕ) (st : State sq)
      → a ≡ Code.ok
      → c ≡ Code.done
      → (sq.finalize s st.world).0 ≡ Code.ok
      → (finalize_insert sq db s a Code.ok c st).0 ≡ Code.ok
  unfolding finalize_insert
  finalize_fine db s a c st h k f = ground (arith, (call-Wraps sq db.conn s [] 0 st).1.0)

  -- After prepare and bind: the step, and the statement's end.
  step_Inserted :
      (db : Db) (s : Handle) (r : List Value) (rc : ℕ) (st st₂ : State sq)
      → rc ≡ Code.ok
      → Keeps st st₂
      → tx.is_insert st₂.world s ≡ true
      → tx.as_stored (values_from 1 (tx.params st₂.world s) (tx.bound st₂.world s)) ≡ r
      → Inserted r st (
          finalize_insert sq db s rc Code.ok
            (sqlite3_step sq db.conn s st₂).0
            (sqlite3_step sq db.conn s st₂).1)
  step_Inserted db s r rc st st₂ fine keeps ins same =
      let (c, w, _) = (call-Wraps sq db.conn s [] 0 st₂).0 in
      let st₃ = (sqlite3_step sq db.conn s st₂).1 in
      let F = finalize_insert-Keeps db s rc Code.ok (sqlite3_step sq db.conn s st₂).0 st₃ in
      elim (ℕ_discrete (sqlite3_step sq db.conn s st₂).0 Code.done) [
        | yes D ↦
            let D' = sym c ∙ D in
            let all_fine =
              finalize_fine db s rc (sqlite3_step sq db.conn s st₂).0 st₃ fine D
                (ap (λ x. (sq.finalize s x).0) w ∙ tx.finalize_done s st₂.world D') in
            (
              (λ h p. absurd (h all_fine)),
              (λ h p.
                  let A = tx.step_alone s st₂.world ins (keeps.1 ∙ p) D' in
                  (
                    F.0 ∙ ap tx.table w ∙ A.0 ∙ ap₂ (λ t v. t ++ v ∷ []) keeps.0 same,
                    F.1 ∙ ap tx.pending w ∙ A.1,
                  )),
              λ rs p.
                  let A = tx.step_inside s st₂.world rs ins (keeps.1 ∙ p) D' in
                  (
                    F.0 ∙ ap tx.table w ∙ A.0 ∙ keeps.0,
                    λ h. F.1 ∙ ap tx.pending w ∙ A.1 ∙ ap (λ v. some (rs ++ v ∷ [])) same,
                  ),
            )
        | no other ↦
            failed_Inserted r st
              (finalize_insert sq db s rc Code.ok (sqlite3_step sq db.conn s st₂).0 st₃)
              (finalize_failed db s rc Code.ok (sqlite3_step sq db.conn s st₂).0 st₃
                (inr (inr (fine, refl, other, λ h. tx.step_answer s st₂.world (sym c ∙ h)))))
              (F.0 ∙ ap tx.table w ∙ tx.step_error s st₂.world ins (λ h. other (c ∙ h)) ∙ keeps.0)
      ]

  prepared :
      (db : Db) (st : State sq)
      → db.fmt.sql_insert ≡ insert_text db.fmt.name db.fmt.ncols
      → let (rc, s, st₁) = sqlite3_prepare_v2 sq db.conn db.fmt.sql_insert st in
        rc ≡ Code.ok
        → (tx.params st₁.world s ≡ db.fmt.ncols)
          × ((j : ℕ) → tx.bound st₁.world s j ≡ null)
          × (tx.is_insert st₁.world s ≡ true)
  prepared db st h good =
      let (same, W) = (handle-Wraps sq db.conn [] db.fmt.sql_insert st).0 in
      let G = raw (sym W.0 ∙ good) in
      (
        ap₂ tx.params W.1 same ∙ G.0,
        (λ j. ap₂ (λ w s. tx.bound w s j) W.1 same ∙ G.1 j),
        ap₂ tx.is_insert W.1 same ∙ G.2,
      )
    where
      raw :
          (sq.prepare_v2 db.conn db.fmt.sql_insert st.world).0 ≡ Code.ok
          → let (rc, s, w) = sq.prepare_v2 db.conn db.fmt.sql_insert st.world in
            (tx.params w s ≡ db.fmt.ncols)
            × ((j : ℕ) → tx.bound w s j ≡ null)
            × (tx.is_insert w s ≡ true)
      raw = rw h (tx.prepare_insert db.conn db.fmt.name db.fmt.ncols st.world)

  -- For a format whose INSERT is the text that the module builds: an attempt to insert an entry
  -- stores its row with SQLITE_OK, in the transaction if one is open and in the table if not; with
  -- any other code the table is as it was. What is stored is what SQLite makes of the row of the
  -- entry's strings as the format binds them.
  pub try_insert_lem :
      (db : Db) (elts : List Str) (st : State sq)
      → db.fmt.sql_insert ≡ insert_text db.fmt.name db.fmt.ncols
      → Inserted (stored_row db.fmt elts) st (try_insert sq db elts st)
  unfolding try_insert
  try_insert_lem db elts st h =
      let (rc₁, s, st₁) = sqlite3_prepare_v2 sq db.conn db.fmt.sql_insert st in
      let w = (handle-Wraps sq db.conn [] db.fmt.sql_insert st).0.1.1 in
      let K = tx.prepare_keeps db.conn db.fmt.sql_insert st.world in
      let k₁ = ap tx.table w ∙ K.0 in
      let k₂ = ap tx.pending w ∙ K.1 in
      let (rc₂, st₂) = bind_all sq db s 0 elts st₁ in
      let B = bind_all_lem db s 0 elts st₁ in
      branch (Inserted (stored_row db.fmt elts) st) (not (rc₁ == Code.ok)) _ _
        (λ bad.
          failed_Inserted (stored_row db.fmt elts) st
            (finalize_insert sq db s rc₁ Code.ok Code.ok st₁)
            (finalize_failed db s rc₁ Code.ok Code.ok st₁ (inl (ne_of_not rc₁ Code.ok bad)))
            ((finalize_insert-Keeps db s rc₁ Code.ok Code.ok st₁).0 ∙ k₁))
        λ good.
          branch (Inserted (stored_row db.fmt elts) st) (not (rc₂ == Code.ok)) _ _
            (λ bad.
              failed_Inserted (stored_row db.fmt elts) st
                (finalize_insert sq db s rc₁ rc₂ Code.ok st₂)
                (finalize_failed db s rc₁ rc₂ Code.ok st₂ (inr (inl (ne_of_not rc₂ Code.ok bad))))
                ((finalize_insert-Keeps db s rc₁ rc₂ Code.ok st₂).0 ∙ B.0.0 ∙ k₁))
            λ fine.
              let G = prepared db st h (eq_of_not rc₁ Code.ok good) in
              rw (eq_of_not rc₂ Code.ok fine) (
                step_Inserted db s (stored_row db.fmt elts) rc₁ st st₂ (eq_of_not rc₁ Code.ok good)
                  (B.0.0 ∙ k₁, B.0.1 ∙ k₂) (B.2 ∙ G.2)
                  (ap tx.as_stored (
                    ap (λ n. values_from 1 n (tx.bound st₂.world s)) (B.1 ∙ G.0)
                    ∙ values_from-same 1 db.fmt.ncols _ _ λ j.
                      B.3 (eq_of_not rc₂ Code.ok fine) j
                      ∙ overlay-same db.fmt.binds 0 elts _ _ G.1 j)))
