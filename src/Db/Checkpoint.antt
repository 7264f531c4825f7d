-- ===== src/Db/Checkpoint.antt =====
-- src/ngx_http_sqlitelog_db.c: the WAL checkpoint when a worker exits, with its two queries and the
-- loop that waits while the database is busy.
use ngx_sqlite_log.Base.{
  ℕ, zero, suc, ◌+◌, ◌*◌, ◌/◌, ◌^◌, ◌≤◌, ◌<◌, ◌≢◌, inl, inr, ◌⊎◌, Bool, true, false, not, List,
  Option, none, some, arith, ltb, leb, ◌==◌, if◌then◌else◌, codes, Bool-cases,
}
use ngx_sqlite_log.Util.{strncmp_eq}
use ngx_sqlite_log.Sqlite.{Sqlite, Handle}
use ngx_sqlite_log.Sqlite.Code
use ngx_sqlite_log.Sqlite.Wrap.{
  State, sqlite3_prepare_v2, sqlite3_step, sqlite3_finalize, sqlite3_wal_checkpoint_v2,
}
use ngx_sqlite_log.Db.{Db}

-- while (r > 100) r = r/10, for so many rounds at most.
unfoldable pub reduce : ℕ → ℕ → ℕ
reduce zero r = r
reduce (suc n) r = elim (ltb 100 r) [ true ↦ reduce n (r / 10) | false ↦ r ]

abbrev tens : ℕ → ℕ
tens zero = 1
tens (suc n) = tens n * 10

reduce_le : (n r : ℕ) → r ≤ tens n * 100 → reduce n r ≤ 100
unfolding reduce
reduce_le zero r h = omega arith
reduce_le (suc n) r h = elim (Bool-cases (ltb 100 r)) [
  | inl e ↦ rw (reduce, e) (reduce_le n (r / 10) (omega arith))
  | inr e ↦ rw (reduce, e) (ground arith)
]

-- The random numbers are nginx's; the i-th call of ngx_random gives `random i`.
module _ (sq : Sqlite) (random : ℕ → ℕ) where
  -- The label `finalize` of both queries.
  unfoldable pub finalize_query : Db → Handle → ℕ → ℕ → ℕ → State sq → ℕ × State sq
  finalize_query db stmt rc_prepare rc_step columns st =
      let (rc_finalize, st') = sqlite3_finalize sq db.conn stmt st in
      (
        if not (rc_prepare == Code.ok)
            then rc_prepare
            else if not (rc_step == Code.row)
            then rc_step
            else if not (columns == 1)
            then Code.error
            else rc_finalize,
        st',
      )

  -- A query of one value; `read` reads it in the row, and `initial` is what it holds before.
  unfoldable pub query :
      {A : Type 0} → (Handle → sq.World → A) → A → List ℕ → Db → State sq → ℕ × A × State sq
  query read initial sql db st =
      let (rc_prepare, stmt, st₁) = sqlite3_prepare_v2 sq db.conn sql st in
      let (rc_step, st₂) = sqlite3_step sq db.conn stmt st₁ in
      let columns = sq.column_count stmt st₂.world in
      let (rc₁, end₁) = finalize_query db stmt rc_prepare Code.row 0 st₁ in
      let (rc₂, end₂) = finalize_query db stmt rc_prepare rc_step 0 st₂ in
      let (rc₃, end₃) = finalize_query db stmt rc_prepare rc_step columns st₂ in
      if not (rc_prepare == Code.ok)
      then (rc₁, initial, end₁)
      else if not (rc_step == Code.row)
      then (rc₂, initial, end₂)
      else (rc₃, if columns == 1 then read stmt st₂.world else initial, end₃)

  -- strcmp(text, "wal") == 0
  unfoldable pub db_is_wal : Db → State sq → ℕ × Bool × State sq
  db_is_wal db st =
      query (λ stmt w. strncmp_eq 4 (sq.column_text stmt 0 w) (codes "wal")) false
        (codes "PRAGMA journal_mode") db st

  unfoldable pub db_get_busy_timeout : Db → State sq → ℕ × ℕ × State sq
  db_get_busy_timeout db st =
      query (λ stmt w. sq.column_int stmt 0 w) 0 (codes "PRAGMA busy_timeout") db st

  -- The loop, from the i-th random number on, with the time slept so far and the last code; `none`
  -- where the rounds run out.
  unfoldable pub busy_loop : ℕ → Db → ℕ → ℕ → ℕ → ℕ → State sq → Option (ℕ × ℕ × State sq)
  busy_loop zero db busy_timeout i total_slept rc_ckpt st = none
  busy_loop (suc n) db busy_timeout i total_slept rc_ckpt st =
      let total_slept' = total_slept + (50 + reduce 17 (random i)) in
      let (rc', st') = sqlite3_wal_checkpoint_v2 sq db.conn st in
      elim (rc_ckpt == Code.busy) [
        | false ↦ some (rc_ckpt, total_slept, st)
        | true ↦ elim (leb busy_timeout total_slept') [
          | true ↦ some (rc', total_slept', st')
          | false ↦ busy_loop n db busy_timeout (i + 1) total_slept' rc' st'
        ]
      ]

  -- The code SQLITE_BUSY is not passed on.
  abbrev after_loop : Option (ℕ × ℕ × State sq) → Option (ℕ × ℕ × State sq)
  after_loop none = none
  after_loop (some (rc_ckpt, total_slept, st)) =
      some (if rc_ckpt == Code.busy then Code.ok else rc_ckpt, total_slept, st)

  -- The first attempt and the loop.
  unfoldable pub attempt : Db → ℕ → State sq → Option (ℕ × ℕ × State sq)
  attempt db busy_timeout st =
      let (rc_ckpt, st') = sqlite3_wal_checkpoint_v2 sq db.conn st in
      after_loop (busy_loop (busy_timeout / 50 + 1) db busy_timeout 0 0 rc_ckpt st')

  -- The code, and how long the worker has slept.
  unfoldable pub db_checkpoint : Db → State sq → Option (ℕ × ℕ × State sq)
  db_checkpoint db st =
      let (rc_wal, is_wal, st₁) = db_is_wal db st in
      let (rc_timeout, busy_timeout, st₂) = db_get_busy_timeout db st₁ in
      if not (rc_wal == Code.ok)
      then some (rc_wal, 0, st₁)
      else if not is_wal
      then some (Code.ok, 0, st₁)
      else if not (rc_timeout == Code.ok)
      then some (rc_timeout, 0, st₂)
      else attempt db busy_timeout st₂

  -- The loop ends, and has slept for at most 150 ms more than the timeout; while the database is
  -- busy it does not give up before the timeout.
  abbrev Ends : ℕ → Option (ℕ × ℕ × State sq) → Type 0
  Ends busy_timeout none = ⊥
  Ends busy_timeout (some (rc, slept, st)) =
      (slept ≤ busy_timeout + 150) × ((rc ≢ Code.busy) ⊎ (busy_timeout ≤ slept))

  busy_loop-Ends :
      (n : ℕ) (db : Db) (busy_timeout i total rc : ℕ) (st : State sq)
      → ((j : ℕ) → random j < 2 ^ 63)
      → 1 ≤ n
      → busy_timeout ≤ total + n * 50
      → total ≤ busy_timeout
      → Ends busy_timeout (busy_loop n db busy_timeout i total rc st)
  unfolding busy_loop
  busy_loop-Ends zero db busy_timeout i total rc st h pos enough small = absurd (omega arith)
  busy_loop-Ends (suc n) db busy_timeout i total rc st h pos enough small =
      let slept = total + (50 + reduce 17 (random i)) in
      let (rc', st') = sqlite3_wal_checkpoint_v2 sq db.conn st in
      let r : reduce 17 (random i) ≤ 100 = reduce_le 17 (random i) (omega (arith, h i)) in
      elim (Bool-cases (rc == Code.busy)) [
        | inr idle ↦ rw (busy_loop, idle) (omega arith, inl (ground arith))
        | inl busy ↦ elim (Bool-cases (leb busy_timeout slept)) [
          | inl e ↦ rw (busy_loop, busy, e) (omega (arith, r), inr (ground arith))
          | inr e ↦
              let less : slept < busy_timeout = ground arith in
              rw (busy_loop, busy, e)
                (busy_loop-Ends n db busy_timeout (i + 1) slept rc' st' h (omega (arith, r, less))
                  (omega (arith, r)) (omega (arith, less)))
        ]
      ]

  -- The rounds suffice, the sleeping is bounded, and the code is not SQLITE_BUSY.
  abbrev pub Answers : ℕ → Option (ℕ × ℕ × State sq) → Type 0
  Answers busy_timeout none = ⊥
  Answers busy_timeout (some (rc, slept, st)) = (rc ≢ Code.busy) × (slept ≤ busy_timeout + 150)

  after_loop-Answers :
      (busy_timeout : ℕ) (o : Option (ℕ × ℕ × State sq))
      → Ends busy_timeout o
      → Answers busy_timeout (after_loop o)
  after_loop-Answers busy_timeout none h = h
  after_loop-Answers busy_timeout (some (rc, slept, st)) h = (code rc, h.0)
    where
      code : (rc : ℕ) → (if rc == Code.busy then Code.ok else rc) ≢ Code.busy
      code rc e = ground arith

  -- For random numbers below 2 ^ 63, the checkpoint of a database in WAL mode ends after at most
  -- busy_timeout / 50 + 1 rounds of sleeping, however long the database stays busy; the worker has
  -- then slept for at most 150 ms more than the timeout, and SQLITE_BUSY is not its answer.
  pub attempt_lem :
      (db : Db) (busy_timeout : ℕ) (st : State sq)
      → ((j : ℕ) → random j < 2 ^ 63)
      → Answers busy_timeout (attempt db busy_timeout st)
  unfolding attempt
  attempt_lem db busy_timeout st h =
      let (rc_ckpt, st') = sqlite3_wal_checkpoint_v2 sq db.conn st in
      after_loop-Answers busy_timeout
        (busy_loop (busy_timeout / 50 + 1) db busy_timeout 0 0 rc_ckpt st')
        (busy_loop-Ends (busy_timeout / 50 + 1) db busy_timeout 0 0 rc_ckpt st' h (omega arith)
          (omega arith) (omega arith))
