-- ===== src/Handler/Workers/Interleaved.antt =====
-- Any interleaving of the workers' steps.
use ngx_sqlite_log.Base.{
  ℕ, ◌+◌, ◌≤◌, ◌≡◌, refl, sym, ap, ◌∙◌, Bool, false, List, [], ◌++◌, append-nil,
}
use ngx_sqlite_log.Util.{Str}
use ngx_sqlite_log.Memory.{Pool, Lists}
use ngx_sqlite_log.Slab.{Slab}
use ngx_sqlite_log.Buf.{Shared, unshift_locked, list_locked}
use ngx_sqlite_log.Buf.Invariant.{rows, Owns, unshift_lem}
use ngx_sqlite_log.Buf.Rows.{list_lem}
use ngx_sqlite_log.Sqlite.{Sqlite}
use ngx_sqlite_log.Sqlite.Wrap.{State}
use ngx_sqlite_log.Sqlite.Transactions.{Transactions, Value}
use ngx_sqlite_log.Sql.Insert.{insert_text}
use ngx_sqlite_log.Db.{Fmt, db_insert_list}
use ngx_sqlite_log.Db.Insert.{table}
use ngx_sqlite_log.Db.Retry.{Stays-StoredOnce}
use ngx_sqlite_log.Handler.Conserve.{fmt_rows}
use ngx_sqlite_log.Handler.Workers.{
  lock_section, System, Step, request, flush, insert, unshift, Reach, start, later,
}
use ngx_sqlite_log.Handler.Workers.Count.{count, in_flight}
use ngx_sqlite_log.Handler.Workers.Locked.{lock_section_lem}
use ngx_sqlite_log.Handler.Workers.Pushed.{pushed-Conserved}
use ngx_sqlite_log.Handler.Workers.Conserved.{
  Conserved, flushed-Conserved, inserted-Conserved, unshifted-Conserved,
}

module _ (slab : Slab) (sq : Sqlite) where
  -- A system in which no worker has anything in hand.
  abbrev pub at_rest : Shared slab → State sq → System slab sq
  at_rest sh st = record {
    shared = sh;
    dbs = st;
    flight = [];
    backs = [];
    arrived = [];
    stored = [];
    dropped = [];
  }

module _ (slab : Slab) (p : Pool) (lists : Lists p) (sq : Sqlite) (tx : Transactions sq) (fmt : Fmt)
    (max : ℕ) where
  module _ (others : ℕ → ℕ) (base : List (List Value)) where
    -- The invariant, with the parameters of this section.
    abbrev Inv : System slab sq → Type 0
    Inv s = Conserved slab p lists sq tx fmt others base s

    Step-Conserved :
        {s t : System slab sq}
        → fmt.sql_insert ≡ insert_text fmt.name fmt.ncols
        → 1 ≤ fmt.ncols
        → Inv s
        → Step slab p lists sq fmt max s t
        → Inv t
    Step-Conserved {s} h pos c (request entry m w) =
        let (v, u) =
          lock_section_lem slab p lists others max entry m s.shared (rw w pos) (rw w c.wide_rows)
            c.owns in
        pushed-Conserved slab p lists sq tx fmt others base entry s
          (lock_section slab p lists max entry m s.shared) w c v u
    Step-Conserved {s} h pos c (flush m some_wait) =
        flushed-Conserved slab p lists sq tx fmt others base s
          (list_locked slab p lists fmt.ncols s.shared m) c
          (list_lem slab p lists others fmt.ncols s.shared m pos c.wide_rows c.owns)
    Step-Conserved {s} h pos c (insert before b after db e f stays) =
        inserted-Conserved slab p lists sq tx fmt others base s before b after db
          (db_insert_list sq db b.parts s.dbs) e f c
          (Stays-StoredOnce sq tx db b.parts s.dbs
            (ap (λ g. g.sql_insert) f ∙ h ∙ ap (λ g. insert_text g.name g.ncols) (sym f)) stays)
    Step-Conserved {s} h pos c (unshift before entry after e) =
        let (v, u) = unshift_lem slab others entry s.shared c.owns in
        unshifted-Conserved slab p lists sq tx fmt others base s before entry after
          (unshift_locked slab entry s.shared) e c v u

    Reach-Conserved :
        {s t : System slab sq}
        → fmt.sql_insert ≡ insert_text fmt.name fmt.ncols
        → 1 ≤ fmt.ncols
        → Inv s
        → Reach slab p lists sq fmt max s t
        → Inv t
    Reach-Conserved h pos c start = c
    Reach-Conserved h pos c (later r x) = Step-Conserved h pos (Reach-Conserved h pos c r) x

  -- What has become of the entries that arrived, in a system that began with `base` in the table.
  abbrev pub Accounted : List (List Value) → System slab sq → Type 0
  Accounted base t =
      (table sq tx t.dbs ≡ base ++ fmt_rows sq tx fmt t.stored)
      × ((q : List Str → Bool)
          → q [] ≡ false
          → count q t.stored
              + count q (rows t.shared.queue)
              + in_flight q t.flight
              + count q t.backs
              + count q t.dropped
            ≡ count q t.arrived)

  -- For a format whose INSERT is the text that the module builds, with at least one column, from an
  -- empty queue that satisfies its invariant, and however many workers interleave their requests,
  -- flushes, insertions (that need no second attempt) and unshifts: the table is the one at the
  -- start followed by the rows of the entries whose insertion succeeded, in that order. Each entry
  -- that arrived is stored, waits, is in a worker's hands or was given up, and is so exactly as
  -- often as it arrived; the blank rows that stand for an empty queue are not counted. The queue's
  -- invariant holds throughout.
  pub interleaved-Accounted :
      (others : ℕ → ℕ) (sh : Shared slab) (st : State sq) (t : System slab sq)
      → fmt.sql_insert ≡ insert_text fmt.name fmt.ncols
      → 1 ≤ fmt.ncols
      → Owns slab others sh
      → sh.queue ≡ []
      → Reach slab p lists sq fmt max (at_rest slab sq sh st) t
      → Owns slab others t.shared × Accounted (table sq tx st) t
  interleaved-Accounted others sh st t h pos v e r =
      let c = Reach-Conserved others (table sq tx st) h pos begin r in
      (c.owns, (c.holds, c.counted))
    where
      begin : Conserved slab p lists sq tx fmt others (table sq tx st) (at_rest slab sq sh st)
      begin = record {
        owns = v;
        wide_rows = rw e tt;
        wide_backs = tt;
        wide_flight = tt;
        holds = sym (append-nil (table sq tx st));
        counted = λ q no_blank. rw e refl;
      }
