-- ===== src/Handler/Workers.antt =====
-- Several workers at once: the sections of src/ngx_http_sqlitelog_module.c and
-- src/ngx_http_sqlitelog_thread.c that run under the shared pool's mutex, and the insertions
-- between them, as the steps of one system, in any order.
pub mod Count
pub mod Locked
pub mod Conserved
pub mod Pushed
pub mod Interleaved
pub mod Runs
use ngx_sqlite_log.Base.{
  ℕ, ◌≡◌, ◌≢◌, ◌⊎◌, Bool, true, false, List, [], ◌∷◌, ◌++◌, Option, none, some, length, ◌==◌,
  if◌then◌else◌,
}
use ngx_sqlite_log.Util.{Str}
use ngx_sqlite_log.Memory.{Pool, Lists}
use ngx_sqlite_log.Slab.{Slab}
use ngx_sqlite_log.Buf.{
  NgxRc, ok, done, error, Shared, push_locked, unshift_locked, list_locked, get_len_locked,
}
use ngx_sqlite_log.Sqlite.{Sqlite}
use ngx_sqlite_log.Sqlite.Code
use ngx_sqlite_log.Sqlite.Wrap.{State}
use ngx_sqlite_log.Db.{Db, Fmt, db_insert_list}
use ngx_sqlite_log.Db.Retry.{Stays}

-- A list that a worker has taken and not yet inserted, and the entry that it will unshift.
pub record Batch : Type 0 where
  pub parts : List (List Str)
  pub back : Option (List Str)

-- How the locked section of a request ends: with the code of the push, unless the entry is queued.
pub data Section (L : Type 0) : Type 0 where
  queued : Section L
  refused : NgxRc → Section L
  taken : NgxRc → L → Section L

module _ (slab : Slab) (p : Pool) (lists : Lists p) where
  abbrev pub section_list :
      NgxRc → Option (lists.L × p.State) × Shared slab → Section (lists.L × p.State) × Shared slab
  section_list rc (none, sh) = (refused rc, sh)
  section_list rc (some l, sh) = (taken rc l, sh)

  abbrev pub section_after :
      List Str → p.State → NgxRc × Shared slab → Section (lists.L × p.State) × Shared slab
  section_after entry m (ok, sh) = (queued, sh)
  section_after entry m (done, sh) =
      section_list done (list_locked slab p lists (length entry) sh m)
  section_after entry m (error, sh) =
      section_list error (list_locked slab p lists (length entry) sh m)

  -- What ngx_http_sqlitelog_handle_n does from "Lock" to "Unlock", but for the timer.
  unfoldable pub lock_section :
      ℕ → List Str → p.State → Shared slab → Section (lists.L × p.State) × Shared slab
  lock_section max entry m sh = section_after entry m (push_locked slab max entry sh)

-- What all workers share, and what each has in hand. `arrived`, `stored` and `dropped` record what
-- has become of the entries: those that requests brought, those whose insertion returned SQLITE_OK,
-- in that order, and those that a worker gave up.
pub record System (slab : Slab) (sq : Sqlite) : Type 0 where
  pub shared : Shared slab
  pub dbs : State sq
  pub flight : List Batch
  pub backs : List (List Str)
  pub arrived : List (List Str)
  pub stored : List (List Str)
  pub dropped : List (List Str)

abbrev pub back_of : NgxRc → List Str → Option (List Str)
back_of ok entry = none
back_of done entry = none
back_of error entry = some entry

abbrev pub to_list : Option (List Str) → List (List Str)
to_list none = []
to_list (some e) = e ∷ []

abbrev pub batch : List (List Str) → Option (List Str) → Batch
batch parts back = record { parts = parts; back = back }

module _ (slab : Slab) (p : Pool) (lists : Lists p) (sq : Sqlite) where
  abbrev pub pushed :
      List Str → Section (lists.L × p.State) × Shared slab → System slab sq → System slab sq
  pushed entry (queued, sh) s = record s { shared = sh; arrived = s.arrived ++ entry ∷ [] }
  pushed entry (refused rc, sh) s = record s {
    shared = sh;
    arrived = s.arrived ++ entry ∷ [];
    dropped = s.dropped ++ to_list (back_of rc entry);
  }
  pushed entry (taken rc (l, m), sh) s = record s {
    shared = sh;
    arrived = s.arrived ++ entry ∷ [];
    flight = batch (lists.parts l) (back_of rc entry) ∷ s.flight;
  }

  abbrev pub flushed : Option (lists.L × p.State) × Shared slab → System slab sq → System slab sq
  flushed (none, sh) s = record s { shared = sh }
  flushed (some (l, m), sh) s = record s {
    shared = sh;
    flight = batch (lists.parts l) none ∷ s.flight;
  }

module _ (slab : Slab) (sq : Sqlite) where
  -- The insertion of a batch, `rest` being the others.
  abbrev pub inserted : Batch → List Batch → ℕ × Db × State sq → System slab sq → System slab sq
  inserted b rest (rc, db', st') s =
      if rc == Code.ok
      then record s {
        dbs = st';
        flight = rest;
        stored = s.stored ++ b.parts;
        backs = to_list b.back ++ s.backs;
      }
      else record s { dbs = st'; flight = rest; dropped = s.dropped ++ (b.parts ++ to_list b.back) }

  -- The step "Unshift".
  abbrev pub unshifted :
      List Str → List (List Str) → NgxRc × Shared slab → System slab sq → System slab sq
  unshifted entry rest (ok, sh) s = record s { shared = sh; backs = rest }
  unshifted entry rest (done, sh) s = record s {
    shared = sh;
    backs = rest;
    dropped = s.dropped ++ entry ∷ [];
  }
  unshifted entry rest (error, sh) s = record s {
    shared = sh;
    backs = rest;
    dropped = s.dropped ++ entry ∷ [];
  }

-- The steps. Any worker may take any of them: a request of the format's width, a flush of a queue
-- that is not empty, the insertion of a batch on a connection of the format, and an unshift.
-- `Stays` says that the insertion does not have to open the database again.
pub data Step (slab : Slab) (p : Pool) (lists : Lists p) (sq : Sqlite) (fmt : Fmt) (max : ℕ)
    (s : System slab sq) : System slab sq → Type 0 where
  request :
      (entry : List Str) (m : p.State)
      → length entry ≡ fmt.ncols
      → Step slab p lists sq fmt max s
          (pushed slab p lists sq entry (lock_section slab p lists max entry m s.shared) s)
  flush :
      (m : p.State)
      → get_len_locked slab s.shared ≢ 0
      → Step slab p lists sq fmt max s
          (flushed slab p lists sq (list_locked slab p lists fmt.ncols s.shared m) s)
  insert :
      (before : List Batch) (b : Batch) (after : List Batch) (db : Db)
      → s.flight ≡ before ++ b ∷ after
      → db.fmt ≡ fmt
      → Stays sq db b.parts s.dbs
      → Step slab p lists sq fmt max s
          (inserted slab sq b (before ++ after) (db_insert_list sq db b.parts s.dbs) s)
  unshift :
      (before : List (List Str)) (entry : List Str) (after : List (List Str))
      → s.backs ≡ before ++ entry ∷ after
      → Step slab p lists sq fmt max s
          (unshifted slab sq entry (before ++ after) (unshift_locked slab entry s.shared) s)

-- What can be reached from a state.
pub data Reach (slab : Slab) (p : Pool) (lists : Lists p) (sq : Sqlite) (fmt : Fmt) (max : ℕ)
    (s : System slab sq) : System slab sq → Type 0 where
  start : Reach slab p lists sq fmt max s s
  later :
      {t u : System slab sq}
      → Reach slab p lists sq fmt max s t
      → Step slab p lists sq fmt max t u
      → Reach slab p lists sq fmt max s u
