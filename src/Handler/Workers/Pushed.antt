-- ===== src/Handler/Workers/Pushed.antt =====
-- The invariant after a request's locked section.
use ngx_sqlite_log.Base.{ℕ, ◌≡◌, ap, List, [], ◌∷◌, arith, length, All-append}
use ngx_sqlite_log.Util.{Str}
use ngx_sqlite_log.Memory.{Pool, Lists}
use ngx_sqlite_log.Slab.{Slab}
use ngx_sqlite_log.Buf.{ok, done, error, Shared}
use ngx_sqlite_log.Buf.Invariant.{rows, Owns}
use ngx_sqlite_log.Sqlite.{Sqlite}
use ngx_sqlite_log.Sqlite.Transactions.{Transactions, Value}
use ngx_sqlite_log.Db.{Fmt}
use ngx_sqlite_log.Handler.Workers.{Section, queued, refused, taken, System, pushed}
use ngx_sqlite_log.Handler.Workers.Count.{count, count-append, count-parts_of}
use ngx_sqlite_log.Handler.Workers.Locked.{Sectioned}
use ngx_sqlite_log.Handler.Workers.Conserved.{Conserved}

module _ (slab : Slab) (p : Pool) (lists : Lists p) (sq : Sqlite) (tx : Transactions sq) where
  module _ (fmt : Fmt) (others : ℕ → ℕ) (base : List (List Value)) where
    -- An entry of the format.
    abbrev Wide : List Str → Type 0
    Wide r = length r ≡ fmt.ncols

    -- The invariant, with the parameters of this section.
    abbrev Inv : System slab sq → Type 0
    Inv s = Conserved slab p lists sq tx fmt others base s

    pub pushed-Conserved :
        (entry : List Str) (s : System slab sq) (o : Section (lists.L × p.State) × Shared slab)
        → Wide entry
        → Inv s
        → Owns slab others o.1
        → Sectioned slab p lists entry s.shared o
        → Inv (pushed slab p lists sq entry o s)
    pushed-Conserved entry s (queued, sh) w c v u = record {
      owns = v;
      wide_rows = rw u (All-append Wide (rows s.shared.queue) (entry ∷ []) c.wide_rows (w, tt));
      wide_backs = c.wide_backs;
      wide_flight = c.wide_flight;
      holds = c.holds;
      counted = λ q h. omega (
        arith,
        c.counted q h,
        ap (count q) u,
        count-append q (rows s.shared.queue) (entry ∷ []),
        count-append q s.arrived (entry ∷ []),
      );
    }
    pushed-Conserved entry s (refused ok, sh) w c v u = absurd u
    pushed-Conserved entry s (refused done, sh) w c v u = record {
      owns = v;
      wide_rows = rw u (All-append Wide (rows s.shared.queue) (entry ∷ []) c.wide_rows (w, tt));
      wide_backs = c.wide_backs;
      wide_flight = c.wide_flight;
      holds = c.holds;
      counted = λ q h. omega (
        arith,
        c.counted q h,
        ap (count q) u,
        count-append q (rows s.shared.queue) (entry ∷ []),
        count-append q s.arrived (entry ∷ []),
        count-append q s.dropped [],
      );
    }
    pushed-Conserved entry s (refused error, sh) w c v u = record {
      owns = v;
      wide_rows = rw u c.wide_rows;
      wide_backs = c.wide_backs;
      wide_flight = c.wide_flight;
      holds = c.holds;
      counted = λ q h. omega (
        arith,
        c.counted q h,
        ap (count q) u,
        count-append q s.arrived (entry ∷ []),
        count-append q s.dropped (entry ∷ []),
      );
    }
    pushed-Conserved entry s (taken ok r, sh) w c v u = absurd u
    pushed-Conserved entry s (taken done (l, m), sh) w c v u = record {
      owns = v;
      wide_rows = rw u.0 tt;
      wide_backs = c.wide_backs;
      wide_flight = (tt, c.wide_flight);
      holds = c.holds;
      counted = λ q h. omega (
        arith,
        c.counted q h,
        ap (λ ns. count q (rows ns)) u.0,
        ap (count q) u.1,
        count-append q (rows s.shared.queue) (entry ∷ []),
        count-append q s.arrived (entry ∷ []),
      );
    }
    pushed-Conserved entry s (taken error (l, m), sh) w c v u = record {
      owns = v;
      wide_rows = rw u.0 tt;
      wide_backs = c.wide_backs;
      wide_flight = ((w, tt), c.wide_flight);
      holds = c.holds;
      counted = λ q h. omega (
        arith,
        c.counted q h,
        ap (λ ns. count q (rows ns)) u.0,
        ap (count q) u.1,
        count-parts_of q (rows s.shared.queue) h,
        count-append q s.arrived (entry ∷ []),
      );
    }
