-- ===== src/Handler/Workers/Conserved.antt =====
-- No entry is lost or stored twice, however the workers' steps are interleaved.
use ngx_sqlite_log.Base.{
  ℕ, ◌+◌, ◌≡◌, sym, ap, ◌∙◌, Bool, false, List, [], ◌∷◌, ◌++◌, Option, none, some, arith, length,
  All, All-append, ◌==◌, branch, append_assoc, ==_iff,
}
use ngx_sqlite_log.Util.{Str}
use ngx_sqlite_log.Memory.{Pool, Lists}
use ngx_sqlite_log.Slab.{Slab}
use ngx_sqlite_log.Buf.{NgxRc, ok, done, error, Shared}
use ngx_sqlite_log.Buf.Invariant.{rows, Owns, Unshifted}
use ngx_sqlite_log.Buf.Rows.{Listed}
use ngx_sqlite_log.Sqlite.{Sqlite}
use ngx_sqlite_log.Sqlite.Code
use ngx_sqlite_log.Sqlite.Wrap.{State}
use ngx_sqlite_log.Sqlite.Transactions.{Transactions, Value}
use ngx_sqlite_log.Db.{Db, Fmt}
use ngx_sqlite_log.Db.Insert.{table}
use ngx_sqlite_log.Db.Retry.{StoredOnce}
use ngx_sqlite_log.Handler.Conserve.{fmt_rows, fmt_rows-append}
use ngx_sqlite_log.Handler.Workers.{Batch, System, to_list, flushed, inserted, unshifted}
use ngx_sqlite_log.Handler.Workers.Count.{
  count, in_flight, count-append, count_remove, in_flight_remove, count-parts_of, All_remove,
}

module _ (slab : Slab) (p : Pool) (lists : Lists p) (sq : Sqlite) (tx : Transactions sq) where
  module _ (fmt : Fmt) (others : ℕ → ℕ) (base : List (List Value)) where
    -- An entry of the format.
    abbrev Wide : List Str → Type 0
    Wide r = length r ≡ fmt.ncols

    -- The system's invariant. `base` is the table at the start.
    pub record Conserved (s : System slab sq) : Type 0 where
      pub owns : Owns slab others s.shared
      pub wide_rows : All Wide (rows s.shared.queue)
      pub wide_backs : All Wide s.backs
      pub wide_flight : All (λ b. All Wide (to_list b.back)) s.flight
      pub holds : table sq tx s.dbs ≡ base ++ fmt_rows sq tx fmt s.stored
      pub counted :
          (q : List Str → Bool)
          → q [] ≡ false
          → count q s.stored
              + count q (rows s.shared.queue)
              + in_flight q s.flight
              + count q s.backs
              + count q s.dropped
            ≡ count q s.arrived

    pub flushed-Conserved :
        (s : System slab sq) (o : Option (lists.L × p.State) × Shared slab)
        → Conserved s
        → Listed slab p lists others fmt.ncols s.shared o
        → Conserved (flushed slab p lists sq o s)
    flushed-Conserved s (none, sh) c e = record {
      owns = rw e c.owns;
      wide_rows = rw e c.wide_rows;
      wide_backs = c.wide_backs;
      wide_flight = c.wide_flight;
      holds = c.holds;
      counted = λ q h. rw e (c.counted q h);
    }
    flushed-Conserved s (some (l, m), sh) c (ps, e, v) = record {
      owns = v;
      wide_rows = rw e tt;
      wide_backs = c.wide_backs;
      wide_flight = (tt, c.wide_flight);
      holds = c.holds;
      counted = λ q h. omega (
        arith,
        c.counted q h,
        ap (λ ns. count q (rows ns)) e,
        ap (count q) ps,
        count-parts_of q (rows s.shared.queue) h,
      );
    }

    pub inserted-Conserved :
        (s : System slab sq) (before : List Batch) (b : Batch) (after : List Batch) (db : Db)
        (o : ℕ × Db × State sq)
        → s.flight ≡ before ++ b ∷ after
        → db.fmt ≡ fmt
        → Conserved s
        → StoredOnce sq tx db b.parts s.dbs o
        → Conserved (inserted slab sq b (before ++ after) o s)
    inserted-Conserved s before b after db (rc, db', st') e f c u =
        let (wide_b, wide_rest) =
          All_remove (λ x. All Wide (to_list x.back)) before b after (rw (← e) c.wide_flight) in
        branch Conserved (rc == Code.ok) _ _
          (λ good. record {
            owns = c.owns;
            wide_rows = c.wide_rows;
            wide_backs = All-append Wide (to_list b.back) s.backs wide_b c.wide_backs;
            wide_flight = wide_rest;
            holds =
                u.1 ((==_iff rc Code.ok).0 good)
                ∙ ap (λ t. t ++ fmt_rows sq tx db.fmt b.parts) c.holds
                ∙ ap (λ g. (base ++ fmt_rows sq tx fmt s.stored) ++ fmt_rows sq tx g b.parts) f
                ∙ append_assoc base (fmt_rows sq tx fmt s.stored) (fmt_rows sq tx fmt b.parts)
                ∙ ap (λ r. base ++ r) (sym (fmt_rows-append sq tx fmt s.stored b.parts));
            counted = λ q h. omega (
              arith,
              c.counted q h,
              ap (in_flight q) e,
              in_flight_remove q before b after,
              count-append q s.stored b.parts,
              count-append q (to_list b.back) s.backs,
            );
          })
          λ bad. record {
            owns = c.owns;
            wide_rows = c.wide_rows;
            wide_backs = c.wide_backs;
            wide_flight = wide_rest;
            holds = u.2 (λ r. absurd (ground (arith, r, bad))) ∙ c.holds;
            counted = λ q h. omega (
              arith,
              c.counted q h,
              ap (in_flight q) e,
              in_flight_remove q before b after,
              count-append q s.dropped (b.parts ++ to_list b.back),
              count-append q b.parts (to_list b.back),
            );
          }

    pub unshifted-Conserved :
        (s : System slab sq) (before : List (List Str)) (entry : List Str) (after : List (List Str))
        (o : NgxRc × Shared slab)
        → s.backs ≡ before ++ entry ∷ after
        → Conserved s
        → Owns slab others o.1
        → Unshifted slab entry s.shared o
        → Conserved (unshifted slab sq entry (before ++ after) o s)
    unshifted-Conserved s before entry after (ok, sh) e c v u =
        let (wide, rest) = All_remove Wide before entry after (rw (← e) c.wide_backs) in
        record {
          owns = v;
          wide_rows = rw u (wide, c.wide_rows);
          wide_backs = rest;
          wide_flight = c.wide_flight;
          holds = c.holds;
          counted = λ q h. omega (
            arith,
            c.counted q h,
            ap (count q) u,
            ap (count q) e,
            count_remove q before entry after,
          );
        }
    unshifted-Conserved s before entry after (done, sh) e c v u = absurd u
    unshifted-Conserved s before entry after (error, sh) e c v u =
        let (wide, rest) = All_remove Wide before entry after (rw (← e) c.wide_backs) in
        record {
          owns = v;
          wide_rows = rw u c.wide_rows;
          wide_backs = rest;
          wide_flight = c.wide_flight;
          holds = c.holds;
          counted = λ q h. omega (
            arith,
            c.counted q h,
            ap (count q) u,
            ap (count q) e,
            count_remove q before entry after,
            count-append q s.dropped (entry ∷ []),
          );
        }
