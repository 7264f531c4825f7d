-- ===== src/Handler/Workers/Count.antt =====
-- How often entries that pass a test occur in what the workers have in hand.
use ngx_sqlite_log.Base.{ℕ, ◌+◌, ◌≡◌, refl, Bool, true, false, List, [], ◌∷◌, ◌++◌, arith, All}
use ngx_sqlite_log.Util.{Str}
use ngx_sqlite_log.Buf.Rows.{parts_of}
use ngx_sqlite_log.Handler.Workers.{Batch, to_list}

abbrev one : Bool → ℕ
one true = 1
one false = 0

abbrev pub count : (List Str → Bool) → List (List Str) → ℕ
count q [] = 0
count q (r ∷ rs) = one (q r) + count q rs

abbrev pub in_flight : (List Str → Bool) → List Batch → ℕ
in_flight q [] = 0
in_flight q (b ∷ bs) = (count q b.parts + count q (to_list b.back)) + in_flight q bs

pub count-append :
    (q : List Str → Bool) (rs ss : List (List Str)) → count q (rs ++ ss) ≡ count q rs + count q ss
count-append q [] ss = omega arith
count-append q (r ∷ rs) ss = omega (arith, count-append q rs ss)

pub count_remove :
    (q : List Str → Bool) (rs : List (List Str)) (r : List Str) (ss : List (List Str))
    → count q (rs ++ r ∷ ss) ≡ count q (r ∷ []) + count q (rs ++ ss)
count_remove q [] r ss = omega arith
count_remove q (x ∷ rs) r ss = omega (arith, count_remove q rs r ss)

pub in_flight_remove :
    (q : List Str → Bool) (bs : List Batch) (b : Batch) (cs : List Batch)
    → in_flight q (bs ++ b ∷ cs)
      ≡ (count q b.parts + count q (to_list b.back)) + in_flight q (bs ++ cs)
in_flight_remove q [] b cs = refl
in_flight_remove q (x ∷ bs) b cs = omega (arith, in_flight_remove q bs b cs)

-- The part that an empty queue is listed as does not pass the test.
pub count-parts_of :
    (q : List Str → Bool) (rs : List (List Str)) → q [] ≡ false → count q (parts_of rs) ≡ count q rs
count-parts_of q [] h = rw h refl
count-parts_of q (r ∷ rs) h = refl

pub All_remove {ℓ κ} :
    {A : Type ℓ} (P : A → Type κ) (xs : List A) (x : A) (ys : List A)
    → All P (xs ++ x ∷ ys)
    → P x × All P (xs ++ ys)
All_remove P [] x ys h = h
All_remove P (z ∷ xs) x ys h = let (here, rest) = All_remove P xs x ys h.1 in (here, (h.0, rest))
