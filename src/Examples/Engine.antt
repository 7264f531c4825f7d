-- ===== src/Examples/Engine.antt =====
-- A small database engine: an instance of the SQLite interface with one table and one statement.
use ngx_sqlite_log.Base.{
  ℕ, zero, suc, ◌+◌, ◌≡◌, refl, ap, ◌∙◌, ◌&&◌, List, [], ◌∷◌, ◌++◌, Option, none, some, arith,
  codes, ◌==◌, if◌then◌else◌, Bool, true, leb, map,
}
use ngx_sqlite_log.Sqlite.{Sqlite}
use ngx_sqlite_log.Sqlite.Code
use ngx_sqlite_log.Sqlite.Transactions.{
  Transactions, Value, null, text, blob, number, text_value, blob_value, values_from,
}
use ngx_sqlite_log.Sql.Insert.{insert_text, marks, more_marks}

-- The question marks behind the last opening bracket, from a count so far.
abbrev count_params : ℕ → List ℕ → ℕ
count_params k [] = k
count_params k (c ∷ s) = count_params (if c == b'(' then 0 else if c == b'?' then suc k else k) s

count_params-append :
    (k : ℕ) (s t : List ℕ) → count_params k (s ++ t) ≡ count_params (count_params k s) t
count_params-append k [] t = refl
count_params-append k (c ∷ s) t =
    count_params-append (if c == b'(' then 0 else if c == b'?' then suc k else k) s t

count_params-more_marks : (k n : ℕ) → count_params k (more_marks n ++ b')' ∷ []) ≡ n + k
count_params-more_marks k zero = omega arith
count_params-more_marks k (suc n) = count_params-more_marks (suc k) n ∙ omega arith

count_params-marks : (n : ℕ) → count_params 0 (marks n ++ b')' ∷ []) ≡ n
count_params-marks zero = refl
count_params-marks (suc n) = count_params-more_marks 1 n ∙ omega arith

pub count_params-insert_text : (name : List ℕ) (n : ℕ) → count_params 0 (insert_text name n) ≡ n
count_params-insert_text name n =
    count_params-append 0 ((codes "INSERT INTO " ++ name) ++ codes " VALUES (")
      (marks n ++ b')' ∷ [])
    ∙ ap (λ k. count_params k (marks n ++ b')' ∷ []))
        (count_params-append 0 (codes "INSERT INTO " ++ name) (codes " VALUES ("))
    ∙ count_params-marks n

pub record World : Type 0 where
  pub table : List (List Value)
  pub pending : Option (List (List Value))
  pub params : ℕ
  pub bound : ℕ → Value

abbrev all_digits : List ℕ → Bool
all_digits [] = true
all_digits (c ∷ s) = leb b'0' c && leb c b'9' && all_digits s

-- The engine's columns are of type NUMERIC: a text of digits becomes a number.
abbrev convert : Value → Value
convert null = null
convert (text s) = if all_digits s then number s else text s
convert (blob s) = blob s
convert (number s) = number s

abbrev as_stored : List Value → List Value
as_stored row = map convert row

null_from : (i n : ℕ) → as_stored (values_from i n (λ j. null)) ≡ values_from i n (λ j. null)
null_from i zero = refl
null_from i (suc n) = ap (◌∷◌ null) (null_from (suc i) n)

pub nulls_stored : (n : ℕ) → as_stored (values_from 1 n (λ j. null)) ≡ values_from 1 n (λ j. null)
nulls_stored n = null_from 1 n

abbrev insert_row : Option (List (List Value)) → World → World
insert_row none w = record w { table = w.table ++ as_stored (values_from 1 w.params w.bound) ∷ [] }
insert_row (some rs) w = record w {
  pending = some (rs ++ as_stored (values_from 1 w.params w.bound) ∷ []);
}

abbrev commit_rows : Option (List (List Value)) → World → World
commit_rows none w = w
commit_rows (some rs) w = record w { table = w.table ++ rs; pending = none }

-- The four commands that the source executes, told apart by their first two bytes.
abbrev execute : List ℕ → World → World
execute [] w = w
execute (a ∷ []) w = w
execute (a ∷ b ∷ s) w =
    if a == b'B'
    then record w { pending = some [] }
    else if a == b'R'
    then record w { pending = none }
    else if a == b'C' && b == b'O'
    then commit_rows w.pending w
    else w

abbrev bind : ℕ → Value → World → World
bind i v w = record w { bound = λ j. if i == j then v else w.bound j }

abbrev pub engine : Sqlite
engine = record {
  World = World;
  open_v2 = λ filename w. (Code.ok, some 1, w);
  close = λ c w. (Code.ok, w);
  busy_timeout = λ c ms w. (Code.ok, w);
  exec = λ c sql w. (Code.ok, execute sql w);
  prepare_v2 =
      λ c sql w. (Code.ok, some 2, record w { params = count_params 0 sql; bound = λ j. null });
  bind_text = λ s i v w. (Code.ok, bind i (text_value v) w);
  bind_blob = λ s i v w. (Code.ok, bind i (blob_value v) w);
  bind_null = λ s i w. (Code.ok, bind i null w);
  step = λ s w. (Code.done, insert_row w.pending w);
  finalize = λ s w. (Code.ok, w);
  wal_checkpoint_v2 = λ c w. (Code.ok, w);
  extended_errcode = λ c w. Code.ok;
  errmsg = λ c w. [];
  column_count = λ s w. 0;
  column_text = λ s i w. [];
  column_int = λ s i w. 0;
}

-- The engine keeps what is relied on.
abbrev pub transactions : Transactions engine
transactions = record {
  table = λ w. w.table;
  pending = λ w. w.pending;
  as_stored = as_stored;
  null_stored = nulls_stored;
  is_insert = λ w s. true;
  params = λ w s. w.params;
  bound = λ w s. w.bound;
  prepare_keeps = λ c sql w. (refl, refl);
  prepare_insert = λ c name n w h. (count_params-insert_text name n, (λ i. refl), refl);
  text_keeps = λ s i v w. (refl, refl, refl, refl);
  text_bound = λ s i v w h j. refl;
  blob_keeps = λ s i v w. (refl, refl, refl, refl);
  blob_bound = λ s i v w h j. refl;
  step_alone =
      λ s w q p h. (ap (λ o. (insert_row o w).table) p, ap (λ o. (insert_row o w).pending) p ∙ p);
  step_inside = λ s w rs q p h. rw p (refl, refl);
  step_error = λ s w q h. absurd (h refl);
  step_answer = λ s w h. absurd (omega (arith, h));
  finalize_keeps = λ s w. (refl, refl);
  finalize_done = λ s w h. refl;
  begin = λ c w. (refl, λ h. refl);
  commit = λ c w rs p. rw p ((λ h. (refl, refl)), λ h. absurd (h refl));
  rollback = λ c w. refl;
}

abbrev pub fresh : World
fresh = record { table = []; pending = none; params = 0; bound = λ j. null }
