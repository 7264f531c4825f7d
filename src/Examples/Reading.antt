-- ===== src/Examples/Reading.antt =====
-- A small file system, and the theorems on reading files applied to it.
use ngx_sqlite_log.Base.{
  ℕ, ◌≡◌, refl, sym, ap, ◌∙◌, List, [], ◌∷◌, Option, none, some, true, length, append-nil, codes,
  arith,
}
use ngx_sqlite_log.Memory.{Pool}
use ngx_sqlite_log.File.{Files, FileLaws, file_size, file_read}
use ngx_sqlite_log.File.Reading.{Reads, file_read_lem, file_read_leaks}
use ngx_sqlite_log.Examples.Memory.{pool}

-- Every file holds this script.
abbrev script : List ℕ
script = codes "PRAGMA journal_mode = WAL;"

abbrev first_text : List (ℕ × List ℕ) → List ℕ
first_text [] = []
first_text ((fd, t) ∷ rest) = t

abbrev others_open : List (ℕ × List ℕ) → List (ℕ × List ℕ)
others_open [] = []
others_open (f ∷ rest) = rest

-- The open descriptors, the last one first.
abbrev pub files : Files
files = record {
  State = List (ℕ × List ℕ);
  open_file = λ name s. (some (length s), (length s, script) ∷ s);
  fd_info = λ fd s. (some (length (first_text s)), s);
  read_file = λ fd n s. (some (first_text s), s);
  close_file = λ fd s. (true, others_open s);
}

abbrev number : Option ℕ → ℕ
number none = 0
number (some n) = n

abbrev bytes : Option (List ℕ) → List ℕ
bytes none = []
bytes (some bs) = bs

abbrev laws : FileLaws files
laws = record {
  text = λ name. script;
  opened = λ s. s;
  open_failed = λ name s s' e. absurd (ground arith);
  open_done = λ name s fd s' e. sym (ap (λ o. o.1) e) ∙ ap (λ o. (number o.0, script) ∷ s) e;
  info_opened = λ fd s. refl;
  info_size =
      λ fd t rest s n s' h e. sym (ap (λ o. number o.0) e) ∙ ap (λ o. length (first_text o)) h;
  read_opened = λ fd n s. refl;
  read_bytes = λ fd t rest n s bs s' h e.
      ([], sym (ap first_text h) ∙ ap (λ o. bytes o.0) e ∙ sym (append-nil bs));
  close_opened = λ fd t rest s h. ap others_open h;
}

file_read_example :
    Reads files pool laws (codes "init.sql") [] (file_read files pool (codes "init.sql") 0 [])
file_read_example = file_read_lem files pool laws (codes "init.sql") 0 []

file_read_test : (file_read files pool (codes "init.sql") 0 []).0 ≡ some script
unfolding file_read file_size
file_read_test = refl

-- A pool without memory.
abbrev no_pool : Pool
no_pool = record {
  State = ℕ;
  array_create = λ n m. none;
  array_push = λ m. none;
  palloc = λ n m. none;
  pcalloc = λ n m. none;
}

file_read_leaks_example :
    ((file_read files no_pool (codes "init.sql") 0 []).0 ≡ none)
    × ((file_read files no_pool (codes "init.sql") 0 []).2 ≡ (0, script) ∷ [])
file_read_leaks_example =
    file_read_leaks files no_pool laws (codes "init.sql") 0 [] 0 ((0, script) ∷ []) refl (λ n. refl)
