-- ===== src/Sqlite/Code.antt =====
-- The result codes that the source tests, with the numbers that SQLite documents.
use ngx_sqlite_log.Base.{ℕ}

abbrev pub ok : ℕ
ok = 0

abbrev pub error : ℕ
error = 1

abbrev pub busy : ℕ
busy = 5

abbrev pub toobig : ℕ
toobig = 18

abbrev pub row : ℕ
row = 100

abbrev pub done : ℕ
done = 101

abbrev pub readonly_dbmoved : ℕ
readonly_dbmoved = 1032
