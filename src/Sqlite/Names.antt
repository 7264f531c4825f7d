-- ===== src/Sqlite/Names.antt =====
-- src/ngx_http_sqlitelog_sqlite3.c: ngx_http_sqlitelog_rcname_cs, ngx_http_sqlitelog_rcname and
-- ngx_http_sqlitelog_errmsg, the names of result codes and the messages that the error log prints.
pub mod Legible
use ngx_sqlite_log.Base.{ℕ, ◌+◌, ◌*◌, List, [], ◌∷◌, ◌==◌, if◌then◌else◌, codes}
use ngx_sqlite_log.Sqlite.{Sqlite, Handle}

-- The n-th extended code of a primary one, as SQLite numbers them.
abbrev extended : ℕ → ℕ → ℕ
extended primary n = primary + 256 * n

-- The cases of the switch, in its order.
abbrev pub cases : List (ℕ × List ℕ)
cases =
    (0, codes "SQLITE_OK")
    ∷ (1, codes "SQLITE_ERROR")
    ∷ (2, codes "SQLITE_INTERNAL")
    ∷ (3, codes "SQLITE_PERM")
    ∷ (4, codes "SQLITE_ABORT")
    ∷ (5, codes "SQLITE_BUSY")
    ∷ (6, codes "SQLITE_LOCKED")
    ∷ (7, codes "SQLITE_NOMEM")
    ∷ (8, codes "SQLITE_READONLY")
    ∷ (9, codes "SQLITE_INTERRUPT")
    ∷ (10, codes "SQLITE_IOERR")
    ∷ (11, codes "SQLITE_CORRUPT")
    ∷ (12, codes "SQLITE_NOTFOUND")
    ∷ (13, codes "SQLITE_FULL")
    ∷ (14, codes "SQLITE_CANTOPEN")
    ∷ (15, codes "SQLITE_PROTOCOL")
    ∷ (16, codes "SQLITE_EMPTY")
    ∷ (17, codes "SQLITE_SCHEMA")
    ∷ (18, codes "SQLITE_TOOBIG")
    ∷ (19, codes "SQLITE_CONSTRAINT")
    ∷ (20, codes "SQLITE_MISMATCH")
    ∷ (21, codes "SQLITE_MISUSE")
    ∷ (22, codes "SQLITE_NOLFS")
    ∷ (23, codes "SQLITE_AUTH")
    ∷ (24, codes "SQLITE_FORMAT")
    ∷ (25, codes "SQLITE_RANGE")
    ∷ (26, codes "SQLITE_NOTADB")
    ∷ (27, codes "SQLITE_NOTICE")
    ∷ (28, codes "SQLITE_WARNING")
    ∷ (100, codes "SQLITE_ROW")
    ∷ (101, codes "SQLITE_DONE")
    ∷ (extended 1 1, codes "SQLITE_ERROR_MISSING_COLLSEQ")
    ∷ (extended 1 2, codes "SQLITE_ERROR_RETRY")
    ∷ (extended 1 3, codes "SQLITE_ERROR_SNAPSHOT")
    ∷ (extended 10 1, codes "SQLITE_IOERR_READ")
    ∷ (extended 10 2, codes "SQLITE_IOERR_SHORT_READ")
    ∷ (extended 10 3, codes "SQLITE_IOERR_WRITE")
    ∷ (extended 10 4, codes "SQLITE_IOERR_FSYNC")
    ∷ (extended 10 5, codes "SQLITE_IOERR_DIR_FSYNC")
    ∷ (extended 10 6, codes "SQLITE_IOERR_TRUNCATE")
    ∷ (extended 10 7, codes "SQLITE_IOERR_FSTAT")
    ∷ (extended 10 8, codes "SQLITE_IOERR_UNLOCK")
    ∷ (extended 10 9, codes "SQLITE_IOERR_RDLOCK")
    ∷ (extended 10 10, codes "SQLITE_IOERR_DELETE")
    ∷ (extended 10 11, codes "SQLITE_IOERR_BLOCKED")
    ∷ (extended 10 12, codes "SQLITE_IOERR_NOMEM")
    ∷ (extended 10 13, codes "SQLITE_IOERR_ACCESS")
    ∷ (extended 10 14, codes "SQLITE_IOERR_CHECKRESERVEDLOCK")
    ∷ (extended 10 15, codes "SQLITE_IOERR_LOCK")
    ∷ (extended 10 16, codes "SQLITE_IOERR_CLOSE")
    ∷ (extended 10 17, codes "SQLITE_IOERR_DIR_CLOSE")
    ∷ (extended 10 18, codes "SQLITE_IOERR_SHMOPEN")
    ∷ (extended 10 19, codes "SQLITE_IOERR_SHMSIZE")
    ∷ (extended 10 20, codes "SQLITE_IOERR_SHMLOCK")
    ∷ (extended 10 21, codes "SQLITE_IOERR_SHMMAP")
    ∷ (extended 10 22, codes "SQLITE_IOERR_SEEK")
    ∷ (extended 10 23, codes "SQLITE_IOERR_DELETE_NOENT")
    ∷ (extended 10 24, codes "SQLITE_IOERR_MMAP")
    ∷ (extended 10 25, codes "SQLITE_IOERR_GETTEMPPATH")
    ∷ (extended 10 26, codes "SQLITE_IOERR_CONVPATH")
    ∷ (extended 10 27, codes "SQLITE_IOERR_VNODE")
    ∷ (extended 10 28, codes "SQLITE_IOERR_AUTH")
    ∷ (extended 10 29, codes "SQLITE_IOERR_BEGIN_ATOMIC")
    ∷ (extended 10 30, codes "SQLITE_IOERR_COMMIT_ATOMIC")
    ∷ (extended 10 31, codes "SQLITE_IOERR_ROLLBACK_ATOMIC")
    ∷ (extended 6 1, codes "SQLITE_LOCKED_SHAREDCACHE")
    ∷ (extended 6 2, codes "SQLITE_LOCKED_VTAB")
    ∷ (extended 5 1, codes "SQLITE_BUSY_RECOVERY")
    ∷ (extended 5 2, codes "SQLITE_BUSY_SNAPSHOT")
    ∷ (extended 14 1, codes "SQLITE_CANTOPEN_NOTEMPDIR")
    ∷ (extended 14 2, codes "SQLITE_CANTOPEN_ISDIR")
    ∷ (extended 14 3, codes "SQLITE_CANTOPEN_FULLPATH")
    ∷ (extended 14 4, codes "SQLITE_CANTOPEN_CONVPATH")
    ∷ (extended 14 5, codes "SQLITE_CANTOPEN_DIRTYWAL")
    ∷ (extended 14 6, codes "SQLITE_CANTOPEN_SYMLINK")
    ∷ (extended 11 1, codes "SQLITE_CORRUPT_VTAB")
    ∷ (extended 11 2, codes "SQLITE_CORRUPT_SEQUENCE")
    ∷ (extended 8 1, codes "SQLITE_READONLY_RECOVERY")
    ∷ (extended 8 2, codes "SQLITE_READONLY_CANTLOCK")
    ∷ (extended 8 3, codes "SQLITE_READONLY_ROLLBACK")
    ∷ (extended 8 4, codes "SQLITE_READONLY_DBMOVED")
    ∷ (extended 8 5, codes "SQLITE_READONLY_CANTINIT")
    ∷ (extended 8 6, codes "SQLITE_READONLY_DIRECTORY")
    ∷ (extended 4 2, codes "SQLITE_ABORT_ROLLBACK")
    ∷ (extended 19 1, codes "SQLITE_CONSTRAINT_CHECK")
    ∷ (extended 19 2, codes "SQLITE_CONSTRAINT_COMMITHOOK")
    ∷ (extended 19 3, codes "SQLITE_CONSTRAINT_FOREIGNKEY")
    ∷ (extended 19 4, codes "SQLITE_CONSTRAINT_FUNCTION")
    ∷ (extended 19 5, codes "SQLITE_CONSTRAINT_NOTNULL")
    ∷ (extended 19 6, codes "SQLITE_CONSTRAINT_PRIMARYKEY")
    ∷ (extended 19 7, codes "SQLITE_CONSTRAINT_TRIGGER")
    ∷ (extended 19 8, codes "SQLITE_CONSTRAINT_UNIQUE")
    ∷ (extended 19 9, codes "SQLITE_CONSTRAINT_VTAB")
    ∷ (extended 19 10, codes "SQLITE_CONSTRAINT_ROWID")
    ∷ (extended 19 11, codes "SQLITE_CONSTRAINT_PINNED")
    ∷ (extended 27 1, codes "SQLITE_NOTICE_RECOVER_WAL")
    ∷ (extended 27 2, codes "SQLITE_NOTICE_RECOVER_ROLLBACK")
    ∷ (extended 28 1, codes "SQLITE_WARNING_AUTOINDEX")
    ∷ (extended 23 1, codes "SQLITE_AUTH_USER")
    ∷ (extended 0 1, codes "SQLITE_OK_LOAD_PERMANENTLY")
    ∷ (extended 0 2, codes "SQLITE_OK_SYMLINK")
    ∷ []

-- The case of a code, or the empty string.
unfoldable pub switch : List (ℕ × List ℕ) → ℕ → List ℕ
switch [] rc = []
switch ((code, name) ∷ rest) rc = if rc == code then name else switch rest rc

abbrev pub rcname_cs : ℕ → List ℕ
rcname_cs rc = switch cases rc

-- The bytes that ngx_strlen counts: those before the first NUL, or before the end, which one stands
-- at.
unfoldable pub c_string : List ℕ → List ℕ
c_string [] = []
c_string (c ∷ s) = if c == 0 then [] else c ∷ c_string s

unfoldable pub rcname : ℕ → List ℕ
unfolding switch c_string
rcname rc = c_string (rcname_cs rc)

unfoldable pub errmsg : (sq : Sqlite) → Handle → sq.World → List ℕ
unfolding c_string
errmsg sq db w = c_string (sq.errmsg db w)
