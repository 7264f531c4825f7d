-- ===== src/Lib.antt =====
-- ngx-sqlite-log: an nginx module that writes one row of a SQLite table for each request. This
-- library models the module's core and proves what it promises.
--
-- The parts and how they interact. A request's variables are measured, escaped and printed by the
-- operations of the format's columns (src/ngx_http_sqlitelog_op.c), which gives a log entry, a list
-- of strings (ngx_http_sqlitelog_log_entry in src/ngx_http_sqlitelog_module.c). Without a buffer
-- the entry is inserted at once (src/ngx_http_sqlitelog_db.c). With a buffer it is copied to a node
-- in shared memory (src/ngx_http_sqlitelog_node.c) and pushed to a queue that all workers share
-- (src/ngx_http_sqlitelog_buf.c); the worker whose push reaches the maximum, or finds no room,
-- moves the queue to a list in its own memory and inserts it as one transaction. All calls of
-- SQLite go through wrappers that report failures (src/ngx_http_sqlitelog_sqlite3.c).
--
-- The files:
--   Base      the names all modules share: numbers, tests on them, lists, case splits.
--   Util      src/ngx_http_sqlitelog_util.h: comparisons of strings.
--   Memory    nginx's pools and ngx_list_t, as interfaces, and the outcome of filling a buffer.
--   Op        src/ngx_http_sqlitelog_op.c. Op.Escape is ngx_http_sqlitelog_op_escape, its two calls
--             being escape_count and escape_copy; Op.Run has every getlen and run function, the
--             constructors of Getlen and Run standing for the function pointers; Op.Compile is
--             ngx_http_sqlitelog_op_compile with the table of src/ngx_http_sqlitelog_var.h.
--   Entry     ngx_http_sqlitelog_log_entry; a write past a buffer is the outcome `overflow`.
--   Sql       src/ngx_http_sqlitelog_sql.c: the two statements, written byte by byte.
--   Slab      nginx's slab allocator, as an interface.
--   Node      src/ngx_http_sqlitelog_node.c.
--   Buf       src/ngx_http_sqlitelog_buf.c: push_locked, unshift_locked, list_locked and the timer.
--             The functions that lock and unlock around these are the same functions, as one
--             atomic step.
--   Sqlite    the SQLite library as an interface (Sqlite), the wrappers (Sqlite.Wrap), and the
--             documented behaviour that is relied on (Sqlite.Transactions), where as_stored is what
--             a table holds of a row that is bound, by its columns' affinity. Sqlite.Names has
--             ngx_http_sqlitelog_rcname, with the numbers of the codes that SQLite documents.
--   Db        src/ngx_http_sqlitelog_db.c: opening, inserting, the retry on a new connection.
--   Db.Checkpoint  the WAL checkpoint of the same file, with the loop that waits.
--   Handler   ngx_http_sqlitelog_handle_1 and ngx_http_sqlitelog_handle_n of
--             src/ngx_http_sqlitelog_module.c, over a server's whole state (Site).
--   Handler.Request  ngx_http_sqlitelog_handler of the same file, without a thread pool;
--             Handler.Direct for a server without a buffer, and Handler.Requests for the requests of a
--             server with one, in a row.
--   Handler.Workers  several workers at once: the part of ngx_http_sqlitelog_handle_n that holds
--             the mutex (lock_section), the same part of a flush, the insertions and the unshifts
--             as the steps of one system (Step, Reach). A batch is a list that a worker holds.
--   Handler.Async  a server with a thread pool: ngx_http_sqlitelog_handler from the choice of the
--             pool on, the handlers that post tasks, ngx_http_sqlitelog_buf_flush_async, and the
--             tasks that wait (Threads) with the pools that were made for them.
--   Handler.Cycle  the loops over the servers in ngx_http_sqlitelog_init_worker (init_worker) and
--             ngx_http_sqlitelog_exit_worker (exit_worker), and ngx_http_sqlitelog_init_shm_zone.
--   Handler.Flush  ngx_http_sqlitelog_buf_flush, and the transaction of a worker that exits.
--   Handler.Thread  the insertion tasks of src/ngx_http_sqlitelog_thread.c.
--   Format    src/ngx_http_sqlitelog_fmt.c and src/ngx_http_sqlitelog_col.c.
--   Conf      the configuration in src/ngx_http_sqlitelog_module.c: ngx_http_sqlitelog_merge_srv_conf.
--   Conf.Main  the main configuration and its directives: ngx_http_sqlitelog_format (format) and
--             ngx_http_sqlitelog_async (async). The parsers of nginx are the record Nginx.
--   Conf.Block  the directives of a whole http block, in any order (Step, Reach), which are those of
--             the table of commands in src/ngx_http_sqlitelog_module.c, and the merge of its servers.
--   Conf.Directive  the sqlitelog directive: ngx_http_sqlitelog (sqlitelog), its options (opt_*), and
--             ngx_http_sqlitelog_shm_zone. A result `failed` is a refusal, after which nginx stops.
--   File      src/ngx_http_sqlitelog_file.c, over the file calls of nginx as an interface (Files)
--             with their documented behaviour (FileLaws).
--   Served    from the configuration file to the request: the directives of a block, the start of a
--             worker and the handler together. conf_of and server_of say how a server's
--             configuration becomes what the loops over the servers and the handler read.
--   Examples  a small engine, memory and pool that satisfy the interfaces, and the theorems applied.
--
-- State is passed explicitly. Numbers are natural numbers; where the C code computes a size in 64
-- bits that can wrap around (ngx_http_sqlitelog_sql_insert) the model has % 2 ^ 64. A loop is
-- structural recursion over the list that it walks, but for the two loops of the checkpoint, which
-- run on fuel: 17 divisions by 10 bring a number below 2 ^ 63 to 100 or less, and the loop that
-- waits sleeps for 50 ms or more in each round, so that busy_timeout / 50 + 1 rounds reach the
-- timeout. The order of nginx's queue is the order of a list, and a node's place on the queue is
-- its position. Of the error log only the lines of the SQLite wrappers are modelled.
--
-- Not modelled: the numbers of arguments in the table of commands, and the tables of callbacks,
-- which nginx reads; the texts of refusals and debug messages. In Conf.Block a format's name and
-- its variables are taken to be so few that the length of the statement is below 2 ^ 63. Of the
-- sizes that the code allocates, those of structures are as on a 64-bit system. In Handler and
-- Handler.Flush the steps of a worker follow one another; what other workers do meanwhile is the
-- parameter `meanwhile` there, and the subject of Handler.Workers, where an insertion that has to
-- open the database again is no step. A table's affinity is a parameter: which text becomes a number
-- is not modelled, but only that a row is stored as the conversion of what is bound.
pub mod Base
pub mod Util
pub mod Memory
pub mod Op
pub mod Entry
pub mod Sql
pub mod Slab
pub mod Node
pub mod Buf
pub mod Sqlite
pub mod Db
pub mod Handler
pub mod Format
pub mod Conf
pub mod File
pub mod Served
mod Examples
