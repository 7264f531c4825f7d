-- ===== src/Op.antt =====
-- src/ngx_http_sqlitelog_op.c, op.h and var.h: the operation of a column, which measures and
-- prints a variable of the current request.
pub mod Escape
pub mod Request
pub mod Run
pub mod Compile
