-- ===== src/Conf.antt =====
-- src/ngx_http_sqlitelog_module.c: a server's configuration, and how it takes on that of the http
-- block around it.
pub mod Merge
pub mod Main
pub mod Formats
pub mod Directive
pub mod Chosen
pub mod Buffered
pub mod Usable
pub mod Found
pub mod Block
use ngx_sqlite_log.Base.{ℕ, Bool, true, false, ◌&&◌, if◌then◌else◌, Option, codes, List, [], none}
use ngx_sqlite_log.Util.{Str}
use ngx_sqlite_log.Buf.{Buf}
use ngx_sqlite_log.Format.{Format}

-- The values of `enabled`: NGX_CONF_UNSET, 0 and 1.
pub data Flag : Type 0 where
  unset off on : Flag

abbrev pub is_off : Flag → Bool
is_off unset = false
is_off off = true
is_off on = false

abbrev pub is_on : Flag → Bool
is_on unset = false
is_on off = false
is_on on = true

abbrev pub is_unset : Flag → Bool
is_unset unset = true
is_unset off = false
is_unset on = false

-- A pointer to an entry of the main configuration's formats: the first, or another with what it
-- points to, which does not change once the entry is made.
pub data FormatRef : Type 0 where
  the_combined : FormatRef
  another : Format → FormatRef

-- What the sqlitelog directive sets, next to `enabled`. The buffer comes with its zone. The filter
-- is a compiled complex value of nginx, of which nothing is read here.
pub record Settings : Type 0 where
  pub filename : Str
  pub fmt : Option FormatRef
  pub init_sql : Str
  pub buf : Option (ℕ × Buf)
  pub filter : Option ℕ

-- ngx_http_sqlitelog_srv_conf_t
pub record SrvConf : Type 0 where
  pub enabled : Flag
  pub settings : Settings

unfoldable pub merge_srv_conf : SrvConf → SrvConf → SrvConf
merge_srv_conf prev conf =
    if is_off prev.enabled
    then record conf { enabled = off }
    else if is_off conf.enabled
    then conf
    else if is_on prev.enabled && is_unset conf.enabled
    then record { enabled = prev.enabled; settings = prev.settings }
    else if is_unset prev.enabled && is_unset conf.enabled
    then record conf { enabled = off }
    else conf

-- ngx_http_sqlitelog_create_srv_conf, where there is memory for it.
abbrev pub new_srv_conf : SrvConf
new_srv_conf = record {
  enabled = unset;
  settings = record { filename = none; fmt = none; init_sql = none; buf = none; filter = none };
}
