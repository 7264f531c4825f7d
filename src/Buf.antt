-- ===== src/Buf.antt =====
-- src/ngx_http_sqlitelog_buf.c and buf.h: the transaction buffer, a queue of log entries in shared
-- memory. A function here is what runs while the shared pool's mutex is held; the variants that
-- lock and unlock (push, unshift, list, get_len) are the same functions as one atomic step.
pub mod Invariant
pub mod Rows
use ngx_sqlite_log.Base.{
  ℕ, suc, ◌+◌, Bool, true, false, ◌&&◌, not, List, [], ◌∷◌, ◌++◌, Option, none, some, length, leb,
  ◌==◌, if◌then◌else◌,
}
use ngx_sqlite_log.Util.{Str}
use ngx_sqlite_log.Memory.{Pool, Lists}
use ngx_sqlite_log.Slab.{Slab}
use ngx_sqlite_log.Node.{Node, Field, node_create_locked, node_destroy_locked}

-- NGX_OK, NGX_DONE, NGX_ERROR
pub data NgxRc : Type 0 where
  ok done error : NgxRc

-- ngx_http_sqlitelog_buf_shctx_t, with the state of the zone's allocator.
pub record Shared (slab : Slab) : Type 0 where
  pub mem : slab.State
  pub queue : List Node
  pub queue_len : ℕ

-- What ngx_http_sqlitelog_buf_t holds in a worker: `event` is its timer_set flag, if there is one.
pub record Buf : Type 0 where
  pub max : ℕ
  pub flush : ℕ
  pub event : Option Bool

abbrev is_set : Option Bool → Bool
is_set none = false
is_set (some b) = b

abbrev pub is_unset : Option Bool → Bool
is_unset none = false
is_unset (some b) = not b

-- ngx_add_timer sets timer_set.
unfoldable pub timer_start : Buf → Buf
timer_start b = if not (b.flush == 0) && is_unset b.event then record b { event = some true } else b

-- ngx_del_timer clears timer_set.
unfoldable pub timer_stop : Buf → Buf
timer_stop b = if not (b.flush == 0) && is_set b.event then record b { event = some false } else b

unfoldable pub timer_reset : Buf → Buf
timer_reset b = timer_start (timer_stop b)

module _ (slab : Slab) where
  abbrev pub push_node : ℕ → Shared slab → Option Node × slab.State → NgxRc × Shared slab
  push_node max sh (none, mem) = (error, record sh { mem = mem })
  push_node max sh (some n, mem) = (
    if not (max == 0) && leb max (sh.queue_len + 1) then done else ok,
    record { mem = mem; queue = sh.queue ++ n ∷ []; queue_len = sh.queue_len + 1 },
  )

  unfoldable pub push_locked : ℕ → List Str → Shared slab → NgxRc × Shared slab
  push_locked max entry sh = push_node max sh (node_create_locked slab entry sh.mem)

  abbrev pub unshift_node : Shared slab → Option Node × slab.State → NgxRc × Shared slab
  unshift_node sh (none, mem) = (error, record sh { mem = mem })
  unshift_node sh (some n, mem) =
      (ok, record { mem = mem; queue = n ∷ sh.queue; queue_len = sh.queue_len + 1 })

  unfoldable pub unshift_locked : List Str → Shared slab → NgxRc × Shared slab
  unshift_locked entry sh = unshift_node sh (node_create_locked slab entry sh.mem)

  -- The loop that destroys the nodes.
  unfoldable pub destroy_nodes : List Node → slab.State → slab.State
  destroy_nodes [] s = s
  destroy_nodes (n ∷ ns) s = destroy_nodes ns (node_destroy_locked slab n s)

  unfoldable pub get_len_locked : Shared slab → ℕ
  get_len_locked sh = sh.queue_len

module _ (p : Pool) (lists : Lists p) where
  -- One string copied to the list; `none` where memory runs out.
  unfoldable pub copy_elt : Field → lists.L → p.State → Option (lists.L × p.State)
  copy_elt x l m = elim (lists.list_push l m) [
    | none ↦ none
    | some (slot, m') ↦ elim x [
      | none ↦ some (slot none, m')
      | some (a, s) ↦ elim (p.pcalloc (length s) m') [
        | none ↦ none
        | some m'' ↦ some (slot (some s), m'')
      ]
    ]
  ]

  unfoldable pub copy_elts : List Field → lists.L → p.State → Option (lists.L × p.State)
  copy_elts [] l m = some (l, m)
  copy_elts (x ∷ xs) l m = elim (copy_elt x l m) [
    | none ↦ none
    | some (l', m') ↦ copy_elts xs l' m'
  ]

  unfoldable pub copy_nodes : List Node → lists.L → p.State → Option (lists.L × p.State)
  copy_nodes [] l m = some (l, m)
  copy_nodes (n ∷ ns) l m = elim (copy_elts n.fields l m) [
    | none ↦ none
    | some (l', m') ↦ copy_nodes ns l' m'
  ]

module _ (slab : Slab) (p : Pool) (lists : Lists p) where
  -- Copy, then clear; a copy that fails leaves the queue as it is.
  unfoldable pub move_locked :
      Shared slab → lists.L → p.State → Option (lists.L × p.State) × Shared slab
  move_locked sh l m = elim (copy_nodes p lists sh.queue l m) [
    | none ↦ (none, sh)
    | some r ↦
        (some r, record { mem = destroy_nodes slab sh.queue sh.mem; queue = []; queue_len = 0 })
  ]

  -- `n` is the size of the list's parts.
  unfoldable pub list_locked : ℕ → Shared slab → p.State → Option (lists.L × p.State) × Shared slab
  list_locked n sh m = elim (lists.list_init n m) [
    | none ↦ (none, sh)
    | some (l, m') ↦ move_locked sh l m'
  ]
