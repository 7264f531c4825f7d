-- ===== src/Node.antt =====
-- src/ngx_http_sqlitelog_node.c: a log entry in shared memory, on the buffer's queue.
pub mod Blocks
use ngx_sqlite_log.Base.{ℕ, ◌*◌, List, [], ◌∷◌, Option, none, some, length}
use ngx_sqlite_log.Util.{Str}
use ngx_sqlite_log.Slab.{Slab}

-- A string in shared memory: NULL, or the address of its bytes and the bytes.
abbrev pub Field : Type 0
Field = Option (ℕ × List ℕ)

-- ngx_http_sqlitelog_node_t: `self` is its own address, `elts` that of its array. Its place on the
-- queue (`link`) is its position in the buffer's list of nodes.
pub record Node : Type 0 where
  pub self : ℕ
  pub elts : ℕ
  pub fields : List Field

abbrev pub text : Field → Str
text none = none
text (some (a, s)) = some s

-- The entry that a node holds.
abbrev pub texts : List Field → List Str
texts [] = []
texts (x ∷ xs) = text x ∷ texts xs

module _ (slab : Slab) where
  -- How the copying loop ends, with the fields that are set (`j` of them).
  pub data Copy : Type 0 where
    copied stopped : List Field → slab.State → Copy

  abbrev pub prepend : Field → Copy → Copy
  prepend x (copied xs s) = copied (x ∷ xs) s
  prepend x (stopped xs s) = stopped (x ∷ xs) s

  unfoldable pub copy_fields : List Str → slab.State → Copy
  copy_fields [] s = copied [] s
  copy_fields (none ∷ values) s = prepend none (copy_fields values s)
  copy_fields (some v ∷ values) s = elim (slab.alloc (length v) s) [
    | none ↦ stopped [] s
    | some (a, s') ↦ prepend (some (a, v)) (copy_fields values s')
  ]

  unfoldable pub free_fields : List Field → slab.State → slab.State
  free_fields [] s = s
  free_fields (none ∷ xs) s = free_fields xs s
  free_fields (some (a, v) ∷ xs) s = free_fields xs (slab.free a s)

  -- After the array is allocated at `elts`: the node, or the label `failed`.
  abbrev pub finish : ℕ → Copy → Option Node × slab.State
  finish elts (stopped xs s) = (none, slab.free elts (free_fields xs s))
  finish elts (copied xs s) = elim (slab.alloc 32 s) [
    | none ↦ (none, slab.free elts (free_fields xs s))
    | some (self, s') ↦ (some (record { self = self; elts = elts; fields = xs }), s')
  ]

  unfoldable pub node_create_locked : List Str → slab.State → Option Node × slab.State
  node_create_locked values s = elim (slab.alloc (length values * 16) s) [
    | none ↦ (none, s)
    | some (elts, s') ↦ finish elts (copy_fields values s')
  ]

  unfoldable pub node_destroy_locked : Node → slab.State → slab.State
  node_destroy_locked n s = slab.free n.self (slab.free n.elts (free_fields n.fields s))
