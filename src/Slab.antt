-- ===== src/Slab.antt =====
-- nginx's slab allocator for shared memory (ngx_slab_calloc_locked, ngx_slab_alloc_locked,
-- ngx_slab_free_locked), which the source calls and does not define. `held s q` says how many
-- blocks at address q are in use; the two laws are what the allocator documents.
use ngx_sqlite_log.Base.{ℕ, ◌+◌, ◌≤◌, ◌≡◌, Option, some, ◌==◌, if◌then◌else◌}

-- One block at address p, as a count at each address.
abbrev pub at : ℕ → ℕ → ℕ
at p q = if p == q then 1 else 0

pub record Slab : Type 1 where
  pub State : Type 0
  pub alloc : ℕ → State → Option (ℕ × State)
  pub free : ℕ → State → State
  pub held : State → ℕ → ℕ
  pub alloc_held :
      (n : ℕ) (s : State) (p : ℕ) (s' : State)
      → alloc n s ≡ some (p, s')
      → (q : ℕ) → held s' q ≡ held s q + at p q
  -- Nothing is said of a block that is not in use: a second free is no fault here, and no help.
  pub free_held :
      (p : ℕ) (s : State) → 1 ≤ held s p → (q : ℕ) → held (free p s) q + at p q ≡ held s q
