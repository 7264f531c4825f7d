-- ===== src/Node/Blocks.antt =====
-- The blocks that a node owns: creation takes exactly these, a creation that fails and the
-- destruction give back what was taken.
use ngx_sqlite_log.Base.{
  ℕ, ◌+◌, ◌≤◌, ◌≡◌, refl, inl, inr, List, [], ◌∷◌, Option, none, some, arith, Option-cases, length,
  ◌*◌, ==_refl,
}
use ngx_sqlite_log.Util.{Str}
use ngx_sqlite_log.Slab.{Slab, at}
use ngx_sqlite_log.Node.{
  Field, Node, text, texts, Copy, copied, stopped, prepend, copy_fields, free_fields, finish,
  node_create_locked, node_destroy_locked,
}

abbrev pub fields_blocks : List Field → ℕ → ℕ
fields_blocks [] q = 0
fields_blocks (none ∷ xs) q = fields_blocks xs q
fields_blocks (some (a, v) ∷ xs) q = at a q + fields_blocks xs q

abbrev pub blocks : Node → ℕ → ℕ
blocks n q = at n.self q + at n.elts q + fields_blocks n.fields q

module _ (slab : Slab) where
  free_fields_lem :
      (xs : List Field) (s : slab.State)
      → ((q : ℕ) → fields_blocks xs q ≤ slab.held s q)
      → (q : ℕ) → slab.held (free_fields slab xs s) q + fields_blocks xs q ≡ slab.held s q
  unfolding free_fields
  free_fields_lem [] s h q = omega arith
  free_fields_lem (none ∷ xs) s h q = free_fields_lem xs s h q
  free_fields_lem (some (a, v) ∷ xs) s h q =
      omega (arith, freed q, free_fields_lem xs (slab.free a s) rest q)
    where
      mine : 1 ≤ slab.held s a
      mine = ground (arith, h a, ==_refl a)

      freed : (r : ℕ) → slab.held (slab.free a s) r + at a r ≡ slab.held s r
      freed = slab.free_held a s mine

      rest : (r : ℕ) → fields_blocks xs r ≤ slab.held (slab.free a s) r
      rest r = omega (arith, freed r, h r)

  -- Where the fields hold `values`, or a first part of them, and are all that was taken.
  abbrev Copied : List Str → slab.State → Copy slab → Type 0
  Copied values s (copied xs s') =
      (texts xs ≡ values) × ((q : ℕ) → slab.held s' q ≡ slab.held s q + fields_blocks xs q)
  Copied values s (stopped xs s') = (q : ℕ) → slab.held s' q ≡ slab.held s q + fields_blocks xs q

  prepend-Copied :
      (x : Field) (values : List Str) (s s₁ : slab.State) (c : Copy slab)
      → ((q : ℕ) → slab.held s₁ q ≡ slab.held s q + fields_blocks (x ∷ []) q)
      → Copied values s₁ c
      → Copied (text x ∷ values) s (prepend slab x c)
  prepend-Copied none values s s₁ (copied xs s') h k = (rw k.0, λ q. omega (arith, h q, k.1 q))
  prepend-Copied none values s s₁ (stopped xs s') h k = λ q. omega (arith, h q, k q)
  prepend-Copied (some (a, v)) values s s₁ (copied xs s') h k =
      (rw k.0, λ q. omega (arith, h q, k.1 q))
  prepend-Copied (some (a, v)) values s s₁ (stopped xs s') h k = λ q. omega (arith, h q, k q)

  copy_fields_lem :
      (values : List Str) (s : slab.State) → Copied values s (copy_fields slab values s)
  unfolding copy_fields
  copy_fields_lem [] s = (refl, λ q. omega arith)
  copy_fields_lem (none ∷ values) s =
      prepend-Copied none values s s (copy_fields slab values s) (λ q. omega arith)
        (copy_fields_lem values s)
  copy_fields_lem (some v ∷ values) s = elim (Option-cases (slab.alloc (length v) s)) [
    | inl e ↦ rw (e, copy_fields) λ q. omega arith
    | inr ((a, s'), e) ↦
        rw (e, copy_fields)
          (prepend-Copied (some (a, v)) values s s' (copy_fields slab values s')
            (λ q. omega (arith, slab.alloc_held (length v) s a s' e q)) (copy_fields_lem values s'))
  ]

  -- What a creation comes to: a node with these values that owns exactly what was taken, or no
  -- node and nothing taken.
  abbrev pub Created : List Str → slab.State → Option Node × slab.State → Type 0
  Created values s (none, s') = (q : ℕ) → slab.held s' q ≡ slab.held s q
  Created values s (some n, s') =
      (texts n.fields ≡ values) × ((q : ℕ) → slab.held s' q ≡ slab.held s q + blocks n q)

  give_back :
      (elts : ℕ) (xs : List Field) (s s₁ s' : slab.State)
      → ((q : ℕ) → slab.held s₁ q ≡ slab.held s q + at elts q)
      → ((q : ℕ) → slab.held s' q ≡ slab.held s₁ q + fields_blocks xs q)
      → (q : ℕ) → slab.held (slab.free elts (free_fields slab xs s')) q ≡ slab.held s q
  give_back elts xs s s₁ s' h k q =
      omega (arith, h q, freed q, slab.free_held elts (free_fields slab xs s') mine q)
    where
      freed : (r : ℕ) → slab.held (free_fields slab xs s') r ≡ slab.held s₁ r
      freed r = omega (arith, k r, free_fields_lem xs s' (λ t. omega (arith, k t)) r)

      mine : 1 ≤ slab.held (free_fields slab xs s') elts
      mine = ground (arith, freed elts, h elts, ==_refl elts)

  finish-Created :
      (elts : ℕ) (values : List Str) (s s₁ : slab.State) (c : Copy slab)
      → ((q : ℕ) → slab.held s₁ q ≡ slab.held s q + at elts q)
      → Copied values s₁ c
      → Created values s (finish slab elts c)
  finish-Created elts values s s₁ (stopped xs s') h k = give_back elts xs s s₁ s' h k
  finish-Created elts values s s₁ (copied xs s') h k = elim (Option-cases (slab.alloc 32 s')) [
    | inl e ↦ rw (e, finish) (give_back elts xs s s₁ s' h k.1)
    | inr ((self, s₂), e) ↦
        rw (e, finish) (k.0, λ q. omega (arith, h q, k.1 q, slab.alloc_held 32 s' self s₂ e q))
  ]

  -- A new node holds the entry's values, and owns exactly the blocks that were taken for it; where
  -- an allocation fails, every block that had been taken is back, and no other is touched.
  pub node_create_lem :
      (values : List Str) (s : slab.State) → Created values s (node_create_locked slab values s)
  unfolding node_create_locked
  node_create_lem values s = elim (Option-cases (slab.alloc (length values * 16) s)) [
    | inl e ↦ rw (e, node_create_locked) λ q. refl
    | inr ((elts, s₁), e) ↦
        rw (e, node_create_locked)
          (finish-Created elts values s s₁ (copy_fields slab values s₁)
            (slab.alloc_held (length values * 16) s elts s₁ e) (copy_fields_lem values s₁))
  ]

  -- Destruction of a node whose blocks are all in use frees each of them once, and nothing else.
  pub node_destroy_lem :
      (n : Node) (s : slab.State)
      → ((q : ℕ) → blocks n q ≤ slab.held s q)
      → (q : ℕ) → slab.held (node_destroy_locked slab n s) q + blocks n q ≡ slab.held s q
  unfolding node_destroy_locked
  node_destroy_lem n s h q = omega (arith, one q, two q, three q)
    where
      s₁ : slab.State
      s₁ = free_fields slab n.fields s

      one : (r : ℕ) → slab.held s₁ r + fields_blocks n.fields r ≡ slab.held s r
      one = free_fields_lem n.fields s λ t. omega (arith, h t)

      two : (r : ℕ) → slab.held (slab.free n.elts s₁) r + at n.elts r ≡ slab.held s₁ r
      two = slab.free_held n.elts s₁ (ground (arith, one n.elts, h n.elts, ==_refl n.elts))

      three :
          (r : ℕ)
          → slab.held (slab.free n.self (slab.free n.elts s₁)) r + at n.self r
            ≡ slab.held (slab.free n.elts s₁) r
      three =
          slab.free_held n.self (slab.free n.elts s₁)
            (ground (arith, two n.self, one n.self, h n.self, ==_refl n.self))
