-- ===== src/Buf/Invariant.antt =====
-- What the queue keeps true: its length is counted, and it owns exactly its nodes' blocks.
use ngx_sqlite_log.Base.{
  ℕ, suc, ◌+◌, ◌≤◌, ◌<◌, ◌≡◌, ◌≢◌, refl, ap, ◌∙◌, Bool, true, false, ◌&&◌, not, List, [], ◌∷◌, ◌++◌,
  Option, none, some, arith, length, length-append, leb, ◌==◌, if◌then◌else◌,
}
use ngx_sqlite_log.Util.{Str}
use ngx_sqlite_log.Slab.{Slab}
use ngx_sqlite_log.Node.{Node, texts, node_create_locked, node_destroy_locked}
use ngx_sqlite_log.Node.Blocks.{blocks, Created, node_create_lem, node_destroy_lem}
use ngx_sqlite_log.Buf.{
  NgxRc, ok, done, error, Shared, push_node, push_locked, unshift_node, unshift_locked,
  destroy_nodes,
}

-- The entries that wait on the queue, oldest first.
abbrev pub rows : List Node → List (List Str)
rows [] = []
rows (n ∷ ns) = texts n.fields ∷ rows ns

abbrev pub queue_blocks : List Node → ℕ → ℕ
queue_blocks [] q = 0
queue_blocks (n ∷ ns) q = blocks n q + queue_blocks ns q

pub rows-append : (ns ms : List Node) → rows (ns ++ ms) ≡ rows ns ++ rows ms
rows-append [] ms = refl
rows-append (n ∷ ns) ms = ap (◌∷◌ (texts n.fields)) (rows-append ns ms)

pub length-rows : (ns : List Node) → length (rows ns) ≡ length ns
length-rows [] = refl
length-rows (n ∷ ns) = ap suc (length-rows ns)

queue_blocks-append :
    (ns ms : List Node) (q : ℕ) → queue_blocks (ns ++ ms) q ≡ queue_blocks ns q + queue_blocks ms q
queue_blocks-append [] ms q = omega arith
queue_blocks-append (n ∷ ns) ms q = omega (arith, queue_blocks-append ns ms q)

module _ (slab : Slab) where
  -- `others` counts the blocks that are not the queue's.
  pub record Owns (others : ℕ → ℕ) (sh : Shared slab) : Type 0 where
    pub counted : sh.queue_len ≡ length sh.queue
    pub owned : (q : ℕ) → slab.held sh.mem q ≡ others q + queue_blocks sh.queue q

  -- What a push comes to, by its return code.
  abbrev pub Pushed : ℕ → List Str → Shared slab → NgxRc × Shared slab → Type 0
  Pushed max entry sh (error, sh') = rows sh'.queue ≡ rows sh.queue
  Pushed max entry sh (ok, sh') =
      (rows sh'.queue ≡ rows sh.queue ++ entry ∷ []) × (max ≢ 0 → length (rows sh'.queue) < max)
  Pushed max entry sh (done, sh') =
      (rows sh'.queue ≡ rows sh.queue ++ entry ∷ []) × (max ≢ 0) × (max ≤ length (rows sh'.queue))

  push_node_lem :
      (others : ℕ → ℕ) (max : ℕ) (entry : List Str) (sh : Shared slab)
      (c : Option Node × slab.State)
      → Owns others sh
      → Created slab entry sh.mem c
      → Owns others (push_node slab max sh c).1 × Pushed max entry sh (push_node slab max sh c)
  push_node_lem others max entry sh (none, mem) v c =
      (record { counted = v.counted; owned = λ q. omega (arith, v.owned q, c q) }, refl)
  push_node_lem others max entry sh (some n, mem) v c = (
    record {
      counted = omega (arith, v.counted, length-append sh.queue (n ∷ []));
      owned = λ q. omega (arith, v.owned q, c.1 q, queue_blocks-append sh.queue (n ∷ []) q);
    },
    code (not (max == 0) && leb max (sh.queue_len + 1)) refl,
  )
    where
      sh' : Shared slab
      sh' = record { mem = mem; queue = sh.queue ++ n ∷ []; queue_len = sh.queue_len + 1 }

      added : rows (sh.queue ++ n ∷ []) ≡ rows sh.queue ++ entry ∷ []
      added = rows-append sh.queue (n ∷ []) ∙ ap (λ r. rows sh.queue ++ r ∷ []) c.0

      len : length (rows (sh.queue ++ n ∷ [])) ≡ sh.queue_len + 1
      len =
          omega
            (arith, v.counted, length-rows (sh.queue ++ n ∷ []), length-append sh.queue (n ∷ []))

      code :
          (b : Bool)
          → not (max == 0) && leb max (sh.queue_len + 1) ≡ b
          → Pushed max entry sh (if b then done else ok, sh')
      code true e = (added, ground arith, ground (arith, len))
      code false e = (added, λ h. ground (arith, len))

  -- A push to a queue that satisfies its invariant keeps it. It returns NGX_ERROR with the queue
  -- as it was, or puts the entry at the end and returns NGX_DONE exactly when a maximum is set and
  -- reached, else NGX_OK.
  pub push_lem :
      (others : ℕ → ℕ) (max : ℕ) (entry : List Str) (sh : Shared slab)
      → Owns others sh
      → Owns others (push_locked slab max entry sh).1
        × Pushed max entry sh (push_locked slab max entry sh)
  unfolding push_locked
  push_lem others max entry sh v =
      push_node_lem others max entry sh (node_create_locked slab entry sh.mem) v
        (node_create_lem slab entry sh.mem)

  -- What an unshift comes to, by its return code.
  abbrev pub Unshifted : List Str → Shared slab → NgxRc × Shared slab → Type 0
  Unshifted entry sh (error, sh') = rows sh'.queue ≡ rows sh.queue
  Unshifted entry sh (ok, sh') = rows sh'.queue ≡ entry ∷ rows sh.queue
  Unshifted entry sh (done, sh') = ⊥

  unshift_node_lem :
      (others : ℕ → ℕ) (entry : List Str) (sh : Shared slab) (c : Option Node × slab.State)
      → Owns others sh
      → Created slab entry sh.mem c
      → Owns others (unshift_node slab sh c).1 × Unshifted entry sh (unshift_node slab sh c)
  unshift_node_lem others entry sh (none, mem) v c =
      (record { counted = v.counted; owned = λ q. omega (arith, v.owned q, c q) }, refl)
  unshift_node_lem others entry sh (some n, mem) v c = (
    record { counted = omega (arith, v.counted); owned = λ q. omega (arith, v.owned q, c.1 q) },
    ap (λ r. r ∷ rows sh.queue) c.0,
  )

  -- An unshift to a queue that satisfies its invariant keeps it. It returns NGX_ERROR with the
  -- queue as it was, or NGX_OK with the entry in front.
  pub unshift_lem :
      (others : ℕ → ℕ) (entry : List Str) (sh : Shared slab)
      → Owns others sh
      → Owns others (unshift_locked slab entry sh).1
        × Unshifted entry sh (unshift_locked slab entry sh)
  unfolding unshift_locked
  unshift_lem others entry sh v =
      unshift_node_lem others entry sh (node_create_locked slab entry sh.mem) v
        (node_create_lem slab entry sh.mem)

  -- Destroying the nodes gives back all that the queue owned.
  pub destroy_nodes_lem :
      (others : ℕ → ℕ) (ns : List Node) (s : slab.State)
      → ((q : ℕ) → slab.held s q ≡ others q + queue_blocks ns q)
      → (q : ℕ) → slab.held (destroy_nodes slab ns s) q ≡ others q
  unfolding destroy_nodes
  destroy_nodes_lem others [] s h q = omega (arith, h q)
  destroy_nodes_lem others (n ∷ ns) s h q =
      destroy_nodes_lem others ns (node_destroy_locked slab n s)
        (λ r. omega (arith, h r, node_destroy_lem slab n s (λ t. omega (arith, h t)) r)) q
