-- ===== src/Buf/Rows.antt =====
-- Moving the queue to local memory: a part of the list for each entry, in order.
use ngx_sqlite_log.Base.{
  ℕ, ◌+◌, ◌≤◌, ◌<◌, ◌≡◌, refl, ap, inl, inr, List, [], ◌∷◌, ◌++◌, Option, none, some, arith, length,
  length-append, append_assoc, append-nil, ltb, All, Bool-cases, Option-cases,
}
use ngx_sqlite_log.Util.{Str}
use ngx_sqlite_log.Memory.{Pool, Lists, add_entry}
use ngx_sqlite_log.Slab.{Slab}
use ngx_sqlite_log.Node.{Node, Field, text, texts}
use ngx_sqlite_log.Buf.{
  Shared, copy_elt, copy_elts, copy_nodes, move_locked, list_locked, destroy_nodes,
}
use ngx_sqlite_log.Buf.Invariant.{rows, Owns, destroy_nodes_lem}

add_entry_room {ℓ} :
    {A : Type ℓ} (n : ℕ) (done : List (List A)) (cur : List A) (v : A)
    → length cur < n
    → add_entry n (done ++ cur ∷ []) v ≡ done ++ (cur ++ v ∷ []) ∷ []
add_entry_room n [] cur v h = elim (Bool-cases (ltb (length cur) n)) [
  | inl e ↦ rw e
  | inr e ↦ absurd (ground arith)
]
add_entry_room n (x ∷ []) cur v h = ap (◌∷◌ x) (add_entry_room n [] cur v h)
add_entry_room n (x ∷ y ∷ done) cur v h = ap (◌∷◌ x) (add_entry_room n (y ∷ done) cur v h)

add_entry_full {ℓ} :
    {A : Type ℓ} (n : ℕ) (done : List (List A)) (cur : List A) (v : A)
    → n ≤ length cur
    → add_entry n (done ++ cur ∷ []) v ≡ (done ++ cur ∷ []) ++ (v ∷ []) ∷ []
add_entry_full n [] cur v h = elim (Bool-cases (ltb (length cur) n)) [
  | inl e ↦ absurd (ground arith)
  | inr e ↦ rw e
]
add_entry_full n (x ∷ []) cur v h = ap (◌∷◌ x) (add_entry_full n [] cur v h)
add_entry_full n (x ∷ y ∷ done) cur v h = ap (◌∷◌ x) (add_entry_full n (y ∷ done) cur v h)

-- The parts of a list that holds these rows: a list always has a part.
abbrev pub parts_of : List (List Str) → List (List Str)
parts_of [] = [] ∷ []
parts_of (r ∷ rs) = r ∷ rs

module _ (p : Pool) (lists : Lists p) where
  -- A list of parts of `n` entries with these parts, unless memory runs out.
  abbrev pub Holds : ℕ → List (List Str) → Option (lists.L × p.State) → Type 0
  Holds n ps none = Unit {0}
  Holds n ps (some (l, m)) = (lists.nalloc l ≡ n) × (lists.parts l ≡ ps)

  copy_elt_lem :
      (x : Field) (l : lists.L) (m : p.State)
      → Holds
          (lists.nalloc l)
          (add_entry (lists.nalloc l) (lists.parts l) (text x))
          (copy_elt p lists x l m)
  unfolding copy_elt
  copy_elt_lem x l m = elim (Option-cases (lists.list_push l m)) [
    | inl e ↦ rw (e, copy_elt) tt
    | inr ((slot, m₁), e) ↦ rw (e, copy_elt) (write x slot m₁ e)
  ]
    where
      set :
          (v : Str) (slot : Str → lists.L) (m₁ : p.State)
          → lists.list_push l m ≡ some (slot, m₁)
          → (lists.nalloc (slot v) ≡ lists.nalloc l)
            × (lists.parts (slot v) ≡ add_entry (lists.nalloc l) (lists.parts l) v)
      set v slot m₁ e = (lists.push_nalloc l m slot m₁ v e, lists.push_parts l m slot m₁ v e)

      write :
          (x : Field) (slot : Str → lists.L) (m₁ : p.State)
          → lists.list_push l m ≡ some (slot, m₁)
          → Holds (lists.nalloc l) (add_entry (lists.nalloc l) (lists.parts l) (text x)) (elim x [
            | none ↦ some (slot none, m₁)
            | some (a, s) ↦ elim (p.pcalloc (length s) m₁) [
              | none ↦ none
              | some m₂ ↦ some (slot (some s), m₂)
            ]
          ])
      write none slot m₁ e = set none slot m₁ e
      write (some (a, s)) slot m₁ e = elim (Option-cases (p.pcalloc (length s) m₁)) [
        | inl f ↦ rw f tt
        | inr (m₂, f) ↦ rw f (set (some s) slot m₁ e)
      ]

  bind_lem :
      (n : ℕ) (ps qs : List (List Str)) (o : Option (lists.L × p.State))
      (k : lists.L → p.State → Option (lists.L × p.State))
      → Holds n ps o
      → ((l : lists.L) (m : p.State) → lists.nalloc l ≡ n → lists.parts l ≡ ps → Holds n qs (k l m))
      → Holds n qs (elim o [ none ↦ none | some (l, m) ↦ k l m ])
  bind_lem n ps qs none k h step = tt
  bind_lem n ps qs (some (l, m)) k h step = step l m h.0 h.1

  -- A row's strings join the last part as long as there is room.
  copy_elts_lem :
      (n : ℕ) (xs : List Field) (done : List (List Str)) (cur : List Str) (l : lists.L)
      (m : p.State)
      → lists.nalloc l ≡ n
      → lists.parts l ≡ done ++ cur ∷ []
      → length cur + length (texts xs) ≤ n
      → Holds n (done ++ (cur ++ texts xs) ∷ []) (copy_elts p lists xs l m)
  unfolding copy_elts
  copy_elts_lem n [] done cur l m hn hp fits = (hn, rw append-nil hp)
  copy_elts_lem n (x ∷ xs) done cur l m hn hp fits =
      bind_lem n (done ++ (cur ++ text x ∷ []) ∷ []) (done ++ (cur ++ text x ∷ texts xs) ∷ [])
        (copy_elt p lists x l m) (copy_elts p lists xs)
        (rw (hn, hp, add_entry_room n done cur (text x) (omega arith)) at (copy_elt_lem x l m))
        λ l' m' hn' hp'. rw (← append_assoc cur (text x ∷ []) (texts xs)) (
          copy_elts_lem n xs done (cur ++ text x ∷ []) l' m' hn' hp'
            (omega (arith, length-append cur (text x ∷ []))))

  -- After a full part a row makes a part of its own.
  next_row :
      (n : ℕ) (xs : List Field) (done : List (List Str)) (cur : List Str) (l : lists.L)
      (m : p.State)
      → 1 ≤ n
      → lists.nalloc l ≡ n
      → lists.parts l ≡ done ++ cur ∷ []
      → length cur ≡ n
      → length (texts xs) ≡ n
      → Holds n ((done ++ cur ∷ []) ++ texts xs ∷ []) (copy_elts p lists xs l m)
  unfolding copy_elts
  next_row n [] done cur l m pos hn hp full len = absurd (omega arith)
  next_row n (x ∷ xs) done cur l m pos hn hp full len =
      bind_lem n ((done ++ cur ∷ []) ++ (text x ∷ []) ∷ [])
        ((done ++ cur ∷ []) ++ texts (x ∷ xs) ∷ []) (copy_elt p lists x l m) (copy_elts p lists xs)
        (rw (hn, hp, add_entry_full n done cur (text x) (omega arith)) at (copy_elt_lem x l m))
        λ l' m' hn' hp'.
          copy_elts_lem n xs (done ++ cur ∷ []) (text x ∷ []) l' m' hn' hp' (omega arith)

  next_rows :
      (n : ℕ) (ns : List Node) (done : List (List Str)) (cur : List Str) (l : lists.L) (m : p.State)
      → 1 ≤ n
      → All (λ r. length r ≡ n) (rows ns)
      → lists.nalloc l ≡ n
      → lists.parts l ≡ done ++ cur ∷ []
      → length cur ≡ n
      → Holds n (done ++ cur ∷ rows ns) (copy_nodes p lists ns l m)
  unfolding copy_nodes
  next_rows n [] done cur l m pos all hn hp full = (hn, hp)
  next_rows n (nd ∷ ns) done cur l m pos all hn hp full =
      bind_lem n ((done ++ cur ∷ []) ++ texts nd.fields ∷ [])
        (done ++ cur ∷ texts nd.fields ∷ rows ns) (copy_elts p lists nd.fields l m)
        (copy_nodes p lists ns) (next_row n nd.fields done cur l m pos hn hp full all.0)
        λ l' m' hn' hp'.
          rw (← append_assoc done (cur ∷ []) (texts nd.fields ∷ rows ns))
            (next_rows n ns (done ++ cur ∷ []) (texts nd.fields) l' m' pos all.1 hn' hp' all.0)

  -- From a new list on: the list's parts are the queue's entries.
  pub copy_nodes_lem :
      (n : ℕ) (ns : List Node) (l : lists.L) (m : p.State)
      → 1 ≤ n
      → All (λ r. length r ≡ n) (rows ns)
      → lists.nalloc l ≡ n
      → lists.parts l ≡ [] ∷ []
      → Holds n (parts_of (rows ns)) (copy_nodes p lists ns l m)
  unfolding copy_nodes
  copy_nodes_lem n [] l m pos all hn hp = (hn, hp)
  copy_nodes_lem n (nd ∷ ns) l m pos all hn hp =
      bind_lem n (texts nd.fields ∷ []) (texts nd.fields ∷ rows ns)
        (copy_elts p lists nd.fields l m) (copy_nodes p lists ns)
        (copy_elts_lem n nd.fields [] [] l m hn hp (omega arith))
        λ l' m' hn' hp'. next_rows n ns [] (texts nd.fields) l' m' pos all.1 hn' hp' all.0

module _ (slab : Slab) (p : Pool) (lists : Lists p) where
  -- What a move of the queue to local memory comes to: a list with a part for each entry, in order,
  -- and an empty queue that owns nothing; or no list, and the queue as it was.
  abbrev pub Listed : (ℕ → ℕ) → ℕ → Shared slab → Option (lists.L × p.State) × Shared slab → Type 0
  Listed others n sh (none, sh') = sh' ≡ sh
  Listed others n sh (some (l, m), sh') =
      (lists.parts l ≡ parts_of (rows sh.queue)) × (sh'.queue ≡ []) × Owns slab others sh'

  list_initialized :
      (others : ℕ → ℕ) (n : ℕ) (sh : Shared slab) (l : lists.L) (m : p.State)
      → 1 ≤ n
      → All (λ r. length r ≡ n) (rows sh.queue)
      → Owns slab others sh
      → lists.nalloc l ≡ n
      → lists.parts l ≡ [] ∷ []
      → Listed others n sh (move_locked slab p lists sh l m)
  unfolding move_locked
  list_initialized others n sh l m pos all v hn hp =
      go (copy_nodes p lists sh.queue l m) (copy_nodes_lem p lists n sh.queue l m pos all hn hp)
    where
      go :
          (o : Option (lists.L × p.State))
          → Holds p lists n (parts_of (rows sh.queue)) o
          → Listed others n sh (elim o [
            | none ↦ (none, sh)
            | some r ↦ (
              some r,
              record { mem = destroy_nodes slab sh.queue sh.mem; queue = []; queue_len = 0 },
            )
          ])
      go none h = refl
      go (some (l', m')) h = (
        h.1,
        refl,
        record {
          counted = refl;
          owned = λ q. omega (arith, destroy_nodes_lem slab others sh.queue sh.mem v.owned q);
        },
      )

  -- For a queue that satisfies its invariant and whose entries all have n ≥ 1 strings: listing the
  -- buffer yields the entries as the parts of a list, oldest first (one empty part if there are
  -- none), and leaves an empty queue whose blocks are all freed; where local memory runs out, the
  -- shared state is untouched, so that no entry is lost.
  pub list_lem :
      (others : ℕ → ℕ) (n : ℕ) (sh : Shared slab) (m : p.State)
      → 1 ≤ n
      → All (λ r. length r ≡ n) (rows sh.queue)
      → Owns slab others sh
      → Listed others n sh (list_locked slab p lists n sh m)
  unfolding list_locked
  list_lem others n sh m pos all v = elim (Option-cases (lists.list_init n m)) [
    | inl e ↦ rw (e, list_locked) refl
    | inr ((l, m'), e) ↦
        rw (e, list_locked)
          (list_initialized others n sh l m' pos all v (lists.init_nalloc n m l m' e)
            (lists.init_parts n m l m' e))
  ]
