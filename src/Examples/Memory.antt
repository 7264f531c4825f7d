-- ===== src/Examples/Memory.antt =====
-- Concrete memory: a slab that hands out a new address each time, a pool that never runs out, and
-- its lists.
use ngx_sqlite_log.Base.{
  ℕ, suc, ◌+◌, ◌-◌, ◌≤◌, ◌≡◌, sym, ap, ◌∙◌, inl, inr, List, [], ◌∷◌, Option, none, some, arith,
  Bool-cases, ==_iff, ◌==◌,
}
use ngx_sqlite_log.Util.{Str}
use ngx_sqlite_log.Slab.{Slab, at}
use ngx_sqlite_log.Memory.{Pool, Lists, add_entry}

abbrev pub SlabState : Type 0
SlabState = ℕ × (ℕ → ℕ)

abbrev held_after : ℕ → Option (ℕ × SlabState) → ℕ
held_after q none = 0
held_after q (some (p, s)) = s.1 q

abbrev at_new : ℕ → Option (ℕ × SlabState) → ℕ
at_new q none = 0
at_new q (some (p, s)) = at p q

abbrev take_block : SlabState → Option (ℕ × SlabState)
take_block s = some (s.0, (suc s.0, λ q. s.1 q + at s.0 q))

pub free_at : (p : ℕ) (h : ℕ → ℕ) → 1 ≤ h p → (q : ℕ) → (h q - at p q) + at p q ≡ h q
free_at p h mine q = elim (Bool-cases (p == q)) [
  | inl e ↦ rw (e, ← (==_iff p q).0 e) (omega arith)
  | inr e ↦ rw e (omega arith)
]

abbrev pub slab : Slab
slab = record {
  State = SlabState;
  alloc = λ n s. take_block s;
  free = λ p s. (s.0, λ q. s.1 q - at p q);
  held = λ s. s.1;
  alloc_held = λ n s p s' e q. sym (ap (held_after q) e) ∙ ap (λ o. s.1 q + at_new q o) e;
  free_held = λ p s mine q. free_at p s.1 mine q;
}

abbrev pub no_blocks : slab.State
no_blocks = (1, λ q. 0)

abbrev pub pool : Pool
pool = record {
  State = ℕ;
  array_create = λ n m. some (m + n);
  array_push = λ m. some (m + 1);
  palloc = λ n m. some (m + n);
  pcalloc = λ n m. some (m + n);
}

abbrev PartList : Type 0
PartList = ℕ × List (List Str)

abbrev nalloc_of : Option (PartList × ℕ) → ℕ
nalloc_of none = 0
nalloc_of (some (l, m)) = l.0

abbrev parts_in : Option (PartList × ℕ) → List (List Str)
parts_in none = []
parts_in (some (l, m)) = l.1

abbrev written : Str → Option ((Str → PartList) × ℕ) → Option (PartList × ℕ)
written v none = none
written v (some (w, m)) = some (w v, m)

abbrev pub lists : Lists pool
lists = record {
  L = PartList;
  list_init = λ n m. some ((n, [] ∷ []), m + n);
  list_push = λ l m. some ((λ v. (l.0, add_entry l.0 l.1 v)), m);
  nalloc = λ l. l.0;
  parts = λ l. l.1;
  init_nalloc = λ n m l m' e. sym (ap nalloc_of e);
  init_parts = λ n m l m' e. sym (ap parts_in e);
  push_nalloc = λ l m w m' v e. sym (ap (λ o. nalloc_of (written v o)) e);
  push_parts = λ l m w m' v e. sym (ap (λ o. parts_in (written v o)) e);
}
