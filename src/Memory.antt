-- ===== src/Memory.antt =====
-- Local memory: nginx's memory pools, whose calls may return NULL, and what a function that fills
-- a buffer comes to.
use ngx_sqlite_log.Base.{
  ℕ, zero, suc, ◌≡◌, List, [], ◌∷◌, ◌++◌, Option, none, some, length, ltb, if◌then◌else◌,
}
use ngx_sqlite_log.Util.{Str}

-- The memory pool of nginx, as a state: a call gives the next state, or `none` for its NULL.
pub record Pool : Type 1 where
  pub State : Type 0
  pub array_create : ℕ → State → Option State
  pub array_push : State → Option State
  pub palloc : ℕ → State → Option State
  pub pcalloc : ℕ → State → Option State

abbrev pub zeros : ℕ → List ℕ
zeros zero = []
zeros (suc n) = 0 ∷ zeros n

abbrev pub take : ℕ → List ℕ → List ℕ
take zero s = []
take (suc n) [] = []
take (suc n) (c ∷ s) = c ∷ take n s

-- NULL is returned, memory past a buffer is written, or the row is built.
pub data Outcome (A : Type 0) : Type 0 where
  failed overflow : Outcome A
  built : A → Outcome A

infixl 5 ◌>>=◌
abbrev pub ◌>>=◌ : {A B : Type 0} → Outcome A → (A → Outcome B) → Outcome B
failed >>= k = failed
overflow >>= k = overflow
built a >>= k = k a

-- NULL from nginx makes the caller return NULL.
abbrev pub or_failed : {A : Type 0} → Option A → Outcome A
or_failed none = failed
or_failed (some a) = built a

-- One more entry in a list of parts of n entries each: in the last part, or in a new one.
abbrev pub add_entry {ℓ} : {A : Type ℓ} → ℕ → List (List A) → A → List (List A)
add_entry n [] v = (v ∷ []) ∷ []
add_entry n (x ∷ []) v = if ltb (length x) n then (x ++ v ∷ []) ∷ [] else x ∷ (v ∷ []) ∷ []
add_entry n (x ∷ y ∷ xs) v = x ∷ add_entry n (y ∷ xs) v

-- nginx's ngx_list_t in a pool: a chain of parts, each an array of the size given at the start.
-- `list_push` yields the slot, here the list as a function of what is written there. The laws say
-- what nginx documents: a new list has one part, which is empty.
pub record Lists (p : Pool) : Type 1 where
  pub L : Type 0
  pub list_init : ℕ → p.State → Option (L × p.State)
  pub list_push : L → p.State → Option ((Str → L) × p.State)
  pub nalloc : L → ℕ
  pub parts : L → List (List Str)
  pub init_nalloc :
      (n : ℕ) (m : p.State) (l : L) (m' : p.State) → list_init n m ≡ some (l, m') → nalloc l ≡ n
  pub init_parts :
      (n : ℕ) (m : p.State) (l : L) (m' : p.State)
      → list_init n m ≡ some (l, m')
      → parts l ≡ [] ∷ []
  pub push_nalloc :
      (l : L) (m : p.State) (w : Str → L) (m' : p.State) (v : Str)
      → list_push l m ≡ some (w, m')
      → nalloc (w v) ≡ nalloc l
  pub push_parts :
      (l : L) (m : p.State) (w : Str → L) (m' : p.State) (v : Str)
      → list_push l m ≡ some (w, m')
      → parts (w v) ≡ add_entry (nalloc l) (parts l) v
