-- ===== src/Entry/Shape.antt =====
-- What a row holds, for columns that store a variable's own text.
use ngx_sqlite_log.Base.{
  ℕ, zero, suc, ◌+◌, ◌-◌, ◌≤◌, ◌≡◌, refl, ap, ◌∙◌, inl, inr, false, List, [], ◌∷◌, ◌++◌, Option,
  none, some, arith, length, ltb, ◌==◌, Bool-cases, Option-cases,
}
use ngx_sqlite_log.Util.{Str}
use ngx_sqlite_log.Op.Escape.{escape_copy}
use ngx_sqlite_log.Op.Request.{Request, Formats}
use ngx_sqlite_log.Op.Run.{
  Op, Getlen, getlen, getlen_unescaped, Run, run, run_unescaped, call_getlen, call_run,
}
use ngx_sqlite_log.Op.Run.Exact.{
  value_of, generic_exact, unescaped_exact, missing_getlen, value_of-getlen,
}
use ngx_sqlite_log.Memory.{Pool, Outcome, failed, overflow, built, ◌>>=◌, or_failed, zeros, take}
use ngx_sqlite_log.Entry.{fill, field_len, value, field, fields, log_entry}

-- The two pairs of functions that print a variable's own text.
pub data OwnText : Getlen → Run → Type 0 where
  escaped : OwnText getlen run
  raw : OwnText getlen_unescaped run_unescaped

abbrev pub text : {g : Getlen} {p : Run} → OwnText g p → List ℕ → List ℕ
text escaped s = escape_copy s
text raw s = s

-- NULL for a missing or empty variable, and otherwise the first 4096 bytes of its text.
abbrev pub clip : List ℕ → Str
clip [] = none
clip (c ∷ s) = some (take 4096 (c ∷ s))

abbrev pub stored : {g : Getlen} {p : Run} → OwnText g p → Option (List ℕ) → Str
stored t none = none
stored t (some s) = clip (text t s)

own_measure :
    (f : Formats) (op : Op) (t : OwnText op.measure op.print) (r : Request) (s : List ℕ)
    → value_of r op.index ≡ some s
    → let (n, r') = call_getlen op.measure r op.index in
      (call_run f op.print r' op.index ≡ some (text t s)) × (length (text t s) ≡ n)
own_measure f op t r s h = go op.measure op.print t
  where
    go :
        (g : Getlen) (p : Run) (t : OwnText g p)
        → let (n, r') = call_getlen g r op.index in
          (call_run f p r' op.index ≡ some (text t s)) × (length (text t s) ≡ n)
    go g p escaped = generic_exact f r op.index s h
    go g p raw = unescaped_exact f r op.index s h

own_missing :
    (op : Op) (t : OwnText op.measure op.print) (r : Request)
    → value_of r op.index ≡ none
    → (call_getlen op.measure r op.index).0 ≡ 0
own_missing op t r h = go op.measure op.print t
  where
    go : (g : Getlen) (p : Run) → OwnText g p → (call_getlen g r op.index).0 ≡ 0
    go g p escaped = (missing_getlen r op.index h).0
    go g p raw = (missing_getlen r op.index h).1

take-append_le : (n : ℕ) (s z : List ℕ) → n ≤ length s → take n (s ++ z) ≡ take n s
take-append_le zero s z h = refl
take-append_le (suc n) [] z h = absurd (omega arith)
take-append_le (suc n) (c ∷ s) z h = ap (◌∷◌ c) (take-append_le n s z (omega arith))

take_all : (n m : ℕ) (s : List ℕ) → length s ≤ n → length s ≤ m → take n s ≡ take m s
take_all zero zero s h k = refl
take_all zero (suc m) [] h k = refl
take_all (suc n) zero [] h k = refl
take_all zero (suc m) (c ∷ s) h k = absurd (omega arith)
take_all (suc n) zero (c ∷ s) h k = absurd (omega arith)
take_all (suc n) (suc m) [] h k = refl
take_all (suc n) (suc m) (c ∷ s) h k = ap (◌∷◌ c) (take_all n m s (omega arith) (omega arith))

-- A buffer of one byte more than the text holds the text, and is cut off as the text is.
field_text : (s z : List ℕ) → take (field_len (length s)) (s ++ z) ≡ take 4096 s
unfolding field_len
field_text s z = elim (Bool-cases (ltb 4096 (length s))) [
  | inl big ↦ rw big (take-append_le 4096 s z (ground arith))
  | inr small ↦ rw small (
      take-append_le (length s) s z (ground arith)
      ∙ take_all (length s) 4096 s (ground arith) (ground arith))
]

-- What a call yields unless memory runs out; in no case does it write past a buffer.
abbrev pub Yields : {A M : Type 0} → A → Request → Outcome (A × Request × M) → Type 0
Yields a r failed = Unit {0}
Yields a r overflow = ⊥
Yields a r (built (b, r', m')) = (b ≡ a) × ((j : ℕ) → value_of r' j ≡ value_of r j)

clip_text :
    (c : ℕ) (w z : List ℕ) → some (take (field_len (length (c ∷ w))) (c ∷ w ++ z)) ≡ clip (c ∷ w)
clip_text c w z = ap some (field_text (c ∷ w) z)

suc_nonzero : (n : ℕ) → (suc n == 0) ≡ false
suc_nonzero n = ground arith

fill_exact : (w : List ℕ) → fill (length w + 1) w ≡ some (w ++ zeros (length w + 1 - length w))
unfolding fill
fill_exact w = ground arith

-- A value of exactly the announced length fits, and is stored as it is or cut off.
value_exact :
    (p : Pool) (w : List ℕ) (r : Request) (m : p.State)
    → Yields (clip w) r (value p (length w) w r m)
unfolding value
value_exact p [] r m = (refl, λ j. refl)
value_exact p (c ∷ w) r m = elim (Option-cases (p.pcalloc (length (c ∷ w) + 1) m)) [
  | inl e ↦ rw (suc_nonzero (length w), e, value) tt
  | inr (m', e) ↦
      rw (suc_nonzero (length w), e, fill_exact (c ∷ w), value)
        (clip_text c w (zeros (length (c ∷ w) + 1 - length (c ∷ w))), λ j. refl)
]

value_missing :
    (p : Pool) (w : List ℕ) (r : Request) (m : p.State) → Yields none r (value p 0 w r m)
unfolding value
value_missing p w r m = (refl, λ j. refl)

keep_values :
    {A M : Type 0} (a : A) (r r' : Request) (o : Outcome (A × Request × M))
    → ((j : ℕ) → value_of r' j ≡ value_of r j)
    → Yields a r' o
    → Yields a r o
keep_values a r r' failed h y = tt
keep_values a r r' overflow h y = y
keep_values a r r' (built (b, r₂, m)) h y = (y.0, λ j. y.1 j ∙ h j)

bind_lem :
    {A B M : Type 0} (a : A) (b : B) (r : Request) (o : Outcome (A × Request × M))
    (k : A × Request × M → Outcome (B × Request × M))
    → Yields a r o
    → ((r' : Request) (m' : M)
        → ((j : ℕ) → value_of r' j ≡ value_of r j)
        → Yields b r' (k (a, r', m')))
    → Yields b r (o >>= k)
bind_lem a b r failed k y h = tt
bind_lem a b r overflow k y h = y
bind_lem a b r (built (c, r', m')) k y h =
    keep_values b r r' (k (c, r', m')) y.1 (rw y.0 (h r' m' y.1))

abbrev pub AllOwn : List Op → Type 0
AllOwn [] = Unit
AllOwn (op ∷ ops) = OwnText op.measure op.print × AllOwn ops

-- The row that a request should leave.
abbrev pub expected : (ops : List Op) → AllOwn ops → Request → List Str
expected [] t r = []
expected (op ∷ ops) t r = stored t.0 (value_of r op.index) ∷ expected ops t.1 r

module _ (p : Pool) (f : Formats) where
  field_lem :
      (op : Op) (t : OwnText op.measure op.print) (r : Request) (m : p.State)
      → Yields (stored t (value_of r op.index)) r (field p f op r m)
  unfolding field
  field_lem op t r m = elim (Option-cases (value_of r op.index)) [
    | inl e ↦
        rw (e, own_missing op t r e)
          (keep_values none r (call_getlen op.measure r op.index).1 _
            (value_of-getlen op.measure r op.index) (value_missing p _ _ m))
    | inr (s, e) ↦
        rw (e, ← (own_measure f op t r s e).1, (own_measure f op t r s e).0)
          (keep_values _ r (call_getlen op.measure r op.index).1 _
            (value_of-getlen op.measure r op.index) (value_exact p (text t s) _ m))
  ]

  expected-same :
      (ops : List Op) (t : AllOwn ops) (r r' : Request)
      → ((j : ℕ) → value_of r' j ≡ value_of r j)
      → expected ops t r' ≡ expected ops t r
  expected-same [] t r r' h = refl
  expected-same (op ∷ ops) t r r' h = rw (h op.index, expected-same ops t.1 r r' h)

  -- Of the loop over the columns.
  fields_lem :
      (ops : List Op) (t : AllOwn ops) (r : Request) (m : p.State)
      → Yields (expected ops t r) r (fields p f ops r m)
  unfolding fields
  fields_lem [] t r m = (refl, λ j. refl)
  fields_lem (op ∷ ops) t r m = elim (Option-cases (p.array_push m)) [
    | inl e ↦ rw (e, or_failed) tt
    | inr (m₁, e) ↦
        rw (e, or_failed)
          (bind_lem (stored t.0 (value_of r op.index)) (expected (op ∷ ops) t r) r
            (field p f op r m₁) _ (field_lem op t.0 r m₁)
            λ r₂ m₂ h₂.
              bind_lem (expected ops t.1 r₂) (expected (op ∷ ops) t r) r₂ (fields p f ops r₂ m₂) _
                (fields_lem ops t.1 r₂ m₂)
                λ r₃ m₃ h₃. (rw (expected-same ops t.1 r r₂ h₂), λ j. refl))
  ]

  -- For columns that store a variable's own text, the row is built column by column from the
  -- request's variables alone: NULL for a missing or empty variable, else the first 4096 bytes of
  -- its (escaped) text. Memory may run out, but no write passes the end of a buffer.
  pub log_entry_lem :
      (ops : List Op) (t : AllOwn ops) (r : Request) (m : p.State)
      → Yields (expected ops t r) r (log_entry p f ops r m)
  unfolding log_entry
  log_entry_lem ops t r m = elim (Option-cases (p.array_create (length ops) m)) [
    | inl e ↦ rw (e, or_failed) tt
    | inr (m', e) ↦ rw (e, or_failed) (fields_lem ops t r m')
  ]
