-- ===== src/Entry/Memory.antt =====
-- Why ngx_http_sqlitelog_log_entry of src/ngx_http_sqlitelog_module.c returns no row.
use ngx_sqlite_log.Base.{
  ℕ, ◌+◌, ◌≡◌, refl, inl, inr, List, [], ◌∷◌, Option, none, some, length, Option-cases, ◌==◌,
  Bool-cases,
}
use ngx_sqlite_log.Memory.{Pool, Outcome, failed, overflow, built, ◌>>=◌, or_failed}
use ngx_sqlite_log.Op.Request.{Request, Formats}
use ngx_sqlite_log.Op.Run.{Op, call_getlen, call_run}
use ngx_sqlite_log.Entry.{printed, fill, value, field, fields, log_entry}
use ngx_sqlite_log.Format.Answers.{RunsOut}

-- A failure has that reason.
abbrev Blames : {A : Type 0} → Type 0 → Outcome A → Type 0
Blames Why failed = Why
Blames Why overflow = Unit {0}
Blames Why (built a) = Unit {0}

>>=-Blames :
    {A B : Type 0} (Why : Type 0) (o : Outcome A) (k : A → Outcome B)
    → Blames Why o
    → ((a : A) → Blames Why (k a))
    → Blames Why (o >>= k)
>>=-Blames Why failed k h step = h
>>=-Blames Why overflow k h step = h
>>=-Blames Why (built a) k h step = step a

some-Blames :
    {A : Type 0} (Why : Type 0) (o : Option A) → (o ≡ none → Why) → Blames Why (or_failed o)
some-Blames Why none h = h refl
some-Blames Why (some a) h = tt

module _ (p : Pool) where
  value-Blames :
      (n : ℕ) (s : List ℕ) (r : Request) (m : p.State) → Blames (RunsOut p) (value p n s r m)
  unfolding value
  value-Blames n s r m = elim (Bool-cases (n == 0)) [
    | inl e ↦ rw e tt
    | inr e ↦ elim (Option-cases (p.pcalloc (n + 1) m)) [
      | inl out ↦ rw (e, out) (m, inr (n + 1, inr (inr out)))
      | inr (m', got) ↦ elim (Option-cases (fill (n + 1) s)) [
        | inl past ↦ rw (e, got, past) tt
        | inr (buf, fits) ↦ rw (e, got, fits) tt
      ]
    ]
  ]

module _ (p : Pool) (f : Formats) where
  fields-Blames :
      (ops : List Op) (r : Request) (m : p.State) → Blames (RunsOut p) (fields p f ops r m)
  unfolding fields field
  fields-Blames [] r m = tt
  fields-Blames (op ∷ ops) r m =
      >>=-Blames (RunsOut p) (or_failed (p.array_push m)) _
        (some-Blames (RunsOut p) (p.array_push m) λ out. (m, inl out))
        λ m₁.
          >>=-Blames (RunsOut p) (field p f op r m₁) _
            (value-Blames p _
              (printed (call_run f op.print (call_getlen op.measure r op.index).1 op.index)) _ m₁)
            λ (s, r₂, m₂).
              >>=-Blames (RunsOut p) (fields p f ops r₂ m₂) _ (fields-Blames ops r₂ m₂)
                λ (row, r₃, m₃). tt

  log_entry-Blames :
      (ops : List Op) (r : Request) (m : p.State) → Blames (RunsOut p) (log_entry p f ops r m)
  unfolding log_entry
  log_entry-Blames ops r m =
      >>=-Blames (RunsOut p) (or_failed (p.array_create (length ops) m)) _
        (some-Blames (RunsOut p) (p.array_create (length ops) m)
          λ out. (m, inr (length ops, inl out)))
        λ m'. fields-Blames ops r m'

  -- Only where nginx's pool returns NULL there is no row.
  pub log_entry-RunsOut :
      (ops : List Op) (r : Request) (m : p.State) → log_entry p f ops r m ≡ failed → RunsOut p
  log_entry-RunsOut ops r m h = rw h at (log_entry-Blames ops r m)
