-- ===== src/Handler/Workers/Locked.antt =====
-- What a request's locked section does to the queue.
use ngx_sqlite_log.Base.{
  ℕ, ◌≤◌, ◌≡◌, refl, ap, ◌∙◌, List, [], ◌∷◌, ◌++◌, Option, none, some, length, All, All-append,
}
use ngx_sqlite_log.Util.{Str}
use ngx_sqlite_log.Memory.{Pool, Lists}
use ngx_sqlite_log.Slab.{Slab}
use ngx_sqlite_log.Buf.{NgxRc, ok, done, error, Shared, push_locked, list_locked}
use ngx_sqlite_log.Buf.Invariant.{rows, Owns, Pushed, push_lem}
use ngx_sqlite_log.Buf.Rows.{parts_of, Listed, list_lem}
use ngx_sqlite_log.Handler.Conserve.{parts_of-more}
use ngx_sqlite_log.Handler.Workers.{
  Section, queued, refused, taken, section_list, section_after, lock_section,
}

module _ (slab : Slab) (p : Pool) (lists : Lists p) where
  -- What the section comes to, by how it ends.
  abbrev pub Sectioned : List Str → Shared slab → Section (lists.L × p.State) × Shared slab → Type 0
  Sectioned entry sh (queued, sh') = rows sh'.queue ≡ rows sh.queue ++ entry ∷ []
  Sectioned entry sh (refused ok, sh') = ⊥
  Sectioned entry sh (refused done, sh') = rows sh'.queue ≡ rows sh.queue ++ entry ∷ []
  Sectioned entry sh (refused error, sh') = rows sh'.queue ≡ rows sh.queue
  Sectioned entry sh (taken ok r, sh') = ⊥
  Sectioned entry sh (taken done (l, m), sh') =
      (sh'.queue ≡ []) × (lists.parts l ≡ rows sh.queue ++ entry ∷ [])
  Sectioned entry sh (taken error (l, m), sh') =
      (sh'.queue ≡ []) × (lists.parts l ≡ parts_of (rows sh.queue))

  -- The section keeps the queue's invariant. It queues the entry, or takes the whole queue, with
  -- the entry if the push succeeded.
  pub lock_section_lem :
      (others : ℕ → ℕ) (max : ℕ) (entry : List Str) (m : p.State) (sh : Shared slab)
      → 1 ≤ length entry
      → All (λ r. length r ≡ length entry) (rows sh.queue)
      → Owns slab others sh
      → Owns slab others (lock_section slab p lists max entry m sh).1
        × Sectioned entry sh (lock_section slab p lists max entry m sh)
  unfolding lock_section
  lock_section_lem others max entry m sh pos all v =
      pushed (push_locked slab max entry sh) (push_lem slab others max entry sh v)
    where
      listed_done :
          (sh₁ : Shared slab) (o : Option (lists.L × p.State) × Shared slab)
          → Listed slab p lists others (length entry) sh₁ o
          → Owns slab others sh₁
          → rows sh₁.queue ≡ rows sh.queue ++ entry ∷ []
          → Owns slab others (section_list slab p lists done o).1
            × Sectioned entry sh (section_list slab p lists done o)
      listed_done sh₁ (none, sh') e w u = rw e (w, u)
      listed_done sh₁ (some (l, m'), sh') (ps, e, w') w u =
          (w', (e, ps ∙ ap parts_of u ∙ parts_of-more (rows sh.queue) entry))

      listed_error :
          (sh₁ : Shared slab) (o : Option (lists.L × p.State) × Shared slab)
          → Listed slab p lists others (length entry) sh₁ o
          → Owns slab others sh₁
          → rows sh₁.queue ≡ rows sh.queue
          → Owns slab others (section_list slab p lists error o).1
            × Sectioned entry sh (section_list slab p lists error o)
      listed_error sh₁ (none, sh') e w u = rw e (w, u)
      listed_error sh₁ (some (l, m'), sh') (ps, e, w') w u = (w', (e, ps ∙ ap parts_of u))

      pushed :
          (o : NgxRc × Shared slab)
          → Owns slab others o.1 × Pushed slab max entry sh o
          → Owns slab others (section_after slab p lists entry m o).1
            × Sectioned entry sh (section_after slab p lists entry m o)
      pushed (ok, sh₁) (w, u) = (w, u.0)
      pushed (done, sh₁) (w, u) =
          listed_done sh₁ (list_locked slab p lists (length entry) sh₁ m)
            (list_lem slab p lists others (length entry) sh₁ m pos
              (rw u.0 (All-append _ (rows sh.queue) (entry ∷ []) all (refl, tt))) w)
            w u.0
      pushed (error, sh₁) (w, u) =
          listed_error sh₁ (list_locked slab p lists (length entry) sh₁ m)
            (list_lem slab p lists others (length entry) sh₁ m pos (rw u all) w) w u
