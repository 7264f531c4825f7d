-- ===== src/File/Reading.antt =====
-- What reading a file yields, and which descriptors it leaves open.
use ngx_sqlite_log.Base.{
  ℕ, ◌+◌, ◌≡◌, refl, sym, ap, ◌∙◌, inl, inr, ◌⊎◌, not, List, [], ◌∷◌, ◌++◌, Option, none, some,
  arith, length, ◌==◌, branch, eq_of_not,
}
use ngx_sqlite_log.Memory.{Pool}
use ngx_sqlite_log.File.{
  Files, FileLaws, size_close, size_opened, file_size, Result, read_close, read_checked, read_sized,
  read_buffered, read_opened, file_read,
}

-- A part of a list that is as long is the list.
whole : (bs more : List ℕ) → length bs ≡ length (bs ++ more) → bs ≡ bs ++ more
whole [] [] h = refl
whole [] (c ∷ more) h = absurd (omega arith)
whole (b ∷ bs) more h = ap (◌∷◌ b) (whole bs more (omega arith))

module _ (files : Files) (p : Pool) (laws : FileLaws files) where
  -- The size of a file leaves no descriptor open.
  abbrev Sized : List ℕ → files.State → Option ℕ × files.State → Type 0
  Sized name s (none, s') = laws.opened s' ≡ laws.opened s
  Sized name s (some n, s') = (laws.opened s' ≡ laws.opened s) × (n ≡ length (laws.text name))

  file_size_lem : (name : List ℕ) (s : files.State) → Sized name s (file_size files name s)
  unfolding file_size
  file_size_lem name s = go (files.open_file name s) refl
    where
      stat :
          (fd : ℕ) (s₁ : files.State) (o : Option ℕ × files.State)
          → files.fd_info fd s₁ ≡ o
          → laws.opened s₁ ≡ (fd, laws.text name) ∷ laws.opened s
          → laws.opened o.1 ≡ laws.opened s₁
          → Sized name s (size_close files fd o)
      stat fd s₁ (none, s₂) e h k = laws.close_opened fd (laws.text name) (laws.opened s) s₂ (k ∙ h)
      stat fd s₁ (some n, s₂) e h k = (
        laws.close_opened fd (laws.text name) (laws.opened s) s₂ (k ∙ h),
        laws.info_size fd (laws.text name) (laws.opened s) s₁ n s₂ h e,
      )

      go :
          (o : Option ℕ × files.State)
          → files.open_file name s ≡ o
          → Sized name s (size_opened files o)
      go (none, s₁) e = laws.open_failed name s s₁ e
      go (some fd, s₁) e =
          stat fd s₁ (files.fd_info fd s₁) refl (laws.open_done name s fd s₁ e)
            (laws.info_opened fd s₁)

  -- What a read comes to.
  abbrev pub Reads : List ℕ → files.State → Result files p → Type 0
  Reads name s (none, m, s') =
      (laws.opened s' ≡ laws.opened s)
      ⊎ ((fd : ℕ) × (laws.opened s' ≡ (fd, laws.text name) ∷ laws.opened s))
  Reads name s (some bytes, m, s') = (bytes ≡ laws.text name) × (laws.opened s' ≡ laws.opened s)

  read_checked_lem :
      (name : List ℕ) (s : files.State) (fd n : ℕ) (m : p.State) (s₁ : files.State)
      (o : Option (List ℕ) × files.State)
      → files.read_file fd n s₁ ≡ o
      → n ≡ length (laws.text name)
      → laws.opened s₁ ≡ (fd, laws.text name) ∷ laws.opened s
      → laws.opened o.1 ≡ laws.opened s₁
      → Reads name s (read_checked files p fd n m o)
  read_checked_lem name s fd n m s₁ (none, s₂) e size h k = inr (fd, k ∙ h)
  read_checked_lem name s fd n m s₁ (some bytes, s₂) e size h k =
      branch (Reads name s) (not (length bytes == n)) (none, m, s₂)
        (read_close files p fd bytes m s₂) (λ short. inr (fd, k ∙ h))
        λ full.
          let closed = laws.close_opened fd (laws.text name) (laws.opened s) s₂ (k ∙ h) in
          let (more, prefix) =
            laws.read_bytes fd (laws.text name) (laws.opened s) n s₁ bytes s₂ h e in
          branch (Reads name s) (not (files.close_file fd s₂).0)
            (none, m, (files.close_file fd s₂).1) (some bytes, m, (files.close_file fd s₂).1)
            (λ unclosed. inl closed)
            λ fine. (
              whole bytes more (eq_of_not (length bytes) n full ∙ size ∙ ap length prefix)
                  ∙ sym prefix,
              closed,
            )

  read_buffered_lem :
      (name : List ℕ) (s : files.State) (fd n : ℕ) (m : p.State) (s₁ : files.State)
      (o : Option p.State)
      → n ≡ length (laws.text name)
      → laws.opened s₁ ≡ (fd, laws.text name) ∷ laws.opened s
      → Reads name s (read_buffered files p fd n m s₁ o)
  read_buffered_lem name s fd n m s₁ none size h = inr (fd, h)
  read_buffered_lem name s fd n m s₁ (some m') size h =
      read_checked_lem name s fd n m' s₁ (files.read_file fd n s₁) refl size h
        (laws.read_opened fd n s₁)

  read_sized_lem :
      (name : List ℕ) (s : files.State) (fd : ℕ) (m : p.State) (s₁ : files.State)
      (o : Option ℕ × files.State)
      → Sized name s₁ o
      → laws.opened s₁ ≡ (fd, laws.text name) ∷ laws.opened s
      → Reads name s (read_sized files p fd m o)
  read_sized_lem name s fd m s₁ (none, s₂) z h = inr (fd, z ∙ h)
  read_sized_lem name s fd m s₁ (some n, s₂) z h =
      read_buffered_lem name s fd n m s₂ (p.pcalloc (n + 1) m) z.1 (z.0 ∙ h)

  -- A string that is returned is the whole contents of the file, and every descriptor that was
  -- opened is closed. Where no string is returned, at most the one descriptor that reads the file
  -- is left open.
  pub file_read_lem :
      (name : List ℕ) (m : p.State) (s : files.State) → Reads name s (file_read files p name m s)
  unfolding file_read
  file_read_lem name m s = go (files.open_file name s) refl
    where
      go :
          (o : Option ℕ × files.State)
          → files.open_file name s ≡ o
          → Reads name s (read_opened files p name m o)
      go (none, s₁) e = inl (laws.open_failed name s s₁ e)
      go (some fd, s₁) e =
          read_sized_lem name s fd m s₁ (file_size files name s₁) (file_size_lem name s₁)
            (laws.open_done name s fd s₁ e)

  -- Where the file can be opened, but there is no memory for its contents, the descriptor stays
  -- open: a read that fails so leaks one.
  pub file_read_leaks :
      (name : List ℕ) (m : p.State) (s : files.State) (fd : ℕ) (s₁ : files.State)
      → files.open_file name s ≡ (some fd, s₁)
      → ((n : ℕ) → p.pcalloc n m ≡ none)
      → ((file_read files p name m s).0 ≡ none)
        × (laws.opened (file_read files p name m s).2 ≡ (fd, laws.text name) ∷ laws.opened s)
  unfolding file_read
  file_read_leaks name m s fd s₁ e no_memory =
      rw (e, file_read) (go (file_size files name s₁) (file_size_lem name s₁))
    where
      opened : laws.opened s₁ ≡ (fd, laws.text name) ∷ laws.opened s
      opened = laws.open_done name s fd s₁ e

      Leaks : Result files p → Type 0
      Leaks o = (o.0 ≡ none) × (laws.opened o.2 ≡ (fd, laws.text name) ∷ laws.opened s)

      unallocated :
          (n : ℕ) (s₂ : files.State) (o : Option p.State)
          → o ≡ none
          → laws.opened s₂ ≡ (fd, laws.text name) ∷ laws.opened s
          → Leaks (read_buffered files p fd n m s₂ o)
      unallocated n s₂ none k h = (refl, h)
      unallocated n s₂ (some m') k h = absurd (ground arith)

      go : (o : Option ℕ × files.State) → Sized name s₁ o → Leaks (read_sized files p fd m o)
      go (none, s₂) z = (refl, z ∙ opened)
      go (some n, s₂) z = unallocated n s₂ (p.pcalloc (n + 1) m) (no_memory (n + 1)) (z.0 ∙ opened)
