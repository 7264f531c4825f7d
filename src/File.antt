-- ===== src/File.antt =====
-- src/ngx_http_sqlitelog_file.c: reading a file, such as an init script, into a string.
pub mod Reading
use ngx_sqlite_log.Base.{
  ℕ, ◌+◌, ◌≤◌, ◌≡◌, Bool, true, false, not, List, ◌∷◌, ◌++◌, Option, none, some, length, ◌==◌,
  if◌then◌else◌,
}
use ngx_sqlite_log.Util.{Str}
use ngx_sqlite_log.Memory.{Pool}

-- nginx's calls on files, as functions of the state of the system: `none` and `false` are failure.
pub record Files : Type 1 where
  pub State : Type 0
  pub open_file : List ℕ → State → Option ℕ × State
  pub fd_info : ℕ → State → Option ℕ × State
  pub read_file : ℕ → ℕ → State → Option (List ℕ) × State
  pub close_file : ℕ → State → Bool × State

-- Documented behaviour of these calls while no one writes to the files. `opened` lists the open
-- descriptors, each with what its file holds, the last one opened first. A read may fall short. As
-- Linux does it, close releases the descriptor even where it reports an error.
pub record FileLaws (files : Files) : Type 0 where
  pub text : List ℕ → List ℕ
  pub opened : files.State → List (ℕ × List ℕ)
  pub open_failed :
      (name : List ℕ) (s s' : files.State)
      → files.open_file name s ≡ (none, s')
      → opened s' ≡ opened s
  pub open_done :
      (name : List ℕ) (s : files.State) (fd : ℕ) (s' : files.State)
      → files.open_file name s ≡ (some fd, s')
      → opened s' ≡ (fd, text name) ∷ opened s
  pub info_opened : (fd : ℕ) (s : files.State) → opened (files.fd_info fd s).1 ≡ opened s
  pub info_size :
      (fd : ℕ) (t : List ℕ) (rest : List (ℕ × List ℕ)) (s : files.State) (n : ℕ) (s' : files.State)
      → opened s ≡ (fd, t) ∷ rest
      → files.fd_info fd s ≡ (some n, s')
      → n ≡ length t
  pub read_opened : (fd n : ℕ) (s : files.State) → opened (files.read_file fd n s).1 ≡ opened s
  pub read_bytes :
      (fd : ℕ) (t : List ℕ) (rest : List (ℕ × List ℕ)) (n : ℕ) (s : files.State) (bs : List ℕ)
      (s' : files.State)
      → opened s ≡ (fd, t) ∷ rest
      → files.read_file fd n s ≡ (some bs, s')
      → (more : List ℕ) × (t ≡ bs ++ more)
  pub close_opened :
      (fd : ℕ) (t : List ℕ) (rest : List (ℕ × List ℕ)) (s : files.State)
      → opened s ≡ (fd, t) ∷ rest
      → opened (files.close_file fd s).1 ≡ rest

module _ (files : Files) where
  -- From the label `close` on, where the size may be known.
  abbrev pub size_close : ℕ → Option ℕ × files.State → Option ℕ × files.State
  size_close fd (filesize, s) = let (closed, s') = files.close_file fd s in (filesize, s')

  abbrev pub size_opened : Option ℕ × files.State → Option ℕ × files.State
  size_opened (none, s) = (none, s)
  size_opened (some fd, s) = size_close fd (files.fd_info fd s)

  -- `none` is NGX_FILE_ERROR.
  unfoldable pub file_size : List ℕ → files.State → Option ℕ × files.State
  file_size name s = size_opened (files.open_file name s)

module _ (files : Files) (p : Pool) where
  -- What the caller gets: the string, and the memory and the files after the call.
  abbrev pub Result : Type 0
  Result = Str × p.State × files.State

  abbrev pub read_close : ℕ → List ℕ → p.State → files.State → Result
  read_close fd bytes m s =
      let (closed, s') = files.close_file fd s in
      if not closed then (none, m, s') else (some bytes, m, s')

  -- After the read.
  abbrev pub read_checked : ℕ → ℕ → p.State → Option (List ℕ) × files.State → Result
  read_checked fd filesize m (none, s) = (none, m, s)
  read_checked fd filesize m (some bytes, s) =
      if not (length bytes == filesize) then (none, m, s) else read_close fd bytes m s

  -- Once the buffer is allocated, a byte more than the size.
  abbrev pub read_buffered : ℕ → ℕ → p.State → files.State → Option p.State → Result
  read_buffered fd filesize m s none = (none, m, s)
  read_buffered fd filesize m s (some m') =
      read_checked fd filesize m' (files.read_file fd filesize s)

  -- Once the size is known.
  abbrev pub read_sized : ℕ → p.State → Option ℕ × files.State → Result
  read_sized fd m (none, s) = (none, m, s)
  read_sized fd m (some filesize, s) = read_buffered fd filesize m s (p.pcalloc (filesize + 1) m)

  abbrev pub read_opened : List ℕ → p.State → Option ℕ × files.State → Result
  read_opened name m (none, s) = (none, m, s)
  read_opened name m (some fd, s) = read_sized fd m (file_size files name s)

  unfoldable pub file_read : List ℕ → p.State → files.State → Result
  file_read name m s = read_opened name m (files.open_file name s)
