-- ===== src/Files/Atomic.antt =====
-- What a crash during a save can leave.
use dcr_sdk.Common.{
  ℕ, zero, suc, ◌≡◌, ◌≢◌, refl, ap, ◌∙◌, ◌⊎◌, inl, inr, Option, none, some, List, [], ◌∷◌, ◌++◌,
  Bytes, All, All-append, if◌then◌else◌, arith,
}
use dcr_sdk.Common.Strings.{bytes_eq, bytes_eq_iff}
use dcr_sdk.Files.{
  File, FileSystem, read_file, remove, put, Fault, create_fault, write_fault, sync_fault,
  close_fault, chmod_fault, rename_fault, read_back_fault, write_states, new_file, renamed,
  read_back, save_file_atomic,
}

pub read_file-remove :
    (p q : Bytes) (fs : FileSystem)
    → read_file q (remove p fs) ≡ (if bytes_eq p q then none else read_file q fs)
unfolding read_file remove
read_file-remove p q [] = ground arith
read_file-remove p q ((r, f) ∷ fs) =
    ground (arith, read_file-remove p q fs, bytes_eq_iff p q, bytes_eq_iff r p, bytes_eq_iff r q)

read_file-put :
    (p q : Bytes) (f : File) (fs : FileSystem)
    → read_file q (put p f fs) ≡ (if bytes_eq p q then some f else read_file q fs)
unfolding read_file
read_file-put p q f fs = ground (arith, read_file-remove p q fs)

module _ (tmp path payload : Bytes) (perm : ℕ) (fs : FileSystem) where
  -- The path holds its old file, or the new one whole.
  abbrev pub OldOrNew : FileSystem → Type 0
  OldOrNew s =
      (read_file path s ≡ read_file path fs)
      ⊎ (read_file path s ≡ some (new_file tmp path payload perm fs))

  -- Nothing but `path` and the temporary file is touched.
  abbrev pub Untouched : Bytes → FileSystem → Type 0
  Untouched q s = read_file q s ≡ read_file q fs

  put-Untouched : (q : Bytes) (f : File) → tmp ≢ q → Untouched q (put tmp f fs)
  put-Untouched q f ne = ground (arith, read_file-put tmp q f fs, bytes_eq_iff tmp q)

  removed-Untouched : (q : Bytes) (f : File) → tmp ≢ q → Untouched q (remove tmp (put tmp f fs))
  removed-Untouched q f ne =
      ground
        (arith, read_file-remove tmp q (put tmp f fs), read_file-put tmp q f fs, bytes_eq_iff tmp q)

  write_states-Untouched :
      (q : Bytes) (n : ℕ) → tmp ≢ q → All (Untouched q) (write_states tmp payload n fs)
  unfolding write_states
  write_states-Untouched q zero ne = (put-Untouched q _ ne, tt)
  write_states-Untouched q (suc n) ne = (put-Untouched q _ ne, write_states-Untouched q n ne)

  written-Untouched :
      (q : Bytes) (n : ℕ) → tmp ≢ q → All (Untouched q) (write_states tmp payload n fs ++ fs ∷ [])
  written-Untouched q n ne =
      All-append (Untouched q) (write_states tmp payload n fs) (fs ∷ [])
        (write_states-Untouched q n ne) (refl, tt)

  read_file-renamed :
      (q : Bytes)
      → tmp ≢ q
      → read_file q (renamed tmp path payload perm fs)
        ≡ (if bytes_eq path q then some (new_file tmp path payload perm fs) else read_file q fs)
  read_file-renamed q ne = ground (
    arith,
    read_file-put path q (new_file tmp path payload perm fs) (remove tmp fs),
    read_file-remove tmp q fs,
    bytes_eq_iff tmp q,
  )

  read_file-left :
      (q : Bytes)
      → tmp ≢ q
      → read_file q (remove tmp (renamed tmp path payload perm fs))
        ≡ (if bytes_eq path q then some (new_file tmp path payload perm fs) else read_file q fs)
  read_file-left q ne = ground (
    arith,
    read_file-renamed q ne,
    read_file-remove tmp q (renamed tmp path payload perm fs),
    bytes_eq_iff tmp q,
  )

  old : (xs : List FileSystem) → All (Untouched path) xs → All OldOrNew xs
  old [] h = tt
  old (s ∷ xs) h = (inl h.0, old xs h.1)

  left-new :
      tmp ≢ path
      → read_file path (remove tmp (renamed tmp path payload perm fs))
        ≡ some (new_file tmp path payload perm fs)
  left-new ne = read_file-left path ne ∙ ground (arith, bytes_eq_iff path path)

  renamed-new :
      tmp ≢ path
      → read_file path (renamed tmp path payload perm fs) ≡ some (new_file tmp path payload perm fs)
  renamed-new ne = read_file-renamed path ne ∙ ground (arith, bytes_eq_iff path path)

  written-OldOrNew : (n : ℕ) → tmp ≢ path → All OldOrNew (write_states tmp payload n fs ++ fs ∷ [])
  written-OldOrNew n ne = old _ (written-Untouched path n ne)

  -- In each state that a save goes through, whichever call of it fails, the path holds the old file
  -- or the whole new one.
  pub save_file_atomic-OldOrNew :
      (fault : Option Fault)
      → tmp ≢ path
      → let out = save_file_atomic tmp path payload perm fs fault in
        All OldOrNew (out.left ∷ out.states)
  unfolding save_file_atomic
  save_file_atomic-OldOrNew (some create_fault) ne = (inl refl, (inl refl, tt))
  save_file_atomic-OldOrNew (some (write_fault n)) ne =
      (inl (removed-Untouched path _ ne), written-OldOrNew n ne)
  save_file_atomic-OldOrNew (some sync_fault) ne =
      (inl (removed-Untouched path _ ne), written-OldOrNew _ ne)
  save_file_atomic-OldOrNew (some close_fault) ne =
      (inl (removed-Untouched path _ ne), written-OldOrNew _ ne)
  save_file_atomic-OldOrNew (some chmod_fault) ne =
      (inl (removed-Untouched path _ ne), written-OldOrNew _ ne)
  save_file_atomic-OldOrNew (some rename_fault) ne =
      (inl (removed-Untouched path _ ne), (inl (put-Untouched path _ ne), written-OldOrNew _ ne))
  save_file_atomic-OldOrNew (some read_back_fault) ne = (
    inr (left-new ne),
    (inr (renamed-new ne), (inl (put-Untouched path _ ne), written-OldOrNew _ ne)),
  )
  save_file_atomic-OldOrNew none ne = (
    inr (left-new ne),
    (inr (renamed-new ne), (inl (put-Untouched path _ ne), written-OldOrNew _ ne)),
  )

  renamed-Untouched :
      (q : Bytes)
      → tmp ≢ q
      → path ≢ q
      → Untouched q (remove tmp (renamed tmp path payload perm fs))
        × Untouched q (renamed tmp path payload perm fs)
  renamed-Untouched q ne np = (
    read_file-left q ne ∙ ground (arith, bytes_eq_iff path q),
    read_file-renamed q ne ∙ ground (arith, bytes_eq_iff path q),
  )

  -- A file at another path stays as it is throughout.
  pub save_file_atomic-Untouched :
      (q : Bytes) (fault : Option Fault)
      → tmp ≢ q
      → path ≢ q
      → let out = save_file_atomic tmp path payload perm fs fault in
        All (Untouched q) (out.left ∷ out.states)
  unfolding save_file_atomic
  save_file_atomic-Untouched q (some create_fault) ne np = (refl, (refl, tt))
  save_file_atomic-Untouched q (some (write_fault n)) ne np =
      (removed-Untouched q _ ne, written-Untouched q n ne)
  save_file_atomic-Untouched q (some sync_fault) ne np =
      (removed-Untouched q _ ne, written-Untouched q _ ne)
  save_file_atomic-Untouched q (some close_fault) ne np =
      (removed-Untouched q _ ne, written-Untouched q _ ne)
  save_file_atomic-Untouched q (some chmod_fault) ne np =
      (removed-Untouched q _ ne, written-Untouched q _ ne)
  save_file_atomic-Untouched q (some rename_fault) ne np =
      (removed-Untouched q _ ne, (put-Untouched q _ ne, written-Untouched q _ ne))
  save_file_atomic-Untouched q (some read_back_fault) ne np =
      let (left, moved) = renamed-Untouched q ne np in
      (left, (moved, (put-Untouched q _ ne, written-Untouched q _ ne)))
  save_file_atomic-Untouched q none ne np =
      let (left, moved) = renamed-Untouched q ne np in
      (left, (moved, (put-Untouched q _ ne, written-Untouched q _ ne)))

  -- A save without a fault reports none, and leaves the new file and no temporary one.
  pub save_file_atomic-new_file :
      tmp ≢ path
      → let out = save_file_atomic tmp path payload perm fs none in
        (out.error ≡ none)
        × (read_file path out.left ≡ some (new_file tmp path payload perm fs))
        × (read_file tmp out.left ≡ none)
  unfolding save_file_atomic
  save_file_atomic-new_file ne = (
    ap (read_back tmp path payload perm fs) (renamed-new ne)
        ∙ ground (arith, bytes_eq_iff payload payload),
    left-new ne,
    ground
        (arith, read_file-remove tmp tmp (renamed tmp path payload perm fs), bytes_eq_iff tmp tmp),
  )

  pub new_file_of_none :
      (fault : Option Fault)
      → tmp ≢ path
      → (save_file_atomic tmp path payload perm fs fault).error ≡ none
      → read_file path (save_file_atomic tmp path payload perm fs fault).left
        ≡ some (new_file tmp path payload perm fs)
  unfolding save_file_atomic
  new_file_of_none (some create_fault) ne e = cc
  new_file_of_none (some (write_fault n)) ne e = cc
  new_file_of_none (some sync_fault) ne e = cc
  new_file_of_none (some close_fault) ne e = cc
  new_file_of_none (some chmod_fault) ne e = cc
  new_file_of_none (some rename_fault) ne e = cc
  new_file_of_none (some read_back_fault) ne e = cc
  new_file_of_none none ne e = left-new ne
