-- ===== src/Files.antt =====
-- pkg/client/savefiles.go: a certificate and its key are saved over two files.
--
-- A file system is the list of its files by path. A save lists the states that it goes through, so
-- that a crash after any of them can be looked at; a system call that fails changes nothing, but for
-- a write, which may have written a part. No one else writes to the paths, and `os.CreateTemp` finds a
-- name that no file has.
pub mod Atomic
pub mod Pair
mod Examples
use dcr_sdk.Common.{
  ℕ, zero, suc, Bool, true, false, not, Option, none, some, List, [], ◌∷◌, ◌++◌, Bytes, take,
  length, if◌then◌else◌,
}
use dcr_sdk.Common.Strings.{bytes_eq}

pub record File : Type 0 where
  pub content : Bytes
  pub perm : ℕ

abbrev pub FileSystem : Type 0
FileSystem = List (Bytes × File)

unfoldable pub read_file : Bytes → FileSystem → Option File
read_file path [] = none
read_file path ((q, f) ∷ fs) = if bytes_eq q path then some f else read_file path fs

-- `os.Remove`, whose error is not looked at.
unfoldable pub remove : Bytes → FileSystem → FileSystem
remove path [] = []
remove path ((q, f) ∷ fs) =
    let rest = remove path fs in if bytes_eq q path then rest else (q, f) ∷ rest

abbrev pub put : Bytes → File → FileSystem → FileSystem
put path f fs = (path, f) ∷ remove path fs

-- The system call that fails; a write after some bytes.
pub data Fault : Type 0 where
  create_fault : Fault
  write_fault : ℕ → Fault
  sync_fault close_fault chmod_fault rename_fault read_back_fault : Fault

abbrev pub temporary_perm : ℕ
temporary_perm = 0o600

-- The states while `n` bytes of the data are written, the last one first.
unfoldable pub write_states : Bytes → Bytes → ℕ → FileSystem → List FileSystem
write_states tmp payload zero fs = put tmp (record { content = []; perm = temporary_perm }) fs ∷ []
write_states tmp payload (suc n) fs =
    put tmp (record { content = take (suc n) payload; perm = temporary_perm }) fs
    ∷ write_states tmp payload n fs

-- What a save goes through, the last state first, what it leaves, and its error.
pub record Saved : Type 0 where
  pub states : List FileSystem
  pub left : FileSystem
  pub error : Option Fault

abbrev pub saved : List FileSystem → FileSystem → Option Fault → Saved
saved states left error = record { states = states; left = left; error = error }

-- `saveFileAtomic`, where `tmp` is the name that `os.CreateTemp` finds. The deferred `os.Remove` runs
-- on every way out.
module _ (tmp path payload : Bytes) (perm : ℕ) (fs : FileSystem) where
  abbrev pub new_file : File
  new_file = record { content = payload; perm = perm }

  abbrev pub renamed : FileSystem
  renamed = put path new_file (remove tmp fs)

  -- The comparison of what is read back.
  abbrev pub read_back : Option File → Option Fault
  read_back none = some read_back_fault
  read_back (some f) = if bytes_eq f.content payload then none else some read_back_fault

  abbrev pub written : ℕ → List FileSystem
  written n = write_states tmp payload n fs ++ fs ∷ []

  abbrev pub partial : ℕ → FileSystem
  partial n = put tmp (record { content = take n payload; perm = temporary_perm }) fs

  abbrev pub full : FileSystem
  full = put tmp (record { content = payload; perm = temporary_perm }) fs

  abbrev pub permitted : FileSystem
  permitted = put tmp new_file fs

  unfoldable pub save_file_atomic : Option Fault → Saved
  save_file_atomic (some create_fault) = saved (fs ∷ []) fs (some create_fault)
  save_file_atomic (some (write_fault n)) =
      saved (written n) (remove tmp (partial n)) (some (write_fault n))
  save_file_atomic (some sync_fault) =
      saved (written (length payload)) (remove tmp full) (some sync_fault)
  save_file_atomic (some close_fault) =
      saved (written (length payload)) (remove tmp full) (some close_fault)
  save_file_atomic (some chmod_fault) =
      saved (written (length payload)) (remove tmp full) (some chmod_fault)
  save_file_atomic (some rename_fault) =
      saved (permitted ∷ written (length payload)) (remove tmp permitted) (some rename_fault)
  save_file_atomic (some read_back_fault) =
      saved (renamed ∷ permitted ∷ written (length payload)) (remove tmp renamed)
        (some read_back_fault)
  save_file_atomic none =
      saved (renamed ∷ permitted ∷ written (length payload)) (remove tmp renamed)
        (read_back (read_file path renamed))

abbrev pub Faults : Type 0
Faults = Option Fault × Option Fault

-- The second save runs if the first has no error.
abbrev pub both_saved : Saved → Saved → Option Fault → Saved
both_saved key cert (some e) = key
both_saved key cert none = saved (cert.states ++ key.states) cert.left cert.error

-- The function of `SaveToFiles`: the key first, then the certificate, each with the temporary name
-- and the fault of its save.
unfoldable pub save_to_files :
    Bytes → Bytes → Bytes → Bytes → Bytes → Bytes → Faults → FileSystem → Saved
unfolding save_file_atomic
save_to_files cert_path key_path cert_tmp key_tmp cert_pem key_pem (key_fault, cert_fault) fs =
    let key = save_file_atomic key_tmp key_path key_pem 0o600 fs key_fault in
    let cert = save_file_atomic cert_tmp cert_path cert_pem 0o644 key.left cert_fault in
    both_saved key cert key.error
