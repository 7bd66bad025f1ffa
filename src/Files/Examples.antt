-- ===== src/Files/Examples.antt =====
-- Tests of saving by evaluation, and the theorems at concrete inputs.
use dcr_sdk.Common.{◌≡◌, refl, none, some, [], ◌∷◌, All}
use dcr_sdk.Common.Strings.{bytes_eq}
use dcr_sdk.Files.{
  FileSystem, read_file, remove, write_fault, write_states, save_file_atomic, save_to_files,
}
use dcr_sdk.Files.Pair.{IsLoadable, save_to_files-IsLoadable}

abbrev disk : FileSystem
disk =
    (0 ∷ [], record { content = 1 ∷ []; perm = 0o600 })
    ∷ (1 ∷ [], record { content = 2 ∷ []; perm = 0o644 })
    ∷ []

computed : Unit {0}
unfolding save_to_files save_file_atomic write_states read_file remove bytes_eq
computed = tt

-- The key is saved and the saving of the certificate fails: a mismatched pair is left.
mismatched :
    let out =
      save_to_files
        (1 ∷ [])
        (0 ∷ [])
        (2 ∷ [])
        (3 ∷ [])
        (4 ∷ [])
        (3 ∷ [])
        (none, some (write_fault 1))
        disk in
    (read_file (0 ∷ []) out.left ≡ some (record { content = 3 ∷ []; perm = 0o600 }))
    × (read_file (1 ∷ []) out.left ≡ some (record { content = 2 ∷ []; perm = 0o644 }))
    × (out.error ≡ some (write_fault 1))
unfolding computed
mismatched = (refl, refl, refl)

save_to_files-IsLoadable_example :
    let out =
      save_to_files
        (1 ∷ [])
        (0 ∷ [])
        (2 ∷ [])
        (3 ∷ [])
        (4 ∷ [])
        (3 ∷ [])
        (none, some (write_fault 1))
        disk in
    All
      (IsLoadable (1 ∷ []) (0 ∷ []) (2 ∷ []) (3 ∷ []) (4 ∷ []) (3 ∷ []) disk)
      (out.left ∷ out.states)
save_to_files-IsLoadable_example =
    save_to_files-IsLoadable (1 ∷ []) (0 ∷ []) (2 ∷ []) (3 ∷ []) (4 ∷ []) (3 ∷ []) disk
      (none, some (write_fault 1)) (cc) (cc) (cc) (cc) (cc)
