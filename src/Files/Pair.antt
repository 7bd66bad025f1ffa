-- ===== src/Files/Pair.antt =====
-- The two saves of `SaveToFiles`: the key stands there before the certificate does.
use dcr_sdk.Common.{
  ◌≡◌, ◌≢◌, refl, sym, ap, ◌∙◌, ◌⊎◌, inl, inr, Option, none, some, List, [], ◌∷◌, Bytes, All,
  All-append,
}
use dcr_sdk.Files.{
  File, FileSystem, read_file, Fault, Saved, save_file_atomic, Faults, both_saved, save_to_files,
}
use dcr_sdk.Files.Atomic.{save_file_atomic-OldOrNew, save_file_atomic-Untouched, new_file_of_none}

All-both :
    (P Q R : FileSystem → Type 0) (xs : List FileSystem)
    → ((s : FileSystem) → P s → Q s → R s)
    → All P xs
    → All Q xs
    → All R xs
All-both P Q R [] f hp hq = tt
All-both P Q R (s ∷ xs) f hp hq = (f s hp.0 hq.0, All-both P Q R xs f hp.1 hq.1)

both_saved-All :
    (P : FileSystem → Type 0) (key cert : Saved) (e : Option Fault)
    → All P (key.left ∷ key.states)
    → (e ≡ none → All P (cert.left ∷ cert.states))
    → All P ((both_saved key cert e).left ∷ (both_saved key cert e).states)
both_saved-All P key cert (some e) hk hc = hk
both_saved-All P key cert none hk hc =
    let after = hc refl in (after.0, All-append P cert.states key.states after.1 hk.1)

module _ (cert_path key_path cert_tmp key_tmp cert_pem key_pem : Bytes) (fs : FileSystem) where
  abbrev new_key : File
  new_key = record { content = key_pem; perm = 0o600 }

  abbrev new_cert : File
  new_cert = record { content = cert_pem; perm = 0o644 }

  -- The old certificate with the old or the new key, or the new certificate with the new key: each
  -- file whole, and the new certificate never beside the old key.
  abbrev pub IsLoadable : FileSystem → Type 0
  IsLoadable s =
      ((read_file cert_path s ≡ read_file cert_path fs)
        × ((read_file key_path s ≡ read_file key_path fs) ⊎ (read_file key_path s ≡ some new_key)))
      ⊎ ((read_file cert_path s ≡ some new_cert) × (read_file key_path s ≡ some new_key))

  -- A state of the second save, which starts from `mid`.
  loadable :
      (mid s : FileSystem)
      → read_file cert_path mid ≡ read_file cert_path fs
      → read_file key_path s ≡ some new_key
      → (read_file cert_path s ≡ read_file cert_path mid) ⊎ (read_file cert_path s ≡ some new_cert)
      → IsLoadable s
  loadable mid s same k (inl unchanged) = inl (unchanged ∙ same, inr k)
  loadable mid s same k (inr new) = inr (new, k)

  -- In each state that the saving of a certificate and its key goes through, whichever calls fail,
  -- both files are whole, and the new certificate stands there with the new key only.
  pub save_to_files-IsLoadable :
      (faults : Faults)
      → key_tmp ≢ key_path
      → key_tmp ≢ cert_path
      → cert_tmp ≢ cert_path
      → cert_tmp ≢ key_path
      → cert_path ≢ key_path
      → let out = save_to_files cert_path key_path cert_tmp key_tmp cert_pem key_pem faults fs in
        All IsLoadable (out.left ∷ out.states)
  unfolding save_to_files
  save_to_files-IsLoadable (key_fault, cert_fault) kk kc cert_apart ck distinct =
      let key = save_file_atomic key_tmp key_path key_pem 0o600 fs key_fault in
      let cert = save_file_atomic cert_tmp cert_path cert_pem 0o644 key.left cert_fault in
      let untouched =
        save_file_atomic-Untouched key_tmp key_path key_pem 0o600 fs cert_path key_fault kc
          (λ e. distinct (sym e)) in
      let before =
        All-both _ _ IsLoadable (key.left ∷ key.states) (λ s. λ k. λ c. inl (c, k))
          (save_file_atomic-OldOrNew key_tmp key_path key_pem 0o600 fs key_fault kk) untouched in
      both_saved-All IsLoadable key cert key.error before (λ fine.
        let new = new_file_of_none key_tmp key_path key_pem 0o600 fs key_fault kk fine in
        All-both _ _ IsLoadable (cert.left ∷ cert.states)
          (λ s. λ c. λ k. loadable key.left s untouched.0 (k ∙ new) c)
          (save_file_atomic-OldOrNew cert_tmp cert_path cert_pem 0o644 key.left cert_fault
            cert_apart)
          (save_file_atomic-Untouched cert_tmp cert_path cert_pem 0o644 key.left key_path cert_fault
            ck distinct))

  both_saved-none :
      (key cert : Saved) (e : Option Fault)
      → key.error ≡ e
      → (both_saved key cert e).error ≡ none
      → (e ≡ none) × (cert.error ≡ none)
  both_saved-none key cert (some x) same fine = cc
  both_saved-none key cert none same fine = (refl, fine)

  -- Where the saving of a pair has no error, both files hold the new pair.
  pub save_to_files-new_pair :
      (faults : Faults)
      → key_tmp ≢ key_path
      → cert_tmp ≢ cert_path
      → cert_tmp ≢ key_path
      → cert_path ≢ key_path
      → let out = save_to_files cert_path key_path cert_tmp key_tmp cert_pem key_pem faults fs in
        out.error ≡ none
        → (read_file cert_path out.left ≡ some new_cert)
          × (read_file key_path out.left ≡ some new_key)
  unfolding save_to_files
  save_to_files-new_pair (key_fault, cert_fault) kk cert_apart ck distinct e =
      let key = save_file_atomic key_tmp key_path key_pem 0o600 fs key_fault in
      let cert = save_file_atomic cert_tmp cert_path cert_pem 0o644 key.left cert_fault in
      let fine = both_saved-none key cert key.error refl e in
      let left = ap (λ t. (both_saved key cert t).left) fine.0 in
      let untouched =
        save_file_atomic-Untouched cert_tmp cert_path cert_pem 0o644 key.left key_path cert_fault ck
          distinct in
      (
        ap (read_file cert_path) left
            ∙ new_file_of_none cert_tmp cert_path cert_pem 0o644 key.left cert_fault cert_apart
                fine.1,
        ap (read_file key_path) left
            ∙ untouched.0
            ∙ new_file_of_none key_tmp key_path key_pem 0o600 fs key_fault kk fine.0,
      )
