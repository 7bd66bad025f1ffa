-- ===== src/ProtoVerify/Checked.antt =====
-- Which descriptors proto-verify checks.
use dcr_sdk.Common.{
  ◌≡◌, refl, sym, ap, subst, ◌↔◌, inl, inr, Bool, true, Bool-cases, Option, none, some, List, [],
  ◌∷◌, Bytes, ok, Result-cases, All, map,
}
use mathlib.Core.Option.{some-injective}
use dcr_sdk.ProtoVerify.{
  GeneratedFile, common, frequency, match_file, rpc_report, rpc_target, user, Descriptor, verify,
  verify_files, files,
}

module _ (is_registered : Bytes → Bool) where
  -- The descriptor is there, and registered under its path.
  abbrev pub IsLoaded : Option Descriptor → Type 0
  IsLoaded o = (fd : Descriptor) × (o ≡ some fd) × (is_registered fd.path ≡ true)

  abbrev Succeeds : List (Option Descriptor) → Type 0
  Succeeds fds =
      (printed : List Descriptor) × (verify is_registered fds ≡ ok printed)
      × (map some printed ≡ fds)

  verify_of_loaded : (fds : List (Option Descriptor)) → All IsLoaded fds → Succeeds fds
  unfolding verify
  verify_of_loaded [] h = ([], refl, refl)
  verify_of_loaded (none ∷ fds) ((fd, e, r), h) = cc
  verify_of_loaded (some fd ∷ fds) ((fd', e, r), h) =
      let (out, is_ok, same) = verify_of_loaded fds h in
      let registered : is_registered fd.path ≡ true =
        subst (λ d. is_registered d.path ≡ true) (sym (some-injective _ _ e)) r in
      (fd ∷ out, rw (registered, is_ok, verify) refl, ap (◌∷◌ (some fd)) same)

  verify-IsLoaded :
      (fds : List (Option Descriptor)) (out : List Descriptor)
      → verify is_registered fds ≡ ok out
      → All IsLoaded fds
  unfolding verify
  verify-IsLoaded [] out e = tt
  verify-IsLoaded (none ∷ fds) out e = cc
  verify-IsLoaded (some fd ∷ fds) out e = elim (Bool-cases (is_registered fd.path)) [
    | inr h ↦ cc (rw (h, verify) at e)
    | inl h ↦ elim (Result-cases (verify is_registered fds)) [
      | inl (x, f) ↦ cc (rw (h, f, verify) at e)
      | inr (rest, f) ↦ ((fd, refl, h), verify-IsLoaded fds rest f)
    ]
  ]

  -- proto-verify succeeds, and prints the descriptors in their order, exactly if those of six of the
  -- seven generated files, all but that of rpc.touch.proto, are there and are registered under their
  -- paths.
  pub verify_files_iff :
      (descriptor : GeneratedFile → Option Descriptor)
      → ((out : List Descriptor) × (verify_files is_registered descriptor ≡ ok out)
          × (map some out
              ≡ descriptor common
                ∷ descriptor frequency
                ∷ descriptor match_file
                ∷ descriptor rpc_report
                ∷ descriptor rpc_target
                ∷ descriptor user
                ∷ []))
        ↔ (IsLoaded (descriptor common)
            × IsLoaded (descriptor frequency)
            × IsLoaded (descriptor match_file)
            × IsLoaded (descriptor rpc_report)
            × IsLoaded (descriptor rpc_target)
            × IsLoaded (descriptor user))
  unfolding verify_files
  verify_files_iff descriptor = (
    λ (out, is_ok, _).
        let (a, (b, (c, (d, (e, (f, _)))))) = verify-IsLoaded (map descriptor files) out is_ok in
        (a, b, c, d, e, f),
    λ (a, b, c, d, e, f). verify_of_loaded (map descriptor files) (a, (b, (c, (d, (e, (f, tt)))))),
  )
