-- ===== src/ProtoVerify/Examples.antt =====
-- Tests of proto-verify by evaluation, and the theorem at a concrete input.
use dcr_sdk.Common.{
  ◌==◌, not, ◌≡◌, refl, Bool, false, Option, none, some, List, [], ◌∷◌, Bytes, ok, err, map,
}
use dcr_sdk.ProtoVerify.{
  GeneratedFile, common, frequency, match_file, rpc_report, rpc_target, rpc_touch, user, Descriptor,
  nil_descriptor, not_registered, verify_files,
}
use dcr_sdk.ProtoVerify.Checked.{verify_files_iff}

abbrev named : Bytes → Option Descriptor
named path = some (record { path = path; package_name = []; go_package = [] })

-- The descriptor of touches is nil.
abbrev descriptor : GeneratedFile → Option Descriptor
descriptor common = named (1 ∷ [])
descriptor frequency = named (2 ∷ [])
descriptor match_file = named (3 ∷ [])
descriptor rpc_report = named (4 ∷ [])
descriptor rpc_target = named (5 ∷ [])
descriptor rpc_touch = none
descriptor user = named (6 ∷ [])

abbrev registered : Bytes → Bool
registered [] = false
registered (n ∷ path) = not (n == 9)

touch_unchecked :
    (out : List Descriptor) × (verify_files registered descriptor ≡ ok out)
    × (map some out
        ≡ descriptor common
          ∷ descriptor frequency
          ∷ descriptor match_file
          ∷ descriptor rpc_report
          ∷ descriptor rpc_target
          ∷ descriptor user
          ∷ [])
touch_unchecked = (verify_files_iff registered descriptor).1 (
  (_, refl, refl),
  (_, refl, refl),
  (_, refl, refl),
  (_, refl, refl),
  (_, refl, refl),
  (_, refl, refl),
)

refusals :
    (verify_files registered (λ f. none) ≡ err nil_descriptor)
    × (verify_files registered (λ f. named (9 ∷ [])) ≡ err (not_registered (9 ∷ [])))
unfolding verify_files
refusals = (refl, refl)
