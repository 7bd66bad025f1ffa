-- ===== src/ProtoVerify.antt =====
-- cmd/proto-verify/main.go: the check of the generated descriptors.
--
-- The descriptors, which may be nil, and the paths of the global registry are arguments. What is
-- printed of a file is its path, its package and its go_package; an error is what the exit says.
pub mod Checked
mod Examples
use dcr_sdk.Common.{
  ◌∷◌, Bool, true, false, Option, none, some, List, [], Bytes, Result, ok, err, map, if◌then◌else◌,
}

-- The files of gen/base1.
pub data GeneratedFile : Type 0 where
  common frequency match_file rpc_report rpc_target rpc_touch user : GeneratedFile

-- What of a `protoreflect.FileDescriptor` is looked at.
pub record Descriptor : Type 0 where
  pub path : Bytes
  pub package_name : Bytes
  pub go_package : Bytes

pub data VerifyError : Type 0 where
  nil_descriptor : VerifyError
  not_registered : Bytes → VerifyError

-- The files that the command goes through.
abbrev pub files : List GeneratedFile
files = common ∷ frequency ∷ match_file ∷ rpc_report ∷ rpc_target ∷ user ∷ []

module _ (is_registered : Bytes → Bool) where
  abbrev pub printed :
      Descriptor → Result VerifyError (List Descriptor) → Result VerifyError (List Descriptor)
  printed fd (err e) = err e
  printed fd (ok fds) = ok (fd ∷ fds)

  -- The loop, to what it prints.
  unfoldable pub verify : List (Option Descriptor) → Result VerifyError (List Descriptor)
  verify [] = ok []
  verify (none ∷ fds) = err nil_descriptor
  verify (some fd ∷ fds) =
      let rest = printed fd (verify fds) in
      if is_registered fd.path then rest else err (not_registered fd.path)

  unfoldable pub verify_files :
      (GeneratedFile → Option Descriptor) → Result VerifyError (List Descriptor)
  unfolding verify
  verify_files descriptor = verify (map descriptor files)
