-- ===== src/TouchCheck/Identifiers.antt =====
-- Which identifiers a touch of touch-check carries.
use dcr_sdk.Common.{
  append_assoc, true, ◌↔◌, ◌≢◌, ap, ◌∷◌, ◌++◌, if◌then◌else◌, arith, ℕ, ◌≡◌, refl, ◌∙◌, false, List,
  [], Bytes, is_empty,
}
use dcr_sdk.Messages.{Uid}
use dcr_sdk.TouchCheck.{uid_of, Flags, request_uids, no_uids}

-- One identifier of each kind, as a touch carries it.
abbrev all_uids : Flags → List Uid
all_uids f =
    record { id = f.device_id; id_type = 3; source = [] }
    ∷ record { id = f.external_uid; id_type = 4; source = f.external_uid_source }
    ∷ record { id = f.otp; id_type = 0; source = [] }
    ∷ record { id = f.partner_uid; id_type = 2; source = [] }
    ∷ []

-- Those whose flag is given, in this order.
abbrev with_ids : List Uid → List Uid
with_ids [] = []
with_ids (u ∷ uids) = let rest = with_ids uids in if is_empty u.id then rest else u ∷ rest

abbrev pub given_uids : Flags → List Uid
given_uids f = with_ids (all_uids f)

uid_of-with_ids :
    (id : Bytes) (id_type : ℕ) (source : Bytes) (rest : List Uid)
    → uid_of id id_type source ++ with_ids rest
      ≡ with_ids (record { id = id; id_type = id_type; source = source } ∷ rest)
unfolding uid_of
uid_of-with_ids [] id_type source rest = refl
uid_of-with_ids (c ∷ id) id_type source rest = refl

uid_of-last :
    (id : Bytes) (id_type : ℕ) (source : Bytes)
    → uid_of id id_type source
      ≡ with_ids (record { id = id; id_type = id_type; source = source } ∷ [])
unfolding uid_of
uid_of-last [] id_type source = refl
uid_of-last (c ∷ id) id_type source = refl

assoc_of : (a b c d : List Uid) → a ++ b ++ c ++ d ≡ a ++ (b ++ (c ++ d))
assoc_of [] b c d = append_assoc b c d
assoc_of (u ∷ a) b c d = ap (◌∷◌ u) (assoc_of a b c d)

pub request_uids-given_uids : (f : Flags) → request_uids f ≡ given_uids f
unfolding request_uids
request_uids-given_uids f =
    let dev = uid_of f.device_id 3 [] in
    let ext = uid_of f.external_uid 4 f.external_uid_source in
    let otp = uid_of f.otp 0 [] in
    let partner = record { id = f.partner_uid; id_type = 2; source = [] } ∷ [] in
    let from_otp = record { id = f.otp; id_type = 0; source = [] } ∷ partner in
    let from_ext : List Uid =
      record { id = f.external_uid; id_type = 4; source = f.external_uid_source } ∷ from_otp in
    assoc_of dev ext otp (uid_of f.partner_uid 2 [])
    ∙ ap (λ r. dev ++ (ext ++ (otp ++ r))) (uid_of-last f.partner_uid 2 [])
    ∙ ap (λ r. dev ++ (ext ++ r)) (uid_of-with_ids f.otp 0 [] partner)
    ∙ ap (λ r. dev ++ r) (uid_of-with_ids f.external_uid 4 f.external_uid_source from_otp)
    ∙ uid_of-with_ids f.device_id 3 [] from_ext

pub no_uids_iff : (uids : List Uid) → (no_uids uids ≡ true) ↔ (uids ≡ [])
no_uids_iff [] = ground arith
no_uids_iff (u ∷ uids) = ground arith

pub is_empty_lem : (s : Bytes) → is_empty s ≡ true → s ≡ []
is_empty_lem [] h = refl
is_empty_lem (c ∷ s) h = cc

pub is_empty-false : (s : Bytes) → is_empty s ≡ false → s ≢ []
is_empty-false [] h = cc
is_empty-false (c ∷ s) h = ground arith
