-- ===== src/Auth/Identity.antt =====
-- Whom a client certificate identifies, stated without the code.
use dcr_sdk.Common.{
  ℕ, ◌≡◌, refl, sym, ap, subst, ◌∙◌, ◌↔◌, true, Option, none, some, List, [], ◌∷◌, Bytes, ok,
  if◌then◌else◌, arith,
}
use mathlib.Core.Option.{some-injective}
use dcr_sdk.Certs.{Certificate}
use dcr_sdk.Payer.{UuidLibrary}
use dcr_sdk.Auth.{
  AuthLibrary, AuthConfig, of_text, of_status, of_leaf, authenticate_client_certificate,
}

abbrev head_or : List Bytes → Bytes
head_or [] = []
head_or (raw ∷ raws) = raw

module _ (lib : AuthLibrary) (uuid : UuidLibrary) (cfg : AuthConfig) where
  -- The status is good, or is not asked for.
  abbrev pub IsCurrent : Certificate → Type 0
  IsCurrent leaf =
      (if cfg.require_ocsp then lib.check_status leaf cfg.issuer else some true) ≡ some true

  -- The certificate is valid and current, and names the partner `u`.
  abbrev pub Identifies : Certificate → ℕ → Type 0
  Identifies leaf u =
      (lib.check_tls leaf cfg.roots cfg.intermediates cfg.current_time ≡ true)
      × IsCurrent leaf
      × (uuid.parse (lib.uuid_of leaf) ≡ some u)

  of_text_iff : (s : Bytes) (u : ℕ) → (of_text lib uuid cfg s ≡ ok u) ↔ (uuid.parse s ≡ some u)
  unfolding of_text
  of_text_iff [] u = ground (arith, uuid.parse-nil)
  of_text_iff (c ∷ s) u = ground arith

  of_leaf_iff :
      (leaf : Certificate) (u : ℕ) → (of_leaf lib uuid cfg (some leaf) ≡ ok u) ↔ Identifies leaf u
  unfolding of_leaf of_status
  of_leaf_iff leaf u = ground (arith, of_text_iff (lib.uuid_of leaf) u)

  of_parsed_iff :
      (o : Option Certificate) (u : ℕ)
      → (of_leaf lib uuid cfg o ≡ ok u)
        ↔ ((leaf : Certificate) × (o ≡ some leaf) × Identifies leaf u)
  of_parsed_iff none u = (λ h. unfold of_leaf in cc, λ (leaf, e, named). cc)
  of_parsed_iff (some leaf) u = (
    λ h. (leaf, refl, (of_leaf_iff leaf u).0 h),
    λ (leaf', e, named).
        (of_leaf_iff leaf u).1 (subst (λ c. Identifies c u) (sym (some-injective _ _ e)) named),
  )

  -- The certificates of a client are taken for the partner `u` exactly if there is a first one, it
  -- can be parsed, it is valid under the server's pools, its OCSP status is good where one is
  -- required, and the UUID that it names is `u`.
  pub authenticate_client_certificate_iff :
      (raw_certs : List Bytes) (u : ℕ)
      → (authenticate_client_certificate lib uuid cfg raw_certs ≡ ok u) ↔ (
          (raw : Bytes) × (rest : List Bytes) × (leaf : Certificate) × (raw_certs ≡ raw ∷ rest)
          × (lib.parse_certificate raw ≡ some leaf)
          × Identifies leaf u)
  unfolding authenticate_client_certificate
  authenticate_client_certificate_iff [] u = (λ h. cc, λ (raw, rest, leaf, e, parsed, named). cc)
  authenticate_client_certificate_iff (raw ∷ raws) u = (
    λ h.
        let (leaf, parsed, named) = (of_parsed_iff (lib.parse_certificate raw) u).0 h in
        (raw, raws, leaf, refl, parsed, named),
    λ (raw', rest, leaf, e, parsed, named).
        (of_parsed_iff (lib.parse_certificate raw) u).1
          (leaf, ap lib.parse_certificate (ap head_or e) ∙ parsed, named),
  )
