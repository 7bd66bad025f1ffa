-- ===== src/Certs.antt =====
-- pkg/client/certprovider.go, pkg/client/autorenew.go and the certificate check of pkg/client/mtls.go.
--
-- Parsing and verification are crypto/tls, crypto/x509, encoding/pem, encoding/json and the package
-- mtls, which is outside the repository: their functions are arguments, `none` for their errors.
-- Times are in nanoseconds; a certificate's end is less than 292 years away.
pub mod Fetch
pub mod Timed
pub mod Renewal
pub mod Laws
pub mod Answers
pub mod Polling
pub mod Deadline
pub mod Issuing
pub mod Waits
mod Examples
use dcr_sdk.Common.{
  ℕ, Bool, true, false, Option, none, some, List, [], ◌∷◌, ◌++◌, Bytes, Result, ok, err, is_empty,
  if◌then◌else◌,
}

pub record Certificate : Type 0 where
  pub serial : ℕ
  pub not_after : ℕ

-- The libraries: `tls.X509KeyPair`, to the certificate and those behind it; `x509.ParseCertificate`;
-- `mtls.CheckTLS`, with roots, intermediates and the configured time; and `pem.Decode`, to the bytes
-- of the first block.
pub record Pki : Type 0 where
  pub key_pair : Bytes → Bytes → Option (List Bytes)
  pub parse_certificate : Bytes → Option Certificate
  pub check_tls : Certificate → List Certificate → List Certificate → Option ℕ → Bool
  pub decode_pem : Bytes → Option Bytes

-- `certCheck`; a pool is a list of certificates, and `none` is a zero time.
pub record CertCheck : Type 0 where
  pub roots : List Certificate
  pub intermediates : List Certificate
  pub current_time : Option ℕ

-- `tls.Certificate`
pub record TlsCertificate : Type 0 where
  pub certificate : List Bytes
  pub leaf : Certificate

pub record ProvidedCert : Type 0 where
  pub cert : TlsCertificate
  pub cert_pem : Bytes

pub record CertProvider : Type 0 where
  pub check : CertCheck
  pub current : ProvidedCert

pub data LoadError : Type 0 where
  key_pair_failed empty_certificate leaf_failed intermediate_failed check_failed : LoadError

abbrev pub or_pool : Option (List Certificate) → List Certificate → List Certificate
or_pool none carried = carried
or_pool (some pool) carried = pool

-- `newCertCheck`: pools that are nil are those that the SDK carries.
unfoldable pub new_cert_check :
    List Certificate × List Certificate
    → Option (List Certificate)
    → Option (List Certificate)
    → Option ℕ
    → CertCheck
new_cert_check (carried_roots, carried_intermediates) roots intermediates current_time = record {
  roots = or_pool roots carried_roots;
  intermediates = or_pool intermediates carried_intermediates;
  current_time = current_time;
}

module _ (pki : Pki) where
  -- The loop that adds the certificates behind the first one to the pool.
  unfoldable pub add_intermediates : List Bytes → List Certificate → Option (List Certificate)
  add_intermediates [] pool = some pool
  add_intermediates (der ∷ ders) pool = elim (pki.parse_certificate der) [
    | none ↦ none
    | some c ↦ add_intermediates ders (pool ++ c ∷ [])
  ]

  unfoldable pub verified :
      CertCheck
      → List Bytes
      → Certificate
      → Option (List Certificate)
      → Result LoadError TlsCertificate
  verified check chain leaf none = err intermediate_failed
  verified check chain leaf (some pool) =
      if pki.check_tls leaf check.roots pool check.current_time
      then ok (record { certificate = chain; leaf = leaf })
      else err check_failed

  unfoldable pub with_leaf :
      CertCheck → Bytes → List Bytes → Option Certificate → Result LoadError TlsCertificate
  unfolding add_intermediates verified
  with_leaf check der ders none = err leaf_failed
  with_leaf check der ders (some leaf) =
      verified check (der ∷ ders) leaf (add_intermediates ders check.intermediates)

  unfoldable pub of_chain : CertCheck → Option (List Bytes) → Result LoadError TlsCertificate
  unfolding with_leaf
  of_chain check none = err key_pair_failed
  of_chain check (some []) = err empty_certificate
  of_chain check (some (der ∷ ders)) = with_leaf check der ders (pki.parse_certificate der)

  -- `certCheck.load`
  unfoldable pub load : CertCheck → Bytes → Bytes → Result LoadError TlsCertificate
  unfolding of_chain
  load check cert_pem key_pem = of_chain check (pki.key_pair cert_pem key_pem)

  unfoldable pub new_cert_provider : CertCheck → Bytes → Bytes → Result LoadError CertProvider
  unfolding load
  new_cert_provider check cert_pem key_pem = elim (load check cert_pem key_pem) [
    | err e ↦ err e
    | ok cert ↦ ok (record { check = check; current = record { cert = cert; cert_pem = cert_pem } })
  ]

  -- `Update`: the provider and the error.
  unfoldable pub update : CertProvider → Bytes → Bytes → CertProvider × Option LoadError
  unfolding load
  update p cert_pem key_pem = elim (load p.check cert_pem key_pem) [
    | err e ↦ (p, some e)
    | ok cert ↦ (record p { current = record { cert = cert; cert_pem = cert_pem } }, none)
  ]

unfoldable pub leaf : CertProvider → Certificate
leaf p = p.current.cert.leaf

-- `CertPEM`
unfoldable pub current_pem : CertProvider → Bytes
current_pem p = p.current.cert_pem
