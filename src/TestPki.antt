-- ===== src/TestPki.antt =====
-- internal/testcloud/certs.go: the throwaway certificates that the repository's tests use.
--
-- The package mtls, which is outside the repository, github.com/google/uuid, crypto/ecdsa, crypto/rand
-- and crypto/x509 are arguments, `none` for their errors. Each of their calls that draws at random is
-- given a number, which tells it from the others. Times are those of two readings of the clock, more
-- than a minute after the Unix epoch.
pub mod Identity
pub mod Clients
pub mod Touches
mod Examples
use dcr_sdk.Common.{
  ℕ, ◌+◌, ◌-◌, ◌*◌, ◌^◌, false, Option, none, some, List, [], ◌∷◌, Bytes, codes, Result, ok, err,
}
use dcr_sdk.Config.{second}
use dcr_sdk.Payer.{UuidLibrary}
use dcr_sdk.Certs.{Certificate, TlsCertificate}
use dcr_sdk.Auth.{AuthConfig}
use dcr_sdk.Auth.Handshake.{ServerTls, server_tls, version_tls12}

-- `mtls.Certificate`
pub record MtlsCertificate : Type 0 where
  pub cert : Certificate
  pub key : Bytes
  pub cert_pem : Bytes
  pub key_pem : Bytes

-- `mtls.GenerateConfig`
pub record GenerateConfig : Type 0 where
  pub cn : Bytes
  pub uuid : Bytes
  pub ca : MtlsCertificate

pub data KeyUsage : Type 0 where
  digital_signature : KeyUsage

pub data ExtKeyUsage : Type 0 where
  server_auth : ExtKeyUsage

-- What of an `x509.Certificate` the template sets.
pub record Template : Type 0 where
  pub serial_number : ℕ
  pub common_name : Bytes
  pub not_before : ℕ
  pub not_after : ℕ
  pub key_usage : KeyUsage
  pub ext_key_usage : List ExtKeyUsage
  pub ip_addresses : List Bytes

pub record Generator : Type 0 where
  pub generate_ca : ℕ → Bytes → Option MtlsCertificate
  pub generate : ℕ → GenerateConfig → Option MtlsCertificate
  pub new_uuid : ℕ → ℕ
  pub generate_key : ℕ → Option Bytes
  pub public_key : Bytes → Bytes
  pub random_int : ℕ → ℕ → Option ℕ
  pub create_certificate : ℕ → Template → Certificate → Bytes → Bytes → Option Bytes
  pub parse_certificate : Bytes → Option Certificate

-- `Certificates`; a pool is a list of certificates.
pub record Certificates : Type 0 where
  pub client_id : ℕ
  pub client_cert_pem : Bytes
  pub client_key_pem : Bytes
  pub client_roots : List Certificate
  pub server_roots : List Certificate
  pub server_name : Bytes
  pub server_tls : ServerTls
  pub client_ca : MtlsCertificate

pub data PkiError : Type 0 where
  client_ca_failed client_certificate_failed server_ca_failed server_key_failed : PkiError
  server_serial_failed server_certificate_failed server_certificate_unreadable : PkiError

abbrev pub loopback : Bytes
loopback = codes "127.0.0.1"

-- The configuration of a client certificate.
abbrev pub client_config : UuidLibrary → ℕ → MtlsCertificate → GenerateConfig
client_config uuid id ca = record { cn = codes "dcr-sdk-client"; uuid = uuid.to_string id; ca = ca }

abbrev pub template : ℕ → ℕ × ℕ → Template
template serial (before, after) = record {
  serial_number = serial;
  common_name = loopback;
  not_before = before - 60 * second;
  not_after = after + 3600 * second;
  key_usage = digital_signature;
  ext_key_usage = server_auth ∷ [];
  ip_addresses = loopback ∷ [];
}

-- How the server authenticates clients: by the client CA only.
abbrev pub auth_of : MtlsCertificate → AuthConfig
auth_of client_ca = record {
  roots = client_ca.cert ∷ [];
  intermediates = [];
  current_time = none;
  issuer = none;
  require_ocsp = false;
}

module _ (uuid : UuidLibrary) (gen : Generator) where
  -- `NewClientCertificate`, with the number of its draw.
  unfoldable pub new_client_certificate : ℕ → Certificates → ℕ → Result PkiError (Bytes × Bytes)
  new_client_certificate draw c id = elim (gen.generate draw (client_config uuid id c.client_ca)) [
    | none ↦ err client_certificate_failed
    | some cert ↦ ok (cert.cert_pem, cert.key_pem)
  ]

  -- `newServerCertificate`, whose draws start with the given number.
  unfoldable pub new_server_certificate :
      ℕ → ℕ × ℕ → MtlsCertificate → Result PkiError TlsCertificate
  new_server_certificate draw times ca = elim (gen.generate_key draw) [
    | none ↦ err server_key_failed
    | some key ↦ elim (gen.random_int (draw + 1) (2 ^ 128)) [
      | none ↦ err server_serial_failed
      | some serial ↦
          elim (gen.create_certificate (draw + 2) (template serial times) ca.cert
            (gen.public_key key) ca.key) [
              | none ↦ err server_certificate_failed
              | some der ↦ elim (gen.parse_certificate der) [
                | none ↦ err server_certificate_unreadable
                | some leaf ↦ ok (record { certificate = der ∷ []; leaf = leaf })
              ]
            ]
    ]
  ]

  unfoldable pub with_server_certificate :
      ℕ
      → MtlsCertificate
      → MtlsCertificate
      → MtlsCertificate
      → Result PkiError TlsCertificate
      → Result PkiError Certificates
  with_server_certificate id client_ca client server_ca (err e) = err e
  with_server_certificate id client_ca client server_ca (ok server) = ok (record {
    client_id = id;
    client_cert_pem = client.cert_pem;
    client_key_pem = client.key_pem;
    client_roots = client_ca.cert ∷ [];
    server_roots = server_ca.cert ∷ [];
    server_name = loopback;
    server_tls = server_tls (server ∷ []) version_tls12 (auth_of client_ca);
    client_ca = client_ca;
  })

  -- `NewCertificates`, whose draws start with the given number.
  unfoldable pub new_certificates : ℕ → ℕ × ℕ → Result PkiError Certificates
  unfolding with_server_certificate
  new_certificates draw times = elim (gen.generate_ca draw (codes "dcr-sdk-test-client-ca")) [
    | none ↦ err client_ca_failed
    | some client_ca ↦
        let id = gen.new_uuid (draw + 1) in
        elim (gen.generate (draw + 2) (client_config uuid id client_ca)) [
          | none ↦ err client_certificate_failed
          | some client ↦ elim (gen.generate_ca (draw + 3) (codes "dcr-sdk-test-server-ca")) [
            | none ↦ err server_ca_failed
            | some server_ca ↦
                with_server_certificate id client_ca client server_ca
                  (new_server_certificate (draw + 4) times server_ca)
          ]
        ]
  ]
