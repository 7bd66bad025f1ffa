-- ===== src/Mtls.antt =====
-- `newWithMTLS` of pkg/client/mtls.go, which makes a client with its certificate, its TLS settings and
-- its renewer, and the CA chain that the package carries.
--
-- The hook of the package's tests is left out. A turn of the renewer is in Certs/Renewal.
pub mod Construction
pub mod Chain
mod Examples
use dcr_sdk.Common.{
  ℕ, ◌==◌, ◌&&◌, ◌++◌, Bool, true, false, Option, none, some, List, [], ◌∷◌, Bytes, Result, ok, err,
  if◌then◌else◌,
}
use dcr_sdk.Common.Int.{ℤ}
use dcr_sdk.Common.Strings.{bytes_eq}
use dcr_sdk.Config.{Configuration}
use dcr_sdk.Config.ServerName.{NameError, resolve_server_name}
use dcr_sdk.Contract.Request.{Request}
use dcr_sdk.Certs.{
  Pki, Certificate, CertCheck, CertProvider, TlsCertificate, LoadError, new_cert_check,
  new_cert_provider,
}
use dcr_sdk.Certs.Renewal.{AutoRenewer, new_auto_renewer}
use dcr_sdk.Client.Sharded.{ShardedClient}
use dcr_sdk.Client.Build.{new_client}
use dcr_sdk.Auth.Handshake.{version_tls12}

-- `MTLSConfig`; a pool is a list of certificates. Of `OnRenewed` it is said whether it is given.
pub record MtlsConfig : Type 0 where
  pub cert_pem : Bytes
  pub key_pem : Bytes
  pub server_root_cas : Option (List Certificate)
  pub server_name : Bytes
  pub min_version : ℕ
  pub client_cert_roots : Option (List Certificate)
  pub client_cert_intermediates : Option (List Certificate)
  pub current_time : Option ℕ
  pub on_renewed : Bool
  pub renew_before : ℤ
  pub renew_check_interval : ℤ

-- The `tls.Config` of the client's connections, without `GetClientCertificate`.
pub record TlsSettings : Type 0 where
  pub root_cas : Option (List Certificate)
  pub server_name : Bytes
  pub min_version : ℕ

-- `GetClientCertificate` of pkg/client/certprovider.go
unfoldable pub get_client_certificate : CertProvider → TlsCertificate
get_client_certificate p = p.current.cert

-- A client, with what it was made with, and its renewer if it has one.
pub record MtlsClient : Type 0 where
  pub client : ShardedClient
  pub provider : CertProvider
  pub tls : TlsSettings
  pub renewer : Option AutoRenewer

pub data MtlsError : Type 0 where
  certificate_refused : LoadError → MtlsError
  name_unresolved : NameError → MtlsError

abbrev or_tls12 : ℕ → ℕ
or_tls12 version = if version == 0 then version_tls12 else version

abbrev pub check_of : List Certificate × List Certificate → MtlsConfig → CertCheck
check_of carried m =
    new_cert_check carried m.client_cert_roots m.client_cert_intermediates m.current_time

-- The client that both parts are there for.
unfoldable pub with_name :
    List Request
    → Option Configuration
    → MtlsConfig
    → CertProvider
    → Result NameError Bytes
    → Result MtlsError MtlsClient
with_name pool cfg m provider (err e) = err (name_unresolved e)
with_name pool cfg m provider (ok name) = ok (record {
  client = new_client pool cfg;
  provider = provider;
  tls = record {
    root_cas = m.server_root_cas;
    server_name = name;
    min_version = or_tls12 m.min_version;
  };
  renewer = new_auto_renewer m.on_renewed m.renew_before m.renew_check_interval;
})

unfoldable pub with_provider :
    List Request
    → Option Configuration
    → MtlsConfig
    → Result LoadError CertProvider
    → Result MtlsError MtlsClient
with_provider pool cfg m (err e) = err (certificate_refused e)
with_provider pool cfg m (ok provider) =
    with_name pool cfg m provider (resolve_server_name m.server_name cfg)

-- `newWithMTLS`, with the carried CA pools and the package's pool of requests.
unfoldable pub new_with_mtls :
    Pki
    → List Certificate × List Certificate
    → List Request
    → Option Configuration
    → MtlsConfig
    → Result MtlsError MtlsClient
new_with_mtls pki carried pool cfg m =
    with_provider pool cfg m (new_cert_provider pki (check_of carried m) m.cert_pem m.key_pem)

-- The loop of `myGaruCAs` over the blocks that `pem.Decode` finds in the chain, with the pools so far;
-- `none` where it panics. `subject` and `issuer` are a certificate's raw names, and `signs_itself`
-- says whether its signature is its own.
module _ (parse_certificate : Bytes → Option Certificate) (subject issuer : Certificate → Bytes)
    (signs_itself : Certificate → Bool) where
  abbrev pub is_root : Certificate → Bool
  is_root c = bytes_eq (subject c) (issuer c) && signs_itself c

  unfoldable pub add_ca :
      List Certificate × List Certificate → Certificate → List Certificate × List Certificate
  add_ca (roots, intermediates) c =
      if is_root c then (roots ++ c ∷ [], intermediates) else (roots, intermediates ++ c ∷ [])

  unfoldable pub split_chain :
      List Bytes
      → List Certificate × List Certificate
      → Option (List Certificate × List Certificate)
  split_chain [] cas = some cas
  split_chain (block ∷ blocks) cas = elim (parse_certificate block) [
    | none ↦ none
    | some c ↦ split_chain blocks (add_ca cas c)
  ]
