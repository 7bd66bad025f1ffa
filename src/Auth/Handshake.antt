-- ===== src/Auth/Handshake.antt =====
-- `NewTLSConfig` of pkg/serverauth/auth.go: the TLS configuration that stores the identity of a
-- client's certificate on its connection.
use dcr_sdk.Common.{
  ℕ, ◌==◌, Bool, false, Option, none, some, List, Bytes, Result, ok, err, if◌then◌else◌,
}
use dcr_sdk.Certs.{TlsCertificate}
use dcr_sdk.Payer.{UuidLibrary}
use dcr_sdk.Auth.{
  NetConn, AuthLibrary, AuthConfig, AuthError, auth_unavailable, refused_before, set_uuid,
  authenticate_client_certificate,
}

-- `tls.ClientAuthType`, in the order of its constants.
pub data ClientAuth : Type 0 where
  no_client_cert request_client_cert require_any_client_cert : ClientAuth
  verify_client_cert_if_given require_and_verify_client_cert : ClientAuth

-- `tls.VersionTLS12`
abbrev pub version_tls12 : ℕ
version_tls12 = 0x0303

-- What of a `tls.Config` the code reads or sets. `verify` is `VerifyPeerCertificate`: whether it
-- refuses the certificates.
pub record TlsConfig : Type 0 where
  pub client_auth : ClientAuth
  pub min_version : ℕ
  pub verify : Option (List Bytes → Bool)

-- `&tls.Config{}`
abbrev pub zero_config : TlsConfig
zero_config = record { client_auth = no_client_cert; min_version = 0; verify = none }

abbrev or_zero : Option TlsConfig → TlsConfig
or_zero none = zero_config
or_zero (some base) = base

abbrev at_least_any : ClientAuth → ClientAuth
at_least_any no_client_cert = require_any_client_cert
at_least_any auth = auth

-- The configuration that `NewTLSConfig` returns, but for its `GetConfigForClient`.
unfoldable pub new_tls_config : Option TlsConfig → TlsConfig
new_tls_config base = record (or_zero base) {
  client_auth = at_least_any (or_zero base).client_auth;
  min_version =
      if (or_zero base).min_version == 0 then version_tls12 else (or_zero base).min_version;
}

-- What the previous `GetConfigForClient` makes of a client's hello: there is none, it fails, or it
-- returns a configuration or nil.
pub data Previous : Type 0 where
  no_previous previous_failed : Previous
  previous_next : Option TlsConfig → Previous

-- The configuration that a client gets, `none` for an error.
unfoldable pub selected : TlsConfig → Previous → Option TlsConfig
selected cfg no_previous = some cfg
selected cfg previous_failed = none
selected cfg (previous_next none) = some cfg
selected cfg (previous_next (some next)) = some next

abbrev pub refuses : Option (List Bytes → Bool) → List Bytes → Bool
refuses none raw_certs = false
refuses (some verify) raw_certs = verify raw_certs

module _ (lib : AuthLibrary) (uuid : UuidLibrary) (auth : AuthConfig) where
  -- With the identity that the certificates have.
  abbrev pub store : NetConn → Result AuthError ℕ → NetConn × Option AuthError
  store conn (err e) = (conn, some e)
  store conn (ok uid) =
      let (conn', unavailable) = set_uuid conn uid in
      (conn', if unavailable then some auth_unavailable else none)

  -- `VerifyPeerCertificate` of the selected configuration, for a connection.
  unfoldable pub verify_peer_certificate :
      TlsConfig → NetConn → List Bytes → NetConn × Option AuthError
  verify_peer_certificate child conn raw_certs =
      if refuses child.verify raw_certs
      then (conn, some refused_before)
      else store conn (authenticate_client_certificate lib uuid auth raw_certs)

-- What a server makes of its handshakes: the certificates that it presents, its configuration, and
-- how it authenticates clients.
pub record ServerTls : Type 0 where
  pub certificates : List TlsCertificate
  pub config : TlsConfig
  pub auth : AuthConfig

-- `NewTLSConfig`, of a base with certificates and no callbacks.
unfoldable pub server_tls : List TlsCertificate → ℕ → AuthConfig → ServerTls
unfolding new_tls_config
server_tls certificates min_version auth = record {
  certificates = certificates;
  config = new_tls_config (some (record zero_config { min_version = min_version }));
  auth = auth;
}

-- A handshake in which a client presents certificates.
abbrev pub handshake :
    AuthLibrary → UuidLibrary → ServerTls → NetConn → List Bytes → NetConn × Option AuthError
handshake lib uuid tls conn raw_certs =
    verify_peer_certificate lib uuid tls.auth tls.config conn raw_certs
