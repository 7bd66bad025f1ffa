-- ===== src/TestCloud.antt =====
-- cmd/test-cloud/main.go: the test cloud as a command.
--
-- The flags, the files, `tls.LoadX509KeyPair`, `AppendCertsFromPEM`, `pem.Decode`, to the type and the
-- bytes of the first block, and `x509.ParseCertificate` are arguments, `none` for their errors.
pub mod Clients
mod Examples
use dcr_sdk.Common.{
  ℕ, ◌^◌, ◌%◌, ◌||◌, not, Bool, false, Option, none, some, List, [], ◌∷◌, Bytes, codes, Result, ok,
  err, is_empty, if◌then◌else◌,
}
use dcr_sdk.Common.Int.{pos}
use dcr_sdk.Common.Strings.{bytes_eq}
use dcr_sdk.Certs.{Certificate, TlsCertificate}
use dcr_sdk.Auth.{AuthConfig}
use dcr_sdk.Auth.Handshake.{ServerTls, server_tls}
use dcr_sdk.Cloud.{CloudConfig}
use dcr_sdk.Cloud.Lifecycle.{ServerConfig, TestServer, StartError, ServeError, listen_and_serve}

-- The flags.
pub record Flags : Type 0 where
  pub listen_addr : Bytes
  pub server_id : ℕ
  pub tls_cert_path : Bytes
  pub tls_key_path : Bytes
  pub client_ca_path : Bytes
  pub client_issuer : Bytes
  pub require_ocsp : Bool

pub record System : Type 0 where
  pub read_file : Bytes → Option Bytes
  pub load_x509_key_pair : Bytes → Bytes → Option TlsCertificate
  pub certs_of : Bytes → List Certificate
  pub decode_pem : Bytes → Option (Bytes × Bytes)
  pub parse_certificate : Bytes → Option Certificate

pub data IssuerError : Type 0 where
  issuer_unread issuer_undecoded issuer_unparsed : IssuerError

pub data TlsError : Type 0 where
  flags_required key_pair_failed client_ca_unread client_ca_unparsed : TlsError
  issuer_failed : IssuerError → TlsError

pub data CommandError : Type 0 where
  tls_failed : TlsError → CommandError
  start_failed : StartError → CommandError
  serve_ended : ServeError → CommandError

module _ (sys : System) where
  abbrev parsed : Option Certificate → Result IssuerError Certificate
  parsed none = err issuer_unparsed
  parsed (some c) = ok c

  unfoldable pub of_block : Option (Bytes × Bytes) → Result IssuerError Certificate
  of_block none = err issuer_undecoded
  of_block (some (block_type, bytes)) =
      if not (bytes_eq block_type (codes "CERTIFICATE"))
      then err issuer_undecoded
      else parsed (sys.parse_certificate bytes)

  -- `readCertificate`
  unfoldable pub read_certificate : Bytes → Result IssuerError Certificate
  unfolding of_block
  read_certificate path = elim (sys.read_file path) [
    | none ↦ err issuer_unread
    | some pem ↦ of_block (sys.decode_pem pem)
  ]

  abbrev some_issuer : Result IssuerError Certificate → Result IssuerError (Option Certificate)
  some_issuer (err e) = err e
  some_issuer (ok c) = ok (some c)

  -- The issuer, if its flag is given.
  unfoldable pub issuer_of : Flags → Result IssuerError (Option Certificate)
  unfolding read_certificate
  issuer_of f =
      if not (is_empty f.client_issuer)
      then some_issuer (read_certificate f.client_issuer)
      else ok none

  unfoldable pub with_issuer :
      Flags
      → TlsCertificate
      → List Certificate
      → Result IssuerError (Option Certificate)
      → Result TlsError ServerTls
  with_issuer f cert roots (err e) = err (issuer_failed e)
  with_issuer f cert roots (ok issuer) = ok (
      server_tls (cert ∷ []) 0 (record {
        roots = roots;
        intermediates = [];
        current_time = none;
        issuer = issuer;
        require_ocsp = f.require_ocsp;
      }))

  -- `AppendCertsFromPEM` reports whether it found any.
  unfoldable pub with_roots : Flags → TlsCertificate → List Certificate → Result TlsError ServerTls
  with_roots f cert [] = err client_ca_unparsed
  with_roots f cert (c ∷ certs) = with_issuer f cert (c ∷ certs) (issuer_of f)

  unfoldable pub with_client_ca : Flags → TlsCertificate → Option Bytes → Result TlsError ServerTls
  with_client_ca f cert none = err client_ca_unread
  with_client_ca f cert (some pem) = with_roots f cert (sys.certs_of pem)

  unfoldable pub with_key_pair : Flags → Option TlsCertificate → Result TlsError ServerTls
  with_key_pair f none = err key_pair_failed
  with_key_pair f (some cert) = with_client_ca f cert (sys.read_file f.client_ca_path)

  -- `loadTLSConfig`
  unfoldable pub load_tls_config : Flags → Result TlsError ServerTls
  unfolding with_key_pair
  load_tls_config f =
      if is_empty f.tls_cert_path || is_empty f.tls_key_path || is_empty f.client_ca_path
      then err flags_required
      else with_key_pair f (sys.load_x509_key_pair f.tls_cert_path f.tls_key_path)

  -- The configuration of the server, whose id has 16 bits.
  abbrev pub server_config : Flags → ServerTls → ServerConfig
  server_config f tls = record {
    settings = record {
      listen_addr = f.listen_addr;
      server_id = f.server_id % 2 ^ 16;
      target_status = 0;
      report_buffer = pos 0;
      touch_partners = [];
    };
    tls_config = some tls;
    drop_conn_after_request = false;
  }

  abbrev ended : Result StartError (Option ServeError) → Option CommandError
  ended (err e) = some (start_failed e)
  ended (ok none) = none
  ended (ok (some e)) = some (serve_ended e)

  module _ (listen : Bytes → Option Bytes) (serve : TestServer → Bytes → Option ServeError) where
    abbrev serving_with : Flags → Result TlsError ServerTls → Option CommandError
    serving_with f (err e) = some (tls_failed e)
    serving_with f (ok tls) = ended (listen_and_serve listen serve (server_config f tls))

    -- `main`: the error that it ends with.
    unfoldable pub main : Flags → Option CommandError
    main f = serving_with f (load_tls_config f)
