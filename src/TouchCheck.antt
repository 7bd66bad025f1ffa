-- ===== src/TouchCheck.antt =====
-- cmd/touch-check/main.go: one touch of the cloud, to check a client certificate and its grant.
--
-- The flags, the files and `AppendCertsFromPEM` are arguments. What the tool prints on its way is left
-- out; a run ends with the response's status and message, or an error, and `none` where it panics.
pub mod Identifiers
pub mod Outcome
mod Examples
use dcr_sdk.Common.{
  ℕ, ◌||◌, Bool, true, false, not, Option, none, some, List, [], ◌∷◌, ◌++◌, Bytes, Result, ok, err,
  is_empty, if◌then◌else◌,
}
use dcr_sdk.Common.Int.{ℤ, pos}
use dcr_sdk.Config.{Configuration, zero_configuration}
use dcr_sdk.Config.HostPort.{split_host_port}
use dcr_sdk.Contract.Request.{Request}
use dcr_sdk.Messages.{Uid, TouchRequest, TouchResponse}
use dcr_sdk.Payer.{UuidLibrary}
use dcr_sdk.Certs.{Pki, Certificate}
use dcr_sdk.Client.Sharded.{◌>>=◌}
use dcr_sdk.Client.Requests.{Protobuf, Transport, ClientError, Returned, touch}
use dcr_sdk.Mtls.{MtlsConfig, MtlsClient, MtlsError, new_with_mtls}

-- The flags.
pub record Flags : Type 0 where
  pub addr : Bytes
  pub cert_path : Bytes
  pub key_path : Bytes
  pub server_name : Bytes
  pub server_ca : Bytes
  pub client_ca : Bytes
  pub device_id : Bytes
  pub external_uid : Bytes
  pub external_uid_source : Bytes
  pub otp : Bytes
  pub partner_uid : Bytes
  pub timeout : ℤ

-- `base.UID_Type`
abbrev pub uid_otp : ℕ
uid_otp = 0

abbrev pub uid_partner_uid : ℕ
uid_partner_uid = 2

abbrev pub uid_device_id : ℕ
uid_device_id = 3

abbrev pub uid_external_uid : ℕ
uid_external_uid = 4

-- One identifier, if its flag is given.
unfoldable pub uid_of : Bytes → ℕ → Bytes → List Uid
uid_of [] id_type source = []
uid_of (c ∷ id) id_type source = record { id = c ∷ id; id_type = id_type; source = source } ∷ []

unfoldable pub request_uids : Flags → List Uid
request_uids f =
    uid_of f.device_id uid_device_id []
    ++ uid_of f.external_uid uid_external_uid f.external_uid_source
    ++ uid_of f.otp uid_otp []
    ++ uid_of f.partner_uid uid_partner_uid []

abbrev pub no_uids : List Uid → Bool
no_uids [] = true
no_uids (u ∷ uids) = false

pub data PoolError : Type 0 where
  pool_unread no_certificates : PoolError

pub data CheckError : Type 0 where
  pair_required identifier_required cert_unread key_unread addr_malformed : CheckError
  server_ca_failed client_ca_failed : PoolError → CheckError
  client_refused : MtlsError → CheckError
  touch_failed : ℕ → ClientError → CheckError

-- The files, `none` for an error, and the certificates that `AppendCertsFromPEM` finds in a text.
module _ (read_file : Bytes → Option Bytes) (certs_of : Bytes → List Certificate) where
  pool_of : List Certificate → Result PoolError (Option (List Certificate))
  pool_of [] = err no_certificates
  pool_of (c ∷ certs) = ok (some (c ∷ certs))

  unfoldable pub load_pool : Bytes → Result PoolError (Option (List Certificate))
  unfolding pool_of
  load_pool path =
      if is_empty path
      then ok none
      else (elim (read_file path) [ none ↦ err pool_unread | some pem ↦ pool_of (certs_of pem) ])

  unfoldable pub name_of : Flags → Option Bytes
  name_of f =
      if is_empty f.server_name
      then (elim (split_host_port f.addr) [ none ↦ none | some hp ↦ some hp.0 ])
      else some f.server_name

  -- The configuration of the client.
  abbrev pub configuration : Flags → Configuration
  configuration f = record zero_configuration {
    addrs = f.addr;
    maximum_simultaneous_connections = pos 1;
    max_request_duration = f.timeout;
    max_dial_duration = f.timeout;
  }

  abbrev pub mtls_config :
      Bytes → Bytes → Bytes → Option (List Certificate) → Option (List Certificate) → MtlsConfig
  mtls_config cert_pem key_pem name server_roots client_roots = record {
    cert_pem = cert_pem;
    key_pem = key_pem;
    server_root_cas = server_roots;
    server_name = name;
    min_version = 0;
    client_cert_roots = client_roots;
    client_cert_intermediates = none;
    current_time = none;
    on_renewed = false;
    renew_before = pos 0;
    renew_check_interval = pos 0;
  }

  -- The configuration that the client is made with, or why there is none.
  unfoldable pub prepare : Flags → Result CheckError MtlsConfig
  prepare f =
      if is_empty f.cert_path || is_empty f.key_path
      then err pair_required
      else if no_uids (request_uids f)
      then err identifier_required
      else (elim (read_file f.cert_path) [
        | none ↦ err cert_unread
        | some cert_pem ↦ elim (read_file f.key_path) [
          | none ↦ err key_unread
          | some key_pem ↦ elim (name_of f) [
            | none ↦ err addr_malformed
            | some name ↦ elim (load_pool f.server_ca) [
              | err e ↦ err (server_ca_failed e)
              | ok server_roots ↦ elim (load_pool f.client_ca) [
                | err e ↦ err (client_ca_failed e)
                | ok client_roots ↦ ok (mtls_config cert_pem key_pem name server_roots client_roots)
              ]
            ]
          ]
        ]
      ])

  module _ (pki : Pki) (carried : List Certificate × List Certificate) (pool : List Request)
      (uuid : UuidLibrary) (proto : Protobuf) (transport : Transport) (choice : ℕ) where
    unfoldable pub reported :
        Returned TouchRequest TouchResponse → Result CheckError (ℕ × TouchResponse)
    reported out = elim out.result [
      | err e ↦ err (touch_failed out.status e)
      | ok resp ↦ ok (out.status, resp)
    ]

    unfoldable pub asked :
        Flags → Result MtlsError MtlsClient → Option (Result CheckError (ℕ × TouchResponse))
    asked f (err e) = some (err (client_refused e))
    asked f (ok made) =
        touch uuid proto transport choice made.client
          (record { uids = request_uids f; context = []; inventory = [] })
        >>= λ out. some (reported out)

    unfoldable pub prepared :
        Flags → Result CheckError MtlsConfig → Option (Result CheckError (ℕ × TouchResponse))
    prepared f (err e) = some (err e)
    prepared f (ok m) = asked f (new_with_mtls pki carried pool (some (configuration f)) m)

    unfoldable pub run : Flags → Option (Result CheckError (ℕ × TouchResponse))
    run f = prepared f (prepare f)
