-- ===== src/ClientExample.antt =====
-- cmd/client-example/main.go: a client whose certificate and key are in two files, over which a
-- renewed certificate is saved.
--
-- The flags and the file system are arguments. What the command prints is left out.
pub mod Restart
pub mod Renewing
pub mod Addresses
mod Examples
use dcr_sdk.Common.{
  ℕ, ◌||◌, Bool, true, false, Option, none, some, List, Bytes, Result, ok, err, is_empty,
  if◌then◌else◌,
}
use dcr_sdk.Common.Int.{ℤ, pos}
use dcr_sdk.Config.{Configuration, zero_configuration, second}
use dcr_sdk.Config.HostPort.{split_host_port}
use dcr_sdk.Contract.Request.{Request}
use dcr_sdk.Certs.{Pki, Certificate}
use dcr_sdk.Files.{File, FileSystem, Fault, Saved, Faults, read_file, save_to_files}
use dcr_sdk.Mtls.{MtlsConfig, MtlsClient, MtlsError, new_with_mtls}

-- The flags, but for the CA's address.
pub record Flags : Type 0 where
  pub cert_path : Bytes
  pub key_path : Bytes
  pub addr : Bytes
  pub renew_before : ℤ

pub data ExampleError : Type 0 where
  pair_required cert_unread key_unread addr_malformed : ExampleError
  client_failed : MtlsError → ExampleError

abbrev pub configuration : Flags → Configuration
configuration f = record zero_configuration { addrs = f.addr; max_request_duration = pos second }

abbrev pub mtls_config : Flags → Bytes → Bytes → Bytes → MtlsConfig
mtls_config f cert_pem key_pem name = record {
  cert_pem = cert_pem;
  key_pem = key_pem;
  server_root_cas = none;
  server_name = name;
  min_version = 0;
  client_cert_roots = none;
  client_cert_intermediates = none;
  current_time = none;
  on_renewed = true;
  renew_before = f.renew_before;
  renew_check_interval = pos 0;
}

-- The configuration that the client is made with, or why there is none.
unfoldable pub with_name :
    Flags → File → File → Option (Bytes × Bytes) → Result ExampleError MtlsConfig
with_name f cert key none = err addr_malformed
with_name f cert key (some (host, port)) = ok (mtls_config f cert.content key.content host)

unfoldable pub with_files : Flags → Option File → Option File → Result ExampleError MtlsConfig
with_files f none key = err cert_unread
with_files f (some cert) none = err key_unread
with_files f (some cert) (some key) = with_name f cert key (split_host_port f.addr)

unfoldable pub prepare : Flags → FileSystem → Result ExampleError MtlsConfig
prepare f fs =
    if is_empty f.cert_path || is_empty f.key_path
    then err pair_required
    else with_files f (read_file f.cert_path fs) (read_file f.key_path fs)

-- `SaveToFiles` of the flags' paths, with the temporary names and the faults of the saves.
abbrev pub saves : Flags → Bytes → Bytes → Faults → FileSystem → Bytes → Bytes → Saved
saves f cert_tmp key_tmp faults fs cert_pem key_pem =
    save_to_files f.cert_path f.key_path cert_tmp key_tmp cert_pem key_pem faults fs

abbrev pub succeeded : Option Fault → Bool
succeeded none = true
succeeded (some e) = false

module _ (pki : Pki) (carried : List Certificate × List Certificate) (pool : List Request) where
  abbrev pub of_client : Result MtlsError MtlsClient → Result ExampleError MtlsClient
  of_client (err e) = err (client_failed e)
  of_client (ok made) = ok made

  unfoldable pub with_config :
      Flags → Result ExampleError MtlsConfig → Result ExampleError MtlsClient
  with_config f (err e) = err e
  with_config f (ok m) = of_client (new_with_mtls pki carried pool (some (configuration f)) m)

  -- The client that `main` makes.
  unfoldable pub start : Flags → FileSystem → Result ExampleError MtlsClient
  unfolding with_config
  start f fs = with_config f (prepare f fs)
