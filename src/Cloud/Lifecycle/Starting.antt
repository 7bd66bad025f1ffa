-- ===== src/Cloud/Lifecycle/Starting.antt =====
-- When a test cloud starts.
use dcr_sdk.Common.{◌≡◌, true, some, Bytes}
use dcr_sdk.Auth.Handshake.{ServerTls}
use dcr_sdk.Cloud.{new_server}
use dcr_sdk.Cloud.Lifecycle.{ServerConfig, TestServer, serving}

-- A server that listens, as it starts.
pub record IsStarted (cfg : ServerConfig) (tls : ServerTls) (a : Bytes) (s : TestServer)
    : Type 0 where
  pub fresh : s.server ≡ new_server cfg.settings
  pub serves_tls : s.rpc.tls_config ≡ some tls
  pub listens : s.ln ≡ some (record { addr = a; is_open = true })
  pub is_serving : s.done ≡ some serving
  pub drops : s.drop_conn_after_request ≡ cfg.drop_conn_after_request
