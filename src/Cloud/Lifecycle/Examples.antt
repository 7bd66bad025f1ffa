-- ===== src/Cloud/Lifecycle/Examples.antt =====
-- Tests of how the test cloud starts and stops by evaluation, and the theorems at concrete inputs.
use dcr_sdk.Common.{◌≡◌, refl, true, false, Option, none, some, [], Bytes, codes, err}
use dcr_sdk.Common.Int.{pos}
use dcr_sdk.Contract.Register
use dcr_sdk.Contract.Status.{invalid_request}
use dcr_sdk.Payer.OneChar.{one_char}
use dcr_sdk.Auth.Handshake.{ServerTls, server_tls}
use dcr_sdk.Cloud.{CloudCodec, new_server, normalize_config, handle}
use dcr_sdk.Cloud.Lifecycle.{
  ServerConfig, TestServer, not_stopped_in_time, listener_failed, listening, no_tls_config,
  listen_failed, start, addr, close, new_test_server, serve_failed, ended_with, handle_conn,
  last_caller, unauthorized, listen_and_serve,
}

abbrev tls : ServerTls
tls = server_tls [] 0 (record {
  roots = [];
  intermediates = [];
  current_time = none;
  issuer = none;
  require_ocsp = false;
})

abbrev cfg : ServerConfig
cfg = record {
  settings = record {
    listen_addr = [];
    server_id = 0;
    target_status = 0;
    report_buffer = pos 0;
    touch_partners = [];
  };
  tls_config = some tls;
  drop_conn_after_request = true;
}

-- The address that is listened on is free.
abbrev listen : Bytes → Option Bytes
listen a = some a

abbrev local : Bytes
local = codes "127.0.0.1:0"

computed : Unit {0}
unfolding start new_test_server new_server normalize_config close addr listen_and_serve handle_conn
    handle last_caller unauthorized
computed = tt

refusals :
    (start listen (record cfg { tls_config = none }) ≡ err no_tls_config)
    × (start (λ a. none) cfg ≡ err (listen_failed local))
    × (listen_and_serve listen (λ s a. some serve_failed) (record cfg { tls_config = none })
        ≡ err no_tls_config)
unfolding computed
refusals = (refl, refl, refl)

-- A server that was not started has no address, and nothing to close.
unstarted :
    (addr (some (new_test_server cfg)) ≡ [])
    × (addr none ≡ [])
    × (close (new_test_server cfg) none none ≡ (new_test_server cfg, none))
    × (last_caller (new_test_server cfg).server ≡ 0)
unfolding computed
unstarted = (refl, refl, refl, refl)

-- The connection is dropped also behind a request that is refused.
abbrev codec : CloudCodec
codec = record {
  unmarshal_target = λ body. none;
  unmarshal_report = λ body. none;
  unmarshal_touch = λ body. none;
  marshal_target = λ resp. none;
  marshal_touch = λ resp. none;
}

dropped_when_refused :
    (s : TestServer)
    → s.drop_conn_after_request ≡ true
    → let out = handle_conn one_char codec (λ i n. []) s (some 3) Register.report [] in
      (out.0.1 ≡ invalid_request) × (out.1 ≡ true)
unfolding computed
dropped_when_refused s drops = (refl, rw drops refl)

-- A started server, whose goroutine ends with an error, reports it; one that goes on serving does not
-- stop in time; an error of the listener comes before both.
closed :
    ((close (listening (new_test_server cfg) local) none (some (some serve_failed))).1
      ≡ some (ended_with serve_failed))
    × ((close (listening (new_test_server cfg) local) none none).1 ≡ some not_stopped_in_time)
    × ((close (listening (new_test_server cfg) local) (some (codes "e")) none).1
        ≡ some (listener_failed (codes "e")))
unfolding computed
closed = (refl, refl, refl)
