-- ===== src/Cloud/Lifecycle.antt =====
-- How a test cloud starts and stops: `Start`, `ListenAndServe`, `Serve`, `Addr` and `Close` of
-- internal/testcloud/server.go, and what it does to a connection behind a response.
--
-- `net.Listen` answers the listener's address, `none` for an error. fastrpc's server is outside the
-- repository: how its `Serve` ends is an argument. So is what closing
-- the listener answers.
pub mod Starting
mod Examples
use dcr_sdk.Common.{
  ℕ, ◌*◌, ◌==◌, ◌&&◌, ◌||◌, Bool, true, false, Option, none, some, [], Bytes, Result, ok, err,
  if◌then◌else◌,
}
use dcr_sdk.Common.Int.{ℤ}
use dcr_sdk.Config.{second}
use dcr_sdk.Contract.Register
use dcr_sdk.Contract.Status
use dcr_sdk.Contract.Status.{tech_error}
use dcr_sdk.Payer.{UuidLibrary, nil_uuid}
use dcr_sdk.Auth.Handshake.{ServerTls}
use dcr_sdk.Cloud.{CloudConfig, Server, CloudCodec, Answered, normalize_config, new_server, handle}

-- `Config`
pub record ServerConfig : Type 0 where
  pub settings : CloudConfig
  pub tls_config : Option ServerTls
  pub drop_conn_after_request : Bool

-- What of a `fastrpc.Server` the code sets.
pub record RpcServer : Type 0 where
  pub read_timeout : ℕ
  pub write_timeout : ℕ
  pub pipeline_requests : Bool
  pub tls_config : Option ServerTls

pub data ServeError : Type 0 where
  serve_failed : ServeError

pub record NetListener : Type 0 where
  pub addr : Bytes
  pub is_open : Bool

-- The goroutine of `Start` and its channel: it serves, its error is in the channel, or that was taken.
pub data Serving : Type 0 where
  serving drained : Serving
  ended : Option ServeError → Serving

-- `Server`, with its listener and channel, if it was started.
pub record TestServer : Type 0 where
  pub server : Server
  pub rpc : RpcServer
  pub drop_conn_after_request : Bool
  pub ln : Option NetListener
  pub done : Option Serving

pub data StartError : Type 0 where
  no_tls_config : StartError
  listen_failed : Bytes → StartError

abbrev pub normalized : ServerConfig → ServerConfig
normalized cfg = record cfg { settings = normalize_config cfg.settings }

-- `NewServer`
unfoldable pub new_test_server : ServerConfig → TestServer
unfolding new_server
new_test_server cfg = record {
  server = new_server cfg.settings;
  rpc = record {
    read_timeout = 300 * second;
    write_timeout = 10 * second;
    pipeline_requests = true;
    tls_config = cfg.tls_config;
  };
  drop_conn_after_request = cfg.drop_conn_after_request;
  ln = none;
  done = none;
}

-- With a listener of `serverauth.NewListener`, and the goroutine.
abbrev pub listening : TestServer → Bytes → TestServer
listening s addr = record s {
  ln = some (record { addr = addr; is_open = true });
  done = some serving;
}

module _ (listen : Bytes → Option Bytes) where
  -- `Start`, for the normalised configuration and its TLS configuration.
  unfoldable pub start_with : ServerConfig → Option ServerTls → Result StartError TestServer
  start_with cfg none = err no_tls_config
  start_with cfg (some tls) = elim (listen cfg.settings.listen_addr) [
    | none ↦ err (listen_failed cfg.settings.listen_addr)
    | some addr ↦ ok (listening (new_test_server cfg) addr)
  ]

  unfoldable pub start : ServerConfig → Result StartError TestServer
  unfolding start_with
  start cfg = start_with (normalized cfg) cfg.tls_config

  module _ (serve : TestServer → Bytes → Option ServeError) where
    -- `ListenAndServe`, for how `Serve` ends on a listener with an address.
    unfoldable pub serve_with :
        ServerConfig → Option ServerTls → Result StartError (Option ServeError)
    serve_with cfg none = err no_tls_config
    serve_with cfg (some tls) = elim (listen cfg.settings.listen_addr) [
      | none ↦ err (listen_failed cfg.settings.listen_addr)
      | some addr ↦ ok (serve (new_test_server cfg) addr)
    ]

    unfoldable pub listen_and_serve : ServerConfig → Result StartError (Option ServeError)
    unfolding serve_with
    listen_and_serve cfg = serve_with (normalized cfg) cfg.tls_config

-- `Addr`, of a server that may be nil.
unfoldable pub addr : Option TestServer → Bytes
addr none = []
addr (some s) = elim s.ln [ none ↦ [] | some l ↦ l.addr ]

pub data CloseError : Type 0 where
  not_stopped_in_time : CloseError
  listener_failed : Bytes → CloseError
  ended_with : ServeError → CloseError

abbrev pub of_serve : Option ServeError → Option CloseError
of_serve none = none
of_serve (some e) = some (ended_with e)

-- The `select` of `Close`; `stops` is how `Serve` ends within a second, `none` if it does not.
unfoldable pub wait_done :
    TestServer → Option (Option ServeError) → Option Serving → TestServer × Option CloseError
wait_done s stops none = (s, none)
wait_done s none (some serving) = (s, some not_stopped_in_time)
wait_done s (some e) (some serving) = (record s { done = some drained }, of_serve e)
wait_done s stops (some (ended e)) = (record s { done = some drained }, of_serve e)
wait_done s stops (some drained) = (s, some not_stopped_in_time)

-- `closes` is the error that the listener's `Close` answers, if any.
unfoldable pub close_listener :
    TestServer
    → Option Bytes
    → Option (Option ServeError)
    → Option NetListener
    → TestServer × Option CloseError
unfolding wait_done
close_listener s closes stops none = (s, none)
close_listener s (some e) stops (some l) = (s, some (listener_failed e))
close_listener s none stops (some l) =
    wait_done (record s { ln = some (record l { is_open = false }) }) stops s.done

-- `Close` of a server that is not nil.
unfoldable pub close :
    TestServer → Option Bytes → Option (Option ServeError) → TestServer × Option CloseError
unfolding close_listener
close s closes stops = close_listener s closes stops s.ln

-- `LastCaller` and `Unauthorized`
unfoldable pub last_caller : Server → ℕ
last_caller s = elim s.last_caller [ none ↦ nil_uuid | some id ↦ id ]

unfoldable pub unauthorized : Server → ℕ
unauthorized s = s.unauthorized_count

-- `dropConn` is deferred by `handleTarget` and `handleReport`: whether the connection of a request is
-- closed a little later.
unfoldable pub drop_conn : Bool → Option ℕ → ℕ → Bool
drop_conn drops none name = false
drop_conn drops (some partner) name = drops && (name == Register.target || name == Register.report)

-- `handle`, with what is done to the connection.
unfoldable pub handle_conn :
    UuidLibrary → CloudCodec → (ℕ → ℕ → Bytes) → TestServer → Option ℕ → ℕ → Bytes → Answered × Bool
unfolding drop_conn
handle_conn uuid codec text s partner name body = (
  handle uuid codec text s.server partner name body,
  drop_conn s.drop_conn_after_request partner name,
)
