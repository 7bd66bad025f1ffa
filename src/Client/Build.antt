-- ===== src/Client/Build.antt =====
-- `newClient` and `buildShardMetrics` of pkg/client/shardedClient.go, and runs of a client.
--
-- The package's pool of requests is an argument. Counters that have one name, because two groups have
-- one address, are one counter in the code; here each group has its own. Durations times ten stay
-- within 64 bits.
use dcr_sdk.Common.{
  ℕ, zero, suc, ◌+◌, ◌*◌, Option, none, some, List, [], ◌∷◌, Bytes, map, replicate,
}
use dcr_sdk.Common.Int.{ℤ, pos, negsuc, rounds}
use dcr_sdk.Config.{Configuration, second, addrs_of, normalize_configuration}
use dcr_sdk.Contract.Register
use dcr_sdk.Contract.Request.{Request}
use dcr_sdk.Messages.{TargetRequest, ReportRequest, TouchRequest}
use dcr_sdk.Payer.{UuidLibrary}
use dcr_sdk.Client.Unary.{Metrics, no_metrics}
use dcr_sdk.Client.Sharded.{Client, Group, ShardedClient, ◌>>=◌}
use dcr_sdk.Client.Requests.{Protobuf, Transport, target, report, touch}

abbrev times : ℕ → ℤ → ℤ
times k (pos n) = pos (k * n)
times k (negsuc n) = elim (k * (n + 1)) [ zero ↦ pos 0 | suc m ↦ negsuc m ]

-- The loop over the request numbers from `i` on; the name of each labels its counters, and `none` is
-- the panic of `RPCRegister.String`.
unfoldable pub metrics_loop : ℕ → ℕ → Option (List (Option Metrics))
metrics_loop zero i = some []
metrics_loop (suc n) i = do
  name ← Register.register_name i
  rest ← metrics_loop n (i + 1)
  some (some no_metrics ∷ rest)

-- Entry 0 stays nil.
unfoldable pub build_shard_metrics : Option (List (Option Metrics))
unfolding metrics_loop
build_shard_metrics = do
  metrics ← metrics_loop Register.max_request_identifier 1
  some (none ∷ metrics)

-- What `newClient` gets. Had the loop panicked, there would be no client; here it would have no
-- counters, and each use of it would panic.
abbrev pub shard_metrics : Option (List (Option Metrics)) → List (Option Metrics)
shard_metrics none = []
shard_metrics (some metrics) = metrics

unfoldable pub new_connection : Configuration → Bytes → Client
new_connection cfg shard_addr = record {
  max_request_duration = cfg.max_request_duration;
  settings = record {
    addr = shard_addr;
    read_timeout = pos (60 * second);
    write_timeout = times 10 cfg.max_request_duration;
    max_pending_requests = cfg.max_pending_requests;
    write_buffer_size = cfg.write_buffer_size;
    read_buffer_size = cfg.read_buffer_size;
  };
  conn_dials = 0;
  conn = none;
  pending = 0;
}

unfoldable pub new_group : Configuration → Bytes → Group
unfolding build_shard_metrics new_connection
new_group cfg shard_addr = record {
  round_robin = 0;
  clients = replicate (rounds cfg.maximum_simultaneous_connections) (new_connection cfg shard_addr);
  metric_groups = shard_metrics build_shard_metrics;
}

unfoldable pub new_client : List Request → Option Configuration → ShardedClient
unfolding new_group
new_client pool cfg_pointer =
    let cfg = normalize_configuration cfg_pointer in
    record {
      config = cfg;
      round_robin = 0;
      groups = map (new_group cfg) (addrs_of cfg.addrs);
      pool = pool;
    }

-- A call of the client, with what the network answers and which request the pool hands out.
pub data Operation : Type 0 where
  target_op : TargetRequest → Transport → ℕ → Operation
  report_op : ReportRequest → Transport → ℕ → Operation
  touch_op : TouchRequest → Transport → ℕ → Operation

module _ (uuid : UuidLibrary) (proto : Protobuf) where
  unfoldable pub operate : ShardedClient → Operation → Option ShardedClient
  operate sc (target_op req transport choice) =
      target uuid proto transport choice sc req >>= λ out. some out.client
  operate sc (report_op req transport choice) =
      report uuid proto transport choice sc req >>= λ out. some out.client
  operate sc (touch_op req transport choice) =
      touch uuid proto transport choice sc req >>= λ out. some out.client

  unfoldable pub run : ShardedClient → List Operation → Option ShardedClient
  unfolding operate
  run sc [] = some sc
  run sc (op ∷ ops) = operate sc op >>= λ sc'. run sc' ops
