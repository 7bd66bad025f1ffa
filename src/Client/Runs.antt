-- ===== src/Client/Runs.antt =====
-- A client from its construction on, through any calls.
use dcr_sdk.Common.{
  ℕ, zero, suc, ◌≤◌, ◌≡◌, ◌≢◌, refl, true, Option, none, some, Bool-cases, Result, ok, err, List,
  [], ◌∷◌, Bytes, All, map, replicate, inl, inr, arith,
}
use dcr_sdk.Common.Int.{ℤ, rounds, is_positive}
use dcr_sdk.Config.{Configuration, or_nil, normalize_configuration}
use dcr_sdk.Config.Addrs.{or_cloud_addr, addrs_of-normalize_configuration, or_default-positive}
use dcr_sdk.Contract.Register.{register_name}
use dcr_sdk.Contract.Register
use dcr_sdk.Contract.Request.{Request}
use dcr_sdk.Contract.Pools.{IsFresh}
use dcr_sdk.Messages.{TargetRequest, ReportRequest, TouchRequest}
use dcr_sdk.Payer.{UuidLibrary, PayerError, RuleError, resolve_request_payer}
use dcr_sdk.Client.Sharded.{ShardedClient}
use dcr_sdk.Client.Requests.{
  Protobuf, Transport, Returned, target, report, touch, no_response, is_nil, stamped_target,
  send_target, stamped_report, send_report, pay_report,
}
use dcr_sdk.Client.Unary.{Metrics}
use dcr_sdk.Client.Build.{
  build_shard_metrics, new_group, new_client, Operation, target_op, report_op, touch_op, operate,
  run,
}
use dcr_sdk.Client.Usable.{IsReady, IsUsable, call_runs}

rounds-positive : (n : ℤ) → is_positive n ≡ true → 1 ≤ rounds n
rounds-positive n h = ground arith

replicate-full : {A : Type 0} (n : ℕ) (a : A) → 1 ≤ n → replicate n a ≢ []
replicate-full zero a h = elim h [ ]
replicate-full (suc n) a h = cc

map-full : {A B : Type 0} (f : A → B) (xs : List A) → xs ≢ [] → map f xs ≢ []
map-full f [] full = absurd (full refl)
map-full f (x ∷ xs) full = cc

or_cloud_addr-full : (addrs : List Bytes) → or_cloud_addr addrs ≢ []
or_cloud_addr-full [] = cc
or_cloud_addr-full (a ∷ addrs) = cc

normalised_connections :
    (cfg : Option Configuration)
    → 1 ≤ rounds (normalize_configuration cfg).maximum_simultaneous_connections
unfolding normalize_configuration
normalised_connections cfg =
    rounds-positive _ (or_default-positive (or_nil cfg).maximum_simultaneous_connections _ refl)

-- Every request number has a name, so that the loop does not panic.
pub build_shard_metrics-some :
    (metrics : List (Option Metrics)) × (build_shard_metrics ≡ some metrics)
unfolding build_shard_metrics register_name
build_shard_metrics-some = (_, refl)

new_group-IsReady :
    (cfg : Configuration) (addr : Bytes)
    → 1 ≤ rounds cfg.maximum_simultaneous_connections
    → IsReady (new_group cfg addr)
unfolding new_group build_shard_metrics register_name
new_group-IsReady cfg addr h = record {
  connected = replicate-full _ _ h;
  counted = (_, _, _, refl);
}

new_groups-IsReady :
    (cfg : Configuration) (addrs : List Bytes)
    → 1 ≤ rounds cfg.maximum_simultaneous_connections
    → All IsReady (map (new_group cfg) addrs)
new_groups-IsReady cfg [] h = tt
new_groups-IsReady cfg (addr ∷ addrs) h =
    (new_group-IsReady cfg addr h, new_groups-IsReady cfg addrs h)

pub new_client-IsUsable :
    (pool : List Request) (cfg : Option Configuration)
    → All IsFresh pool
    → IsUsable (new_client pool cfg)
unfolding new_client
new_client-IsUsable pool cfg fresh = record {
  grouped = map-full _ _ (rw (addrs_of-normalize_configuration cfg) (or_cloud_addr-full _));
  ready = new_groups-IsReady (normalize_configuration cfg) _ (normalised_connections cfg);
  fresh = fresh;
}

module _ (uuid : UuidLibrary) (proto : Protobuf) where
  -- The operation returns, and the client is as good as before.
  abbrev pub Returns : {R A : Type 0} → Option (Returned R A) → Type 0
  Returns {R} {A} out = (o : Returned R A) × (out ≡ some o) × IsUsable o.client

  send_target-Returns :
      (transport : Transport) (choice : ℕ) (sc : ShardedClient)
      (stamped : TargetRequest × Option RuleError)
      → IsUsable sc
      → Returns (send_target uuid proto transport choice sc stamped)
  unfolding send_target
  send_target-Returns transport choice sc (req, some e) usable = (_, refl, usable)
  send_target-Returns transport choice sc (req, none) usable =
      let (i, j, m, sc', (called, usable')) =
        call_runs Register.target proto.unmarshal_target choice (proto.marshal_target req) transport
          sc usable (omega arith) (omega arith) in
      rw called (_, refl, usable')

  target-Returns :
      (transport : Transport) (choice : ℕ) (sc : ShardedClient) (req : TargetRequest)
      → IsUsable sc
      → Returns (target uuid proto transport choice sc req)
  unfolding target
  target-Returns transport choice sc req usable =
      send_target-Returns transport choice sc (stamped_target uuid proto transport choice req)
        usable

  send_report-Returns :
      (transport : Transport) (choice : ℕ) (sc : ShardedClient)
      (stamped : ReportRequest × Option RuleError)
      → IsUsable sc
      → Returns (send_report uuid proto transport choice sc stamped)
  unfolding send_report
  send_report-Returns transport choice sc (req, some e) usable = (_, refl, usable)
  send_report-Returns transport choice sc (req, none) usable =
      let (i, j, m, sc', (called, usable')) =
        call_runs Register.report no_response choice (proto.marshal_report req) transport sc usable
          (omega arith) (omega arith) in
      rw called (_, refl, usable')

  pay_report-Returns :
      (transport : Transport) (choice : ℕ) (sc : ShardedClient) (req : ReportRequest)
      (payer : Result PayerError ℕ)
      → IsUsable sc
      → Returns (pay_report uuid proto transport choice sc req payer)
  unfolding pay_report
  pay_report-Returns transport choice sc req (err e) usable = (_, refl, usable)
  pay_report-Returns transport choice sc req (ok payer) usable =
      send_report-Returns transport choice sc (stamped_report uuid proto transport choice req payer)
        usable

  report-Returns :
      (transport : Transport) (choice : ℕ) (sc : ShardedClient) (req : ReportRequest)
      → IsUsable sc
      → Returns (report uuid proto transport choice sc req)
  unfolding report
  report-Returns transport choice sc req usable = elim (Bool-cases (is_nil req.tracking_id)) [
    | inl e ↦ rw e (_, refl, usable)
    | inr e ↦
        rw e
          (pay_report-Returns transport choice sc req (resolve_request_payer uuid req.payer) usable)
  ]

  pub touch-Returns :
      (transport : Transport) (choice : ℕ) (sc : ShardedClient) (req : TouchRequest)
      → IsUsable sc
      → Returns (touch uuid proto transport choice sc req)
  unfolding touch
  touch-Returns transport choice sc req usable =
      let (i, j, m, sc', (called, usable')) =
        call_runs Register.touch proto.unmarshal_touch choice (proto.marshal_touch req) transport sc
          usable (omega arith) (omega arith) in
      rw called (_, refl, usable')

  operate-IsUsable :
      (sc : ShardedClient) (op : Operation)
      → IsUsable sc
      → (sc' : ShardedClient) × (operate uuid proto sc op ≡ some sc') × IsUsable sc'
  unfolding operate
  operate-IsUsable sc (target_op req transport choice) usable =
      let (o, e, usable') = target-Returns transport choice sc req usable in
      (o.client, rw e refl, usable')
  operate-IsUsable sc (report_op req transport choice) usable =
      let (o, e, usable') = report-Returns transport choice sc req usable in
      (o.client, rw e refl, usable')
  operate-IsUsable sc (touch_op req transport choice) usable =
      let (o, e, usable') = touch-Returns transport choice sc req usable in
      (o.client, rw e refl, usable')

  run-IsUsable :
      (sc : ShardedClient) (ops : List Operation)
      → IsUsable sc
      → (sc' : ShardedClient) × (run uuid proto sc ops ≡ some sc') × IsUsable sc'
  unfolding run
  run-IsUsable sc [] usable = (sc, refl, usable)
  run-IsUsable sc (op ∷ ops) usable =
      let (sc1, first, usable1) = operate-IsUsable sc op usable in
      let (sc2, others, usable2) = run-IsUsable sc1 ops usable1 in
      (sc2, rw (first, others) refl, usable2)

  -- A client made from any configuration, also from none, runs any sequence of calls to its end,
  -- whatever the network answers and whatever requests the pool hands out: no call panics for want
  -- of a group, a connection or counters, and the pool holds cleared requests throughout.
  pub run-new_client :
      (cfg : Option Configuration) (pool : List Request) (ops : List Operation)
      → All IsFresh pool
      → (sc : ShardedClient) × (run uuid proto (new_client pool cfg) ops ≡ some sc) × IsUsable sc
  run-new_client cfg pool ops fresh =
      run-IsUsable (new_client pool cfg) ops (new_client-IsUsable pool cfg fresh)
