-- ===== src/Client/Examples.antt =====
-- Tests of the client by evaluation, and the theorems at concrete inputs.
use dcr_sdk.Common.{
  ap, ◌≢◌, inr, ◌==◌, if◌then◌else◌, ℕ, ◌≡◌, refl, Option, none, some, List, [], ◌∷◌, Bytes, codes,
  ok, false, length, arith,
}
use dcr_sdk.Common.Int.{pos}
use dcr_sdk.Text.{trim_space, split, join}
use dcr_sdk.Config.{
  normalize_configuration, normalize_addrs, addrs_of, keep_addrs, Configuration, zero_configuration,
}
use dcr_sdk.Contract.Register.{register_name}
use dcr_sdk.Contract.Register
use dcr_sdk.Contract.Status
use dcr_sdk.Contract.Slice.{contents, append}
use dcr_sdk.Contract.Request.{acquire, release, reset, append_value, set_name}
use dcr_sdk.Messages.{TargetRequest, TargetResponse, ReportRequest, MatchRule, TouchResponse}
use dcr_sdk.Payer.{
  nil_uuid, match_billable, resolve_request_payer, resolve_rule_payer, stamp_rules,
  apply_match_rule_payers, apply_report_rule_payers,
}
use dcr_sdk.Payer.Stamping.{Stamped}
use dcr_sdk.Payer.OneChar.{parse_one, one_char}
use dcr_sdk.Client.Unary.{
  no_metrics, replied, failed, err_timeout, do_unary, settle, decoded, count_error, wire_request,
}
use dcr_sdk.Client.Sharded.{ShardedClient, call, get_group, get_client, pick}
use dcr_sdk.Client.Requests.{
  Protobuf, Transport, Returned, is_nil, stamped_target, send_target, stamped_report, send_report,
  pay_report, target, report,
}
use dcr_sdk.Client.Build.{
  new_client, new_group, new_connection, build_shard_metrics, target_op, report_op, run,
}
use dcr_sdk.Client.Accounting.{Counted, do_unary-Counted}
use dcr_sdk.Client.Usable.{IsUsable}
use dcr_sdk.Client.Runs.{new_client-IsUsable, run-new_client}
use dcr_sdk.Client.Billing.{Exchanged, Reported, target-ok, report-ok}
use dcr_sdk.Client.Sharded.{Client}
use dcr_sdk.Client.Reconnect.{Course, reconnect_all, dialled_all, on_conn_dialed}
use dcr_sdk.Client.Closing.{reconnect_all-ends}

abbrev user : Bytes → TouchResponse
user body = record { user_id = body; accuracy = 1; label = [] }

abbrev tracked : Bytes → TargetResponse
tracked body = record { tracking_id = body; status_code = 1; frequency = []; match_results = [] }

-- A codec that keeps the payers of a request, and the body of an answer.
abbrev payers : List (Option MatchRule) → Bytes
payers [] = []
payers (none ∷ rules) = payers rules
payers (some rule ∷ rules) = elim rule.payer [ [] ↦ payers rules | u ∷ s ↦ u ∷ payers rules ]

abbrev codec : Protobuf
codec = record {
  marshal_target = λ req. some (1 ∷ payers req.match_rules);
  marshal_report = λ req. some (2 ∷ req.payer);
  marshal_touch = λ req. some (3 ∷ []);
  unmarshal_target = λ body. some (tracked body);
  unmarshal_touch = λ body. some (user body);
}

-- A cloud that answers OK with what it got.
abbrev echo : Transport
echo i j req = replied Status.ok (contents req.value)

abbrev rule : MatchRule
rule = record { traffic_type = 1; segment_ids = 7 ∷ []; payer = 5 ∷ [] }

abbrev asking : TargetRequest
asking = record {
  uids = [];
  frequency = [];
  match_rules = some rule ∷ [];
  individual_errors = false;
  context = [];
  inventory = [];
}

abbrev reporting : ReportRequest
reporting = record { payer = 9 ∷ []; tracking_id = some (4 ∷ []); event = 1; rules = [] }

abbrev shards : Option Configuration
shards = some (record zero_configuration {
  addrs = codes "a:1,b:1";
  maximum_simultaneous_connections = pos 2;
})

abbrev fresh_client : ShardedClient
fresh_client = new_client [] shards

fresh_client-IsUsable : IsUsable fresh_client
fresh_client-IsUsable = new_client-IsUsable [] shards tt

do_unary-Counted_example :
    let out =
      do_unary 1 (some (6 ∷ [])) (λ body. some body) (λ req. failed err_timeout) 0 [] no_metrics in
    Counted no_metrics out.metrics out.result 1
do_unary-Counted_example =
    do_unary-Counted 1 (some (6 ∷ [])) (λ body. some body) (λ req. failed err_timeout) 0 []
      no_metrics

run-new_client_example :
    (sc : ShardedClient) × (run one_char codec
        (new_client [] shards)
        (target_op asking echo 0 ∷ report_op reporting echo 0 ∷ [])
      ≡ some sc)
    × IsUsable sc
run-new_client_example =
    run-new_client one_char codec shards []
      (target_op asking echo 0 ∷ report_op reporting echo 0 ∷ []) tt

computed : Unit {0}
unfolding call get_group get_client pick do_unary settle decoded count_error wire_request
    append_value set_name acquire release reset append contents target report stamped_target
    send_target stamped_report send_report pay_report apply_match_rule_payers
    apply_report_rule_payers stamp_rules resolve_rule_payer resolve_request_payer parse_one
computed = tt

built : Unit {0}
unfolding new_client new_group new_connection build_shard_metrics register_name
    normalize_configuration normalize_addrs addrs_of keep_addrs trim_space split join
built = tt

two_groups : length fresh_client.groups ≡ 2
unfolding built
two_groups = refl

-- The second connection of the second group is asked, since a counter is raised before it is read.
targeted :
    (out : Returned TargetRequest TargetResponse) × (target one_char codec echo 0 fresh_client
        asking
      ≡ some out)
    × (out.result ≡ ok (tracked (1 ∷ 5 ∷ [])))
unfolding built computed
targeted = (_, refl, refl)

reported :
    (out : Returned ReportRequest (Unit {0})) × (report one_char codec echo 0 fresh_client reporting
      ≡ some out)
    × (out.result ≡ ok tt)
unfolding built computed
reported = (_, refl, refl)

target-ok_example :
    Stamped one_char match_billable nil_uuid asking.match_rules targeted.0.request.match_rules
    × (record asking { match_rules = targeted.0.request.match_rules } ≡ targeted.0.request)
    × Exchanged echo Register.target
        (codec.marshal_target targeted.0.request)
        codec.unmarshal_target
        (tracked (1 ∷ 5 ∷ []))
target-ok_example =
    target-ok one_char codec echo 0 fresh_client asking targeted.0 (tracked (1 ∷ 5 ∷ []))
      fresh_client-IsUsable targeted.1 targeted.2

report-ok_example :
    (is_nil reporting.tracking_id ≡ false)
    × ((payer : ℕ) × Reported one_char codec echo 0 fresh_client reporting reported.0 payer)
report-ok_example =
    report-ok one_char codec echo 0 fresh_client reporting reported.0 fresh_client-IsUsable
      reported.1 reported.2

-- A client with an open connection on which a request stays in flight, and one that is not connected.
abbrev connected : Client
connected = record {
  max_request_duration = pos 5_000_000;
  settings = record {
    addr = [];
    read_timeout = pos 0;
    write_timeout = pos 0;
    max_pending_requests = pos 8;
    write_buffer_size = pos 0;
    read_buffer_size = pos 0;
  };
  conn_dials = 3;
  conn = some 7;
  pending = 1;
}

abbrev two_clients : List Client → ShardedClient
two_clients clients = record {
  config = record zero_configuration { max_request_duration = pos 5_000_000 };
  round_robin = 0;
  groups = record { round_robin = 0; clients = clients; metric_groups = [] } ∷ [];
  pool = [];
}

-- The deadline passes; meanwhile the first client's connection 8 is dialled.
abbrev course : ℕ → ℕ → Course
course i j = record {
  started = 100;
  polls = record { pending = 1; now = 100 } ∷ record { pending = 1; now = 5_000_200 } ∷ [];
  meanwhile = if j == 0 then 8 ∷ [] else [];
}

new : connected.conn ≢ some 8
new e = let differs : Path ℕ 7 8 = ap (λ o. elim o [ none ↦ 0 | some conn ↦ conn ]) e in omega arith

reconnect_all-ends_example :
    reconnect_all false course (two_clients (connected ∷ record connected { conn = none } ∷ []))
    ≡ some (
      two_clients (
          record connected { conn_dials = 4; conn = some 8 }
          ∷ record connected { conn = none }
          ∷ []),
      7 ∷ [],
    )
unfolding dialled_all on_conn_dialed
reconnect_all-ends_example =
    reconnect_all-ends false course
      (two_clients (connected ∷ record connected { conn = none } ∷ []))
      (
        (
          (inr ((omega arith, (omega arith, tt)), omega arith), (new, tt)),
          ((inr ((omega arith, (omega arith, tt)), omega arith), tt), tt),
        ),
        tt,
      )
