-- ===== src/EndToEnd/Examples.antt =====
-- The client and the cloud together, at a concrete input.
use dcr_sdk.Common.{false, ◌≡◌, refl, none, some, [], ◌∷◌, Bytes, codes, ok, err, arith}
use dcr_sdk.Common.Int.{pos}
use dcr_sdk.Config.{zero_configuration}
use dcr_sdk.Contract.Register
use dcr_sdk.Contract.Request.{Request}
use dcr_sdk.Messages.{
  ReportRequest, ReportRule, TargetRequest, TargetResponse, TouchRequest, TouchResponse,
}
use dcr_sdk.Payer.{
  apply_match_rule_payers, apply_report_rule_payers, stamp_rules, resolve_rule_payer,
}
use dcr_sdk.Payer.OneChar.{parse_one, one_char}
use dcr_sdk.Auth.{NetConn, get_uuid}
use dcr_sdk.Cloud.{
  CloudCodec, new_server, normalize_config, handle, handle_touch, touch_not_granted,
}
use dcr_sdk.Cloud.Grants.{touch_answer}
use dcr_sdk.Client.Sharded.{ShardedClient, call, ◌>>=◌}
use dcr_sdk.Client.Requests.{
  Transport, Protobuf, Returned, returned, not_answered, stamped_report, report, stamped_target,
  target,
}
use dcr_sdk.Client.Build.{new_client}
use dcr_sdk.Client.Delivery.{Carries}
use dcr_sdk.Client.Runs.{new_client-IsUsable}
use dcr_sdk.EndToEnd.{CloudSide}
use dcr_sdk.Cloud.Exchange.{exchange}
use dcr_sdk.EndToEnd.Calls.{cloud_after}
use dcr_sdk.Contract.Status.{forbidden}
use dcr_sdk.Client.Unary.{refused}
use dcr_sdk.EndToEnd.Refusals.{call-refused}
use dcr_sdk.EndToEnd.Targets.{server_after_target, target-answered}
use dcr_sdk.EndToEnd.Reports.{Takes, report-accepted}

abbrev rule : Bytes → ReportRule
rule payer = record {
  traffic_type = 1;
  events_count = 2;
  segment_ids = [];
  frequency = [];
  li = 0;
  cmp_id = 0;
  payer = payer;
}

-- A report of one rule, which is billed to the payer of the request.
abbrev reporting : ReportRequest
reporting = record {
  payer = 9 ∷ [];
  tracking_id = some (4 ∷ []);
  event = 1;
  rules = some (rule []) ∷ [];
}

-- A target with one rule and one frequency key, which is sent as it is: the rule names its payer.
abbrev asking : TargetRequest
asking = record {
  uids = [];
  frequency = (3 ∷ []) ∷ [];
  match_rules = some (record { traffic_type = 1; segment_ids = []; payer = 9 ∷ [] }) ∷ [];
  individual_errors = false;
  context = [];
  inventory = [];
}

abbrev target_reply : TargetResponse
target_reply = record {
  tracking_id = 1024 ∷ 1 ∷ [];
  status_code = 1;
  frequency = 2 ∷ [];
  match_results = 0 ∷ [];
}

abbrev pub touching : TouchRequest
touching = record { uids = []; context = []; inventory = [] }

-- Both ends write each kind of message as a few bytes.
abbrev pub proto : Protobuf
proto = record {
  marshal_target = λ req. some (1 ∷ []);
  marshal_report = λ req. some (2 ∷ req.payer);
  marshal_touch = λ req. some (3 ∷ []);
  unmarshal_target = λ body. some target_reply;
  unmarshal_touch = λ body. some touch_answer;
}

abbrev stamped : ReportRequest
stamped = record reporting { rules = some (rule (9 ∷ [])) ∷ [] }

abbrev cloud_codec : CloudCodec
cloud_codec = record {
  unmarshal_target = λ body. some asking;
  unmarshal_report = λ body. some stamped;
  unmarshal_touch = λ body. some touching;
  marshal_target = λ resp. some (7 ∷ 8 ∷ []);
  marshal_touch = λ resp. some (6 ∷ []);
}

abbrev partner_conn : NetConn
partner_conn = record {
  auth = some (record { requests = 0; auth_id = 3 });
  remote_addr = none;
  local_addr = none;
}

abbrev pub side : CloudSide
side = record {
  codec = cloud_codec;
  text = λ server_id counter. server_id ∷ counter ∷ [];
  error_message = λ e. [];
  room = 4096;
  ctx = record {
    request = record { value = record { backing = 1 ∷ 2 ∷ []; len = 0 }; code = 2 };
    response = record { value = record { backing = []; len = 0 }; status_code = 0 };
    conn = partner_conn;
  };
  resp = record { value = record { backing = 8 ∷ []; len = 1 }; status_code = 5 };
  conn = partner_conn;
  server = new_server (record {
    listen_addr = [];
    server_id = 0;
    target_status = 0;
    report_buffer = pos 0;
    touch_partners = 3 ∷ [];
  });
}

-- A network that does what is relied on.
abbrev pub transport : Transport
transport i j req =
    (exchange one_char side.codec side.text side.error_message side.room side.ctx side.resp
      side.conn side.server req).1

abbrev fresh_client : ShardedClient
fresh_client = new_client [] (some (record zero_configuration { addrs = codes "a:1,b:1" }))

report-accepted_example :
    (out : Returned ReportRequest (Unit {0})) × (sent : Request) × (report one_char proto transport
        0 fresh_client reporting
      ≡ some out)
    × (out.result ≡ ok tt)
    × Carries sent Register.report (2 ∷ 9 ∷ [])
    × Takes one_char proto side transport 3 stamped (cloud_after one_char side sent)
unfolding stamped_report apply_report_rule_payers stamp_rules resolve_rule_payer parse_one get_uuid
report-accepted_example =
    report-accepted one_char proto side transport fresh_client 0 3 9 reporting (2 ∷ 9 ∷ [])
      (λ i j req. refl)
      (new_client-IsUsable [] (some (record zero_configuration { addrs = codes "a:1,b:1" })) tt)
      refl (refl, omega arith) refl refl refl refl (omega arith, omega arith) refl

target-answered_example :
    (out : Returned TargetRequest TargetResponse) × (sent : Request) × (target one_char proto
        transport 0 fresh_client asking
      ≡ some out)
    × (out.result ≡ ok target_reply)
    × Carries sent Register.target (1 ∷ [])
    × (cloud_after one_char side sent ≡ server_after_target one_char proto side transport 3)
unfolding stamped_target apply_match_rule_payers stamp_rules resolve_rule_payer parse_one get_uuid
    new_server normalize_config
target-answered_example =
    target-answered one_char proto side transport fresh_client 0 3 asking (1 ∷ []) (7 ∷ 8 ∷ [])
      (λ i j req. refl)
      (new_client-IsUsable [] (some (record zero_configuration { addrs = codes "a:1,b:1" })) tt)
      refl refl refl refl refl refl (omega arith, omega arith) (omega arith, omega arith) refl refl

-- A cloud that grants no touches, behind a network that does what is relied on.
abbrev strict : CloudSide
strict = record side {
  server = new_server (record {
    listen_addr = [];
    server_id = 0;
    target_status = 0;
    report_buffer = pos 0;
    touch_partners = [];
  });
}

abbrev strict_transport : Transport
strict_transport i j req =
    (exchange one_char strict.codec strict.text strict.error_message strict.room strict.ctx
      strict.resp strict.conn strict.server req).1

call-refused_example :
    (out : Returned TouchRequest TouchResponse) × (sent : Request) × ((call fresh_client
          Register.touch
          (some (3 ∷ []))
          proto.unmarshal_touch
          strict_transport
          0
        >>= λ reply. some (returned touching reply))
      ≡ some out)
    × (out.status ≡ forbidden)
    × (out.result ≡ err (not_answered (refused forbidden [])))
    × Carries sent Register.touch (3 ∷ [])
    × (cloud_after one_char strict sent ≡ record strict.server { last_caller = some 3 })
unfolding get_uuid new_server normalize_config handle handle_touch
call-refused_example =
    call-refused one_char strict touching proto.unmarshal_touch Register.touch forbidden (3 ∷ [])
      (touch_not_granted 3) (record strict.server { last_caller = some 3 }) fresh_client 0
      strict_transport refl refl (omega arith) (omega arith, omega arith) (omega arith, omega arith)
      (λ i j req. refl)
      (new_client-IsUsable [] (some (record zero_configuration { addrs = codes "a:1,b:1" })) tt)
      (omega arith) (omega arith) refl
