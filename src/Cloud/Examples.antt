-- ===== src/Cloud/Examples.antt =====
-- Tests of the cloud by evaluation, and the theorems at concrete inputs.
use dcr_sdk.Common.{ℕ, ◌≡◌, refl, none, some, [], ◌∷◌, Bytes, codes, arith}
use dcr_sdk.Common.Int.{pos}
use dcr_sdk.Contract.Register
use dcr_sdk.Contract.Status
use dcr_sdk.Messages.{ReportRequest, ReportRule}
use dcr_sdk.Payer.OneChar.{parse_one, one_char}
use dcr_sdk.Cloud.Tracking.{tracking_id, read_tracking_id, read-tracking_id}
use dcr_sdk.Cloud.{
  CloudCodec, Server, new_server, normalize_config, handle, handle_report, report_of,
  after_payer_check, after_rule_check, kept, check_rules, request_payer,
}
use dcr_sdk.Contract.Slice.{contents}
use dcr_sdk.Contract.Request.{Request}
use dcr_sdk.Contract.Response.{Response}
use dcr_sdk.Contract.Context.{RequestCtx}
use dcr_sdk.Auth.{NetConn, get_uuid}
use dcr_sdk.Client.Unary.{replied}
use dcr_sdk.Cloud.Exchange.{exchange, exchange-handled}

abbrev rule : Bytes → ReportRule
rule payer = record {
  traffic_type = 1;
  events_count = 2;
  segment_ids = [];
  frequency = [];
  li = 0;
  cmp_id = 0;
  payer = payer;
}

abbrev reported : ReportRequest
reported = record {
  payer = 9 ∷ [];
  tracking_id = some [];
  event = 1;
  rules = some (rule (5 ∷ [])) ∷ some (rule (9 ∷ [])) ∷ [];
}

abbrev codec : CloudCodec
codec = record {
  unmarshal_target = λ body. none;
  unmarshal_report = λ body. some reported;
  unmarshal_touch = λ body. none;
  marshal_target = λ resp. none;
  marshal_touch = λ resp. none;
}

abbrev text : ℕ → ℕ → Bytes
text server_id counter = server_id ∷ counter ∷ []

abbrev server : Server
server = new_server (record {
  listen_addr = [];
  server_id = 0;
  target_status = 0;
  report_buffer = pos 0;
  touch_partners = [];
})

-- The report of a partner with a certificate is taken, one without is not.
handled :
    ((handle one_char codec text server (some 3) Register.report []).1 ≡ Status.ok)
    × ((handle one_char codec text server none Register.report []).1 ≡ Status.unauthorized)
unfolding handle handle_report report_of after_payer_check after_rule_check kept check_rules
    request_payer parse_one new_server normalize_config
handled = (refl, refl)

abbrev partner_conn : NetConn
partner_conn = record {
  auth = some (record { requests = 0; auth_id = 3 });
  remote_addr = none;
  local_addr = none;
}

-- A context that an earlier request has left its bytes in, and a response object of another client.
abbrev used_ctx : RequestCtx NetConn
used_ctx = record {
  request = record { value = record { backing = 1 ∷ 2 ∷ []; len = 2 }; code = 2 };
  response = record { value = record { backing = 6 ∷ []; len = 1 }; status_code = 3 };
  conn = partner_conn;
}

abbrev used_resp : Response
used_resp = record { value = record { backing = 8 ∷ []; len = 1 }; status_code = 5 }

abbrev report_sent : Request
report_sent = record { value = record { backing = 4 ∷ []; len = 1 }; code = Register.report }

exchange-handled_example :
    exchange one_char codec text (λ e. []) 4096 used_ctx used_resp partner_conn server report_sent
    ≡ (record server { last_caller = some 3; reports = reported ∷ [] }, replied Status.ok [])
unfolding handle handle_report report_of after_payer_check after_rule_check kept check_rules
    request_payer parse_one new_server normalize_config get_uuid contents
exchange-handled_example =
    exchange-handled one_char codec text (λ e. []) 4096 used_ctx used_resp partner_conn server
      report_sent Register.report (4 ∷ []) (refl, refl) (omega arith) (omega arith) (omega arith)
      (omega arith) (omega arith)

tracking_text : tracking_id 1024 0x1AF ≡ codes "04000000000001AF"
unfolding tracking_id
tracking_text = refl

read-tracking_id_example : read_tracking_id (tracking_id 1024 0x1AF) ≡ (1024, 0x1AF)
read-tracking_id_example = read-tracking_id 1024 0x1AF (omega arith) (omega arith)
