-- ===== src/Client/Requests.antt =====
-- `Target`, `Report` and `Touch` of pkg/client/shardedClient.go, with a request that is not nil.
--
-- google.golang.org/protobuf is outside the repository: `Marshal` and `Unmarshal` are arguments. What
-- `DoDeadline` answers may depend on the group, the connection and the request.
use dcr_sdk.Common.{ℕ, Bool, true, false, if◌then◌else◌, Option, none, some, Bytes, Result, ok, err}
use dcr_sdk.Messages.{TargetRequest, TargetResponse, ReportRequest, TouchRequest, TouchResponse}
use dcr_sdk.Payer.{
  UuidLibrary, PayerError, RuleError, nil_uuid, resolve_request_payer, apply_match_rule_payers,
  apply_report_rule_payers,
}
use dcr_sdk.Contract.Register
use dcr_sdk.Contract.Status
use dcr_sdk.Contract.Status.{invalid_request}
use dcr_sdk.Contract.Request.{Request}
use dcr_sdk.Client.Unary.{Answer, CallError}
use dcr_sdk.Client.Sharded.{ShardedClient, Reply, call, ◌>>=◌}

-- `proto.Marshal` and `proto.Unmarshal`, `none` for their errors.
pub record Protobuf : Type 0 where
  pub marshal_target : TargetRequest → Option Bytes
  pub marshal_report : ReportRequest → Option Bytes
  pub marshal_touch : TouchRequest → Option Bytes
  pub unmarshal_target : Bytes → Option TargetResponse
  pub unmarshal_touch : Bytes → Option TouchResponse

pub data ClientError : Type 0 where
  tracking_id_required : ClientError
  payer_failed : PayerError → ClientError
  stamping_failed : RuleError → ClientError
  not_answered : CallError → ClientError

abbrev pub Transport : Type 0
Transport = ℕ → ℕ → Request → Answer

-- What an operation leaves: the client, the caller's request, the status and the response or error.
pub record Returned (R A : Type 0) : Type 0 where
  pub client : ShardedClient
  pub request : R
  pub status : ℕ
  pub result : Result ClientError A

abbrev pub client_result : {A : Type 0} → Result CallError A → Result ClientError A
client_result (ok a) = ok a
client_result (err e) = err (not_answered e)

abbrev pub returned : {R A : Type 0} → R → ShardedClient × Reply A → Returned R A
returned req (sc, (status, result)) = record {
  client = sc;
  request = req;
  status = status;
  result = client_result result;
}

-- An operation that ends before a connection is asked.
abbrev pub rejected : {R A : Type 0} → ShardedClient → R → ℕ → ClientError → Option (Returned R A)
rejected sc req status e =
    some (record { client = sc; request = req; status = status; result = err e })

abbrev pub is_nil : Option Bytes → Bool
is_nil none = true
is_nil (some tracking_id) = false

-- A report wants no response, which `doUnary` does not decode.
abbrev pub no_response : Bytes → Option (Unit {0})
no_response body = some tt

module _ (uuid : UuidLibrary) (proto : Protobuf) (transport : Transport) (choice : ℕ) where
  unfoldable pub stamped_target : TargetRequest → TargetRequest × Option RuleError
  stamped_target req =
      let (rules, e) = apply_match_rule_payers uuid req.match_rules nil_uuid in
      (record req { match_rules = rules }, e)

  unfoldable pub send_target :
      ShardedClient
      → TargetRequest × Option RuleError
      → Option (Returned TargetRequest TargetResponse)
  send_target sc (stamped, some e) = rejected sc stamped invalid_request (stamping_failed e)
  send_target sc (stamped, none) =
      call sc Register.target (proto.marshal_target stamped) proto.unmarshal_target transport choice
      >>= λ reply. some (returned stamped reply)

  unfoldable pub target :
      ShardedClient → TargetRequest → Option (Returned TargetRequest TargetResponse)
  unfolding stamped_target send_target
  target sc req = send_target sc (stamped_target req)

  -- The request of a report whose payer is resolved: `req.Payer` is written before the rules.
  unfoldable pub stamped_report : ReportRequest → ℕ → ReportRequest × Option RuleError
  stamped_report req payer =
      let (rules, e) = apply_report_rule_payers uuid req.rules payer in
      (record req { payer = uuid.to_string payer; rules = rules }, e)

  unfoldable pub send_report :
      ShardedClient → ReportRequest × Option RuleError → Option (Returned ReportRequest (Unit {0}))
  send_report sc (stamped, some e) = rejected sc stamped invalid_request (stamping_failed e)
  send_report sc (stamped, none) =
      call sc Register.report (proto.marshal_report stamped) no_response transport choice
      >>= λ reply. some (returned stamped reply)

  unfoldable pub pay_report :
      ShardedClient
      → ReportRequest
      → Result PayerError ℕ
      → Option (Returned ReportRequest (Unit {0}))
  unfolding stamped_report send_report
  pay_report sc req (err e) = rejected sc req invalid_request (payer_failed e)
  pay_report sc req (ok payer) = send_report sc (stamped_report req payer)

  unfoldable pub report : ShardedClient → ReportRequest → Option (Returned ReportRequest (Unit {0}))
  unfolding pay_report
  report sc req =
      if is_nil req.tracking_id
      then rejected sc req Status.unknown tracking_id_required
      else pay_report sc req (resolve_request_payer uuid req.payer)

  unfoldable pub touch : ShardedClient → TouchRequest → Option (Returned TouchRequest TouchResponse)
  touch sc req =
      call sc Register.touch (proto.marshal_touch req) proto.unmarshal_touch transport choice
      >>= λ reply. some (returned req reply)
