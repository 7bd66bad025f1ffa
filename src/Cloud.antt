-- ===== src/Cloud.antt =====
-- internal/testcloud/server.go: the cloud that the repository's tests run against, from the decoded
-- frame of a request to the status and the value of its response.
--
-- Protobuf is an argument. A pooled context is reset before each request, so a response starts empty.
-- The text of an error is kept as its reason. What `DropConnAfterRequest` does to a connection comes
-- after the response and is left out.
pub mod Payers
pub mod Grants
pub mod Serve
pub mod Lifecycle
pub mod Tracking
pub mod Exchange
mod Examples
use dcr_sdk.Common.{
  ℕ, ◌+◌, ◌%◌, ◌^◌, ◌==◌, ◌||◌, ltb, Bool, true, false, not, Option, none, some, List, [], ◌∷◌,
  ◌++◌, Bytes, Result, ok, err, is_empty, length, map, codes, if◌then◌else◌,
}
use dcr_sdk.Common.Int.{ℤ, pos, is_positive, rounds}
use dcr_sdk.Contract.Register
use dcr_sdk.Contract.Status
use dcr_sdk.Contract.Status.{unauthorized, invalid_request, tech_error, forbidden}
use dcr_sdk.Messages.{
  MatchRule, ReportRule, TargetRequest, TargetResponse, ReportRequest, TouchRequest, TouchResponse,
}
use dcr_sdk.Payer.{UuidLibrary, nil_uuid}

pub record CloudConfig : Type 0 where
  pub listen_addr : Bytes
  pub server_id : ℕ
  pub target_status : ℕ
  pub report_buffer : ℤ
  pub touch_partners : List ℕ

-- `Server`; `reports` are those in the channel.
pub record Server : Type 0 where
  pub cfg : CloudConfig
  pub counter : ℕ
  pub reports : List ReportRequest
  pub unauthorized_count : ℕ
  pub last_caller : Option ℕ

unfoldable pub normalize_config : CloudConfig → CloudConfig
normalize_config cfg = record {
  listen_addr = if is_empty cfg.listen_addr then codes "127.0.0.1:0" else cfg.listen_addr;
  server_id = if cfg.server_id == 0 then 1024 else cfg.server_id;
  target_status = if cfg.target_status == Status.unknown then Status.ok else cfg.target_status;
  report_buffer = if is_positive cfg.report_buffer then cfg.report_buffer else pos 8;
  touch_partners = cfg.touch_partners;
}

unfoldable pub new_server : CloudConfig → Server
unfolding normalize_config
new_server cfg = record {
  cfg = normalize_config cfg;
  counter = 0;
  reports = [];
  unauthorized_count = 0;
  last_caller = none;
}

pub data PayerRefusal : Type 0 where
  payer_not_uuid : Bytes → PayerRefusal
  payer_missing : PayerRefusal

pub data CloudError : Type 0 where
  certificate_required cannot_unmarshal cannot_marshal target_failed : CloudError
  unsupported_name touch_not_granted : ℕ → CloudError
  payer_refused : PayerRefusal → CloudError
  rule_refused : ℕ → PayerRefusal → CloudError

-- The value of a response: a message, or the text of an error.
pub data Value : Type 0 where
  message : Bytes → Value
  error_text : CloudError → Value

abbrev pub Answered : Type 0
Answered = Server × ℕ × Value

abbrev write_error : Server → ℕ → CloudError → Answered
write_error s status e = (s, status, error_text e)

-- `writeProto`, for what `proto.Marshal` returned.
abbrev write_proto : Server → ℕ → Option Bytes → Answered
write_proto s status none = write_error s tech_error cannot_marshal
write_proto s status (some bytes) = (s, status, message bytes)

pub record CloudCodec : Type 0 where
  pub unmarshal_target : Bytes → Option TargetRequest
  pub unmarshal_report : Bytes → Option ReportRequest
  pub unmarshal_touch : Bytes → Option TouchRequest
  pub marshal_target : TargetResponse → Option Bytes
  pub marshal_touch : TouchResponse → Option Bytes

abbrev pub member : ℕ → List ℕ → Bool
member u [] = false
member u (v ∷ vs) = v == u || member u vs

-- `Match_OK` and `Frequency_STATUS_PASSED`
abbrev match_ok : ℕ
match_ok = 0

abbrev status_passed : ℕ
status_passed = 2

-- The payers of the rules through the getter, which gives an empty text for a nil rule.
abbrev pub payers_of : {R : Type 0} → (R → Bytes) → List (Option R) → List Bytes
payers_of payer [] = []
payers_of payer (none ∷ rules) = [] ∷ payers_of payer rules
payers_of payer (some rule ∷ rules) = payer rule ∷ payers_of payer rules

-- A field of `n` equal statuses.
abbrev pub all_passed : {A : Type 0} → ℕ → List A → List ℕ
all_passed status [] = []
all_passed status (x ∷ xs) = status ∷ all_passed status xs

module _ (uuid : UuidLibrary) where
  missing : Server → Server × Result PayerRefusal ℕ
  missing s =
      (record s { unauthorized_count = (s.unauthorized_count + 1) % 2 ^ 64 }, err payer_missing)

  unfoldable pub request_payer : Server → Bytes → Server × Result PayerRefusal ℕ
  unfolding missing
  request_payer s payer =
      if not (is_empty payer)
      then (elim (uuid.parse payer) [
        | none ↦ (s, err (payer_not_uuid payer))
        | some id ↦ if not (id == nil_uuid) then (s, ok id) else missing s
      ])
      else missing s

  -- The loop over the payers of the rules, at rule `i`.
  unfoldable pub check_rules : Server → List Bytes → ℕ → Server × Option CloudError
  unfolding request_payer
  check_rules s [] i = (s, none)
  check_rules s (payer ∷ payers) i =
      let (s', r) = request_payer s payer in
      let rest = check_rules s' payers (i + 1) in
      elim r [ err e ↦ (s', some (rule_refused i e)) | ok id ↦ rest ]

  -- The handlers; `text` is the text of a tracking id, for the server's id and the counter.
  module _ (codec : CloudCodec) (text : ℕ → ℕ → Bytes) where
    after_match_check : Server → TargetRequest → Option CloudError → Answered
    after_match_check s req (some e) = write_error s unauthorized e
    after_match_check s req none =
        let counter = (s.counter + 1) % 2 ^ 64 in
        let resp : TargetResponse = record {
          tracking_id = text s.cfg.server_id counter;
          status_code = Status.ok;
          frequency = all_passed status_passed req.frequency;
          match_results = all_passed match_ok req.match_rules;
        } in
        if not (s.cfg.target_status == Status.ok)
        then write_error s s.cfg.target_status target_failed
        else write_proto (record s { counter = counter }) Status.ok (codec.marshal_target resp)

    target_of : Server → Option TargetRequest → Answered
    unfolding after_match_check
    target_of s none = write_error s invalid_request cannot_unmarshal
    target_of s (some req) =
        let (s', e) = check_rules s (payers_of (λ r. r.payer) req.match_rules) 0 in
        after_match_check s' req e

    unfoldable pub handle_target : Server → Bytes → Answered
    unfolding target_of
    handle_target s body = target_of s (codec.unmarshal_target body)

    -- The report is kept if the channel has room.
    unfoldable pub kept : Server → ReportRequest → Server
    kept s req =
        if ltb (length s.reports) (rounds s.cfg.report_buffer)
        then record s { reports = s.reports ++ req ∷ [] }
        else s

    unfoldable pub after_rule_check : ReportRequest → Server × Option CloudError → Answered
    unfolding kept
    after_rule_check req (s, some e) = write_error s unauthorized e
    after_rule_check req (s, none) = (kept s req, Status.ok, message [])

    unfoldable pub after_payer_check : ReportRequest → Server × Result PayerRefusal ℕ → Answered
    unfolding after_rule_check
    after_payer_check req (s, err e) = write_error s unauthorized (payer_refused e)
    after_payer_check req (s, ok id) =
        after_rule_check req (check_rules s (payers_of (λ r. r.payer) req.rules) 0)

    unfoldable pub report_of : Server → Option ReportRequest → Answered
    unfolding after_payer_check
    report_of s none = write_error s invalid_request cannot_unmarshal
    report_of s (some req) = after_payer_check req (request_payer s req.payer)

    unfoldable pub handle_report : Server → Bytes → Answered
    unfolding report_of
    handle_report s body = report_of s (codec.unmarshal_report body)

    touch_of : Server → Option TouchRequest → Answered
    touch_of s none = write_error s invalid_request cannot_unmarshal
    touch_of s (some req) = write_proto s Status.ok (
        codec.marshal_touch (record {
          user_id = codes "test-cloud-user";
          accuracy = 1;
          label = codes "test-telecom";
        }))

    unfoldable pub handle_touch : Server → ℕ → Bytes → Answered
    unfolding touch_of
    handle_touch s partner body =
        if not (member partner s.cfg.touch_partners)
        then write_error s forbidden (touch_not_granted partner)
        else touch_of s (codec.unmarshal_touch body)

    -- `handle`, for the partner of the connection's certificate, `none` without one, and the request's
    -- number and value.
    unfoldable pub handle : Server → Option ℕ → ℕ → Bytes → Answered
    unfolding handle_target handle_report handle_touch
    handle s none name body =
        write_error (record s { unauthorized_count = (s.unauthorized_count + 1) % 2 ^ 64 })
          unauthorized certificate_required
    handle s (some partner) name body =
        let s' = record s { last_caller = some partner } in
        if name == Register.target
        then handle_target s' body
        else if name == Register.report
        then handle_report s' body
        else if name == Register.touch
        then handle_touch s' partner body
        else write_error s' invalid_request (unsupported_name name)
