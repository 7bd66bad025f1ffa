-- ===== src/Cloud/Payers.antt =====
-- What the client stamps is not refused by the cloud.
use dcr_sdk.Common.{
  ℕ, ◌+◌, ◌%◌, ◌^◌, ◌<◌, ◌≡◌, refl, ap, ◌∙◌, Option, none, some, List, [], ◌∷◌, Bytes, Result, ok,
  err, arith,
}
use dcr_sdk.Messages.{MatchRule, TargetRequest, TargetResponse, ReportRequest, ReportRule}
use dcr_sdk.Payer.{UuidLibrary, Billable, match_billable, report_billable, nil_uuid}
use dcr_sdk.Payer.Bills.{Names}
use dcr_sdk.Payer.Stamping.{Stamped, Bills-lt, Bills-ne-nil}
use dcr_sdk.Contract.Status
use dcr_sdk.Cloud.{
  rule_refused, all_passed, status_passed, match_ok, handle_target, target_of, after_match_check,
  message, CloudCodec, handle_report, report_of, after_payer_check, after_rule_check, kept, Server,
  PayerRefusal, request_payer, check_rules, payers_of,
}

module _ (uuid : UuidLibrary) where
  request_payer-Names :
      (s : Server) (payer : Bytes) (u : ℕ)
      → Names uuid payer u
      → request_payer uuid s payer ≡ (s, ok u)
  unfolding request_payer
  request_payer-Names s [] u h = ground (arith, uuid.parse-nil)
  request_payer-Names s (c ∷ payer) u h = ground arith

  check_rules-Stamped :
      {R : Type 0} (b : Billable R) (s : Server) (rules out : List (Option R)) (d i : ℕ)
      → d < 2 ^ 128
      → Stamped uuid b d rules out
      → check_rules uuid s (payers_of b.payer out) i ≡ (s, none)
  unfolding check_rules
  check_rules-Stamped b s [] [] d i small h = refl
  check_rules-Stamped b s [] (r' ∷ out) d i small h = absurd h
  check_rules-Stamped b s (none ∷ rules) out d i small h = absurd h
  check_rules-Stamped b s (some r ∷ rules) [] d i small h = absurd h
  check_rules-Stamped b s (some r ∷ rules) (none ∷ out) d i small h = absurd h
  check_rules-Stamped b s (some r ∷ rules) (some r' ∷ out) d i small ((u, bills, e), h) =
      let named : Names uuid (b.payer r') u = (
        ap uuid.parse (ap b.payer e ∙ b.payer-set_payer r (uuid.to_string u))
            ∙ uuid.parse-to_string u (Bills-lt uuid b d u (b.payer r) small bills),
        Bills-ne-nil uuid b d u (b.payer r) bills,
      ) in
      ap
        (λ (x : Server × Result PayerRefusal ℕ). elim x.1 [
          | err e' ↦ (x.0, some (rule_refused i e'))
          | ok id ↦ check_rules uuid x.0 (payers_of b.payer out) (i + 1)
        ])
        (request_payer-Names s (b.payer r') u named)
      ∙ check_rules-Stamped b s rules out d (i + 1) small h

  pub handle_report-kept :
      (codec : CloudCodec) (text : ℕ → ℕ → Bytes) (s : Server) (body : Bytes) (req : ReportRequest)
      (rules : List (Option ReportRule)) (payer : ℕ)
      → codec.unmarshal_report body ≡ some req
      → Names uuid req.payer payer
      → Stamped uuid report_billable payer rules req.rules
      → handle_report uuid codec text s body ≡ (kept uuid codec text s req, Status.ok, message [])
  unfolding handle_report report_of after_payer_check after_rule_check
  handle_report-kept codec text s body req rules payer decoded names stamped =
      let small = uuid.parse-lt req.payer payer names.0 in
      let paid = request_payer-Names s req.payer payer names in
      let checked = check_rules-Stamped report_billable s rules req.rules payer 0 small stamped in
      rw (decoded, paid, checked) refl

  -- What the cloud answers a target with: a new tracking id, and every rule and every frequency key
  -- passed.
  abbrev pub target_answer : (ℕ → ℕ → Bytes) → Server → TargetRequest → TargetResponse
  target_answer text s req = record {
    tracking_id = text s.cfg.server_id ((s.counter + 1) % 2 ^ 64);
    status_code = Status.ok;
    frequency = all_passed status_passed req.frequency;
    match_results = all_passed match_ok req.match_rules;
  }

  pub handle_target-answered :
      (codec : CloudCodec) (text : ℕ → ℕ → Bytes) (s : Server) (body bytes : Bytes)
      (req : TargetRequest) (rules : List (Option MatchRule))
      → codec.unmarshal_target body ≡ some req
      → Stamped uuid match_billable nil_uuid rules req.match_rules
      → s.cfg.target_status ≡ Status.ok
      → codec.marshal_target (target_answer text s req) ≡ some bytes
      → handle_target uuid codec text s body
        ≡ (record s { counter = (s.counter + 1) % 2 ^ 64 }, Status.ok, message bytes)
  unfolding handle_target target_of after_match_check
  handle_target-answered codec text s body bytes req rules decoded stamped healthy encoded =
      let checked =
        check_rules-Stamped match_billable s rules req.match_rules nil_uuid 0 (omega arith)
          stamped in
      rw (decoded, checked, healthy, encoded) refl

  -- A report that is decoded to what the client's stamping makes of some rules, with a payer that
  -- names a partner, is accepted: its answer has status OK and no value, and nothing is counted as
  -- unauthorized.
  pub handle_report-Stamped :
      (codec : CloudCodec) (text : ℕ → ℕ → Bytes) (s : Server) (body : Bytes) (req : ReportRequest)
      (rules : List (Option ReportRule)) (payer : ℕ)
      → codec.unmarshal_report body ≡ some req
      → Names uuid req.payer payer
      → Stamped uuid report_billable payer rules req.rules
      → let (s', status, value) = handle_report uuid codec text s body in
        (status ≡ Status.ok) × (value ≡ message []) × (s'.unauthorized_count ≡ s.unauthorized_count)
  unfolding kept
  handle_report-Stamped codec text s body req rules payer decoded names stamped =
      rw (handle_report-kept codec text s body req rules payer decoded names stamped)
        (refl, refl, ground arith)
