-- ===== src/Client/Billing.antt =====
-- What a successful call has sent, and whom it bills.
use dcr_sdk.Common.{
  ℕ, ◌≤◌, ◌≡◌, refl, sym, ap, ◌∙◌, false, Bool-cases, inl, inr, Option, none, some, Result, ok, err,
  List, Bytes, All, is_empty, arith,
}
use mathlib.Core.Option.{some-injective}
use dcr_sdk.Contract.Register
use dcr_sdk.Contract.Request.{Request}
use dcr_sdk.Contract.Pools.{IsFresh}
use dcr_sdk.Messages.{TargetRequest, TargetResponse, ReportRequest}
use dcr_sdk.Payer.{
  UuidLibrary, PayerError, RuleError, Billable, nil_uuid, match_billable, report_billable,
  resolve_request_payer, apply_match_rule_payers, apply_report_rule_payers,
}
use dcr_sdk.Payer.Bills.{Names, resolve_request_payer_iff}
use dcr_sdk.Payer.Stamping.{Outcome, Stamped, stamp_rules-Outcome}
use dcr_sdk.Client.Unary.{Metrics, CallError, empty_request, do_unary}
use dcr_sdk.Client.Sharded.{ShardedClient, call, ◌>>=◌}
use dcr_sdk.Client.Requests.{
  Protobuf, Transport, Returned, ClientError, tracking_id_required, returned, client_result, is_nil,
  no_response, stamped_target, send_target, target, stamped_report, send_report, pay_report, report,
}
use dcr_sdk.Client.Delivery.{Carries, Answers, do_unary_delivers}
use dcr_sdk.Client.Usable.{IsUsable, call_runs}

-- The other end of some connection got the message as request `reqn`, and answered OK with `a`.
abbrev pub Exchanged : {A : Type 0} → Transport → ℕ → Option Bytes → (Bytes → Option A) → A → Type 0
Exchanged transport reqn raw unmarshal a =
    (i : ℕ) × (j : ℕ) × (sent : Request) × (bytes : Bytes) × (raw ≡ some bytes)
    × Carries sent reqn bytes
    × Answers unmarshal a (transport i j sent)

module _ {A : Type 0} (reqn : ℕ) (unmarshal : Bytes → Option A) (transport : Transport) (choice : ℕ)
    (a : A) where
  do_unary-ok :
      (raw : Option Bytes) (i j : ℕ) (pool : List Request) (m : Metrics)
      → All IsFresh pool
      → (do_unary reqn raw unmarshal (transport i j) choice pool m).result ≡ ok a
      → Exchanged transport reqn raw unmarshal a
  unfolding do_unary
  do_unary-ok none i j pool m fresh h = cc
  do_unary-ok (some bytes) i j pool m fresh h = elim (Bool-cases (is_empty bytes)) [
    | inl e ↦ let nothing : Path (Result CallError A) (err empty_request) (ok a) = rw e at h in cc
    | inr e ↦
        let (left, (sent, carried, (answered, back))) =
          do_unary_delivers unmarshal a reqn bytes (transport i j) choice pool m fresh e in
        (i, j, sent, bytes, refl, carried, answered h)
  ]

Outcome-none :
    (uuid : UuidLibrary) {R : Type 0} (b : Billable R) (d i : ℕ) (rules : List (Option R))
    (res : List (Option R) × Option RuleError)
    → res.1 ≡ none
    → Outcome uuid b d i rules res
    → Stamped uuid b d rules res.0
Outcome-none uuid b d i rules (out, none) h o = o
Outcome-none uuid b d i rules (out, some e) h o = cc

client_result-ok : {A : Type 0} (r : Result CallError A) (a : A) → client_result r ≡ ok a → r ≡ ok a
client_result-ok (ok b) a h = cc
client_result-ok (err e) a h = cc

module _ {R A : Type 0} (transport : Transport) (choice reqn : ℕ)
    (unmarshal : Bytes → Option A) where
  -- A call that returns a response was answered.
  call-ok :
      (sc : ShardedClient) (raw : Option Bytes) (req : R) (out : Returned R A) (a : A)
      → IsUsable sc
      → 1 ≤ reqn
      → reqn ≤ Register.max_request_identifier
      → (call sc reqn raw unmarshal transport choice >>= λ reply. some (returned req reply))
        ≡ some out
      → out.result ≡ ok a
      → (out.request ≡ req) × Exchanged transport reqn raw unmarshal a
  call-ok sc raw req out a usable low high e h =
      let (i, j, m, sc', (called, _)) =
        call_runs reqn unmarshal choice raw transport sc usable low high in
      let reply = do_unary reqn raw unmarshal (transport i j) choice sc.pool m in
      let same : returned req (sc', (reply.status, reply.result)) ≡ out =
        some-injective _ _ (rw called at e) in
      let back : client_result reply.result ≡ ok a = ap (λ (o : Returned R A). o.result) same ∙ h in
      (
        sym (ap (λ (o : Returned R A). o.request) same),
        do_unary-ok reqn unmarshal transport choice a raw i j sc.pool m usable.fresh
            (client_result-ok reply.result a back),
      )

module _ (uuid : UuidLibrary) (proto : Protobuf) (transport : Transport) (choice : ℕ)
    (sc : ShardedClient) where
  pub Stamped-match :
      (req : TargetRequest)
      → (stamped_target uuid proto transport choice req).1 ≡ none
      → Stamped uuid match_billable nil_uuid req.match_rules
          (stamped_target uuid proto transport choice req).0.match_rules
  unfolding stamped_target apply_match_rule_payers
  Stamped-match req h =
      Outcome-none uuid match_billable nil_uuid 0 req.match_rules _ h
        (stamp_rules-Outcome uuid match_billable req.match_rules nil_uuid 0)

  send_target-ok :
      (stamped : TargetRequest × Option RuleError) (out : Returned TargetRequest TargetResponse)
      (a : TargetResponse)
      → IsUsable sc
      → send_target uuid proto transport choice sc stamped ≡ some out
      → out.result ≡ ok a
      → (stamped.1 ≡ none)
        × (out.request ≡ stamped.0)
        × Exchanged transport Register.target
            (proto.marshal_target stamped.0)
            proto.unmarshal_target
            a
  unfolding send_target
  send_target-ok (req, some e') out a usable e h = cc
  send_target-ok (req, none) out a usable e h =
      let (same, exchanged) =
        call-ok transport choice Register.target proto.unmarshal_target sc _ req out a usable
          (omega arith) (omega arith) e h in
      (refl, same, exchanged)

  -- A `Target` call of a usable client that returns a response has stamped every match rule with the
  -- client that the rule itself names, and nothing else of the request is changed; the other end of
  -- one of its connections got exactly the stamped message as a target request, and answered OK with
  -- the response that is returned.
  pub target-ok :
      (req : TargetRequest) (out : Returned TargetRequest TargetResponse) (a : TargetResponse)
      → IsUsable sc
      → target uuid proto transport choice sc req ≡ some out
      → out.result ≡ ok a
      → Stamped uuid match_billable nil_uuid req.match_rules out.request.match_rules
        × (record req { match_rules = out.request.match_rules } ≡ out.request)
        × Exchanged transport Register.target
            (proto.marshal_target out.request)
            proto.unmarshal_target
            a
  unfolding target
  target-ok req out a usable e h =
      let (clean, same, exchanged) =
        send_target-ok (stamped_target uuid proto transport choice req) out a usable e h in
      rw same (Stamped-match req clean, unfold stamped_target in refl, exchanged)

  pub Stamped-rules :
      (req : ReportRequest) (payer : ℕ)
      → (stamped_report uuid proto transport choice req payer).1 ≡ none
      → Stamped uuid report_billable payer req.rules
          (stamped_report uuid proto transport choice req payer).0.rules
  unfolding stamped_report apply_report_rule_payers
  Stamped-rules req payer h =
      Outcome-none uuid report_billable payer 0 req.rules _ h
        (stamp_rules-Outcome uuid report_billable req.rules payer 0)

  send_report-ok :
      (stamped : ReportRequest × Option RuleError) (out : Returned ReportRequest (Unit {0}))
      → IsUsable sc
      → send_report uuid proto transport choice sc stamped ≡ some out
      → out.result ≡ ok tt
      → (stamped.1 ≡ none)
        × (out.request ≡ stamped.0)
        × Exchanged transport Register.report (proto.marshal_report stamped.0) no_response tt
  unfolding send_report
  send_report-ok (req, some e') out usable e h = cc
  send_report-ok (req, none) out usable e h =
      let (same, exchanged) =
        call-ok transport choice Register.report no_response sc _ req out tt usable (omega arith)
          (omega arith) e h in
      (refl, same, exchanged)

  -- What a report that succeeded has billed and sent, when its payer is `payer`.
  abbrev pub Reported : ReportRequest → Returned ReportRequest (Unit {0}) → ℕ → Type 0
  Reported req out payer =
      Names uuid req.payer payer
      × Stamped uuid report_billable payer req.rules out.request.rules
      × (record req { payer = uuid.to_string payer; rules = out.request.rules } ≡ out.request)
      × Exchanged transport Register.report (proto.marshal_report out.request) no_response tt

  pay_report-ok :
      (req : ReportRequest) (out : Returned ReportRequest (Unit {0}))
      (resolved : Result PayerError ℕ)
      → resolve_request_payer uuid req.payer ≡ resolved
      → IsUsable sc
      → pay_report uuid proto transport choice sc req resolved ≡ some out
      → out.result ≡ ok tt
      → (payer : ℕ) × Reported req out payer
  unfolding pay_report
  pay_report-ok req out (err e') p usable e h = cc
  pay_report-ok req out (ok payer) p usable e h =
      let (clean, same, exchanged) =
        send_report-ok (stamped_report uuid proto transport choice req payer) out usable e h in
      (
        payer,
        (
          (resolve_request_payer_iff uuid req.payer payer).0 p,
          rw same (Stamped-rules req payer clean),
          rw same (unfold stamped_report in refl),
          rw same exchanged,
        ),
      )

  -- A `Report` call of a usable client that succeeds had a tracking id and a payer; it has stamped
  -- every rule with the client that it bills, its own or else the request's payer, and has changed
  -- nothing else but the spelling of that payer; the other end of one of the client's connections
  -- got exactly the stamped message as a report, and answered OK.
  pub report-ok :
      (req : ReportRequest) (out : Returned ReportRequest (Unit {0}))
      → IsUsable sc
      → report uuid proto transport choice sc req ≡ some out
      → out.result ≡ ok tt
      → (is_nil req.tracking_id ≡ false) × ((payer : ℕ) × Reported req out payer)
  unfolding report
  report-ok req out usable e h = elim (Bool-cases (is_nil req.tracking_id)) [
    | inl nil ↦
        let rejection = some-injective _ _ (rw nil at e) in
        let failure : Path (Result ClientError (Unit {0})) (err tracking_id_required) (ok tt) =
          ap (λ (o : Returned ReportRequest (Unit {0})). o.result) rejection ∙ h in
        cc
    | inr given ↦ (
      given,
      pay_report-ok req out (resolve_request_payer uuid req.payer) refl usable (rw given at e) h,
    )
  ]
