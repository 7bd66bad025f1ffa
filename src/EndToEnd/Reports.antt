-- ===== src/EndToEnd/Reports.antt =====
-- A report goes from the client into the cloud's channel.
use dcr_sdk.Common.{
  subst, sym, ◌⊎◌, ◌<◌, inl, inr, Bool-cases, ltb, length, ◌++◌, ◌∷◌, ℕ, ◌≡◌, refl, ap, ◌∙◌, false,
  Option, none, some, ok, List, [], Bytes, is_empty, arith, if◌then◌else◌,
}
use dcr_sdk.Common.Int.{rounds}
use dcr_sdk.Contract.Register
use dcr_sdk.Contract.Status
use dcr_sdk.Contract.Request.{Request}
use dcr_sdk.Messages.{ReportRequest, ReportRule}
use dcr_sdk.Payer.{UuidLibrary, report_billable, resolve_request_payer}
use dcr_sdk.Payer.Bills.{Names, resolve_request_payer_iff}
use dcr_sdk.Payer.Stamping.{Stamped}
use dcr_sdk.Client.Sharded.{ShardedClient, call, ◌>>=◌}
use dcr_sdk.Client.Requests.{
  Protobuf, Transport, Returned, returned, rejected, tracking_id_required, is_nil, no_response,
  stamped_report, send_report, pay_report, report,
}
use dcr_sdk.Client.Delivery.{Carries}
use dcr_sdk.Client.Usable.{IsUsable}
use dcr_sdk.Client.Billing.{Stamped-rules}
use dcr_sdk.Cloud.{Server, message, handle, kept}
use dcr_sdk.Cloud.Payers.{handle_report-kept}
use dcr_sdk.Cloud.Serve.{partner_of}
use dcr_sdk.EndToEnd.{CloudSide, IsCarried}
use dcr_sdk.EndToEnd.Calls.{cloud_after, Fits, call-ok_answer}

module _ (uuid : UuidLibrary) (proto : Protobuf) (side : CloudSide) (transport : Transport) where
  open side use {codec, text, conn, server}

  -- The channel of reports has room for one more.
  abbrev pub HasRoom : Type 0
  HasRoom = length server.reports < rounds server.cfg.report_buffer

  -- The cloud's server once it has seen `partner`, with `reports` in its channel.
  abbrev pub server_with : ℕ → List ReportRequest → Server
  server_with partner reports = record server { last_caller = some partner; reports = reports }

  -- `after` is the cloud's server once it has seen `partner` and was given the report `req`: the report
  -- is the last one of the channel if that had room, and is dropped otherwise.
  abbrev pub Takes : ℕ → ReportRequest → Server → Type 0
  Takes partner req after =
      (HasRoom × (after ≡ server_with partner (server.reports ++ req ∷ [])))
      ⊎ ((¬ HasRoom) × (after ≡ server_with partner server.reports))

  kept-Takes :
      (partner : ℕ) (req : ReportRequest)
      → Takes partner req (kept uuid codec text (record server { last_caller = some partner }) req)
  unfolding kept
  kept-Takes partner req =
      elim (Bool-cases (ltb (length server.reports) (rounds server.cfg.report_buffer))) [
        | inl room ↦ inl (ground arith, rw (room, kept) refl)
        | inr full ↦ inr (ground arith, rw (full, kept) refl)
      ]

  handle-kept :
      (partner payer : ℕ) (rules : List (Option ReportRule)) (stamped : ReportRequest) (raw : Bytes)
      → partner_of conn ≡ some partner
      → codec.unmarshal_report raw ≡ some stamped
      → Names uuid stamped.payer payer
      → Stamped uuid report_billable payer rules stamped.rules
      → handle uuid codec text server (partner_of conn) Register.report raw ≡ (
        kept uuid codec text (record server { last_caller = some partner }) stamped,
        Status.ok,
        message [],
      )
  unfolding handle
  handle-kept partner payer rules stamped raw known decoded names bills =
      rw (known, handle)
        (handle_report-kept uuid codec text (record server { last_caller = some partner }) raw
          stamped rules payer decoded names bills)

  stamped-Names :
      (choice : ℕ) (req : ReportRequest) (payer : ℕ)
      → Names uuid req.payer payer
      → Names uuid (stamped_report uuid proto transport choice req payer).0.payer payer
  unfolding stamped_report
  stamped-Names choice req payer (parsed, real) =
      (uuid.parse-to_string payer (uuid.parse-lt req.payer payer parsed), real)

  -- With a tracking id, a payer and rules that stamping accepts, a report is a call with the stamped
  -- message.
  report-call :
      (sc : ShardedClient) (choice payer : ℕ) (req : ReportRequest) (raw : Bytes)
      → is_nil req.tracking_id ≡ false
      → Names uuid req.payer payer
      → (stamped_report uuid proto transport choice req payer).1 ≡ none
      → let stamped = (stamped_report uuid proto transport choice req payer).0 in
        proto.marshal_report stamped ≡ some raw
        → report uuid proto transport choice sc req ≡ (
            call sc Register.report (some raw) no_response transport choice >>= λ reply.
            some (returned stamped reply))
  unfolding report pay_report send_report
  report-call sc choice payer req raw tracked names clean encoded =
      let stamped = stamped_report uuid proto transport choice req payer in
      let resolved : resolve_request_payer uuid req.payer ≡ ok payer =
        (resolve_request_payer_iff uuid req.payer payer).1 names in
      ap
        (λ b.
          if b
          then rejected sc req Status.unknown tracking_id_required
          else pay_report uuid proto transport choice sc req (resolve_request_payer uuid req.payer))
        tracked
      ∙ ap (pay_report uuid proto transport choice sc req) resolved
      ∙ ap (λ e. send_report uuid proto transport choice sc (stamped.0, e)) clean
      ∙ ap
          (λ bytes. call sc Register.report bytes no_response transport choice >>= λ reply.
            some (returned stamped.0 reply))
          encoded

  -- A report of a usable client, whose requests fastrpc carries to a cloud that knows the partner
  -- of their connection, succeeds: where the report has a tracking id, names a payer, and has
  -- rules that stamping accepts, and the cloud decodes the message that the client encodes, which
  -- is not empty and within the size limit and the writers' room, `Report` returns no error, and a
  -- request that carries this message leaves the cloud as it was but for its last caller, which is the
  -- partner, and its channel, which has the stamped report behind those it had, if it had room.
  pub report-accepted :
      (sc : ShardedClient) (choice partner payer : ℕ) (req : ReportRequest) (raw : Bytes)
      → IsCarried uuid side transport
      → IsUsable sc
      → is_nil req.tracking_id ≡ false
      → Names uuid req.payer payer
      → (stamped_report uuid proto transport choice req payer).1 ≡ none
      → let stamped = (stamped_report uuid proto transport choice req payer).0 in
        proto.marshal_report stamped ≡ some raw
        → codec.unmarshal_report raw ≡ some stamped
        → is_empty raw ≡ false
        → Fits uuid side raw
        → partner_of conn ≡ some partner
        → (out : Returned ReportRequest (Unit {0})) × (sent : Request) × (report uuid proto
              transport choice sc req
            ≡ some out)
          × (out.result ≡ ok tt)
          × Carries sent Register.report raw
          × Takes partner stamped (cloud_after uuid side sent)
  report-accepted sc choice partner payer req raw delivered usable tracked names clean encoded
        decoded full (small, fits) known =
      let stamped = (stamped_report uuid proto transport choice req payer).0 in
      let bills = Stamped-rules uuid proto transport choice sc req payer clean in
      let handled =
        handle-kept partner payer req.rules stamped raw known decoded
          (stamped-Names choice req payer names) bills in
      let (out, sent, called, answered, carried, after) =
        call-ok_answer uuid side Register.report raw []
          (kept uuid codec text (record server { last_caller = some partner }) stamped) handled
          (small, fits) (omega arith, omega arith) stamped no_response tt sc choice transport
          delivered usable (omega arith) (omega arith) full refl in
      (
        out,
        sent,
        report-call sc choice payer req raw tracked names clean encoded ∙ called,
        answered,
        carried,
        subst (Takes partner stamped) (sym after) (kept-Takes partner stamped),
      )
