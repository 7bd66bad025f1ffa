-- ===== src/EndToEnd/Targets.antt =====
-- A target that the cloud answers.
use dcr_sdk.Common.{
  ℕ, ◌+◌, ◌%◌, ◌^◌, ◌≡◌, ap, ◌∙◌, false, Option, none, some, List, ok, Bytes, is_empty, arith,
}
use dcr_sdk.Contract.Register
use dcr_sdk.Contract.Status
use dcr_sdk.Contract.Request.{Request}
use dcr_sdk.Messages.{MatchRule, TargetRequest, TargetResponse}
use dcr_sdk.Payer.{UuidLibrary, match_billable, nil_uuid}
use dcr_sdk.Payer.Stamping.{Stamped}
use dcr_sdk.Client.Sharded.{ShardedClient, call, ◌>>=◌}
use dcr_sdk.Client.Requests.{
  Protobuf, Transport, Returned, returned, stamped_target, send_target, target,
}
use dcr_sdk.Client.Billing.{Stamped-match}
use dcr_sdk.Client.Delivery.{Carries}
use dcr_sdk.Client.Usable.{IsUsable}
use dcr_sdk.Cloud.{Server, message, handle}
use dcr_sdk.Cloud.Payers.{target_answer, handle_target-answered}
use dcr_sdk.Cloud.Serve.{partner_of}
use dcr_sdk.EndToEnd.{CloudSide, IsCarried}
use dcr_sdk.EndToEnd.Calls.{cloud_after, Fits, call-ok_answer}

module _ (uuid : UuidLibrary) (proto : Protobuf) (side : CloudSide) (transport : Transport) where
  open side use {codec, text, conn, server}

  -- The cloud's server once it has seen `partner` and numbered one more target.
  abbrev pub server_after_target : ℕ → Server
  server_after_target partner = record server {
    last_caller = some partner;
    counter = (server.counter + 1) % 2 ^ 64;
  }

  handle-answered :
      (partner : ℕ) (raw bytes : Bytes) (req : TargetRequest) (rules : List (Option MatchRule))
      → partner_of conn ≡ some partner
      → server.cfg.target_status ≡ Status.ok
      → codec.unmarshal_target raw ≡ some req
      → Stamped uuid match_billable nil_uuid rules req.match_rules
      → codec.marshal_target (target_answer uuid text server req) ≡ some bytes
      → handle uuid codec text server (partner_of conn) Register.target raw
        ≡ (server_after_target partner, Status.ok, message bytes)
  unfolding handle
  handle-answered partner raw bytes req rules known healthy decoded stamped answered =
      rw (known, handle)
        (handle_target-answered uuid codec text (record server { last_caller = some partner }) raw
          bytes req rules decoded stamped healthy answered)

  target-call :
      (sc : ShardedClient) (choice : ℕ) (req : TargetRequest) (raw : Bytes)
      → (stamped_target uuid proto transport choice req).1 ≡ none
      → let stamped = (stamped_target uuid proto transport choice req).0 in
        proto.marshal_target stamped ≡ some raw
        → target uuid proto transport choice sc req ≡ (
            call sc Register.target (some raw) proto.unmarshal_target transport choice >>= λ reply.
            some (returned stamped reply))
  unfolding target send_target
  target-call sc choice req raw clean encoded =
      let stamped = (stamped_target uuid proto transport choice req).0 in
      ap (λ e. send_target uuid proto transport choice sc (stamped, e)) clean
      ∙ ap
          (λ bytes.
            call sc Register.target bytes proto.unmarshal_target transport choice >>= λ reply.
            some (returned stamped reply))
          encoded

  -- A target of a usable client, whose requests fastrpc carries to a cloud that knows the partner
  -- of their connection, is answered: where stamping accepts the match rules, the cloud is not
  -- told to fail, each end decodes what the other encodes, both messages are within the size limit
  -- and the writers' room, and the request's is not empty, `Target` returns the answer with a new
  -- tracking id in which every match rule and every frequency key has passed, and a request that
  -- carries the message raises the cloud's counter and changes its last caller.
  pub target-answered :
      (sc : ShardedClient) (choice partner : ℕ) (req : TargetRequest) (raw bytes : Bytes)
      → IsCarried uuid side transport
      → IsUsable sc
      → (stamped_target uuid proto transport choice req).1 ≡ none
      → let stamped = (stamped_target uuid proto transport choice req).0 in
        proto.marshal_target stamped ≡ some raw
        → codec.unmarshal_target raw ≡ some stamped
        → codec.marshal_target (target_answer uuid text server stamped) ≡ some bytes
        → proto.unmarshal_target bytes ≡ some (target_answer uuid text server stamped)
        → is_empty raw ≡ false
        → Fits uuid side raw
        → Fits uuid side bytes
        → partner_of conn ≡ some partner
        → server.cfg.target_status ≡ Status.ok
        → (out : Returned TargetRequest TargetResponse) × (sent : Request) × (target uuid proto
              transport choice sc req
            ≡ some out)
          × (out.result ≡ ok (target_answer uuid text server stamped))
          × Carries sent Register.target raw
          × (cloud_after uuid side sent ≡ server_after_target partner)
  target-answered sc choice partner req raw bytes delivered usable clean encoded decoded answered
        read full sized sized_answer known healthy =
      let stamped = (stamped_target uuid proto transport choice req).0 in
      let handled =
        handle-answered partner raw bytes stamped req.match_rules known healthy decoded
          (Stamped-match uuid proto transport choice sc req clean) answered in
      let (out, sent, called, result, carried, after) =
        call-ok_answer uuid side Register.target raw bytes (server_after_target partner) handled
          sized sized_answer stamped proto.unmarshal_target (target_answer uuid text server stamped)
          sc choice transport delivered usable (omega arith) (omega arith) full read in
      (out, sent, target-call sc choice req raw clean encoded ∙ called, result, carried, after)
