-- ===== src/EndToEnd/Refusals.antt =====
-- Calls that the cloud refuses.
use dcr_sdk.Common.{
  ℕ, ◌<◌, ◌≤◌, ◌==◌, ◌≡◌, refl, ap, ◌∙◌, false, Option, some, err, Bytes, is_empty, arith,
}
use dcr_sdk.Contract.Register
use dcr_sdk.Contract.Status
use dcr_sdk.Contract.Status.{forbidden}
use dcr_sdk.Contract.Request.{Request}
use dcr_sdk.Messages.{TouchRequest, TouchResponse}
use dcr_sdk.Payer.{UuidLibrary}
use dcr_sdk.Client.Unary.{Answer, refused}
use dcr_sdk.Client.Sharded.{ShardedClient, call, ◌>>=◌}
use dcr_sdk.Client.Requests.{
  Protobuf, Transport, Returned, returned, client_result, not_answered, touch,
}
use dcr_sdk.Client.Delivery.{Carries, do_unary_refused}
use dcr_sdk.Client.Usable.{IsUsable, call_runs}
use dcr_sdk.Cloud.{Server, error_text, touch_not_granted, member, handle, handle_touch, CloudError}
use dcr_sdk.Cloud.Serve.{partner_of}
use dcr_sdk.EndToEnd.{CloudSide, IsCarried}
use dcr_sdk.EndToEnd.Calls.{cloud_after, Fits, exchange-answered}
use dcr_sdk.EndToEnd.Touches.{touch-call}

module _ (uuid : UuidLibrary) (side : CloudSide) where
  open side use {codec, text, error_message, conn, server}

  -- A call of a usable client, under a known request number, whose requests fastrpc carries to the
  -- cloud, whose handler refuses the message with a status that is one byte and not OK, returns that
  -- status and an error with the cloud's text, where the message is not empty, and it and the text are
  -- within the size limit and the writers' room. A request that carries the message leaves the cloud
  -- as the handler does.
  pub call-refused :
      {R A : Type 0} (req : R) (unmarshal : Bytes → Option A) (reqn status : ℕ) (raw : Bytes)
      (e : CloudError) (s' : Server) (sc : ShardedClient) (choice : ℕ) (transport : Transport)
      → handle uuid codec text server (partner_of conn) reqn raw ≡ (s', status, error_text e)
      → (status == Status.ok) ≡ false
      → status < 256
      → Fits uuid side raw
      → Fits uuid side (error_message e)
      → IsCarried uuid side transport
      → IsUsable sc
      → 1 ≤ reqn
      → reqn ≤ Register.max_request_identifier
      → is_empty raw ≡ false
      → (out : Returned R A) × (sent : Request) × ((call sc reqn
              (some raw)
              unmarshal
              transport
              choice
            >>= λ reply. some (returned req reply))
          ≡ some out)
        × (out.status ≡ status)
        × (out.result ≡ err (not_answered (refused status (error_message e))))
        × Carries sent reqn raw
        × (cloud_after uuid side sent ≡ s')
  call-refused req unmarshal reqn status raw e s' sc choice transport answered bad byte sized
        sized_text delivered usable low high full =
      let (i, j, m, sc', (called, _)) =
        call_runs reqn unmarshal choice (some raw) transport sc usable low high in
      let (sent, carried, back) =
        do_unary_refused unmarshal reqn raw (transport i j) choice sc.pool m status
          (error_message e) usable.fresh full bad in
      let exchanged =
        exchange-answered uuid side reqn raw s' status (error_text e) answered byte sized sized_text
          sent carried in
      let got = back (delivered i j sent ∙ ap (λ (x : Server × Answer). x.1) exchanged) in
      (
        _,
        sent,
        ap (λ o. o >>= λ reply. some (returned req reply)) called,
        got.0,
        ap client_result got.1,
        carried,
        ap (λ (x : Server × Answer). x.0) exchanged,
      )

module _ (uuid : UuidLibrary) (proto : Protobuf) (side : CloudSide) (transport : Transport) where
  open side use {codec, text, error_message, conn, server}

  handle-forbidden :
      (partner : ℕ) (raw : Bytes)
      → partner_of conn ≡ some partner
      → member partner server.cfg.touch_partners ≡ false
      → handle uuid codec text server (partner_of conn) Register.touch raw ≡ (
        record server { last_caller = some partner },
        forbidden,
        error_text (touch_not_granted partner),
      )
  unfolding handle handle_touch
  handle-forbidden partner raw known ungranted = rw (known, ungranted) refl

  -- A touch of a partner that is not granted touches is refused: of a usable client, whose requests
  -- fastrpc carries to the cloud, `Touch` returns the status FORBIDDEN and an error with the cloud's
  -- text, where the message can be encoded, is not empty, and it and the text are within the size
  -- limit and the writers' room; a request that carries it changes the cloud's last caller only.
  pub touch-forbidden :
      (sc : ShardedClient) (choice partner : ℕ) (req : TouchRequest) (raw : Bytes)
      → IsCarried uuid side transport
      → IsUsable sc
      → proto.marshal_touch req ≡ some raw
      → is_empty raw ≡ false
      → Fits uuid side raw
      → Fits uuid side (error_message (touch_not_granted partner))
      → partner_of conn ≡ some partner
      → member partner server.cfg.touch_partners ≡ false
      → (out : Returned TouchRequest TouchResponse) × (sent : Request) × (touch uuid proto transport
            choice sc req
          ≡ some out)
        × (out.status ≡ forbidden)
        × (out.result
            ≡ err (not_answered (refused forbidden (error_message (touch_not_granted partner)))))
        × Carries sent Register.touch raw
        × (cloud_after uuid side sent ≡ record server { last_caller = some partner })
  touch-forbidden sc choice partner req raw delivered usable encoded full sized sized_text known
        ungranted =
      let (out, sent, called, status, result, carried, after) =
        call-refused uuid side req proto.unmarshal_touch Register.touch forbidden raw
          (touch_not_granted partner) (record server { last_caller = some partner }) sc choice
          transport (handle-forbidden partner raw known ungranted) refl (omega arith) sized
          sized_text delivered usable (omega arith) (omega arith) full in
      (
        out,
        sent,
        touch-call uuid proto side transport sc choice req raw encoded ∙ called,
        status,
        result,
        carried,
        after,
      )
