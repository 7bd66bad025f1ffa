-- ===== src/EndToEnd/Touches.antt =====
-- A touch of a partner that is granted it.
use dcr_sdk.Common.{ℕ, ◌≡◌, refl, ◌∙◌, true, false, some, ok, Bytes, is_empty, arith}
use dcr_sdk.Contract.Register
use dcr_sdk.Contract.Status
use dcr_sdk.Contract.Request.{Request}
use dcr_sdk.Messages.{TouchRequest, TouchResponse}
use dcr_sdk.Payer.{UuidLibrary}
use dcr_sdk.Client.Sharded.{ShardedClient, call, ◌>>=◌}
use dcr_sdk.Client.Requests.{Protobuf, Transport, Returned, returned, touch}
use dcr_sdk.Client.Delivery.{Carries}
use dcr_sdk.Client.Usable.{IsUsable}
use dcr_sdk.Cloud.{message, member, handle}
use dcr_sdk.Cloud.Grants.{touch_answer, handle_touch-granted}
use dcr_sdk.Cloud.Serve.{partner_of}
use dcr_sdk.EndToEnd.{CloudSide, IsCarried}
use dcr_sdk.EndToEnd.Calls.{cloud_after, Fits, call-ok_answer}

module _ (uuid : UuidLibrary) (proto : Protobuf) (side : CloudSide) (transport : Transport) where
  open side use {codec, text, conn, server}

  handle-granted :
      (partner : ℕ) (raw bytes : Bytes) (req : TouchRequest)
      → partner_of conn ≡ some partner
      → member partner server.cfg.touch_partners ≡ true
      → codec.unmarshal_touch raw ≡ some req
      → codec.marshal_touch touch_answer ≡ some bytes
      → handle uuid codec text server (partner_of conn) Register.touch raw
        ≡ (record server { last_caller = some partner }, Status.ok, message bytes)
  unfolding handle
  handle-granted partner raw bytes req known granted decoded answered =
      rw (known, handle)
        (handle_touch-granted uuid codec text (record server { last_caller = some partner }) partner
          raw bytes req granted decoded answered)

  pub touch-call :
      (sc : ShardedClient) (choice : ℕ) (req : TouchRequest) (raw : Bytes)
      → proto.marshal_touch req ≡ some raw
      → touch uuid proto transport choice sc req ≡ (
          call sc Register.touch (some raw) proto.unmarshal_touch transport choice >>= λ reply.
          some (returned req reply))
  unfolding touch
  touch-call sc choice req raw encoded = rw (encoded, touch) refl

  -- A touch of a usable client, whose requests fastrpc carries to a cloud that grants touches to
  -- the partner of their connection, is answered: where each end decodes what the other encodes,
  -- both messages are within the size limit and the writers' room, and the request's is not empty,
  -- `Touch` returns the cloud's answer, and a request that carries the message changes the cloud's
  -- last caller only.
  pub touch-granted :
      (sc : ShardedClient) (choice partner : ℕ) (req : TouchRequest) (raw bytes : Bytes)
      → IsCarried uuid side transport
      → IsUsable sc
      → proto.marshal_touch req ≡ some raw
      → codec.unmarshal_touch raw ≡ some req
      → codec.marshal_touch touch_answer ≡ some bytes
      → proto.unmarshal_touch bytes ≡ some touch_answer
      → is_empty raw ≡ false
      → Fits uuid side raw
      → Fits uuid side bytes
      → partner_of conn ≡ some partner
      → member partner server.cfg.touch_partners ≡ true
      → (out : Returned TouchRequest TouchResponse) × (sent : Request) × (touch uuid proto transport
            choice sc req
          ≡ some out)
        × (out.result ≡ ok touch_answer)
        × Carries sent Register.touch raw
        × (cloud_after uuid side sent ≡ record server { last_caller = some partner })
  touch-granted sc choice partner req raw bytes delivered usable encoded decoded answered read full
        sized sized_answer known granted =
      let handled = handle-granted partner raw bytes req known granted decoded answered in
      let (out, sent, called, result, carried, after) =
        call-ok_answer uuid side Register.touch raw bytes
          (record server { last_caller = some partner }) handled sized sized_answer req
          proto.unmarshal_touch touch_answer sc choice transport delivered usable (omega arith)
          (omega arith) full read in
      (out, sent, touch-call sc choice req raw encoded ∙ called, result, carried, after)
