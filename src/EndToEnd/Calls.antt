-- ===== src/EndToEnd/Calls.antt =====
-- A call of the client that the cloud answers with status OK.
use dcr_sdk.Common.{
  ℕ, ◌+◌, ◌<◌, ◌≤◌, ◌≡◌, ap, ◌∙◌, false, Option, some, ok, Bytes, length, is_empty, arith,
}
use dcr_sdk.Contract.Register
use dcr_sdk.Contract.Status
use dcr_sdk.Contract.Request.{Request}
use dcr_sdk.Contract.Wire.{max_bytes_size}
use dcr_sdk.Payer.{UuidLibrary}
use dcr_sdk.Client.Unary.{Answer, replied}
use dcr_sdk.Client.Sharded.{ShardedClient, call, ◌>>=◌}
use dcr_sdk.Client.Requests.{Transport, Returned, returned, client_result}
use dcr_sdk.Client.Delivery.{Carries, do_unary_delivers}
use dcr_sdk.Client.Usable.{IsUsable, call_runs}
use dcr_sdk.Cloud.{Server, Value, message, Answered, handle}
use dcr_sdk.Cloud.Serve.{partner_of, value_bytes}
use dcr_sdk.Cloud.Exchange.{exchange, exchange-handled, answer_bytes}
use dcr_sdk.EndToEnd.{CloudSide, IsCarried}

module _ (uuid : UuidLibrary) (side : CloudSide) where
  open side use {codec, text, error_message, room, ctx, resp, conn, server}

  -- The cloud that a request `req` leaves.
  abbrev pub cloud_after : Request → Server
  cloud_after req = (exchange uuid codec text error_message room ctx resp conn server req).0

  -- A message fits the size limit and the writers' room.
  abbrev pub Fits : Bytes → Type 0
  Fits raw = (length raw ≤ max_bytes_size) × (length raw + 5 ≤ room)

  -- The handler answers the message `raw` of the request `reqn`.
  module _ (reqn : ℕ) (raw : Bytes) (s' : Server) (status : ℕ) (value : Value)
      (answered : handle uuid codec text server (partner_of conn) reqn raw ≡ (s', status, value))
      (byte : status < 256) (sized : Fits raw)
      (sized_value : Fits (value_bytes uuid codec text error_message value)) where
    pub exchange-answered :
        (sent : Request)
        → Carries sent reqn raw
        → exchange uuid codec text error_message room ctx resp conn server sent
          ≡ (s', replied status (value_bytes uuid codec text error_message value))
    exchange-answered sent carried =
        let bytes : answer_bytes uuid codec text error_message room ctx resp conn server reqn raw
            ≡ value_bytes uuid codec text error_message value =
          ap (λ (h : Answered). value_bytes uuid codec text error_message h.2) answered in
        let as_long = ap (λ (b : Bytes). length b) bytes in
        let status_is : (handle uuid codec text server (partner_of conn) reqn raw).1 ≡ status =
          ap (λ (h : Answered). h.1) answered in
        exchange-handled uuid codec text error_message room ctx resp conn server sent reqn raw
          carried sized.0 sized.1 (omega (arith, as_long, sized_value))
          (omega (arith, as_long, sized_value)) (omega (arith, status_is, byte))
        ∙ ap (λ (h : Answered). (h.0, replied h.1 (value_bytes uuid codec text error_message h.2)))
            answered

  -- The handler answers the message `raw` of the request `reqn` with OK and the bytes of `body`.
  module _ (reqn : ℕ) (raw body : Bytes) (s' : Server)
      (answered : handle uuid codec text server (partner_of conn) reqn raw
        ≡ (s', Status.ok, message body))
      (sized : Fits raw) (sized_body : Fits body) where
    exchange-ok :
        (sent : Request)
        → Carries sent reqn raw
        → exchange uuid codec text error_message room ctx resp conn server sent
          ≡ (s', replied Status.ok body)
    exchange-ok sent carried =
        exchange-answered reqn raw s' Status.ok (message body) answered (omega arith) sized
          sized_body sent carried

    -- Then a call of a usable client with that message returns what the body decodes to.
    pub call-ok_answer :
        {R A : Type 0} (req : R) (unmarshal : Bytes → Option A) (a : A) (sc : ShardedClient)
        (choice : ℕ) (transport : Transport)
        → IsCarried uuid side transport
        → IsUsable sc
        → 1 ≤ reqn
        → reqn ≤ Register.max_request_identifier
        → is_empty raw ≡ false
        → unmarshal body ≡ some a
        → (out : Returned R A) × (sent : Request) × ((call sc reqn
                (some raw)
                unmarshal
                transport
                choice
              >>= λ reply. some (returned req reply))
            ≡ some out)
          × (out.result ≡ ok a)
          × Carries sent reqn raw
          × (cloud_after sent ≡ s')
    call-ok_answer req unmarshal a sc choice transport delivered usable low high full decodes =
        let (i, j, m, sc', (called, _)) =
          call_runs reqn unmarshal choice (some raw) transport sc usable low high in
        let (_, (sent, carried, (_, back))) =
          do_unary_delivers unmarshal a reqn raw (transport i j) choice sc.pool m usable.fresh
            full in
        let exchanged = exchange-ok sent carried in
        let got =
          back (body, delivered i j sent ∙ ap (λ (x : Server × Answer). x.1) exchanged, decodes) in
        (
          _,
          sent,
          ap (λ o. o >>= λ reply. some (returned req reply)) called,
          ap client_result got,
          carried,
          ap (λ (x : Server × Answer). x.0) exchanged,
        )
