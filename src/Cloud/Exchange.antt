-- ===== src/Cloud/Exchange.antt =====
-- A request and its response over the wire: the client's frame is read by the cloud, and the cloud's
-- by the client.
--
-- fastrpc carries the frames of a connection in order and unchanged, and its buffered writers have
-- room for `room` bytes. What it adds around the frames is outside the repository.
use dcr_sdk.Common.{
  ℕ, ◌+◌, ◌%◌, ◌≤◌, ◌<◌, ◌≡◌, refl, sym, ap, ◌∙◌, Bool, true, false, Option, none, some, [],
  append-nil, Bytes, length, arith,
}
use dcr_sdk.Contract.Io.{eof, other, Reader, Writer, accepted}
use dcr_sdk.Contract.Slice.{
  contents, overwrite, resize, cleared, contents-append, contents-overwrite-resize,
}
use dcr_sdk.Contract.Wire.{max_bytes_size}
use dcr_sdk.Contract.Request.{Request, write_request}
use dcr_sdk.Contract.Request as Requests
use dcr_sdk.Contract.Response.{
  Response, write_response, read_response, set_status_code, append_value,
}
use dcr_sdk.Contract.Response as Responses
use dcr_sdk.Contract.Frames.{
  frame, read_request-frame, read_response-frame, write_request-fits, write_response-fits,
}
use dcr_sdk.Contract.RoundTrip.{arriving}
use dcr_sdk.Contract.Status
use dcr_sdk.Contract.Context.{RequestCtx, init, read_request}
use dcr_sdk.Contract.Context as Contexts
use dcr_sdk.Payer.{UuidLibrary}
use dcr_sdk.Auth.{NetConn}
use dcr_sdk.Client.Unary.{Answer, failed, replied, other_error}
use dcr_sdk.Client.Delivery.{Carries}
use dcr_sdk.Cloud.{Server, CloudCodec, CloudError, Value, handle}
use dcr_sdk.Cloud.Serve.{
  partner_of, value_bytes, respond, handle_ctx, after_read, after_handle, after_write, serve,
}

abbrev pub open_writer : ℕ → Writer
open_writer room = record { out = []; room = room; failed = false; error = other 0 }

-- The bytes that are on a connection, up to its end.
abbrev pub line : Writer → Reader
line w = arriving w.out eof

module _ {S : Type 0} where
  -- What the client takes for the answer.
  abbrev pub received : S → Reader × Response × Option Responses.ResponseError → S × Answer
  received s (r, resp, none) = (s, replied resp.status_code (contents resp.value))
  received s (r, resp, some e) = (s, failed other_error)

  abbrev pub after_serve : Response → S × Writer × Bool → S × Answer
  after_serve prev_resp (s, w, true) = received s (read_response (line w) prev_resp)
  after_serve prev_resp (s, w, false) = (s, failed other_error)

module _ (uuid : UuidLibrary) (codec : CloudCodec) (text : ℕ → ℕ → Bytes)
    (error_message : CloudError → Bytes) where
  module _ (room : ℕ) (prev : RequestCtx NetConn) (prev_resp : Response) (conn : NetConn) where
    after_request : Server → Writer × Option Requests.RequestError → Server × Answer
    after_request s (w, some e) = (s, failed other_error)
    after_request s (w, none) =
        after_serve prev_resp
          (serve uuid codec text error_message s prev conn (line w) (open_writer room))

    -- A request from a client to the cloud `s` on the connection `conn`: the cloud after it, and the
    -- answer. The context and the response object may have been used before.
    unfoldable pub exchange : Server → Request → Server × Answer
    unfolding after_request
    exchange s req = after_request s (write_request (open_writer room) req)

    -- The context once the request was read.
    abbrev read_ctx : Bytes → ℕ → RequestCtx NetConn
    read_ctx raw reqn = record {
      request = record {
        value = overwrite (resize (cleared prev.request.value) (length raw)) raw;
        code = reqn;
      };
      response = record { value = cleared prev.response.value; status_code = Status.ok };
      conn = conn;
    }

    read_request-line :
        (raw : Bytes) (reqn : ℕ)
        → length raw ≤ max_bytes_size
        → read_request (arriving (frame reqn raw) eof) (init prev conn)
          ≡ (arriving [] eof, read_ctx raw reqn, none)
    unfolding read_request init Requests.reset Responses.reset
    read_request-line raw reqn small =
        ap
          (λ (g : Reader × Request × Option Requests.RequestError). (
            g.0,
            record {
              request = g.1;
              response = record { value = cleared prev.response.value; status_code = Status.ok };
              conn = conn;
            },
            g.2,
          ))
          (ap (λ xs. Requests.read_request (arriving xs eof) (Requests.reset prev.request))
              (sym (append-nil (frame reqn raw)))
            ∙ read_request-frame (Requests.reset prev.request) reqn raw [] eof small)

    -- What the handler answers a request of the connection with.
    abbrev pub handled : Server → ℕ → Bytes → Server × ℕ × Value
    handled s reqn raw = handle uuid codec text s (partner_of conn) reqn raw

    abbrev pub answer_bytes : Server → ℕ → Bytes → Bytes
    answer_bytes s reqn raw = value_bytes uuid codec text error_message (handled s reqn raw).2

    abbrev responded : Server → ℕ → Bytes → RequestCtx NetConn
    responded s reqn raw = record (read_ctx raw reqn) {
      response =
          respond uuid codec text error_message (read_ctx raw reqn).response (handled s reqn raw).1
            (handled s reqn raw).2;
    }

    handle_ctx-read_ctx :
        (s : Server) (reqn : ℕ) (raw : Bytes)
        → handle_ctx uuid codec text error_message s (read_ctx raw reqn)
          ≡ ((handled s reqn raw).0, responded s reqn raw)
    unfolding handle_ctx Requests.get_name Requests.value
    handle_ctx-read_ctx s reqn raw =
        ap
          (λ bytes.
            let (s', status, value) = handle uuid codec text s (partner_of conn) reqn bytes in
            (
              s',
              record (read_ctx raw reqn) {
                response =
                    respond uuid codec text error_message (read_ctx raw reqn).response status value;
              },
            ))
          (contents-overwrite-resize (cleared prev.request.value) raw)

    contents-responded :
        (s : Server) (reqn : ℕ) (raw : Bytes)
        → contents (responded s reqn raw).response.value ≡ answer_bytes s reqn raw
    unfolding respond set_status_code append_value contents
    contents-responded s reqn raw =
        contents-append (cleared prev.response.value) (answer_bytes s reqn raw)
          (record { within = omega arith })

    status-responded :
        (s : Server) (reqn : ℕ) (raw : Bytes)
        → (responded s reqn raw).response.status_code ≡ (handled s reqn raw).1
    unfolding respond set_status_code append_value
    status-responded s reqn raw = refl

    serve-line :
        (s : Server) (reqn : ℕ) (raw : Bytes)
        → length raw ≤ max_bytes_size
        → length (answer_bytes s reqn raw) ≤ max_bytes_size
        → length (answer_bytes s reqn raw) + 5 ≤ room
        → serve uuid codec text error_message s prev conn
            (arriving (frame reqn raw) eof)
            (open_writer room)
          ≡ (
            (handled s reqn raw).0,
            accepted
                (open_writer room)
                (frame ((handled s reqn raw).1 % 256) (answer_bytes s reqn raw)),
            true,
          )
    unfolding serve after_read Contexts.write_response
    serve-line s reqn raw small_raw small fits =
        let text_of : length (contents (responded s reqn raw).response.value)
            ≡ length (answer_bytes s reqn raw) =
          ap length (contents-responded s reqn raw) in
        let written =
          write_response-fits (open_writer room) (responded s reqn raw).response refl (omega arith)
            (omega arith) in
        ap (after_read uuid codec text error_message s (open_writer room))
          (read_request-line raw reqn small_raw)
        ∙ ap (after_handle uuid codec text error_message (open_writer room))
            (handle_ctx-read_ctx s reqn raw)
        ∙ ap (after_write uuid codec text error_message (handled s reqn raw).0) written
        ∙ ap
            (λ bytes. (
              (handled s reqn raw).0,
              accepted (open_writer room)
                  (frame ((responded s reqn raw).response.status_code % 256) bytes),
              true,
            ))
            (contents-responded s reqn raw)
        ∙ ap
            (λ status. (
              (handled s reqn raw).0,
              accepted (open_writer room) (frame (status % 256) (answer_bytes s reqn raw)),
              true,
            ))
            (status-responded s reqn raw)

    received-line :
        (s : Server) (status : ℕ) (bytes : Bytes)
        → status < 256
        → length bytes ≤ max_bytes_size
        → after_serve prev_resp (s, accepted (open_writer room) (frame (status % 256) bytes), true)
          ≡ (s, replied status bytes)
    received-line s status bytes byte small =
        let exact : status % 256 ≡ status = omega arith in
        ap (λ n. received s (read_response (arriving (frame n bytes) eof) prev_resp)) exact
        ∙ ap (λ xs. received s (read_response (arriving xs eof) prev_resp))
            (sym (append-nil (frame status bytes)))
        ∙ ap (received s) (read_response-frame prev_resp status bytes [] eof small)
        ∙ ap (λ got. (s, replied status got))
            (contents-overwrite-resize (cleared prev_resp.value) bytes)

    -- The handler's answer goes through the frames unchanged: where the request, which carries its
    -- number and its message, and the answer are within the size limit and the writers' room, and the
    -- status fits one byte, the exchange over the wire leaves the cloud as the handler does, and
    -- brings the client the handler's status and the bytes of its value.
    pub exchange-handled :
        (s : Server) (req : Request) (reqn : ℕ) (raw : Bytes)
        → Carries req reqn raw
        → length raw ≤ max_bytes_size
        → length raw + 5 ≤ room
        → length (answer_bytes s reqn raw) ≤ max_bytes_size
        → length (answer_bytes s reqn raw) + 5 ≤ room
        → (handled s reqn raw).1 < 256
        → exchange s req
          ≡ ((handled s reqn raw).0, replied (handled s reqn raw).1 (answer_bytes s reqn raw))
    unfolding exchange after_request
    exchange-handled s req reqn raw (named, filled) small_raw fits_raw small fits byte =
        let size : length (contents req.value) ≡ length raw = ap length filled in
        let written = write_request-fits (open_writer room) req refl (omega arith) (omega arith) in
        ap (after_request s) written
        ∙ ap
            (λ code.
              after_request s (accepted (open_writer room) (frame code (contents req.value)), none))
            named
        ∙ ap (λ bytes. after_request s (accepted (open_writer room) (frame reqn bytes), none))
            filled
        ∙ ap (after_serve prev_resp) (serve-line s reqn raw small_raw small fits)
        ∙ received-line (handled s reqn raw).0 (handled s reqn raw).1 (answer_bytes s reqn raw) byte
            small
