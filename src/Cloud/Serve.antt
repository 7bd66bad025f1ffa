-- ===== src/Cloud/Serve.antt =====
-- The cloud on a connection: what `handle` of internal/testcloud/server.go writes into the context,
-- and a request served from the bytes of its frame to the bytes of the response's.
--
-- fastrpc's server is outside the repository. `serve` is the order in which it is relied on to call
-- the methods of its `HandlerCtx` and the handler: the context is initialised, a request is read into
-- it and handled, and the response is written; the connection is closed where one of these fails.
use dcr_sdk.Common.{ℕ, Bool, true, false, Option, none, some, Bytes, if◌then◌else◌}
use dcr_sdk.Contract.Io.{Reader, Writer}
use dcr_sdk.Contract.Request.{RequestError}
use dcr_sdk.Contract.Request as Requests
use dcr_sdk.Contract.Response.{Response, ResponseError, set_status_code, append_value}
use dcr_sdk.Contract.Context.{RequestCtx, init, read_request, write_response}
use dcr_sdk.Payer.{UuidLibrary}
use dcr_sdk.Auth.{NetConn, get_uuid}
use dcr_sdk.Cloud.{Server, CloudCodec, CloudError, Value, message, error_text, handle}

-- The partner of the connection, `none` where `GetUUID` does not answer one.
abbrev pub partner_of : NetConn → Option ℕ
partner_of conn = let (uid, known) = get_uuid conn in if known then some uid else none

module _ (uuid : UuidLibrary) (codec : CloudCodec) (text : ℕ → ℕ → Bytes)
    (error_message : CloudError → Bytes) where
  -- The bytes of a response's value.
  abbrev pub value_bytes : Value → Bytes
  value_bytes (message bytes) = bytes
  value_bytes (error_text e) = error_message e

  -- `SetStatusCode` and `Write`
  unfoldable pub respond : Response → ℕ → Value → Response
  respond resp status value = append_value (set_status_code resp status) (value_bytes value)

  unfoldable pub handle_ctx : Server → RequestCtx NetConn → Server × RequestCtx NetConn
  unfolding respond
  handle_ctx s ctx =
      let (s', status, value) =
        handle uuid codec text s (partner_of ctx.conn) (Requests.get_name ctx.request)
          (Requests.value ctx.request) in
      (s', record ctx { response = respond ctx.response status value })

  abbrev pub after_write : Server → Writer × Option ResponseError → Server × Writer × Bool
  after_write s (w, none) = (s, w, true)
  after_write s (w, some e) = (s, w, false)

  abbrev pub after_handle : Writer → Server × RequestCtx NetConn → Server × Writer × Bool
  after_handle w (s, ctx) = after_write s (write_response w ctx)

  unfoldable pub after_read :
      Server → Writer → Reader × RequestCtx NetConn × Option RequestError → Server × Writer × Bool
  unfolding handle_ctx
  after_read s w (r, ctx, some e) = (s, w, false)
  after_read s w (r, ctx, none) = after_handle w (handle_ctx s ctx)

  -- One request of a connection, with the context that the server uses again. The result says whether
  -- the connection stays open.
  unfoldable pub serve :
      Server → RequestCtx NetConn → NetConn → Reader → Writer → Server × Writer × Bool
  unfolding after_read
  serve s prev conn r w = after_read s w (read_request r (init prev conn))
