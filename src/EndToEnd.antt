-- ===== src/EndToEnd.antt =====
-- The client of pkg/client and the cloud of internal/testcloud together, over the frames of
-- pkg/contract and the identities of pkg/serverauth.
--
-- The cloud's connections are in the state `conn`, its contexts and the client's response objects may
-- hold anything of earlier requests.
pub mod Calls
pub mod Reports
pub mod Targets
pub mod Touches
pub mod Refusals
pub mod Examples
use dcr_sdk.Common.{ℕ, ◌≡◌, Bytes}
use dcr_sdk.Contract.Request.{Request}
use dcr_sdk.Contract.Response.{Response}
use dcr_sdk.Contract.Context.{RequestCtx}
use dcr_sdk.Payer.{UuidLibrary}
use dcr_sdk.Auth.{NetConn}
use dcr_sdk.Cloud.{Server, CloudCodec, CloudError}
use dcr_sdk.Cloud.Exchange.{exchange}
use dcr_sdk.Client.Requests.{Transport}

-- The cloud as the client's connections meet it.
pub record CloudSide : Type 0 where
  pub codec : CloudCodec
  pub text : ℕ → ℕ → Bytes
  pub error_message : CloudError → Bytes
  pub room : ℕ
  pub ctx : RequestCtx NetConn
  pub resp : Response
  pub conn : NetConn
  pub server : Server

-- What is relied on of fastrpc, whose code is elsewhere: on each connection, `DoDeadline` writes the
-- request's frame, the cloud's server reads it into a context, calls the handler and writes the
-- response's frame, and the client reads that.
abbrev pub IsCarried : UuidLibrary → CloudSide → Transport → Type 0
IsCarried uuid side transport =
    (i j : ℕ) (req : Request)
    → transport i j req
      ≡ (exchange uuid side.codec side.text side.error_message side.room side.ctx side.resp
          side.conn side.server req).1
