-- ===== src/Contract/Context.antt =====
-- pkg/contract/requestCtx.go: the context in which a server handles one request after another of a
-- connection. Its logger is left out. `C` stands for the connections, which have addresses.
use dcr_sdk.Common.{ℕ, Option, none, some, [], ◌∷◌, Bytes}
use dcr_sdk.Contract.Io.{Reader, Writer}
use dcr_sdk.Contract.Request.{Request, RequestError}
use dcr_sdk.Contract.Request as Requests
use dcr_sdk.Contract.Response.{Response, ResponseError}
use dcr_sdk.Contract.Response as Responses

-- A `net.Addr`: a TCP address with its IP, or another.
pub data NetAddr : Type 0 where
  tcp_addr : Bytes → NetAddr
  other_addr : NetAddr

-- `net.IPv4zero`
abbrev pub ipv4zero : Bytes
ipv4zero = 0 ∷ 0 ∷ 0 ∷ 0 ∷ 0 ∷ 0 ∷ 0 ∷ 0 ∷ 0 ∷ 0 ∷ 255 ∷ 255 ∷ 0 ∷ 0 ∷ 0 ∷ 0 ∷ []

abbrev pub zero_tcp_addr : NetAddr
zero_tcp_addr = tcp_addr ipv4zero

abbrev or_zero : Option NetAddr → NetAddr
or_zero none = zero_tcp_addr
or_zero (some addr) = addr

abbrev ip_of : NetAddr → Bytes
ip_of (tcp_addr ip) = ip
ip_of other_addr = ipv4zero

pub record RequestCtx (C : Type 0) : Type 0 where
  pub request : Request
  pub response : Response
  pub conn : C

module _ {C : Type 0} where
  unfoldable pub init : RequestCtx C → C → RequestCtx C
  init ctx conn = record {
    request = Requests.reset ctx.request;
    response = Responses.reset ctx.response;
    conn = conn;
  }

  unfoldable pub read_request : Reader → RequestCtx C → Reader × RequestCtx C × Option RequestError
  read_request r ctx =
      let (r', req, e) = Requests.read_request r ctx.request in
      (r', record ctx { request = req }, e)

  unfoldable pub write_response : Writer → RequestCtx C → Writer × Option ResponseError
  write_response w ctx = Responses.write_response w ctx.response

  -- `Write`
  unfoldable pub write : RequestCtx C → Bytes → RequestCtx C × ℕ
  write ctx p =
      let (resp, n) = Responses.write ctx.response p in (record ctx { response = resp }, n)

  -- `ConcurrencyLimitError`, for the context's handler.
  unfoldable pub concurrency_limit_error :
      Option (RequestCtx C → ℕ → RequestCtx C) → RequestCtx C → ℕ → RequestCtx C
  concurrency_limit_error none ctx concurrency = ctx
  concurrency_limit_error (some handler) ctx concurrency = handler ctx concurrency

  -- The addresses, for what the connection says of its own.
  unfoldable pub remote_addr : (C → Option NetAddr) → RequestCtx C → NetAddr
  remote_addr addr_of ctx = or_zero (addr_of ctx.conn)

  unfoldable pub local_addr : (C → Option NetAddr) → RequestCtx C → NetAddr
  local_addr addr_of ctx = or_zero (addr_of ctx.conn)

  unfoldable pub remote_ip : (C → Option NetAddr) → RequestCtx C → Bytes
  unfolding remote_addr
  remote_ip addr_of ctx = ip_of (remote_addr addr_of ctx)
