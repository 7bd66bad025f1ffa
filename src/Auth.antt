-- ===== src/Auth.antt =====
-- pkg/serverauth/auth.go: which partner a connection of the server belongs to.
--
-- crypto/x509 and the package mtls, which is outside the repository, are arguments, `none` for their
-- errors. crypto/tls calls what `NewTLSConfig` installs: `GetConfigForClient` once in a handshake,
-- and then `VerifyPeerCertificate` of the configuration that it returns, if the handshake asks for a
-- certificate and is not a resumed one.
pub mod Handshake
pub mod Identity
pub mod Reachable
mod Examples
use dcr_sdk.Common.{
  ℕ, ◌+◌, ◌%◌, ◌^◌, ◌==◌, Bool, true, false, not, Option, none, some, List, [], ◌∷◌, Bytes, Result,
  ok, err, is_empty, if◌then◌else◌,
}
use dcr_sdk.Certs.{Certificate}
use dcr_sdk.Contract.Context.{NetAddr}
use dcr_sdk.Payer.{UuidLibrary, nil_uuid}

-- `authConn`
pub record AuthConn : Type 0 where
  pub requests : ℕ
  pub auth_id : ℕ

unfoldable pub increment_requests : AuthConn → AuthConn × ℕ
increment_requests c =
    let requests = (c.requests + 1) % 2 ^ 64 in (record c { requests = requests }, requests)

-- A `net.Conn`, with its authentication state if a `Listener` accepted it, and its addresses, which
-- may be nil.
pub record NetConn : Type 0 where
  pub auth : Option AuthConn
  pub remote_addr : Option NetAddr
  pub local_addr : Option NetAddr

-- What `Accept` of the listener inside returns: a connection, an error, or both.
pub data Incoming : Type 0 where
  incoming : NetConn → Incoming
  failed : Incoming
  failed_with : NetConn → Incoming

-- `Listener.Accept`; `panicked` where the code panics.
pub data Accepted : Type 0 where
  accepted : NetConn → Accepted
  not_accepted panicked : Accepted

-- `&authConn{Conn: c}`
abbrev pub with_auth : NetConn → NetConn
with_auth c = record c { auth = some (record { requests = 0; auth_id = nil_uuid }) }

unfoldable pub accept : Incoming → Accepted
accept (incoming c) = accepted (with_auth c)
accept failed = not_accepted
accept (failed_with c) = panicked

-- `GetUUID`
unfoldable pub get_uuid : NetConn → ℕ × Bool
get_uuid conn = elim conn.auth [
  | none ↦ (nil_uuid, false)
  | some c ↦ (c.auth_id, not (c.auth_id == nil_uuid))
]

-- `SetUUID`: the connection, and whether there is an error.
unfoldable pub set_uuid : NetConn → ℕ → NetConn × Bool
set_uuid conn uid = elim conn.auth [
  | none ↦ (conn, true)
  | some c ↦ (record conn { auth = some (record c { auth_id = uid }) }, false)
]

-- What the certificates are checked with. `check_status` answers whether the status is good, and
-- `uuid_of` gives the UUID that a certificate names, an empty text for none.
pub record AuthLibrary : Type 0 where
  pub parse_certificate : Bytes → Option Certificate
  pub check_tls : Certificate → List Certificate → List Certificate → Option ℕ → Bool
  pub check_status : Certificate → Option Certificate → Option Bool
  pub uuid_of : Certificate → Bytes

-- `MTLSConfig`, without its HTTP client.
pub record AuthConfig : Type 0 where
  pub roots : List Certificate
  pub intermediates : List Certificate
  pub current_time : Option ℕ
  pub issuer : Option Certificate
  pub require_ocsp : Bool

pub data AuthError : Type 0 where
  certificate_missing parse_failed validate_failed : AuthError
  status_failed status_not_good uuid_missing uuid_unreadable : AuthError
  auth_unavailable refused_before : AuthError

module _ (lib : AuthLibrary) (uuid : UuidLibrary) (cfg : AuthConfig) where
  of_text : Bytes → Result AuthError ℕ
  of_text raw_uuid =
      if is_empty raw_uuid
      then err uuid_missing
      else (elim (uuid.parse raw_uuid) [ none ↦ err uuid_unreadable | some uid ↦ ok uid ])

  of_status : Certificate → Option Bool → Result AuthError ℕ
  unfolding of_text
  of_status leaf none = err status_failed
  of_status leaf (some false) = err status_not_good
  of_status leaf (some true) = of_text (lib.uuid_of leaf)

  of_leaf : Option Certificate → Result AuthError ℕ
  unfolding of_status
  of_leaf none = err parse_failed
  of_leaf (some leaf) =
      if not (lib.check_tls leaf cfg.roots cfg.intermediates cfg.current_time)
      then err validate_failed
      else if cfg.require_ocsp
      then of_status leaf (lib.check_status leaf cfg.issuer)
      else of_text (lib.uuid_of leaf)

  unfoldable pub authenticate_client_certificate : List Bytes → Result AuthError ℕ
  unfolding of_leaf
  authenticate_client_certificate [] = err certificate_missing
  authenticate_client_certificate (raw ∷ raws) = of_leaf (lib.parse_certificate raw)
