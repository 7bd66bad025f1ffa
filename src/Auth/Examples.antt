-- ===== src/Auth/Examples.antt =====
-- Tests of the server's authentication by evaluation, and the theorems at concrete inputs.
use dcr_sdk.Common.{
  Any, ◌⊎◌, ℕ, ◌≡◌, refl, ◌↔◌, ◌==◌, true, Option, none, some, List, [], ◌∷◌, Bytes, ok, err, not,
  if◌then◌else◌,
}
use dcr_sdk.Certs.{Certificate}
use dcr_sdk.Payer.OneChar.{parse_one, one_char}
use dcr_sdk.Auth.{
  NetConn, AuthLibrary, AuthConfig, with_auth, incoming, failed_with, accept, accepted, panicked,
  increment_requests, get_uuid, set_uuid, of_text, of_status, of_leaf,
  authenticate_client_certificate, certificate_missing, parse_failed, validate_failed,
  status_not_good, uuid_missing, auth_unavailable,
}
use dcr_sdk.Auth.Handshake.{
  new_tls_config, selected, previous_next, verify_peer_certificate, zero_config,
  require_any_client_cert, version_tls12,
}
use dcr_sdk.Auth.Identity.{Identifies, authenticate_client_certificate_iff}
use dcr_sdk.Auth.Reachable.{Reach, here, later, verified, bound, IsCertified, get_uuid-Reach}

-- A certificate is written as its serial number, which names its partner. That of 100 is not valid,
-- and that of 50 is revoked.
abbrev parsed : Bytes → Option Certificate
parsed [] = none
parsed (n ∷ rest) = some (record { serial = n; not_after = 0 })

abbrev named : ℕ → Bytes
named n = if n == 0 then [] else n ∷ []

abbrev library : AuthLibrary
library = record {
  parse_certificate = parsed;
  check_tls = λ leaf roots intermediates time. not (leaf.serial == 100);
  check_status = λ leaf issuer. some (not (leaf.serial == 50));
  uuid_of = λ leaf. named leaf.serial;
}

abbrev with_ocsp : AuthConfig
with_ocsp = record {
  roots = [];
  intermediates = [];
  current_time = none;
  issuer = none;
  require_ocsp = true;
}

abbrev client_certs : List Bytes
client_certs = (7 ∷ []) ∷ []

abbrev plain : NetConn
plain = record { auth = none; remote_addr = none; local_addr = none }

computed : Unit {0}
unfolding authenticate_client_certificate of_leaf of_status of_text parse_one
    verify_peer_certificate set_uuid get_uuid increment_requests accept new_tls_config selected
computed = tt

-- What each certificate of a client is answered with.
answers :
    (authenticate_client_certificate library one_char with_ocsp client_certs ≡ ok 7)
    × (authenticate_client_certificate library one_char with_ocsp [] ≡ err certificate_missing)
    × (authenticate_client_certificate library one_char with_ocsp ([] ∷ []) ≡ err parse_failed)
    × (authenticate_client_certificate library one_char with_ocsp ((100 ∷ []) ∷ [])
        ≡ err validate_failed)
    × (authenticate_client_certificate library one_char with_ocsp ((50 ∷ []) ∷ [])
        ≡ err status_not_good)
    × (authenticate_client_certificate library one_char with_ocsp ((0 ∷ []) ∷ [])
        ≡ err uuid_missing)
unfolding computed
answers = (refl, refl, refl, refl, refl, refl)

-- A connection that no listener of the package accepted cannot be identified.
not_ours :
    (verify_peer_certificate library one_char with_ocsp zero_config plain client_certs).1
    ≡ some auth_unavailable
unfolding computed
not_ours = refl

accepting :
    (accept (incoming plain) ≡ accepted (with_auth plain)) × (accept (failed_with plain) ≡ panicked)
unfolding computed
accepting = (refl, refl)

configured :
    ((new_tls_config none).client_auth ≡ require_any_client_cert)
    × ((new_tls_config none).min_version ≡ version_tls12)
    × (selected zero_config (previous_next (some (new_tls_config none)))
        ≡ some (new_tls_config none))
unfolding computed
configured = (refl, refl, refl)

authenticate_client_certificate_iff_example :
    (authenticate_client_certificate library one_char with_ocsp client_certs ≡ ok 7) ↔ (
      (raw : Bytes) × (rest : List Bytes) × (leaf : Certificate) × (client_certs ≡ raw ∷ rest)
      × (parsed raw ≡ some leaf)
      × Identifies library one_char with_ocsp leaf 7)
authenticate_client_certificate_iff_example =
    authenticate_client_certificate_iff library one_char with_ocsp client_certs 7

-- The connection of a client with a certificate, after its handshake.
abbrev shaken : NetConn
shaken =
    (verify_peer_certificate library one_char with_ocsp (new_tls_config none) (with_auth plain)
      client_certs).0

-- A handler binds it to another identity then.
abbrev rebound : NetConn
rebound = (set_uuid shaken 9).0

abbrev reached : Reach library one_char with_ocsp (with_auth plain) rebound (9 ∷ [])
unfolding computed
reached = later (later here (verified (new_tls_config none) client_certs refl)) (bound 9)

get_uuid-Reach_example :
    IsCertified library one_char with_ocsp (get_uuid rebound).0
    ⊎ Any (λ u. u ≡ (get_uuid rebound).0) (9 ∷ [])
unfolding computed
get_uuid-Reach_example =
    get_uuid-Reach library one_char with_ocsp plain rebound (9 ∷ []) reached refl
