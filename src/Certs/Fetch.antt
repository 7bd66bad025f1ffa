-- ===== src/Certs/Fetch.antt =====
-- `Fetch` and `parseCARenewResponse` of pkg/client/certprovider.go: a certificate is renewed at the CA.
use dcr_sdk.Common.{
  ℕ, ◌==◌, Bool, true, false, ◌||◌, Option, none, some, List, [], ◌∷◌, Bytes, codes, Result, ok,
  err, is_empty, if◌then◌else◌,
}
use dcr_sdk.Common.Strings.{bytes_eq}
use dcr_sdk.Certs.{Pki}

pub record CaRenewResponse : Type 0 where
  pub common_name : Bytes
  pub serial : Bytes
  pub chain : Bytes
  pub key : Bytes
  pub status : Bytes
  pub reason : Bytes

pub data FetchError : Type 0 where
  ask_failed not_issued_yet decode_failed : FetchError
  ca_answered : ℕ → Bytes → FetchError
  issued_nothing : Bytes → Bytes → FetchError
  unusable_certificate : FetchError

-- What one `askCA` comes to, and whether the context is done by then, or before the poll interval
-- after it is over.
pub data Attempt : Type 0 where
  failed : Bool → Attempt
  answered : ℕ → Bytes → Bool → Attempt

abbrev pub status_ok : ℕ
status_ok = 200

abbrev pub status_accepted : ℕ
status_accepted = 202

abbrev pub is_absent : Bytes → Bool
is_absent s = is_empty s || bytes_eq s (codes "null")

module _ (pki : Pki) (decode_json : Bytes → Option CaRenewResponse) where
  usable : CaRenewResponse → Result FetchError (Bytes × Bytes)
  usable r =
      if is_absent r.chain || is_absent r.key
      then err (issued_nothing r.status r.reason)
      else (elim (pki.key_pair r.chain r.key) [
        | none ↦ err unusable_certificate
        | some chain ↦ ok (r.chain, r.key)
      ])

  unfoldable pub parse_ca_renew_response : Bytes → Result FetchError (Bytes × Bytes)
  unfolding usable
  parse_ca_renew_response body = elim (decode_json body) [
    | none ↦ err decode_failed
    | some r ↦ usable r
  ]

  -- The loop of `Fetch`, over what its attempts come to; `none` if it has not ended with them.
  unfoldable pub fetch_loop : Bool → List Attempt → Option (Result FetchError (Bytes × Bytes))
  unfolding parse_ca_renew_response
  fetch_loop accepted [] = none
  fetch_loop accepted (failed done ∷ attempts) =
      if accepted
      then (if done then some (err not_issued_yet) else some (err ask_failed))
      else some (err ask_failed)
  fetch_loop accepted (answered status body done ∷ attempts) =
      let polled = fetch_loop true attempts in
      if status == status_ok
      then some (parse_ca_renew_response body)
      else if status == status_accepted
      then if done then some (err not_issued_yet) else polled
      else some (err (ca_answered status body))

  unfoldable pub fetch : List Attempt → Option (Result FetchError (Bytes × Bytes))
  unfolding fetch_loop
  fetch attempts = fetch_loop false attempts
