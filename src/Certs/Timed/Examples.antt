-- ===== src/Certs/Timed/Examples.antt =====
-- Tests of `Fetch` over time by evaluation, and the theorems at concrete inputs.
use dcr_sdk.Common.{
  ℕ, leb, ◌≡◌, refl, Option, none, some, [], ◌∷◌, Bytes, codes, Result, ok, err, false,
  if◌then◌else◌, arith,
}
use dcr_sdk.Common.Int.{pos, negsuc}
use dcr_sdk.Common.Strings.{bytes_eq}
use dcr_sdk.Certs.{Pki}
use dcr_sdk.Certs.Fetch.{
  CaRenewResponse, FetchError, not_issued_yet, ask_failed, fetch, parse_ca_renew_response,
}
use dcr_sdk.Certs.Timed.{CaAnswer, attempts, fetch_from, fetch_url, poll_interval}
use dcr_sdk.Certs.Deadline.{fetch_from-ends}
use dcr_sdk.Certs.Issuing.{IsIssuing, fetch_from-issued}

abbrev pki : Pki
pki = record {
  key_pair = λ c k. some (c ∷ []);
  parse_certificate = λ der. none;
  check_tls = λ leaf roots intermediates now. false;
  decode_pem = λ pem. none;
}

abbrev decode_json : Bytes → Option CaRenewResponse
decode_json body =
    some (record {
      common_name = [];
      serial = [];
      chain = body;
      key = 1 ∷ [];
      status = [];
      reason = [];
    })

-- A CA that answers after a unit of time, and has issued the certificate 6 after 25.
abbrev ca : ℕ → CaAnswer
ca t = record { takes = 1; reply = some (if leb 25 t then 200 else 202, some (6 ∷ [])) }

-- One that answers nothing, and one that is slow.
abbrev silent : ℕ → CaAnswer
silent t = record { takes = 1; reply = none }

abbrev slow : ℕ → CaAnswer
slow t = record { takes = 70; reply = some (202, some []) }

computed : Unit {0}
unfolding fetch_from attempts fetch parse_ca_renew_response bytes_eq fetch_url poll_interval
computed = tt

fetches :
    (fetch_from ca 100 10 pki decode_json 4 0 ≡ some (ok (6 ∷ [], 1 ∷ [])))
    × (fetch_from ca 20 10 pki decode_json 4 0 ≡ some (err not_issued_yet))
    × (fetch_from silent 100 10 pki decode_json 4 0 ≡ some (err ask_failed))
    × (fetch_from slow 100 10 pki decode_json 4 0 ≡ some (err not_issued_yet))
unfolding computed
fetches = (refl, refl, refl, refl)

urls :
    (fetch_url [] ≡ codes "https://ca.mygaru.com/cert")
    × (fetch_url (codes "https://ca//") ≡ codes "https://ca/cert")
    × (poll_interval (negsuc 4) ≡ 20_000_000_000)
    × (poll_interval (pos 7) ≡ 7)
unfolding computed
urls = (refl, refl, refl, refl)

fetch_from-ends_example :
    (out : Result FetchError (Bytes × Bytes)) × (fetch_from slow 100 10 pki decode_json 10 0
      ≡ some out)
fetch_from-ends_example =
    fetch_from-ends pki decode_json slow 100 10 10 0 (omega arith) (omega arith)

issuing : IsIssuing ca 25 1 (6 ∷ [])
issuing = record { prompt = λ t. omega arith; replies = λ t. refl }

fetch_from-issued_example : fetch_from ca 40 10 pki decode_json 4 0 ≡ some (ok (6 ∷ [], 1 ∷ []))
unfolding parse_ca_renew_response bytes_eq
fetch_from-issued_example =
    fetch_from-issued pki decode_json ca 40 10 25 1 (6 ∷ []) (6 ∷ [], 1 ∷ []) issuing refl
      (omega arith) 3 0 (omega arith) (omega arith)
