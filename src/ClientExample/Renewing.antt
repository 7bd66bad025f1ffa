-- ===== src/ClientExample/Renewing.antt =====
-- A renewal of client-example from the request to the CA to a restart.
use dcr_sdk.Common.{
  ℕ, suc, ◌+◌, ◌*◌, ◌≤◌, ◌<◌, ◌≡◌, ◌≢◌, sym, ap, subst, ok-injective, ◌∙◌, true, Option, some, List,
  Bytes, All, take, ok,
}
use dcr_sdk.Common.Int.{pos}
use dcr_sdk.Contract.Request.{Request}
use dcr_sdk.Contract.Pools.{IsFresh}
use dcr_sdk.Certs.{Pki, Certificate, leaf, current_pem}
use dcr_sdk.Certs.Fetch.{CaRenewResponse, parse_ca_renew_response}
use dcr_sdk.Certs.Timed.{
  CaAnswer, fetch_from, renew_fetch_timeout, poll_interval, default_ca_poll_interval,
  ca_response_limit,
}
use dcr_sdk.Certs.Issuing.{IsIssuing, fetch_from-issued}
use dcr_sdk.Certs.Renewal.{AutoRenewer, Renewals, check}
use dcr_sdk.Certs.Waits.{IsGood, check-good}
use dcr_sdk.Files.{FileSystem, Faults}
use dcr_sdk.Mtls.{MtlsClient, get_client_certificate}
use dcr_sdk.ClientExample.{Flags, saves, start}
use dcr_sdk.ClientExample.Restart.{saved, renewal-survives}

module _ (pki : Pki) (carried : List Certificate × List Certificate) (pool : List Request)
    (f : Flags) (cert_tmp key_tmp : Bytes) (faults : Faults) (fs : FileSystem)
    (decode_json : Bytes → Option CaRenewResponse) where
  -- A renewal of the command's client that is due succeeds, where the CA answers within the
  -- latency and issues a pair with two latencies and a poll interval of the two minutes left, and
  -- the pair is good: its certificate has another serial number, loads with its key, is saved, and
  -- ends late enough. `Fetch` then returns that pair, in one round more than the poll intervals
  -- until it is there, the check reports the renewal, `CertPEM` is its certificate, and both the
  -- client and one that the command makes from the saved files present the new certificate. The
  -- paths are distinct where one's being the other would lose a file.
  pub due-renewed :
      (made : MtlsClient) (n : Renewals) (r : AutoRenewer) (fs' : FileSystem) (ca : ℕ → CaAnswer)
      (now ready latency rounds : ℕ) (body c k : Bytes)
      (good : IsGood pki
        (saved pki carried pool f cert_tmp key_tmp faults fs)
        made.provider
        r
        now
        (ok (c, k)))
      → All IsFresh pool
      → key_tmp ≢ f.key_path
      → cert_tmp ≢ f.cert_path
      → cert_tmp ≢ f.key_path
      → f.cert_path ≢ f.key_path
      → start pki carried pool f fs' ≡ ok made
      → (leaf made.provider).not_after ≤ now + r.before
      → IsIssuing ca ready latency body
      → parse_ca_renew_response pki decode_json (take ca_response_limit body) ≡ ok (c, k)
      → ready + latency + latency + default_ca_poll_interval < now + renew_fetch_timeout
      → now ≤ ready
      → ready ≤ now + rounds * default_ca_poll_interval
      → let on_renewed = saved pki carried pool f cert_tmp key_tmp faults fs in
        let out = check pki on_renewed made.provider n r now (ok (c, k)) in
        (fetch_from ca
            (now + renew_fetch_timeout)
            (poll_interval (pos 0))
            pki
            decode_json
            (suc rounds)
            now
          ≡ some (ok (c, k)))
        × (out.result ≡ ok true)
        × (get_client_certificate out.provider ≡ good.cert)
        × (current_pem out.provider ≡ c)
        × ((made' : MtlsClient) × (start pki carried pool f
                (saves f cert_tmp key_tmp faults fs c k).left
              ≡ ok made')
            × (get_client_certificate made'.provider ≡ good.cert))
  unfolding poll_interval get_client_certificate current_pem
  due-renewed made n r fs' ca now ready latency rounds body c k good fresh kk cert_apart ck distinct
        started due issuing parsed in_time before enough =
      let on_renewed = saved pki carried pool f cert_tmp key_tmp faults fs in
      let (renewed, served) =
        check-good pki on_renewed made.provider n r now (ok (c, k)) good due in
      let presents = ap get_client_certificate served in
      let (c', k', made', came, again, same) =
        renewal-survives pki carried pool f cert_tmp key_tmp faults fs made n r now (ok (c, k)) fs'
          fresh kk cert_apart ck distinct started renewed in
      let from_saved =
        subst
          (λ (t : Bytes × Bytes).
            start pki carried pool f (saves f cert_tmp key_tmp faults fs t.0 t.1).left ≡ ok made')
          (sym (ok-injective came)) again in
      (
        fetch_from-issued pki decode_json ca (now + renew_fetch_timeout) default_ca_poll_interval
            ready latency body (c, k) issuing parsed in_time rounds now before enough,
        renewed,
        presents,
        ap current_pem served ∙ sym (ap (λ (t : Bytes × Bytes). t.0) (ok-injective good.came)),
        (made', from_saved, same ∙ presents),
      )
