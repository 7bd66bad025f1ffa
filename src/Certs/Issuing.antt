-- ===== src/Certs/Issuing.antt =====
-- A CA that issues a certificate in time is not missed.
use dcr_sdk.Common.{
  ℕ, zero, suc, ◌+◌, ◌*◌, ◌<◌, ◌≤◌, leb, leb→le, leb_false→lt, le→leb, ◌≡◌, refl, ap, ◌∙◌, inl, inr,
  Bool, true, false, Bool-cases, Option, some, Bytes, take, ok, arith, if◌then◌else◌,
}
use dcr_sdk.Certs.{Pki}
use dcr_sdk.Certs.Fetch.{
  CaRenewResponse, answered, status_ok, status_accepted, parse_ca_renew_response, fetch_loop, fetch,
}
use dcr_sdk.Certs.Timed.{CaAnswer, ask, attempts, fetch_from, ca_response_limit}

-- The CA answers within `latency` whenever it is asked: it has accepted the renewal, and from `ready`
-- on it has issued it, with `body`.
pub record IsIssuing (ca : ℕ → CaAnswer) (ready latency : ℕ) (body : Bytes) : Type 0 where
  pub prompt : (t : ℕ) → (ca t).takes ≤ latency
  pub replies :
      (t : ℕ) → (ca t).reply ≡ some (if leb ready t then status_ok else status_accepted, some body)

not_late : (deadline t : ℕ) → t < deadline → leb deadline t ≡ false
not_late deadline t h = ground arith

module _ (pki : Pki) (decode_json : Bytes → Option CaRenewResponse) (ca : ℕ → CaAnswer)
    (deadline poll ready latency : ℕ) (body : Bytes) (pair : Bytes × Bytes)
    (issuing : IsIssuing ca ready latency body)
    (parsed : parse_ca_renew_response pki decode_json (take ca_response_limit body) ≡ ok pair)
    (in_time : ready + latency + latency + poll < deadline) where
  ask-issued :
      (now : ℕ)
      → now + (ca now).takes < deadline
      → ask ca deadline poll now
        ≡ answered
            (if leb ready now then status_ok else status_accepted)
            (take ca_response_limit body)
            (leb deadline (now + (ca now).takes + poll))
  unfolding ask
  ask-issued now h = rw (not_late deadline (now + (ca now).takes) h, issuing.replies now) refl

  -- Asked when it has issued.
  issued-now :
      (n now : ℕ) (accepted : Bool)
      → now + (ca now).takes < deadline
      → ready ≤ now
      → fetch_loop pki decode_json accepted (attempts ca deadline poll (suc n) now) ≡ some (ok pair)
  unfolding attempts fetch_loop
  issued-now n now accepted early late =
      rw (ask-issued now early, le→leb ready now late) (ap some parsed)

  -- Asked before.
  accepted-now :
      (n now : ℕ) (accepted : Bool)
      → now + (ca now).takes + poll < deadline
      → leb ready now ≡ false
      → fetch_loop pki decode_json accepted (attempts ca deadline poll (suc n) now)
        ≡ fetch_loop pki decode_json true
            (attempts ca deadline poll n (now + (ca now).takes + poll))
  unfolding attempts fetch_loop
  accepted-now n now accepted early before =
      rw (ask-issued now (omega arith), before, not_late deadline _ early) refl

  fetch_loop-issued :
      (n now : ℕ) (accepted : Bool)
      → now ≤ ready + latency + poll
      → ready ≤ now + n * poll
      → fetch_loop pki decode_json accepted (attempts ca deadline poll (suc n) now) ≡ some (ok pair)
  fetch_loop-issued zero now accepted soon enough =
      issued-now zero now accepted (omega (arith, issuing.prompt now)) (omega arith)
  fetch_loop-issued (suc n) now accepted soon enough =
      let prompt = issuing.prompt now in
      elim (Bool-cases (leb ready now)) [
        | inl e ↦
            issued-now (suc n) now accepted (omega (arith, issuing.prompt now)) (leb→le ready now e)
        | inr e ↦
            let before = leb_false→lt ready now e in
            accepted-now (suc n) now accepted (omega (arith, issuing.prompt now)) e
            ∙ fetch_loop-issued n (now + (ca now).takes + poll) true
                (omega (arith, issuing.prompt now)) (grind arith)
      ]

  -- `Fetch` returns the pair that the CA issues, if the CA answers each request within the latency, and
  -- has issued the pair so early that two latencies and a poll interval are left until the deadline.
  -- It takes as many rounds as there are poll intervals until the pair is there, and one more.
  pub fetch_from-issued :
      (n now : ℕ)
      → now ≤ ready
      → ready ≤ now + n * poll
      → fetch_from ca deadline poll pki decode_json (suc n) now ≡ some (ok pair)
  unfolding fetch_from fetch
  fetch_from-issued n now before enough = fetch_loop-issued n now false (omega arith) enough
