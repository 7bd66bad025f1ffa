-- ===== src/Certs/Polling.antt =====
-- When and how a renewal at the CA ends.
use dcr_sdk.Common.{
  ℕ, ◌==◌, ◌≡◌, ◌≢◌, refl, ap, ◌∙◌, ◌↔◌, inl, inr, Bool, true, false, Bool-cases, Option, none,
  some, List, [], ◌∷◌, ◌++◌, Bytes, Result, ok, err, All, Any, if◌then◌else◌, arith,
}
use mathlib.Core.Option.{some-injective}
use dcr_sdk.Certs.{Pki}
use dcr_sdk.Certs.Answers.{Holds, parse_ca_renew_response_iff}
use dcr_sdk.Certs.Fetch.{
  CaRenewResponse, FetchError, not_issued_yet, ca_answered, Attempt, failed, answered, status_ok,
  status_accepted, parse_ca_renew_response, fetch_loop, fetch,
}

-- The CA has taken the renewal on, and the context lasts until it is asked again.
abbrev pub IsPoll : Attempt → Type 0
IsPoll (failed done) = ⊥
IsPoll (answered status body done) = (status ≡ status_accepted) × (done ≡ false)

-- The context is done by the end of the attempt.
abbrev pub IsDone : Attempt → Type 0
IsDone (failed done) = done ≡ true
IsDone (answered status body done) = done ≡ true

module _ (pki : Pki) (decode_json : Bytes → Option CaRenewResponse) where
  fetch_loop-ends :
      (accepted : Bool) (attempts : List Attempt)
      → Any IsDone attempts
      → fetch_loop pki decode_json accepted attempts ≢ none
  unfolding fetch_loop
  fetch_loop-ends accepted [] h = absurd h
  fetch_loop-ends true (failed true ∷ attempts) h = cc
  fetch_loop-ends true (failed false ∷ attempts) h = cc
  fetch_loop-ends false (failed done ∷ attempts) h = cc
  fetch_loop-ends accepted (answered status body done ∷ attempts) h =
      ground (arith, fetch_loop-ends true attempts)

  -- A run of `Fetch` whose context is done at some attempt ends, with a result or an error.
  pub fetch-ends :
      (attempts : List Attempt) → Any IsDone attempts → fetch pki decode_json attempts ≢ none
  unfolding fetch
  fetch-ends attempts h = fetch_loop-ends false attempts h

  -- The attempts up to the one that brings `pair`.
  pub record Issued (attempts : List Attempt) (pair : Bytes × Bytes) : Type 0 where
    pub polls : List Attempt
    pub body : Bytes
    pub done : Bool
    pub rest : List Attempt
    pub in_order : attempts ≡ polls ++ answered status_ok body done ∷ rest
    pub polled : All IsPoll polls
    pub holds : Holds pki decode_json body pair

  Issued-polled :
      (status : ℕ) (body : Bytes) (done : Bool) (attempts : List Attempt) (pair : Bytes × Bytes)
      → status ≡ status_accepted
      → (fetch_loop pki decode_json true attempts ≡ some (ok pair) → Issued attempts pair)
      → (if done then some (err not_issued_yet) else fetch_loop pki decode_json true attempts)
        ≡ some (ok pair)
      → Issued (answered status body done ∷ attempts) pair
  Issued-polled status body true attempts pair poll later h = cc
  Issued-polled status body false attempts pair poll later h =
      let i = later h in
      record {
        polls = answered status body false ∷ i.polls;
        body = i.body;
        done = i.done;
        rest = i.rest;
        in_order = ap (◌∷◌ (answered status body false)) i.in_order;
        polled = ((poll, refl), i.polled);
        holds = i.holds;
      }

  fetch_loop-Issued :
      (accepted : Bool) (attempts : List Attempt) (pair : Bytes × Bytes)
      → fetch_loop pki decode_json accepted attempts ≡ some (ok pair)
      → Issued attempts pair
  unfolding fetch_loop
  fetch_loop-Issued accepted [] pair h = cc
  fetch_loop-Issued true (failed true ∷ attempts) pair h = cc
  fetch_loop-Issued true (failed false ∷ attempts) pair h = cc
  fetch_loop-Issued false (failed done ∷ attempts) pair h = cc
  fetch_loop-Issued accepted (answered status body done ∷ attempts) pair h =
      elim (Bool-cases (status == status_ok)) [
        | inl fine ↦ record {
          polls = [];
          body = body;
          done = done;
          rest = attempts;
          in_order = ap (λ s. answered s body done ∷ attempts) (ground arith);
          polled = tt;
          holds =
              (parse_ca_renew_response_iff pki decode_json body pair).0
                (some-injective _ _ (rw fine at h));
        }
        | inr other ↦ elim (Bool-cases (status == status_accepted)) [
          | inl poll ↦
              Issued-polled status body done attempts pair (ground arith)
                (fetch_loop-Issued true attempts pair) (rw (other, poll) at h)
          | inr refused ↦
              let nothing : Path (Option (Result FetchError (Bytes × Bytes)))
                  (some (err (ca_answered status body))) (some (ok pair)) =
                rw (other, refused) at h in
              cc
        ]
      ]

  Issued-fetch_loop :
      (accepted : Bool) (polls rest : List Attempt) (body : Bytes) (done : Bool)
      → All IsPoll polls
      → fetch_loop pki decode_json accepted (polls ++ answered status_ok body done ∷ rest)
        ≡ some (parse_ca_renew_response pki decode_json body)
  unfolding fetch_loop
  Issued-fetch_loop accepted [] rest body done h = refl
  Issued-fetch_loop accepted (failed d ∷ polls) rest body done h = absurd h.0
  Issued-fetch_loop accepted (answered status b d ∷ polls) rest body done ((poll, lasting), h) =
      rw (poll, lasting) (Issued-fetch_loop true polls rest body done h)

  -- `Fetch` returns a certificate and its key exactly if the CA answers 202 some number of times,
  -- while the context lasts, and then 200 with a body that holds them: a JSON answer with that chain
  -- and that key, neither empty or the text "null", the key being that of the chain's certificate.
  pub fetch_iff :
      (attempts : List Attempt) (pair : Bytes × Bytes)
      → (fetch pki decode_json attempts ≡ some (ok pair)) ↔ Issued attempts pair
  unfolding fetch
  fetch_iff attempts pair = (
    fetch_loop-Issued false attempts pair,
    λ i.
        ap (fetch_loop pki decode_json false) i.in_order
        ∙ Issued-fetch_loop false i.polls i.rest i.body i.done i.polled
        ∙ ap some ((parse_ca_renew_response_iff pki decode_json i.body pair).1 i.holds),
  )
