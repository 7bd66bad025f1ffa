-- ===== src/Client/Delivery.antt =====
-- What the other end of a connection gets, and when a call succeeds.
use dcr_sdk.Common.{
  ℕ, ◌≡◌, refl, ap, ◌∙◌, ◌↔◌, false, ◌==◌, Bool-cases, inl, inr, Option, none, some, List, ◌++◌,
  Bytes, All, Result, ok, err, is_empty, arith,
}
use dcr_sdk.Contract.Status
use dcr_sdk.Contract.Slice.{contents, contents-append}
use dcr_sdk.Contract.Request.{Request, acquire, append_value, set_name}
use dcr_sdk.Contract.Pools.{IsFresh, acquire-IsFresh, release-IsFresh}
use dcr_sdk.Client.Unary.{
  Metrics, Answer, failed, replied, CallError, refused, decoded, settle, do_unary, wire_request,
}

-- A request as the connection gets it: its number and its payload.
abbrev pub Carries : Request → ℕ → Bytes → Type 0
Carries req reqn raw = (req.code ≡ reqn) × (contents req.value ≡ raw)

wire_request-Carries :
    (pool : List Request) (choice reqn : ℕ) (raw : Bytes)
    → All IsFresh pool
    → Carries (wire_request reqn raw (acquire pool choice).0) reqn raw
unfolding wire_request append_value set_name
wire_request-Carries pool choice reqn raw h =
    let fresh = (acquire-IsFresh pool choice h).0 in
    (
      refl,
      contents-append (acquire pool choice).0.value raw fresh.valid
          ∙ ap (λ xs. xs ++ raw) fresh.empty,
    )

module _ {ℓ} {A : Type ℓ} (unmarshal : Bytes → Option A) (a : A) where
  -- The other end answered OK, with a body that decodes to `a`.
  abbrev pub Answers : Answer → Type ℓ
  Answers answer = (body : Bytes) × (answer ≡ replied Status.ok body) × (unmarshal body ≡ some a)

  decoded-ok :
      (m : Metrics) (status : ℕ) (r : Option A) → (decoded m status r).2 ≡ ok a → r ≡ some a
  unfolding decoded
  decoded-ok m status none e = cc
  decoded-ok m status (some b) e = cc

  settle-ok :
      (m : Metrics) (answer : Answer) → (settle unmarshal m answer).2 ≡ ok a → Answers answer
  unfolding settle
  settle-ok m (failed e) h = cc
  settle-ok m (replied status body) h = elim (Bool-cases (status == Status.ok)) [
    | inl fine ↦ (
      body,
      ap (λ s. replied s body) (ground arith),
      decoded-ok m status (unmarshal body) (rw fine at h),
    )
    | inr bad ↦
        let refusal : Path (Result CallError A) (err (refused status body)) (ok a) = rw bad at h in
        cc
  ]

  ok-settle :
      (m : Metrics) (answer : Answer) → Answers answer → (settle unmarshal m answer).2 ≡ ok a
  unfolding settle decoded
  ok-settle m (failed e) (body, h, g) = cc
  ok-settle m (replied status body') (body, h, g) =
      let same_status : status ≡ Status.ok = cc in
      let same_body : body' ≡ body = cc in rw (same_status, same_body, g) refl

  -- From a pool of fresh requests, a message that is not empty reaches the connection as exactly one
  -- request, which carries the given number and the message and nothing of an earlier use; the call
  -- returns a response `a` exactly if that request is answered with status OK and a body that decodes
  -- to `a`; and the pool is left fresh.
  pub do_unary_delivers :
      (reqn : ℕ) (raw : Bytes) (do_deadline : Request → Answer) (choice : ℕ) (pool : List Request)
      (m : Metrics)
      → All IsFresh pool
      → is_empty raw ≡ false
      → let out = do_unary reqn (some raw) unmarshal do_deadline choice pool m in
        All IsFresh out.pool
        × ((req : Request) × Carries req reqn raw
            × ((out.result ≡ ok a) ↔ Answers (do_deadline req)))
  unfolding do_unary
  do_unary_delivers reqn raw do_deadline choice pool m fresh full =
      let req = wire_request reqn raw (acquire pool choice).0 in
      rw full (
        release-IsFresh _ req (acquire-IsFresh pool choice fresh).1,
        (
          req,
          wire_request-Carries pool choice reqn raw fresh,
          (settle-ok _ (do_deadline req), ok-settle _ (do_deadline req)),
        ),
      )

module _ {ℓ} {A : Type ℓ} (unmarshal : Bytes → Option A) where
  settle-refused :
      (m : Metrics) (answer : Answer) (status : ℕ) (body : Bytes)
      → answer ≡ replied status body
      → (status == Status.ok) ≡ false
      → ((settle unmarshal m answer).1 ≡ status)
        × ((settle unmarshal m answer).2 ≡ err (refused status body))
  unfolding settle
  settle-refused m answer status body e bad = rw (e, bad) (refl, refl)

  -- Where the request is answered with another status, the call returns that and the body.
  pub do_unary_refused :
      (reqn : ℕ) (raw : Bytes) (do_deadline : Request → Answer) (choice : ℕ) (pool : List Request)
      (m : Metrics) (status : ℕ) (body : Bytes)
      → All IsFresh pool
      → is_empty raw ≡ false
      → (status == Status.ok) ≡ false
      → let out = do_unary reqn (some raw) unmarshal do_deadline choice pool m in
        (req : Request) × Carries req reqn raw
        × (do_deadline req ≡ replied status body
            → (out.status ≡ status) × (out.result ≡ err (refused status body)))
  unfolding do_unary
  do_unary_refused reqn raw do_deadline choice pool m status body fresh full bad =
      let req = wire_request reqn raw (acquire pool choice).0 in
      rw full (
        req,
        wire_request-Carries pool choice reqn raw fresh,
        λ e. settle-refused _ (do_deadline req) status body e bad,
      )
