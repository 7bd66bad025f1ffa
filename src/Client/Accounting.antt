-- ===== src/Client/Accounting.antt =====
-- What a call adds to the counters.
use dcr_sdk.Common.{
  ℕ, ◌+◌, ◌≡◌, ◌==◌, Bool-cases, inl, inr, Option, none, some, List, Bytes, Result, ok, err,
  is_empty, if◌then◌else◌, arith,
}
use dcr_sdk.Contract.Status
use dcr_sdk.Contract.Request.{Request, acquire}
use dcr_sdk.Client.Unary.{
  Metrics, Answer, CallError, unmarshal_failed, failed, replied, err_timeout,
  err_pending_requests_overflow, other_error, count_error, decoded, settle, do_unary, wire_request,
}

-- The calls that a group counts as ended, in one way or another.
abbrev pub ended : Metrics → ℕ
ended m = m.success + m.failed + m.timeout + m.overflow + m.error

-- Whether the message is sent at all.
abbrev pub is_sent : Option Bytes → ℕ
is_sent none = 0
is_sent (some raw) = if is_empty raw then 0 else 1

abbrev asked : Metrics → Metrics
asked m = record m { request = m.request + 1; duration = m.duration + 1 }

module _ {ℓ} {A : Type ℓ} where
  abbrev pub is_ok : Result CallError A → ℕ
  is_ok (ok a) = 1
  is_ok (err e) = 0

  -- Whether the answer came with status OK and could not be decoded.
  abbrev pub is_undecodable : Result CallError A → ℕ
  is_undecodable (err unmarshal_failed) = 1
  is_undecodable r = 0

  -- How the counters `m'` after a call relate to those before.
  abbrev pub Counted : Metrics → Metrics → Result CallError A → ℕ → Type 0
  Counted m m' r sent =
      (m'.request ≡ m.request + sent)
      × (m'.duration ≡ m.duration + sent)
      × (m'.success ≡ m.success + is_ok r)
      × (ended m' + is_undecodable r ≡ ended m + sent)
      × (m'.auth_retry ≡ m.auth_retry)

  decoded-Counted :
      (m : Metrics) (status : ℕ) (response : Option A)
      → Counted m (decoded (asked m) status response).0 (decoded (asked m) status response).2 1
  unfolding decoded
  decoded-Counted m status none = ground arith
  decoded-Counted m status (some a) = ground arith

  settle-Counted :
      (unmarshal : Bytes → Option A) (m : Metrics) (answer : Answer)
      → Counted m (settle unmarshal (asked m) answer).0 (settle unmarshal (asked m) answer).2 1
  unfolding settle count_error
  settle-Counted unmarshal m (failed err_timeout) = ground arith
  settle-Counted unmarshal m (failed err_pending_requests_overflow) = ground arith
  settle-Counted unmarshal m (failed other_error) = ground arith
  settle-Counted unmarshal m (replied status body) = elim (Bool-cases (status == Status.ok)) [
    | inl fine ↦ rw fine (decoded-Counted m status (unmarshal body))
    | inr bad ↦ rw bad (unfold count_error in ground arith)
  ]

  -- A call counts one request and one duration if its message is sent, and none otherwise; a success
  -- exactly if it returns a response; and each call that is sent under exactly one of success,
  -- failed, timeout, overflow and error, save one whose answer has status OK and cannot be decoded,
  -- which is counted under none of them.
  pub do_unary-Counted :
      (reqn : ℕ) (raw : Option Bytes) (unmarshal : Bytes → Option A)
      (do_deadline : Request → Answer) (choice : ℕ) (pool : List Request) (m : Metrics)
      → let out = do_unary reqn raw unmarshal do_deadline choice pool m in
        Counted m out.metrics out.result (is_sent raw)
  unfolding do_unary
  do_unary-Counted reqn none unmarshal do_deadline choice pool m = ground arith
  do_unary-Counted reqn (some raw) unmarshal do_deadline choice pool m =
      elim (Bool-cases (is_empty raw)) [
        | inl e ↦ rw e (ground arith)
        | inr e ↦ rw e (
            settle-Counted unmarshal m
              (do_deadline (wire_request reqn raw (acquire pool choice).0)))
      ]
