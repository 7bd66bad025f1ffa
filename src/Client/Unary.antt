-- ===== src/Client/Unary.antt =====
-- `doUnary` and `countError` of pkg/client/client.go, and the counters of pkg/client/metrics.go.
--
-- fastrpc is outside the repository: what `DoDeadline` does with a request is an argument. Counters
-- do not wrap. The response object goes back to its pool as the request does, and its content is
-- the body of the answer.
use dcr_sdk.Common.{
  is_empty, ℕ, ◌+◌, ◌==◌, not, Option, none, some, List, Bytes, Result, ok, err, if◌then◌else◌,
}
use dcr_sdk.Contract.Status
use dcr_sdk.Contract.Status.{network_error}
use dcr_sdk.Contract.Request.{Request, set_name, append_value, acquire, release}

-- `metricsGroup`; `duration` counts the observations. `auth_retry` is never changed.
pub record Metrics : Type 0 where
  pub error : ℕ
  pub success : ℕ
  pub timeout : ℕ
  pub failed : ℕ
  pub overflow : ℕ
  pub request : ℕ
  pub duration : ℕ
  pub auth_retry : ℕ

abbrev pub no_metrics : Metrics
no_metrics = record {
  error = 0;
  success = 0;
  timeout = 0;
  failed = 0;
  overflow = 0;
  request = 0;
  duration = 0;
  auth_retry = 0;
}

-- The errors of `DoDeadline`, as `errors.Is` tells them apart.
pub data TransportError : Type 0 where
  err_timeout err_pending_requests_overflow other_error : TransportError

-- What `DoDeadline` ends in: an error, or a response with its status code and value.
pub data Answer : Type 0 where
  failed : TransportError → Answer
  replied : ℕ → Bytes → Answer

pub data CallError : Type 0 where
  marshal_failed empty_request : CallError
  call_failed : TransportError → CallError
  refused : ℕ → Bytes → CallError
  unmarshal_failed : CallError

-- `countError`; `none` is its nil error.
unfoldable pub count_error : Metrics → Option TransportError → Metrics
count_error m none = record m { failed = m.failed + 1 }
count_error m (some err_timeout) = record m { timeout = m.timeout + 1 }
count_error m (some err_pending_requests_overflow) = record m { overflow = m.overflow + 1 }
count_error m (some other_error) = record m { error = m.error + 1 }

-- What a call leaves: the pool of requests, the counters, the status and the response or error.
pub record Outcome {ℓ} (A : Type ℓ) : Type ℓ where
  pub pool : List Request
  pub metrics : Metrics
  pub status : ℕ
  pub result : Result CallError A

-- The request that is sent for the message `raw`.
unfoldable pub wire_request : ℕ → Bytes → Request → Request
wire_request reqn raw taken = append_value (set_name taken reqn) raw

module _ {ℓ} {A : Type ℓ} where
  -- The response, once the status is OK.
  unfoldable pub decoded : Metrics → ℕ → Option A → Metrics × ℕ × Result CallError A
  decoded m status none = (m, status, err unmarshal_failed)
  decoded m status (some resp) = (record m { success = m.success + 1 }, status, ok resp)

  unfoldable pub settle : (Bytes → Option A) → Metrics → Answer → Metrics × ℕ × Result CallError A
  unfolding count_error decoded
  settle unmarshal m (failed e) = (count_error m (some e), network_error, err (call_failed e))
  settle unmarshal m (replied status body) =
      if not (status == Status.ok)
      then (count_error m none, status, err (refused status body))
      else decoded m status (unmarshal body)

  -- `raw` is what `proto.Marshal` returned, `none` for its error. `unmarshal` reads a response into
  -- a new message, and gives the nil response for a caller that wants none.
  unfoldable pub do_unary :
      ℕ
      → Option Bytes
      → (Bytes → Option A)
      → (Request → Answer)
      → ℕ
      → List Request
      → Metrics
      → Outcome A
  unfolding settle wire_request
  do_unary reqn none unmarshal do_deadline choice pool m = record {
    pool = pool;
    metrics = m;
    status = Status.unknown;
    result = err marshal_failed;
  }
  do_unary reqn (some raw) unmarshal do_deadline choice pool m =
      let (taken, left) = acquire pool choice in
      let request = wire_request reqn raw taken in
      let asked = record m { request = m.request + 1; duration = m.duration + 1 } in
      let (counted, status, result) = settle unmarshal asked (do_deadline request) in
      if is_empty raw
      then record { pool = pool; metrics = m; status = Status.unknown; result = err empty_request }
      else record {
        pool = release left request;
        metrics = counted;
        status = status;
        result = result;
      }
