-- ===== src/Contract/Response.antt =====
-- pkg/contract/response.go: the response object, its frame and its pool. The status code is the
-- protobuf enum of gen/base1/common.pb.go, an `int32`; one byte of it goes on the wire.
use dcr_sdk.Common.{ℕ, ◌%◌, Option, none, some, List, ◌∷◌, Bytes, length, without, get_elem?}
use dcr_sdk.Contract.Io.{IoError, Writer, Reader, write_byte, read_byte}
use dcr_sdk.Contract.Slice.{Slice, contents, append, cleared, nil_slice}
use dcr_sdk.Contract.Status.{unknown, ok}
use dcr_sdk.Contract.Wire.{BytesError, write_bytes, read_bytes}

pub record Response : Type 0 where
  pub value : Slice
  pub status_code : ℕ

pub data ResponseError : Type 0 where
  code_failed : IoError → ResponseError
  value_failed : BytesError → ResponseError

-- `&Response{}`
abbrev pub new_response : Response
new_response = record { value = nil_slice; status_code = unknown }

unfoldable pub set_status_code : Response → ℕ → Response
set_status_code resp code = record resp { status_code = code }

unfoldable pub get_status_code : Response → ℕ
get_status_code resp = resp.status_code

unfoldable pub reset : Response → Response
reset resp = record { value = cleared resp.value; status_code = ok }

unfoldable pub append_value : Response → Bytes → Response
append_value resp p = record resp { value = append resp.value p }

-- `Write`: the number of bytes, with no error.
unfoldable pub write : Response → Bytes → Response × ℕ
unfolding append_value
write resp p = (append_value resp p, length p)

-- `SwapValue`: the response takes the slice, and its old one is returned.
unfoldable pub swap_value : Response → Slice → Response × Slice
swap_value resp value = (record resp { value = value }, resp.value)

unfoldable pub value : Response → Bytes
value resp = contents resp.value

abbrev code_result : Option BytesError → Option ResponseError
code_result none = none
code_result (some e) = some (value_failed e)

unfoldable pub write_response : Writer → Response → Writer × Option ResponseError
write_response w resp =
    let (w1, code_error) = write_byte w (resp.status_code % 256) in
    let (w2, value_error) = write_bytes w1 (contents resp.value) in
    elim code_error [ some e ↦ (w1, some (code_failed e)) | none ↦ (w2, code_result value_error) ]

unfoldable pub read_response : Reader → Response → Reader × Response × Option ResponseError
read_response r resp =
    let (r1, code_error, sc) = read_byte r in
    let (r2, value, value_error) = read_bytes r1 (cleared resp.value) in
    elim code_error [
      | some e ↦ (r1, resp, some (code_failed e))
      | none ↦ (r2, record { value = value; status_code = sc }, code_result value_error)
    ]

-- `AcquireResponse`: as for requests, `choice` says what `responsePool.Get()` takes out.
unfoldable pub acquire : List Response → ℕ → Response × List Response
acquire pool choice = elim (get_elem? pool choice) [
  | some resp ↦ (resp, without pool choice)
  | none ↦ (new_response, pool)
]

-- `ReleaseResponse`
unfoldable pub release : List Response → Response → List Response
unfolding reset
release pool resp = reset resp ∷ pool
