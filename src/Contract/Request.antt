-- ===== src/Contract/Request.antt =====
-- pkg/contract/request.go: the request object, its frame and its pool. The code is a `uint8`.
use dcr_sdk.Common.{ℕ, Option, none, some, List, ◌∷◌, Bytes, length, without, get_elem?}
use dcr_sdk.Contract.Io.{IoError, Writer, Reader, write_byte, read_byte}
use dcr_sdk.Contract.Slice.{Slice, contents, append, cleared, nil_slice}
use dcr_sdk.Contract.Wire.{BytesError, write_bytes, read_bytes}

pub record Request : Type 0 where
  pub value : Slice
  pub code : ℕ

pub data RequestError : Type 0 where
  code_failed : IoError → RequestError
  value_failed : BytesError → RequestError

-- `&Request{}`
abbrev pub new_request : Request
new_request = record { value = nil_slice; code = 0 }

unfoldable pub reset : Request → Request
reset req = record { value = cleared req.value; code = 0 }

unfoldable pub set_name : Request → ℕ → Request
set_name req code = record req { code = code }

unfoldable pub get_name : Request → ℕ
get_name req = req.code

unfoldable pub append_value : Request → Bytes → Request
append_value req p = record req { value = append req.value p }

-- `Write`: the number of bytes, with no error.
unfoldable pub write : Request → Bytes → Request × ℕ
unfolding append_value
write req p = (append_value req p, length p)

-- `SwapValue`: the request takes the slice, and its old one is returned.
unfoldable pub swap_value : Request → Slice → Request × Slice
swap_value req value = (record req { value = value }, req.value)

unfoldable pub value : Request → Bytes
value req = contents req.value

abbrev code_result : Option BytesError → Option RequestError
code_result none = none
code_result (some e) = some (value_failed e)

unfoldable pub write_request : Writer → Request → Writer × Option RequestError
write_request w req =
    let (w1, code_error) = write_byte w req.code in
    let (w2, value_error) = write_bytes w1 (contents req.value) in
    elim code_error [ some e ↦ (w1, some (code_failed e)) | none ↦ (w2, code_result value_error) ]

unfoldable pub read_request : Reader → Request → Reader × Request × Option RequestError
read_request r req =
    let (r1, code_error, rc) = read_byte r in
    let (r2, value, value_error) = read_bytes r1 (cleared req.value) in
    elim code_error [
      | some e ↦ (r1, req, some (code_failed e))
      | none ↦ (r2, record { value = value; code = rc }, code_result value_error)
    ]

-- `AcquireRequest`: `requestPool.Get()` takes any pooled object out, or gives nil; `choice` says
-- which, and is out of range for nil.
unfoldable pub acquire : List Request → ℕ → Request × List Request
acquire pool choice = elim (get_elem? pool choice) [
  | some req ↦ (req, without pool choice)
  | none ↦ (new_request, pool)
]

-- `ReleaseRequest`
unfoldable pub release : List Request → Request → List Request
unfolding reset
release pool req = reset req ∷ pool
