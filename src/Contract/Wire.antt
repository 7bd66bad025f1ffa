-- ===== src/Contract/Wire.antt =====
-- pkg/contract/common.go: a value on the wire is its size, four bytes with the lowest first, and
-- its bytes. The four-byte scratch buffer `sizeBuf` is written before it is read on every path, so
-- it is local here.
pub mod Uint32
pub mod Sized
use Prim.Native.Nat.{bit_or}
use dcr_sdk.Common.{
  ℕ, ◌+◌, ◌*◌, ◌/◌, ◌%◌, ◌^◌, ◌<◌, ◌≡◌, refl, Option, none, some, [], ◌∷◌, ◌++◌, Bytes, ltb, length,
  if◌then◌else◌, All, arith,
}
use dcr_sdk.Contract.Io.{IoError, Writer, Reader, write, read_full}
use dcr_sdk.Contract.Slice.{Slice, resize, overwrite}

abbrev pub max_bytes_size : ℕ
max_bytes_size = 1024 * 1024

pub data BytesError : Type 0 where
  too_big : ℕ → BytesError
  size : IoError → BytesError
  body : ℕ → IoError → BytesError

unfoldable pub append_uint32 : Bytes → ℕ → Bytes
append_uint32 b n =
    b ++ (n % 256) ∷ (n / 2 ^ 8 % 256) ∷ (n / 2 ^ 16 % 256) ∷ (n / 2 ^ 24 % 256) ∷ []

-- `(uint32(b[3]) << 24) | (uint32(b[2]) << 16) | (uint32(b[1]) << 8) | uint32(b[0])`. The argument
-- is always the `[4]byte` scratch buffer.
unfoldable pub bytes2uint32 : Bytes → ℕ
bytes2uint32 (b0 ∷ b1 ∷ b2 ∷ b3 ∷ rest) =
    bit_or (bit_or (bit_or (b3 * 2 ^ 24 % 2 ^ 32) (b2 * 2 ^ 16)) (b1 * 2 ^ 8)) b0
bytes2uint32 b = 0

unfoldable pub write_bytes : Writer → Bytes → Writer × Option BytesError
write_bytes w b =
    let n = length b in
    let (w1, size_error) = write w (append_uint32 [] (n % 2 ^ 32)) in
    let (w2, body_error) = write w1 b in
    if ltb max_bytes_size n then (w, some (too_big n)) else elim size_error [
      | some e ↦ (w1, some (size e))
      | none ↦ elim body_error [ some e ↦ (w2, some (body n e)) | none ↦ (w2, none) ]
    ]

abbrev pub body_result : ℕ → Option IoError → Option BytesError
body_result n none = none
body_result n (some e) = some (body n e)

-- The slice `b` is what the caller reads into: its array is used again where it is long enough.
unfoldable pub read_bytes : Reader → Slice → Reader × Slice × Option BytesError
read_bytes r b =
    let (r1, size_error, size_buf) = read_full r 4 in
    let n = bytes2uint32 size_buf in
    let (r2, body_error, got) = read_full r1 n in
    elim size_error [
      | some e ↦ (r1, b, some (size e))
      | none ↦
          if ltb max_bytes_size n
          then (r1, b, some (too_big n))
          else (r2, overwrite (resize b n) got, body_result n body_error)
    ]
