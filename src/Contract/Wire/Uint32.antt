-- ===== src/Contract/Wire/Uint32.antt =====
-- The four size bytes of pkg/contract/common.go: `appendUint32` and `bytes2Uint32` are inverse.
use dcr_sdk.Common.{ℕ, ◌+◌, ◌*◌, ◌/◌, ◌%◌, ◌^◌, ◌<◌, ◌≡◌, refl, [], ◌∷◌, Bytes, length, All, arith}
use dcr_sdk.Common.Bits.{bit_or-add}
use dcr_sdk.Contract.Wire.{append_uint32, bytes2uint32}

abbrev pub IsByte : ℕ → Type 0
IsByte b = b < 256

bytes2uint32-sum :
    (b0 b1 b2 b3 : ℕ)
    → b0 < 256
    → b1 < 256
    → b2 < 256
    → b3 < 256
    → bytes2uint32 (b0 ∷ b1 ∷ b2 ∷ b3 ∷ []) ≡ b3 * 2 ^ 24 + b2 * 2 ^ 16 + b1 * 2 ^ 8 + b0
unfolding bytes2uint32
bytes2uint32-sum b0 b1 b2 b3 h0 h1 h2 h3 =
    let top : b3 * 2 ^ 24 % 2 ^ 32 ≡ b3 * 2 ^ 24 = omega arith in
    rw top (
      rw (bit_or-add 24 b3 {a = b3 * 2 ^ 24} {b = b2 * 2 ^ 16} refl (omega arith)) (
        rw
          (bit_or-add 16 (b3 * 256 + b2) {a = b3 * 2 ^ 24 + b2 * 2 ^ 16} {b = b1 * 2 ^ 8}
            (omega arith) (omega arith))
          (bit_or-add 8 (b3 * 2 ^ 16 + b2 * 2 ^ 8 + b1) (omega arith) h0)))

-- The four bytes carry every uint32.
pub bytes2uint32-append_uint32 : (n : ℕ) → n < 2 ^ 32 → bytes2uint32 (append_uint32 [] n) ≡ n
unfolding append_uint32
bytes2uint32-append_uint32 n h = omega (
  arith,
  bytes2uint32-sum (n % 256) (n / 2 ^ 8 % 256) (n / 2 ^ 16 % 256) (n / 2 ^ 24 % 256) (omega arith)
      (omega arith) (omega arith) (omega arith),
)

digits_of_sum :
    (b0 b1 b2 b3 n : ℕ)
    → b0 < 256
    → b1 < 256
    → b2 < 256
    → b3 < 256
    → n ≡ b3 * 2 ^ 24 + b2 * 2 ^ 16 + b1 * 2 ^ 8 + b0
    → append_uint32 [] n ≡ b0 ∷ b1 ∷ b2 ∷ b3 ∷ []
unfolding append_uint32
digits_of_sum b0 b1 b2 b3 n h0 h1 h2 h3 e =
    let e0 : n % 256 ≡ b0 = omega arith in
    let e1 : n / 2 ^ 8 % 256 ≡ b1 = omega arith in
    let e2 : n / 2 ^ 16 % 256 ≡ b2 = omega arith in
    let e3 : n / 2 ^ 24 % 256 ≡ b3 = omega arith in rw (e0, e1, e2, e3)

-- And each four bytes are those of the number that they spell.
pub append_uint32-bytes2uint32 :
    (b : Bytes) → length b ≡ 4 → All IsByte b → append_uint32 [] (bytes2uint32 b) ≡ b
append_uint32-bytes2uint32 (b0 ∷ b1 ∷ b2 ∷ b3 ∷ []) e (h0, (h1, (h2, (h3, _)))) =
    digits_of_sum b0 b1 b2 b3 _ h0 h1 h2 h3 (bytes2uint32-sum b0 b1 b2 b3 h0 h1 h2 h3)
append_uint32-bytes2uint32 (b0 ∷ b1 ∷ b2 ∷ b3 ∷ b4 ∷ b) e h = absurd (omega arith)
append_uint32-bytes2uint32 (b0 ∷ b1 ∷ b2 ∷ []) e h = absurd (omega arith)
append_uint32-bytes2uint32 (b0 ∷ b1 ∷ []) e h = absurd (omega arith)
append_uint32-bytes2uint32 (b0 ∷ []) e h = absurd (omega arith)
append_uint32-bytes2uint32 [] e h = absurd (omega arith)

pub length-append_uint32 : (n : ℕ) → length (append_uint32 [] n) ≡ 4
unfolding append_uint32
length-append_uint32 n = refl
