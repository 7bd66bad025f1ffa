-- ===== src/Cloud/Tracking.antt =====
-- `nextTrackingID` of internal/testcloud/server.go: the text of a tracking id, by the verbs %04X and
-- %012X of `fmt.Sprintf`, and how it is read back.
use dcr_sdk.Common.{
  ℕ, zero, suc, ◌+◌, ◌-◌, ◌*◌, ◌/◌, ◌%◌, ◌^◌, ◌<◌, ◌≤◌, ◌==◌, ltb, ◌≡◌, refl, sym, ◌∙◌, inl, inr,
  Bool-cases, [], ◌∷◌, ◌++◌, Bytes, take, drop, length, length-append, replicate, if◌then◌else◌,
  arith, take-append, drop-append, length-replicate,
}

-- A digit of %X.
unfoldable pub hex_digit : ℕ → ℕ
hex_digit d = if ltb d 10 then b'0' + d else b'A' + (d - 10)

-- The digits of a number, none for 0, up to as many as it can have.
unfoldable pub hex_digits : ℕ → ℕ → Bytes
unfolding hex_digit
hex_digits zero n = []
hex_digits (suc f) n =
    let rest = hex_digits f (n / 16) in if n == 0 then [] else rest ++ hex_digit (n % 16) ∷ []

-- A number of 64 bits, with zeros in front up to the width.
unfoldable pub padded_hex : ℕ → ℕ → Bytes
unfolding hex_digits
padded_hex width n =
    let digits = hex_digits 16 n in replicate (width - length digits) b'0' ++ digits

unfoldable pub tracking_id : ℕ → ℕ → Bytes
unfolding padded_hex
tracking_id server_id counter = padded_hex 4 server_id ++ padded_hex 12 counter

digit_value : ℕ → ℕ
digit_value c = if ltb c b'A' then c - b'0' else c - b'A' + 10

digit_value-hex_digit : (d : ℕ) → d < 16 → digit_value (hex_digit d) ≡ d
unfolding digit_value hex_digit
digit_value-hex_digit d h = ground arith

-- The number that digits spell, behind the number `n`.
read_hex : ℕ → Bytes → ℕ
unfolding digit_value
read_hex n [] = n
read_hex n (c ∷ s) = read_hex (16 * n + digit_value c) s

read_hex-append : (n : ℕ) (s t : Bytes) → read_hex n (s ++ t) ≡ read_hex (read_hex n s) t
unfolding read_hex
read_hex-append n [] t = refl
read_hex-append n (c ∷ s) t = read_hex-append (16 * n + digit_value c) s t

-- The numbers of up to `k` digits.
bound : ℕ → ℕ
bound zero = 1
bound (suc k) = 16 * bound k

length-hex_digits : (f k n : ℕ) → n < bound k → length (hex_digits f n) ≤ k
unfolding hex_digits bound
length-hex_digits zero k n h = omega arith
length-hex_digits (suc f) zero n h = elim (Bool-cases (n == 0)) [
  | inl e ↦ rw e (omega arith)
  | inr e ↦ absurd (ground arith)
]
length-hex_digits (suc f) (suc k) n h = elim (Bool-cases (n == 0)) [
  | inl e ↦ rw e (omega arith)
  | inr e ↦ rw e (
      omega (
        arith,
        length-append (hex_digits f (n / 16)) (hex_digit (n % 16) ∷ []),
        length-hex_digits f k (n / 16) (omega arith),
      ))
]

read_hex-hex_digits : (f n : ℕ) → n < bound f → read_hex 0 (hex_digits f n) ≡ n
unfolding hex_digits bound read_hex
read_hex-hex_digits zero n h = omega arith
read_hex-hex_digits (suc f) n h = elim (Bool-cases (n == 0)) [
  | inl e ↦ rw e (ground arith)
  | inr e ↦
      rw
        (
          e,
          read_hex-append 0 (hex_digits f (n / 16)) (hex_digit (n % 16) ∷ []),
          read_hex-hex_digits f (n / 16) (omega arith),
          digit_value-hex_digit (n % 16) (omega arith),
        )
        (omega arith)
]

read_hex-zeros : (k : ℕ) (s : Bytes) → read_hex 0 (replicate k b'0' ++ s) ≡ read_hex 0 s
unfolding read_hex digit_value
read_hex-zeros zero s = refl
read_hex-zeros (suc k) s = read_hex-zeros k s

read_hex-padded_hex : (width n : ℕ) → n < 2 ^ 64 → read_hex 0 (padded_hex width n) ≡ n
unfolding padded_hex
read_hex-padded_hex width n h =
    read_hex-zeros (width - length (hex_digits 16 n)) (hex_digits 16 n)
    ∙ read_hex-hex_digits 16 n (unfold bound in h)

length-padded_hex : (n : ℕ) → n < 2 ^ 16 → length (padded_hex 4 n) ≡ 4
unfolding padded_hex
length-padded_hex n h =
    let digits = hex_digits 16 n in
    let few : length digits ≤ 4 = length-hex_digits 16 4 n (unfold bound in h) in
    let zero_digit : ℕ = b'0' in
    let zeros : Bytes = replicate (4 - length digits) zero_digit in
    omega (arith, few, length-append zeros digits, length-replicate (4 - length digits) zero_digit)

-- The server's id and the counter of a tracking id.
unfoldable pub read_tracking_id : Bytes → ℕ × ℕ
unfolding read_hex
read_tracking_id s = (read_hex 0 (take 4 s), read_hex 0 (drop 4 s))

-- The id of the server, of 16 bits, and the counter, of 64 bits, can be read back from a tracking id,
-- so that no two targets of a server have the same id until its counter wraps.
pub read-tracking_id :
    (server_id counter : ℕ)
    → server_id < 2 ^ 16
    → counter < 2 ^ 64
    → read_tracking_id (tracking_id server_id counter) ≡ (server_id, counter)
unfolding read_tracking_id tracking_id
read-tracking_id server_id counter h k =
    let four = length-padded_hex server_id h in
    rw
      (
        take-append (padded_hex 4 server_id) (padded_hex 12 counter) 4 (sym four),
        drop-append (padded_hex 4 server_id) (padded_hex 12 counter) 4 (sym four),
        read_hex-padded_hex 4 server_id (omega arith),
        read_hex-padded_hex 12 counter k,
      )
      refl
