-- ===== src/Contract/Io.antt =====
-- What pkg/contract uses of the standard library's `bufio` and `io`.
--
-- A `bufio.Writer` accepts bytes until the connection below it fails; from then on each call
-- returns an error. A `bufio.Reader` yields the bytes that arrive and then an error: `io.EOF` when
-- the peer has closed, or another.
use dcr_sdk.Common.{
  ℕ, ◌-◌, Bool, true, false, not, ◌&&◌, Option, none, some, [], ◌∷◌, ◌++◌, Bytes, leb, length, take,
  drop, if◌then◌else◌, ◌≡◌, refl, sym, ◌≤◌, ◌<◌, arith, Bool-cases, inl, inr, le→leb, leb→le,
  length-append, append_assoc, length-take, take-append, drop-append, take-append-drop,
}

pub data IoError : Type 0 where
  eof unexpected_eof : IoError
  other : ℕ → IoError

-- `room` is the number of bytes that go through before the connection fails.
pub record Writer : Type 0 where
  pub out : Bytes
  pub room : ℕ
  pub failed : Bool
  pub error : IoError

-- `bw.Write(p)`
unfoldable pub write : Writer → Bytes → Writer × Option IoError
write w p =
    if not w.failed && leb (length p) w.room
    then (record w { out = w.out ++ p; room = w.room - length p }, none)
    else if w.failed
    then (w, some w.error)
    else (record w { out = w.out ++ take w.room p; room = 0; failed = true }, some w.error)

-- `bw.WriteByte(c)`
unfoldable pub write_byte : Writer → ℕ → Writer × Option IoError
unfolding write
write_byte w c = write w (c ∷ [])

pub record Reader : Type 0 where
  pub input : Bytes
  pub final : IoError

-- `br.ReadByte()`
unfoldable pub read_byte : Reader → Reader × Option IoError × ℕ
read_byte r = elim r.input [
  | [] ↦ (r, some r.final, 0)
  | b ∷ rest ↦ (record r { input = rest }, none, b)
]

abbrev pub promote : Bytes → IoError → IoError
promote [] e = e
promote (b ∷ got) eof = unexpected_eof
promote (b ∷ got) e = e

-- `io.ReadFull(br, b)`: the bytes that were read, fewer than asked for only with an error. An
-- `io.EOF` after some bytes is reported as `io.ErrUnexpectedEOF`.
unfoldable pub read_full : Reader → ℕ → Reader × Option IoError × Bytes
read_full r n =
    if leb n (length r.input)
    then (record r { input = drop n r.input }, none, take n r.input)
    else (record r { input = [] }, some (promote r.input r.final), r.input)

-- A write that fits goes through whole.
abbrev pub accepted : Writer → Bytes → Writer
accepted w p = record w { out = w.out ++ p; room = w.room - length p }

pub write_fits :
    (w : Writer) (p : Bytes)
    → w.failed ≡ false
    → length p ≤ w.room
    → write w p ≡ (accepted w p, none)
unfolding write
write_fits w p ok fits = ground arith

pub accepted-accepted : (w : Writer) (p q : Bytes) → accepted (accepted w p) q ≡ accepted w (p ++ q)
accepted-accepted w p q = ground (arith, append_assoc w.out p q, length-append p q)

-- A write that reports success has gone through whole.
pub write-none :
    (w : Writer) (p : Bytes)
    → (write w p).1 ≡ none
    → ((write w p).0 ≡ accepted w p) × (w.failed ≡ false) × (length p ≤ w.room)
unfolding write
write-none w p h = ground arith

pub read_full-append :
    (got rest : Bytes) (final : IoError) (n : ℕ)
    → n ≡ length got
    → read_full (record { input = got ++ rest; final = final }) n
      ≡ (record { input = rest; final = final }, none, got)
unfolding read_full
read_full-append got rest final n e = rw (
  le→leb n (length (got ++ rest)) (omega (arith, length-append got rest)),
  take-append got rest n e,
  drop-append got rest n e,
)

-- A full read splits the input.
pub read_full-none :
    (r : Reader) (n : ℕ)
    → (read_full r n).1 ≡ none
    → (r.input ≡ (read_full r n).2 ++ (read_full r n).0.input)
      × (length (read_full r n).2 ≡ n)
      × ((read_full r n).0.final ≡ r.final)
unfolding read_full
read_full-none r n h = elim (Bool-cases (leb n (length r.input))) [
  | inl e ↦
      rw e
        (sym (take-append-drop n r.input), omega (arith, length-take n r.input, leb→le n _ e), refl)
  | inr e ↦ ground arith
]

pub read_full-short :
    (r : Reader) (n : ℕ)
    → length r.input < n
    → read_full r n ≡ (record r { input = [] }, some (promote r.input r.final), r.input)
unfolding read_full
read_full-short r n h = ground arith
