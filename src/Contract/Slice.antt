-- ===== src/Contract/Slice.antt =====
-- Byte slices of the pooled requests and responses: `len` bytes of a backing array that earlier
-- uses have written to. A new backing array is as long as what it holds.
use dcr_sdk.Common.{
  ℕ, ◌+◌, ◌≤◌, ◌≡◌, refl, subst, append-nil, [], ◌++◌, Bytes, leb, length, take, drop, replicate,
  if◌then◌else◌, arith, Bool-cases, inl, inr, leb→le, take-append, length-append, length-take,
  length-drop, length-replicate, append_assoc,
}

pub record Slice : Type 0 where
  pub backing : Bytes
  pub len : ℕ

-- What the program sees of a slice.
unfoldable pub contents : Slice → Bytes
contents s = take s.len s.backing

pub record IsValid (s : Slice) : Type 0 where
  pub within : s.len ≤ length s.backing

-- `nil`
abbrev pub nil_slice : Slice
nil_slice = record { backing = []; len = 0 }

-- `b[:0]`
abbrev pub cleared : Slice → Slice
cleared s = record s { len = 0 }

-- A slice over the bytes `p` alone.
abbrev pub of_bytes : Bytes → Slice
of_bytes p = record { backing = p; len = length p }

-- `append(b, p...)`: in place where the capacity allows it.
unfoldable pub append : Slice → Bytes → Slice
unfolding contents
append s p =
    if leb (s.len + length p) (length s.backing)
    then record {
      backing = contents s ++ (p ++ drop (s.len + length p) s.backing);
      len = s.len + length p;
    }
    else of_bytes (contents s ++ p)

-- `if cap(b) < size { b = make([]byte, size) }; b = b[:size]`
unfoldable pub resize : Slice → ℕ → Slice
resize s size =
    if leb size (length s.backing)
    then record s { len = size }
    else record { backing = replicate size 0; len = size }

-- The bytes `got` copied to the front of the slice.
unfoldable pub overwrite : Slice → Bytes → Slice
overwrite s got = record s { backing = got ++ drop (length got) s.backing }

contents-take : (s : Slice) → IsValid s → length (contents s) ≡ s.len
unfolding contents
contents-take s v = omega (arith, length-take s.len s.backing)

pub contents-cleared : (s : Slice) → contents (cleared s) ≡ []
unfolding contents
contents-cleared s = refl

pub contents-of_bytes : (p : Bytes) → contents (of_bytes p) ≡ p
unfolding contents
contents-of_bytes p = subst (λ xs. take (length p) xs ≡ p) (append-nil p) (take-append p [] _ refl)

-- Appending keeps what the slice holds and adds the bytes behind it, whatever the old bytes of
-- the backing array.
pub contents-append : (s : Slice) (p : Bytes) → IsValid s → contents (append s p) ≡ contents s ++ p
unfolding append
contents-append s p v = elim (Bool-cases (leb (s.len + length p) (length s.backing))) [
  | inl fits ↦
      rw (fits, ← append_assoc)
        (take-append (take s.len s.backing ++ p) _ _
          (omega (arith, length-append (take s.len s.backing) p, length-take s.len s.backing)))
  | inr full ↦ rw full (unfold contents in contents-of_bytes (take s.len s.backing ++ p))
]

pub append-IsValid : (s : Slice) (p : Bytes) → IsValid s → IsValid (append s p)
unfolding append
append-IsValid s p v = elim (Bool-cases (leb (s.len + length p) (length s.backing))) [
  | inl fits ↦ rw fits (record {
    within = omega (
      arith,
      length-append (take s.len s.backing) (p ++ drop (s.len + length p) s.backing),
      length-append p (drop (s.len + length p) s.backing),
      length-take s.len s.backing,
      length-drop (s.len + length p) s.backing,
      leb→le _ _ fits,
    );
  })
  | inr full ↦ rw full (record { within = omega arith })
]

pub len-resize : (s : Slice) (size : ℕ) → (resize s size).len ≡ size
unfolding resize
len-resize s size = ground arith

-- A slice that was resized for `got` and overwritten with it holds `got` and nothing else.
pub contents-overwrite-resize :
    (s : Slice) (got : Bytes) → contents (overwrite (resize s (length got)) got) ≡ got
unfolding contents overwrite
contents-overwrite-resize s got = rw len-resize (take-append got _ _ refl)

pub overwrite-IsValid :
    (s : Slice) (size : ℕ) (got : Bytes)
    → length got ≤ size
    → IsValid (overwrite (resize s size) got)
unfolding resize overwrite
overwrite-IsValid s size got h = elim (Bool-cases (leb size (length s.backing))) [
  | inl fits ↦ rw fits (record {
    within = omega (
      arith,
      length-append got (drop (length got) s.backing),
      length-drop (length got) s.backing,
      leb→le _ _ fits,
    );
  })
  | inr small ↦ rw small (record {
    within = omega (
      arith,
      length-append got (drop (length got) (replicate size 0)),
      length-drop (length got) (replicate {A = ℕ} size 0),
      length-replicate {A = ℕ} size 0,
    );
  })
]
