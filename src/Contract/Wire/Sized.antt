-- ===== src/Contract/Wire/Sized.antt =====
-- Writing and reading a sized value: `writeBytes` and `readBytes` of pkg/contract/common.go.
use dcr_sdk.Common.{
  ℕ, ◌+◌, ◌≤◌, ◌<◌, ◌≡◌, ◌≢◌, refl, sym, ap, ◌∙◌, false, Option, none, some, [], ◌++◌, Bytes,
  length, take, drop, All, arith, append_assoc, append-nil, length-append, length-drop,
  take-append-drop, All-append_left, All-take, subst, ◌%◌, ◌^◌,
}
use dcr_sdk.Contract.Io.{
  IoError, Writer, Reader, write, read_full, accepted, accepted-accepted, write_fits, write-none,
  read_full-append, read_full-none,
}
use dcr_sdk.Contract.Slice.{Slice, contents, resize, overwrite, contents-overwrite-resize}
use dcr_sdk.Contract.Wire.{
  append_uint32, bytes2uint32, write_bytes, read_bytes, body_result, max_bytes_size, BytesError,
  too_big,
}
use dcr_sdk.Contract.Wire.Uint32.{
  IsByte, bytes2uint32-append_uint32, append_uint32-bytes2uint32, length-append_uint32,
}

-- What a value is on the wire.
unfoldable pub sized : Bytes → Bytes
sized b = append_uint32 [] (length b) ++ b

abbrev size_bytes : Bytes → Bytes
size_bytes b = append_uint32 [] (length b % 2 ^ 32)

write_bytes_parts :
    (w : Writer) (b : Bytes)
    → (write_bytes w b).1 ≡ none
    → (length b ≤ max_bytes_size)
      × ((write w (size_bytes b)).1 ≡ none)
      × ((write (write w (size_bytes b)).0 b).1 ≡ none)
      × ((write_bytes w b).0 ≡ (write (write w (size_bytes b)).0 b).0)
unfolding write_bytes
write_bytes_parts w b h = (ground arith, ground arith, ground arith, ground arith)

-- A reported success means that the whole sized value went out, and that it was not too big.
pub write_bytes-none :
    (w : Writer) (b : Bytes)
    → (write_bytes w b).1 ≡ none
    → ((write_bytes w b).0.out ≡ w.out ++ sized b) × (length b ≤ max_bytes_size)
unfolding sized
write_bytes-none w b h =
    let (small, size_ok, body_ok, end) = write_bytes_parts w b h in
    let (after_size, _, _) = write-none w (size_bytes b) size_ok in
    let (after_body, _, _) = write-none (write w (size_bytes b)).0 b body_ok in
    let exact : length b % 2 ^ 32 ≡ length b = omega arith in
    (
      ap (λ (v : Writer). v.out) (end ∙ after_body)
          ∙ ap (λ (v : Writer). v.out ++ b) after_size
          ∙ append_assoc w.out (size_bytes b) b
          ∙ ap (λ n. w.out ++ (append_uint32 [] n ++ b)) exact,
      small,
    )

-- Where the connection takes it, a value within the limit is written.
pub write_bytes-fits :
    (w : Writer) (b : Bytes)
    → w.failed ≡ false
    → length b + 4 ≤ w.room
    → length b ≤ max_bytes_size
    → write_bytes w b ≡ (accepted w (sized b), none)
unfolding write_bytes sized
write_bytes-fits w b ok fits small =
    let four : length (size_bytes b) ≡ 4 = length-append_uint32 _ in
    let first = write_fits w (size_bytes b) ok (omega arith) in
    let second = write_fits (accepted w (size_bytes b)) b ok (omega arith) in
    let exact : length b % 2 ^ 32 ≡ length b = omega arith in
    ground (arith, first, second, accepted-accepted w (size_bytes b) b, exact)

-- A value over the limit is refused before anything of it is written.
pub write_bytes-too_big :
    (w : Writer) (b : Bytes)
    → max_bytes_size < length b
    → write_bytes w b ≡ (w, some (too_big (length b)))
unfolding write_bytes
write_bytes-too_big w b big = ground arith

-- The outcome once the size has arrived and is within the limit.
read_bytes_parts :
    (r r1 r2 : Reader) (s : Slice) (size_buf got : Bytes) (n : ℕ) (e : Option IoError)
    → read_full r 4 ≡ (r1, none, size_buf)
    → bytes2uint32 size_buf ≡ n
    → n ≤ max_bytes_size
    → read_full r1 n ≡ (r2, e, got)
    → read_bytes r s ≡ (r2, overwrite (resize s n) got, body_result n e)
unfolding read_bytes
read_bytes_parts r r1 r2 s size_buf got n e first exact small second = ground arith

-- Reading a sized value into any slice gives the value and leaves the rest of the input.
pub read_bytes-sized :
    (s : Slice) (b rest : Bytes) (final : IoError)
    → length b ≤ max_bytes_size
    → read_bytes (record { input = sized b ++ rest; final = final }) s
      ≡ (record { input = rest; final = final }, overwrite (resize s (length b)) b, none)
unfolding sized
read_bytes-sized s b rest final small =
    let n : ℕ = length b in
    let first : read_full (record { input = sized b ++ rest; final = final }) 4
        ≡ (record { input = b ++ rest; final = final }, none, append_uint32 [] n) =
      rw (append_assoc) (
        read_full-append (append_uint32 [] n) (b ++ rest) final 4 (sym (length-append_uint32 n))) in
    let second = read_full-append b rest final n refl in
    let exact = bytes2uint32-append_uint32 n (omega arith) in
    read_bytes_parts _ _ _ s _ b n none first exact small second

sized-IsByte : (b : Bytes) → All IsByte b → All IsByte (sized b)
unfolding sized append_uint32
sized-IsByte b h = (omega arith, (omega arith, (omega arith, (omega arith, h))))

-- What `readBytes` reads first, the size that it takes from that, and what it reads next.
abbrev size_read : Reader → Reader × Option IoError × Bytes
size_read r = read_full r 4

abbrev declared : Reader → ℕ
declared r = bytes2uint32 (size_read r).2

abbrev body_read : Reader → Reader × Option IoError × Bytes
body_read r = read_full (size_read r).0 (declared r)

read_bytes-none :
    (r : Reader) (s : Slice)
    → (read_bytes r s).2 ≡ none
    → ((size_read r).1 ≡ none)
      × (declared r ≤ max_bytes_size)
      × ((body_read r).1 ≡ none)
      × (read_bytes r s
          ≡ ((body_read r).0, overwrite (resize s (declared r)) (body_read r).2, none))
unfolding read_bytes
read_bytes-none r s h = (ground arith, ground arith, ground arith, ground arith)

-- Whatever arrives, an accepted value is within the limit, and what was consumed is exactly its
-- sized form.
pub read_bytes_sound :
    (r : Reader) (s : Slice)
    → All IsByte r.input
    → (read_bytes r s).2 ≡ none
    → (r.input ≡ sized (contents (read_bytes r s).1) ++ (read_bytes r s).0.input)
      × (length (contents (read_bytes r s).1) ≤ max_bytes_size)
      × ((read_bytes r s).0.final ≡ r.final)
unfolding sized
read_bytes_sound r s bytes h =
    let (size_ok, small, body_ok, end) = read_bytes-none r s h in
    let (split1, four, final1) = read_full-none r 4 size_ok in
    let (split2, count, final2) = read_full-none (size_read r).0 (declared r) body_ok in
    let held : contents (read_bytes r s).1 ≡ (body_read r).2 =
      ap (λ (t : Reader × Slice × Option BytesError). contents t.1) end
      ∙ ap (λ n. contents (overwrite (resize s n) (body_read r).2)) (sym count)
      ∙ contents-overwrite-resize s (body_read r).2 in
    let spelt : append_uint32 [] (length (body_read r).2) ≡ (size_read r).2 =
      ap (append_uint32 []) count
      ∙ append_uint32-bytes2uint32 (size_read r).2 four
          (All-append_left IsByte (size_read r).2 _ (subst (All IsByte) split1 bytes)) in
    let left : (read_bytes r s).0 ≡ (body_read r).0 =
      ap (λ (t : Reader × Slice × Option BytesError). t.0) end in
    (
      rw (held, left, spelt, append_assoc) (split1 ∙ ap (◌++◌ (size_read r).2) split2),
      rw held (rw count small),
      rw left (final2 ∙ final1),
    )

-- A sized value that is cut short is an error.
pub read_bytes-cut :
    (s : Slice) (b : Bytes) (k : ℕ) (final : IoError)
    → length b ≤ max_bytes_size
    → All IsByte b
    → k < length (sized b)
    → (read_bytes (record { input = take k (sized b); final = final }) s).2 ≢ none
read_bytes-cut s b k final small bytes cut h =
    let r : Reader = record { input = take k (sized b); final = final } in
    let (split, small', _) =
      read_bytes_sound r s (All-take IsByte k (sized b) (sized-IsByte b bytes)) h in
    let v = contents (read_bytes r s).1 in
    let left = (read_bytes r s).0.input ++ drop k (sized b) in
    let whole : sized b ++ [] ≡ sized v ++ left =
      append-nil (sized b)
      ∙ sym (take-append-drop k (sized b))
      ∙ ap (λ xs. xs ++ drop k (sized b)) split
      ∙ append_assoc (sized v) _ _ in
    let one = read_bytes-sized s b [] final small in
    let two = read_bytes-sized s v left final small' in
    let nothing : [] ≡ left =
      ap (λ (t : Reader × Slice × Option BytesError). t.0.input)
        (sym one ∙ ap (λ xs. read_bytes (record { input = xs; final = final }) s) whole ∙ two) in
    omega (
      arith,
      ap length nothing,
      length-append (read_bytes r s).0.input (drop k (sized b)),
      length-drop k (sized b),
    )
