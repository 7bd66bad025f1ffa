-- ===== src/Contract/RoundTrip.antt =====
-- Requests and responses written to a connection come back as they were, also into objects that
-- have been used before, and also many in a row.
use dcr_sdk.Common.{
  ℕ, zero, suc, ◌+◌, ◌%◌, ◌≤◌, ◌<◌, ◌≡◌, refl, sym, ap, ◌∙◌, false, Option, none, some, List, [],
  ◌∷◌, ◌++◌, Bytes, length, drop, map, arith, append_assoc, drop-append, append-nil, ltb, ltb→lt,
  Bool-cases, inl, inr, All, if◌then◌else◌,
}
use dcr_sdk.Contract.Io.{
  IoError, Writer, Reader, write_byte, write_fits, accepted, accepted-accepted,
}
use dcr_sdk.Contract.Slice.{contents, cleared, contents-overwrite-resize}
use dcr_sdk.Contract.Wire.{max_bytes_size, too_big}
use dcr_sdk.Contract.Wire.Sized.{sized, write_bytes-fits, write_bytes-too_big}
use dcr_sdk.Contract.Request.{Request, RequestError, value_failed, write_request, read_request}
use dcr_sdk.Contract.Response.{Response, write_response, read_response}
use dcr_sdk.Contract.Frames.{
  frame, request_frame, write_request-none, write_response-none, read_request-frame,
  read_response-frame,
}

-- The bytes that a call on `w` has added.
abbrev pub sent : Writer → Writer → Bytes
sent w w' = drop (length w.out) w'.out

abbrev pub arriving : Bytes → IoError → Reader
arriving bytes final = record { input = bytes; final = final }

sent_lem : (w w' : Writer) (p : Bytes) → w'.out ≡ w.out ++ p → sent w w' ≡ p
sent_lem w w' p e = ap (drop (length w.out)) e ∙ drop-append w.out p _ refl

-- If a request is written without an error, then whatever follows it on the connection, and
-- whatever the reading object held before, reading gives no error, the code and the value that were
-- written, and leaves what follows.
pub read-write_request :
    (w : Writer) (req prev : Request) (rest : Bytes) (final : IoError)
    → (write_request w req).1 ≡ none
    → let (r, got, e) =
        read_request (arriving (sent w (write_request w req).0 ++ rest) final) prev in
      (e ≡ none)
      × (got.code ≡ req.code)
      × (contents got.value ≡ contents req.value)
      × (r.input ≡ rest)
read-write_request w req prev rest final h =
    let (out, small) = write_request-none w req h in
    let b = contents req.value in
    rw
      (
        sent_lem w (write_request w req).0 (request_frame req) out,
        read_request-frame prev req.code b rest final small,
      )
      (refl, refl, contents-overwrite-resize (cleared prev.value) b, refl)

-- The same for a response whose status code fits one byte.
pub read-write_response :
    (w : Writer) (resp prev : Response) (rest : Bytes) (final : IoError)
    → resp.status_code < 256
    → (write_response w resp).1 ≡ none
    → let (r, got, e) =
        read_response (arriving (sent w (write_response w resp).0 ++ rest) final) prev in
      (e ≡ none)
      × (got.status_code ≡ resp.status_code)
      × (contents got.value ≡ contents resp.value)
      × (r.input ≡ rest)
read-write_response w resp prev rest final byte h =
    let (out, small) = write_response-none w resp h in
    let b = contents resp.value in
    let exact : resp.status_code % 256 ≡ resp.status_code = omega arith in
    rw
      (
        sent_lem w (write_response w resp).0 (frame (resp.status_code % 256) b) out,
        read_response-frame prev (resp.status_code % 256) b rest final small,
      )
      (refl, exact, contents-overwrite-resize (cleared prev.value) b, refl)

-- On a connection that has room for the whole frame, a request whose value is within the limit is
-- written whole and without an error; one over the limit is refused with its size, after its code
-- byte alone has gone out.
pub write_request_outcome :
    (w : Writer) (req : Request)
    → w.failed ≡ false
    → length (contents req.value) + 5 ≤ w.room
    → let n = length (contents req.value) in
      write_request w req ≡ (
        if ltb max_bytes_size n
        then (accepted w (req.code ∷ []), some (value_failed (too_big n)))
        else (accepted w (request_frame req), none))
unfolding write_request write_byte frame
write_request_outcome w req ok room =
    let b = contents req.value in
    let w1 = accepted w (req.code ∷ []) in
    let first = write_fits w (req.code ∷ []) ok (omega arith) in
    elim (Bool-cases (ltb max_bytes_size (length b))) [
      | inl big ↦ ground (arith, first, write_bytes-too_big w1 b (ltb→lt _ _ big))
      | inr small ↦ ground (
        arith,
        first,
        write_bytes-fits w1 b ok (omega arith) (ground arith),
        accepted-accepted w (req.code ∷ []) (sized b),
      )
    ]

-- Requests in a row over one connection, read back into one object, as in
-- pkg/contract/request_test.go.
unfoldable pub write_all : Writer → List Request → Writer × Option RequestError
write_all w [] = (w, none)
write_all w (req ∷ reqs) =
    let (w1, e) = write_request w req in
    let rest = write_all w1 reqs in elim e [ some e' ↦ (w1, some e') | none ↦ rest ]

unfoldable pub read_all : Reader → Request → ℕ → Option (List (ℕ × Bytes))
read_all r req zero = some []
read_all r req (suc n) =
    let (r1, req1, e) = read_request r req in
    let rest = read_all r1 req1 n in
    elim e [
      | some e' ↦ none
      | none ↦ elim rest [
        | none ↦ none
        | some seen ↦ some ((req1.code, contents req1.value) ∷ seen)
      ]
    ]

abbrev pub view : Request → ℕ × Bytes
view req = (req.code, contents req.value)

write_all-cons :
    (w : Writer) (req : Request) (reqs : List Request)
    → (write_all w (req ∷ reqs)).1 ≡ none
    → ((write_request w req).1 ≡ none)
      × ((write_all (write_request w req).0 reqs).1 ≡ none)
      × ((write_all w (req ∷ reqs)).0 ≡ (write_all (write_request w req).0 reqs).0)
unfolding write_all
write_all-cons w req reqs h = (ground arith, ground arith, ground arith)

read_all-suc :
    (r r1 : Reader) (req req1 : Request) (n : ℕ) (seen : List (ℕ × Bytes))
    → read_request r req ≡ (r1, req1, none)
    → read_all r1 req1 n ≡ some seen
    → read_all r req (suc n) ≡ some (view req1 ∷ seen)
unfolding read_all
read_all-suc r r1 req req1 n seen e rest = ground arith

frames : List Request → Bytes
frames [] = []
frames (req ∷ reqs) = request_frame req ++ frames reqs

write_all-none :
    (w : Writer) (reqs : List Request)
    → (write_all w reqs).1 ≡ none
    → ((write_all w reqs).0.out ≡ w.out ++ frames reqs)
      × All (λ req. length (contents req.value) ≤ max_bytes_size) reqs
unfolding frames
write_all-none w [] h = (unfold write_all in sym (append-nil w.out), tt)
write_all-none w (req ∷ reqs) h =
    let (here, later, end) = write_all-cons w req reqs h in
    let (out, small) = write_request-none w req here in
    let (outs, smalls) = write_all-none (write_request w req).0 reqs later in
    (
      ap (λ (v : Writer). v.out) end
          ∙ outs
          ∙ ap (λ xs. xs ++ frames reqs) out
          ∙ append_assoc w.out (request_frame req) (frames reqs),
      (small, smalls),
    )

read_all-frames :
    (reqs : List Request) (prev : Request) (final : IoError)
    → All (λ req. length (contents req.value) ≤ max_bytes_size) reqs
    → read_all (arriving (frames reqs) final) prev (length reqs) ≡ some (map view reqs)
unfolding frames
read_all-frames [] prev final h = unfold read_all in refl
read_all-frames (req ∷ reqs) prev final (small, h) =
    let one = read_request-frame prev req.code (contents req.value) (frames reqs) final small in
    let again = read_all-frames reqs _ final h in
    read_all-suc _ _ prev _ (length reqs) (map view reqs) one again
    ∙ ap (λ b. some ((req.code, b) ∷ map view reqs))
        (contents-overwrite-resize (cleared prev.value) (contents req.value))

-- Any requests that are written one after another without an error are read back by one object, in
-- order, each with its code and its value.
pub read_all-write_all :
    (w : Writer) (reqs : List Request) (prev : Request) (final : IoError)
    → (write_all w reqs).1 ≡ none
    → read_all (arriving (sent w (write_all w reqs).0) final) prev (length reqs)
      ≡ some (map view reqs)
read_all-write_all w reqs prev final h =
    let (out, small) = write_all-none w reqs h in
    rw (sent_lem w (write_all w reqs).0 (frames reqs) out) (read_all-frames reqs prev final small)
