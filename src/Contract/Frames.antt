-- ===== src/Contract/Frames.antt =====
-- The frames of requests and responses: what is written, and what reading it back gives.
use dcr_sdk.Common.{
  false, ◌+◌, ℕ, ◌%◌, ◌≤◌, ◌≡◌, ap, ◌∙◌, none, [], ◌∷◌, ◌++◌, Bytes, length, arith, append_assoc,
}
use dcr_sdk.Contract.Io.{
  IoError, Writer, write_byte, read_byte, write-none, write_fits, accepted, accepted-accepted,
}
use dcr_sdk.Contract.Slice.{contents, cleared, overwrite, resize}
use dcr_sdk.Contract.Wire.{write_bytes, max_bytes_size}
use dcr_sdk.Contract.Wire.Sized.{sized, write_bytes-none, write_bytes-fits, read_bytes-sized}
use dcr_sdk.Contract.Request.{Request, write_request, read_request}
use dcr_sdk.Contract.Response.{Response, write_response, read_response}

-- What a request or a response is on the wire: its code and its sized value.
unfoldable pub frame : ℕ → Bytes → Bytes
frame code b = code ∷ sized b

abbrev pub request_frame : Request → Bytes
request_frame req = frame req.code (contents req.value)

-- The parts of a successful write: the code went through, and the sized value after it.
write_request_parts :
    (w : Writer) (req : Request)
    → (write_request w req).1 ≡ none
    → ((write_byte w req.code).1 ≡ none)
      × ((write_bytes (write_byte w req.code).0 (contents req.value)).1 ≡ none)
      × ((write_request w req).0 ≡ (write_bytes (write_byte w req.code).0 (contents req.value)).0)
unfolding write_request
write_request_parts w req h = (ground arith, ground arith, ground arith)

write_response_parts :
    (w : Writer) (resp : Response)
    → (write_response w resp).1 ≡ none
    → ((write_byte w (resp.status_code % 256)).1 ≡ none)
      × ((write_bytes (write_byte w (resp.status_code % 256)).0 (contents resp.value)).1 ≡ none)
      × ((write_response w resp).0
          ≡ (write_bytes (write_byte w (resp.status_code % 256)).0 (contents resp.value)).0)
unfolding write_response
write_response_parts w resp h = (ground arith, ground arith, ground arith)

-- A code and a sized value that both went through make a frame.
frame_written :
    (w : Writer) (code : ℕ) (b : Bytes)
    → (write_byte w code).1 ≡ none
    → (write_bytes (write_byte w code).0 b).1 ≡ none
    → ((write_bytes (write_byte w code).0 b).0.out ≡ w.out ++ frame code b)
      × (length b ≤ max_bytes_size)
unfolding frame write_byte
frame_written w code b code_ok value_ok =
    let (after_code, _, _) = write-none w (code ∷ []) code_ok in
    let (after_value, small) = write_bytes-none _ b value_ok in
    (
      after_value
          ∙ ap (λ (v : Writer). v.out ++ sized b) after_code
          ∙ append_assoc w.out (code ∷ []) (sized b),
      small,
    )

pub write_request-none :
    (w : Writer) (req : Request)
    → (write_request w req).1 ≡ none
    → ((write_request w req).0.out ≡ w.out ++ request_frame req)
      × (length (contents req.value) ≤ max_bytes_size)
write_request-none w req h =
    let (code_ok, value_ok, end) = write_request_parts w req h in
    let (out, small) = frame_written w req.code _ code_ok value_ok in
    (ap (λ (v : Writer). v.out) end ∙ out, small)

pub write_response-none :
    (w : Writer) (resp : Response)
    → (write_response w resp).1 ≡ none
    → ((write_response w resp).0.out
        ≡ w.out ++ frame (resp.status_code % 256) (contents resp.value))
      × (length (contents resp.value) ≤ max_bytes_size)
write_response-none w resp h =
    let (code_ok, value_ok, end) = write_response_parts w resp h in
    let (out, small) = frame_written w (resp.status_code % 256) _ code_ok value_ok in
    (ap (λ (v : Writer). v.out) end ∙ out, small)

-- Reading a frame into any request.
pub read_request-frame :
    (prev : Request) (code : ℕ) (b rest : Bytes) (final : IoError)
    → length b ≤ max_bytes_size
    → read_request (record { input = frame code b ++ rest; final = final }) prev ≡ (
      record { input = rest; final = final },
      record { value = overwrite (resize (cleared prev.value) (length b)) b; code = code },
      none,
    )
unfolding read_request read_byte frame
read_request-frame prev code b rest final small =
    rw (read_bytes-sized (cleared prev.value) b rest final small)

pub read_response-frame :
    (prev : Response) (code : ℕ) (b rest : Bytes) (final : IoError)
    → length b ≤ max_bytes_size
    → read_response (record { input = frame code b ++ rest; final = final }) prev ≡ (
      record { input = rest; final = final },
      record { value = overwrite (resize (cleared prev.value) (length b)) b; status_code = code },
      none,
    )
unfolding read_response read_byte frame
read_response-frame prev code b rest final small =
    rw (read_bytes-sized (cleared prev.value) b rest final small)

-- With room for it, a frame goes through whole.
frame_fits :
    (w : Writer) (code : ℕ) (b : Bytes)
    → w.failed ≡ false
    → length b + 5 ≤ w.room
    → length b ≤ max_bytes_size
    → (write_byte w code ≡ (accepted w (code ∷ []), none))
      × (write_bytes (accepted w (code ∷ [])) b ≡ (accepted w (frame code b), none))
unfolding write_byte frame
frame_fits w code b ok room small = (
  write_fits w (code ∷ []) ok (omega arith),
  write_bytes-fits (accepted w (code ∷ [])) b ok (omega arith) small
      ∙ ap (λ v. (v, none)) (accepted-accepted w (code ∷ []) (sized b)),
)

pub write_request-fits :
    (w : Writer) (req : Request)
    → w.failed ≡ false
    → length (contents req.value) + 5 ≤ w.room
    → length (contents req.value) ≤ max_bytes_size
    → write_request w req ≡ (accepted w (request_frame req), none)
unfolding write_request
write_request-fits w req ok room small =
    let (first, second) = frame_fits w req.code (contents req.value) ok room small in
    ground (arith, first, second)

pub write_response-fits :
    (w : Writer) (resp : Response)
    → w.failed ≡ false
    → length (contents resp.value) + 5 ≤ w.room
    → length (contents resp.value) ≤ max_bytes_size
    → write_response w resp
      ≡ (accepted w (frame (resp.status_code % 256) (contents resp.value)), none)
unfolding write_response
write_response-fits w resp ok room small =
    let (first, second) =
      frame_fits w (resp.status_code % 256) (contents resp.value) ok room small in
    ground (arith, first, second)
