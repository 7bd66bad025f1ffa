-- ===== src/Contract/Robust.antt =====
-- What reading guarantees about bytes that this package did not write.
use dcr_sdk.Common.{
  ℕ, zero, suc, ◌≤◌, ◌<◌, ◌≡◌, ◌≢◌, ap, none, [], ◌∷◌, ◌++◌, Bytes, length, take, All, arith,
}
use dcr_sdk.Contract.Io.{IoError, Reader, read_byte}
use dcr_sdk.Contract.Slice.{contents, cleared}
use dcr_sdk.Contract.Wire.{max_bytes_size}
use dcr_sdk.Contract.Wire.Uint32.{IsByte}
use dcr_sdk.Contract.Wire.Sized.{read_bytes_sound, read_bytes-cut}
use dcr_sdk.Contract.Request.{Request, read_request}
use dcr_sdk.Contract.Response.{Response, read_response}
use dcr_sdk.Contract.Frames.{frame}

-- What a successful read has taken from the input.
abbrev pub Consumed : Reader → Reader → ℕ → Bytes → Type 0
Consumed r r' code b =
    (r.input ≡ frame code b ++ r'.input) × (length b ≤ max_bytes_size) × (r'.final ≡ r.final)

request_from_input :
    (xs : Bytes) (final : IoError) (prev : Request)
    → All IsByte xs
    → (read_request (record { input = xs; final = final }) prev).2 ≡ none
    → let r : Reader = record { input = xs; final = final } in
      let (r', req, _) = read_request r prev in Consumed r r' req.code (contents req.value)
unfolding read_request read_byte frame
request_from_input [] final prev bytes h = ground arith
request_from_input (c ∷ xs) final prev (byte, bytes) h =
    let (split, small, end) =
      read_bytes_sound (record { input = xs; final = final }) (cleared prev.value) bytes
        (ground arith) in
    (ap (◌∷◌ c) split, small, end)

-- Whatever bytes arrive, a request that is read without an error is within the size limit, and what
-- was taken from the input is exactly its frame: no byte more and no byte less.
pub read_request_sound :
    (r : Reader) (prev : Request)
    → All IsByte r.input
    → (read_request r prev).2 ≡ none
    → let (r', req, _) = read_request r prev in Consumed r r' req.code (contents req.value)
read_request_sound r prev bytes h = request_from_input r.input r.final prev bytes h

response_from_input :
    (xs : Bytes) (final : IoError) (prev : Response)
    → All IsByte xs
    → (read_response (record { input = xs; final = final }) prev).2 ≡ none
    → let r : Reader = record { input = xs; final = final } in
      let (r', resp, _) = read_response r prev in
      Consumed r r' resp.status_code (contents resp.value)
unfolding read_response read_byte frame
response_from_input [] final prev bytes h = ground arith
response_from_input (c ∷ xs) final prev (byte, bytes) h =
    let (split, small, end) =
      read_bytes_sound (record { input = xs; final = final }) (cleared prev.value) bytes
        (ground arith) in
    (ap (◌∷◌ c) split, small, end)

-- The same for a response.
pub read_response_sound :
    (r : Reader) (prev : Response)
    → All IsByte r.input
    → (read_response r prev).2 ≡ none
    → let (r', resp, _) = read_response r prev in
      Consumed r r' resp.status_code (contents resp.value)
read_response_sound r prev bytes h = response_from_input r.input r.final prev bytes h

-- A frame that is cut short anywhere, by whatever error ends the input, is not read as a request.
pub read_request-cut :
    (prev : Request) (code : ℕ) (b : Bytes) (k : ℕ) (final : IoError)
    → length b ≤ max_bytes_size
    → All IsByte b
    → k < length (frame code b)
    → (read_request (record { input = take k (frame code b); final = final }) prev).2 ≢ none
unfolding read_request read_byte frame
read_request-cut prev code b zero final small bytes cut h = cc
read_request-cut prev code b (suc k) final small bytes cut h =
    read_bytes-cut (cleared prev.value) b k final small bytes (omega arith) (ground arith)
