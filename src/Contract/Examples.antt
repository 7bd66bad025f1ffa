-- ===== src/Contract/Examples.antt =====
-- Tests of pkg/contract by evaluation, and the theorems at concrete inputs.
use dcr_sdk.Common.{
  ◌<◌, ◌≡◌, ◌≢◌, refl, false, none, List, [], ◌∷◌, ◌++◌, codes, length, take, arith,
}
use dcr_sdk.Contract.Io.{eof, other, Writer, Reader, write_byte, read_byte, write, read_full}
use dcr_sdk.Contract.Slice.{of_bytes, contents, nil_slice, resize, overwrite, append}
use dcr_sdk.Contract.Wire.{append_uint32, bytes2uint32, write_bytes, read_bytes}
use dcr_sdk.Contract.Wire.Sized.{sized}
use dcr_sdk.Contract.Register.{target, report, touch}
use dcr_sdk.Contract.Status.{forbidden}
use dcr_sdk.Contract.Request.{Request, write_request, read_request}
use dcr_sdk.Contract.Response.{Response, write_response, read_response}
use dcr_sdk.Contract.Frames.{frame}
use dcr_sdk.Contract.RoundTrip.{sent, arriving, write_all, read-write_request, read-write_response}
use dcr_sdk.Contract.Robust.{Consumed, read_request_sound, read_request-cut}
use dcr_sdk.Contract.Pools.{Use, filled, after_uses, filled-after_uses}

wire : Unit {0}
unfolding write_request read_request write_response read_response write_byte read_byte write
    read_full contents resize overwrite append append_uint32 bytes2uint32 write_bytes read_bytes
    sized frame
wire = tt

abbrev open_writer : Writer
open_writer = record { out = 9 ∷ []; room = 4096; failed = false; error = other 32 }

abbrev hello : Request
hello = record { value = of_bytes (codes "hello"); code = target }

-- An object with a longer value of an earlier use.
abbrev used : Request
used = record { value = of_bytes (codes "an older and longer value"); code = touch }

hello_on_the_wire : (write_request open_writer hello).0.out ≡ 9 ∷ 1 ∷ 5 ∷ 0 ∷ 0 ∷ 0 ∷ codes "hello"
unfolding wire
hello_on_the_wire = refl

written : (write_request open_writer hello).1 ≡ none
unfolding wire
written = refl

read-write_request_example :
    let (r, got, e) =
      read_request
        (arriving (sent open_writer (write_request open_writer hello).0 ++ 7 ∷ []) eof)
        used in
    (e ≡ none)
    × (got.code ≡ hello.code)
    × (contents got.value ≡ contents hello.value)
    × (r.input ≡ 7 ∷ [])
read-write_request_example = read-write_request open_writer hello used (7 ∷ []) eof written

abbrev refusal : Response
refusal = record { value = of_bytes (codes "no"); status_code = forbidden }

abbrev blank : Response
blank = record { value = nil_slice; status_code = 0 }

refused : (write_response open_writer refusal).1 ≡ none
unfolding wire
refused = refl

read-write_response_example :
    let (r, got, e) =
      read_response
        (arriving (sent open_writer (write_response open_writer refusal).0 ++ []) eof)
        blank in
    (e ≡ none)
    × (got.status_code ≡ refusal.status_code)
    × (contents got.value ≡ contents refusal.value)
    × (r.input ≡ [])
read-write_response_example =
    read-write_response open_writer refusal blank [] eof (omega arith) refused

abbrev three : List Request
three = hello ∷ used ∷ record { value = nil_slice; code = report } ∷ []

all_written : (write_all open_writer three).1 ≡ none
unfolding wire write_all
all_written = refl

abbrev input : Reader
input = record { input = 2 ∷ 3 ∷ 0 ∷ 0 ∷ 0 ∷ 10 ∷ 20 ∷ 30 ∷ 40 ∷ []; final = eof }

readable : (read_request input used).2 ≡ none
unfolding wire
readable = refl

read_request_sound_example :
    let (r, req, _) = read_request input used in Consumed input r req.code (contents req.value)
read_request_sound_example = read_request_sound input used (omega arith) readable

readable_response : (read_response input blank).2 ≡ none
unfolding wire
readable_response = refl

cut_short : 8 < length (frame target (codes "hello"))
unfolding wire
cut_short = omega arith

read_request-cut_example :
    (read_request
      (record { input = take 8 (frame target (codes "hello")); final = other 104 })
      used).2
    ≢ none
read_request-cut_example =
    read_request-cut used target (codes "hello") 8 (other 104) (omega arith) (omega arith) cut_short

-- A declared size over the limit is refused before the value is read.
oversized :
    (read_request (arriving (1 ∷ 255 ∷ 255 ∷ 255 ∷ 255 ∷ 1 ∷ 2 ∷ []) eof) used).0.input ≡ 1 ∷ 2 ∷ []
unfolding wire
oversized = refl

abbrev uses : List Use
uses =
    record { choice = 0; code = report; payload = codes "a long report" }
    ∷ record { choice = 0; code = target; payload = codes "x" }
    ∷ []

abbrev next_use : Use
next_use = record { choice = 0; code = touch; payload = codes "who" }

filled-after_uses_example :
    let req = filled (after_uses [] uses) next_use in
    frame req.code (contents req.value) ≡ frame touch (codes "who")
filled-after_uses_example = filled-after_uses uses next_use
