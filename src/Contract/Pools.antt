-- ===== src/Contract/Pools.antt =====
-- The pools of requests and responses: an object that comes out of one holds nothing of its last
-- use, whichever object it is.
use dcr_sdk.Common.{
  ℕ, ◌≡◌, refl, ap, ◌∙◌, inl, inr, List, [], ◌∷◌, ◌++◌, Bytes, All, All-without, All-get_elem?,
  arith, Option-cases, get_elem?,
}
use dcr_sdk.Contract.Slice.{contents, IsValid, contents-append}
use dcr_sdk.Contract.Register
use dcr_sdk.Contract.Request.{Request}
use dcr_sdk.Contract.Request as Requests
use dcr_sdk.Contract.Frames.{frame}

pub record IsFresh (req : Request) : Type 0 where
  pub unnamed : req.code ≡ Register.unknown
  pub empty : contents req.value ≡ []
  pub valid : IsValid req.value

reset-IsFresh : (req : Request) → IsFresh (Requests.reset req)
unfolding Requests.reset contents
reset-IsFresh req = record { unnamed = refl; empty = refl; valid = record { within = omega arith } }

new_request-IsFresh : IsFresh Requests.new_request
unfolding contents
new_request-IsFresh = record {
  unnamed = refl;
  empty = refl;
  valid = record { within = omega arith };
}

-- A pool to which only `ReleaseRequest` has put anything holds fresh objects.
pub release-IsFresh :
    (pool : List Request) (req : Request)
    → All IsFresh pool
    → All IsFresh (Requests.release pool req)
unfolding Requests.release
release-IsFresh pool req h = (reset-IsFresh req, h)

pub acquire-IsFresh :
    (pool : List Request) (choice : ℕ)
    → All IsFresh pool
    → let (req, left) = Requests.acquire pool choice in IsFresh req × All IsFresh left
unfolding Requests.acquire
acquire-IsFresh pool choice h = elim (Option-cases (get_elem? pool choice)) [
  | inl e ↦ rw (e, Requests.acquire) (new_request-IsFresh, h)
  | inr (req, e) ↦
      rw (e, Requests.acquire)
        (All-get_elem? IsFresh pool choice req h e, All-without IsFresh pool choice h)
]

-- What `doUnary` does to the pool and to the requests that it takes from it: a request is taken,
-- named, filled and put back, any number of times.
pub record Use : Type 0 where
  pub choice : ℕ
  pub code : ℕ
  pub payload : Bytes

unfoldable pub filled : List Request → Use → Request
filled pool u =
    Requests.append_value (Requests.set_name (Requests.acquire pool u.choice).0 u.code) u.payload

unfoldable pub after_uses : List Request → List Use → List Request
after_uses pool [] = pool
after_uses pool (u ∷ us) =
    after_uses (Requests.release (Requests.acquire pool u.choice).1 (filled pool u)) us

after_uses-IsFresh :
    (pool : List Request) (us : List Use) → All IsFresh pool → All IsFresh (after_uses pool us)
unfolding after_uses
after_uses-IsFresh pool [] h = h
after_uses-IsFresh pool (u ∷ us) h =
    after_uses-IsFresh (Requests.release (Requests.acquire pool u.choice).1 (filled pool u)) us
      (release-IsFresh _ (filled pool u) (acquire-IsFresh pool u.choice h).1)

-- After any uses of a pool that starts empty, whichever objects it handed out, the next request that
-- is taken, named and filled has on the wire that name and that payload, and nothing of an earlier
-- use.
pub filled-after_uses :
    (us : List Use) (u : Use)
    → let req = filled (after_uses [] us) u in
      frame req.code (contents req.value) ≡ frame u.code u.payload
unfolding filled Requests.append_value Requests.set_name
filled-after_uses us u =
    let pool = after_uses [] us in
    let fresh = (acquire-IsFresh pool u.choice (after_uses-IsFresh [] us tt)).0 in
    ap (frame u.code) (
      contents-append (Requests.acquire pool u.choice).0.value u.payload fresh.valid
      ∙ ap (λ xs. xs ++ u.payload) fresh.empty)
