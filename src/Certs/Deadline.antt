-- ===== src/Certs/Deadline.antt =====
-- A renewal with a deadline ends, after so many rounds.
use dcr_sdk.Common.{
  ℕ, zero, suc, ◌+◌, ◌*◌, ◌<◌, ◌≤◌, ◌==◌, leb, leb_false→lt, ==_iff, ◌≡◌, ◌≢◌, refl, inl, inr, Bool,
  true, false, Bool-cases, Option, none, some, List, [], ◌∷◌, ◌++◌, Bytes, is_empty, Result, arith,
  replicate,
}
use dcr_sdk.Common.Int.{pos}
use dcr_sdk.Certs.{Pki}
use dcr_sdk.Certs.Fetch.{
  CaRenewResponse, FetchError, Attempt, failed, answered, status_ok, status_accepted, fetch_loop,
  fetch,
}
use dcr_sdk.Certs.Polling.{IsPoll}
use dcr_sdk.Certs.Timed.{
  CaAnswer, ask, of_reply, attempts, fetch_from, renew_fetch_timeout, poll_interval, trim_right,
  fetch_url, slash, ca_renew_path,
}

module _ (pki : Pki) (decode_json : Bytes → Option CaRenewResponse) where
  abbrev Ends : Option (Result FetchError (Bytes × Bytes)) → Type 0
  Ends o = o ≢ none

  fetch_loop-round :
      (accepted : Bool) (a : Attempt) (rest : List Attempt)
      → (IsPoll a → Ends (fetch_loop pki decode_json true rest))
      → Ends (fetch_loop pki decode_json accepted (a ∷ rest))
  unfolding fetch_loop
  fetch_loop-round true (failed true) rest later = cc
  fetch_loop-round true (failed false) rest later = cc
  fetch_loop-round false (failed done) rest later = cc
  fetch_loop-round accepted (answered status body done) rest later =
      elim (Bool-cases (status == status_ok)) [
        | inl e ↦ rw e (λ h. cc)
        | inr e ↦ elim (Bool-cases (status == status_accepted)) [
          | inr r ↦ rw (e, r) (λ h. cc)
          | inl r ↦ elim (Bool-cases done) [
            | inl d ↦ rw (e, r, d) (λ h. cc)
            | inr d ↦ rw (e, r, d) (later ((==_iff status status_accepted).0 r, d))
          ]
        ]
      ]

  module _ (ca : ℕ → CaAnswer) (deadline poll : ℕ) where
    of_reply-IsPoll :
        (end : ℕ) (reply : Option (ℕ × Option Bytes))
        → IsPoll (of_reply ca deadline poll end reply)
        → end + poll < deadline
    of_reply-IsPoll end none polled = absurd polled
    of_reply-IsPoll end (some (status, none)) polled = absurd polled
    of_reply-IsPoll end (some (status, some body)) (_, early) = leb_false→lt _ _ early

    ask-IsPoll :
        (now : ℕ) → IsPoll (ask ca deadline poll now) → now + (ca now).takes + poll < deadline
    unfolding ask
    ask-IsPoll now polled = elim (Bool-cases (leb deadline (now + (ca now).takes))) [
      | inl late ↦ absurd (rw late at polled)
      | inr early ↦ of_reply-IsPoll _ (ca now).reply (rw early at polled)
    ]

    fetch_loop-timed :
        (n now : ℕ) (accepted : Bool)
        → now < deadline
        → deadline ≤ now + n * poll
        → Ends (fetch_loop pki decode_json accepted (attempts ca deadline poll n now))
    unfolding attempts
    fetch_loop-timed zero now accepted early enough = absurd (omega arith)
    fetch_loop-timed (suc n) now accepted early enough =
        fetch_loop-round accepted (ask ca deadline poll now) _ (λ polled.
          fetch_loop-timed n (now + (ca now).takes + poll) true (ask-IsPoll now polled)
            (grind arith))

some_of : {A : Type 0} (o : Option A) → o ≢ none → (a : A) × (o ≡ some a)
some_of none h = absurd (h refl)
some_of (some a) h = (a, refl)

module _ (pki : Pki) (decode_json : Bytes → Option CaRenewResponse) (ca : ℕ → CaAnswer) where
  -- Whatever the CA does and however long it takes, a `Fetch` that starts before the deadline of its
  -- context ends with a result or an error, within as many rounds as there are poll intervals, the
  -- last of them begun, until the deadline.
  pub fetch_from-ends :
      (deadline poll n now : ℕ)
      → now < deadline
      → deadline ≤ now + n * poll
      → (out : Result FetchError (Bytes × Bytes)) × (fetch_from ca deadline poll pki decode_json n
            now
          ≡ some out)
  unfolding fetch_from fetch
  fetch_from-ends deadline poll n now early enough =
      some_of _ (fetch_loop-timed pki decode_json ca deadline poll n now false early enough)

  -- A renewal of the renewer, whose context has two minutes, ends within six rounds.
  pub renewal-ends :
      (now : ℕ)
      → (out : Result FetchError (Bytes × Bytes)) × (fetch_from ca
            (now + renew_fetch_timeout)
            (poll_interval (pos 0))
            pki
            decode_json
            6
            now
          ≡ some out)
  unfolding poll_interval
  renewal-ends now =
      fetch_from-ends (now + renew_fetch_timeout) (poll_interval (pos 0)) 6 now (omega arith)
        (omega arith)

is_empty-append : (s : Bytes) (c : ℕ) (t : Bytes) → is_empty (s ++ c ∷ t) ≡ false
is_empty-append [] c t = refl
is_empty-append (d ∷ s) c t = refl

trim_right-slashes : (b n : ℕ) → trim_right b (replicate n b) ≡ []
unfolding trim_right
trim_right-slashes b zero = refl
trim_right-slashes b (suc n) = rw (trim_right-slashes b n, (==_iff b b).1 refl) refl

trim_right-append :
    (b c n : ℕ) (s : Bytes) → (c == b) ≡ false → trim_right b (s ++ c ∷ replicate n b) ≡ s ++ c ∷ []
unfolding trim_right
trim_right-append b c n [] other = rw (trim_right-slashes b n, other) refl
trim_right-append b c n (d ∷ s) other =
    rw (trim_right-append b c n s other, is_empty-append s c []) refl

-- The URL that a renewal is asked at is the given base, however many slashes it ends with, and
-- /cert behind one slash.
pub fetch_url-slashes :
    (s : Bytes) (c n : ℕ)
    → c ≢ slash
    → fetch_url (s ++ c ∷ replicate n slash) ≡ (s ++ c ∷ []) ++ ca_renew_path
unfolding fetch_url
fetch_url-slashes s c n other =
    rw (is_empty-append s c (replicate n slash), trim_right-append slash c n s (ground arith)) refl
