-- ===== src/Config/HostPort/Lists.antt =====
-- `net.SplitHostPort` on a text with two colons, such as a list of two addresses.
use dcr_sdk.Common.{
  ℕ, zero, suc, ◌+◌, ◌<◌, ◌==◌, ==_iff, ◌≡◌, refl, ap, ◌∙◌, inl, inr, Bool-cases, Option-cases,
  false, none, some, [], ◌∷◌, ◌++◌, Bytes, take, length, arith,
}
use dcr_sdk.Config.HostPort.{colon, opening, index, last_index, starts_with, plain, split_host_port}

index-take :
    (b : ℕ) (s rest : Bytes) (m : ℕ)
    → length s < m
    → (i : ℕ) × (index b (take m (s ++ b ∷ rest)) ≡ some i)
unfolding index
index-take b s rest zero h = absurd (omega arith)
index-take b [] rest (suc m) h = (0, rw ((==_iff b b).1 refl) refl)
index-take b (c ∷ s) rest (suc m) h = elim (Bool-cases (c == b)) [
  | inl e ↦ (0, rw e refl)
  | inr e ↦ let (i, found) = index-take b s rest m (omega arith) in (suc i, rw (e, found) refl)
]

last_index-cons : (b : ℕ) (s : Bytes) → (k : ℕ) × (last_index b (b ∷ s) ≡ some k)
unfolding last_index
last_index-cons b s = elim (Option-cases (last_index b s)) [
  | inl e ↦ (0, rw (e, (==_iff b b).1 refl) refl)
  | inr (i, e) ↦ (suc i, rw e refl)
]

last_index-append :
    (b : ℕ) (s rest : Bytes) (k : ℕ)
    → last_index b rest ≡ some k
    → last_index b (s ++ rest) ≡ some (length s + k)
unfolding last_index
last_index-append b [] rest k e = e ∙ ap some (omega arith)
last_index-append b (c ∷ s) rest k e = rw (last_index-append b s rest k e) (ap some (omega arith))

plain-none :
    (hostport : Bytes) (i j : ℕ) → index colon (take i hostport) ≡ some j → plain hostport i ≡ none
unfolding plain
plain-none hostport i j found = ground arith

-- A text with two colons is no address, unless it starts with a bracket.
pub split_host_port-two_colons :
    (s t u : Bytes)
    → starts_with opening (s ++ colon ∷ (t ++ colon ∷ u)) ≡ false
    → split_host_port (s ++ colon ∷ (t ++ colon ∷ u)) ≡ none
unfolding split_host_port
split_host_port-two_colons s t u bare =
    let hostport = s ++ colon ∷ (t ++ colon ∷ u) in
    let (k, last) = last_index-cons colon u in
    let last_of_all =
      last_index-append colon s (colon ∷ (t ++ colon ∷ u)) _
        (last_index-append colon (colon ∷ t) (colon ∷ u) k last) in
    let (i, found) =
      index-take colon s (t ++ colon ∷ u) (length s + (suc (length t) + k)) (omega arith) in
    rw (last_of_all, bare, split_host_port)
      (plain-none hostport (length s + (suc (length t) + k)) i found)
