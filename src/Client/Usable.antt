-- ===== src/Client/Usable.antt =====
-- A client that `newClient` made can always be called.
use dcr_sdk.Common.{
  ℕ, zero, suc, ◌+◌, ◌%◌, ◌^◌, ◌≤◌, ◌<◌, ◌≡◌, ◌≢◌, refl, Bool-cases, inl, inr, Option, none, some,
  List, [], ◌∷◌, Bytes, All, All-get_elem?, length, get_elem?, is_empty, arith,
}
use native.Mathlib.Nat.{mod-lt}
use dcr_sdk.Contract.Request.{Request, acquire}
use dcr_sdk.Contract.Register
use dcr_sdk.Contract.Pools.{IsFresh, acquire-IsFresh, release-IsFresh}
use dcr_sdk.Client.Unary.{Metrics, Answer, do_unary, wire_request}
use dcr_sdk.Client.Sharded.{
  Client, Group, ShardedClient, set, pick, next_counter, get_group, get_client, metrics_of,
  after_call, call,
}

-- Counters for each of the three requests, and none for number 0.
abbrev pub IsCounted : List (Option Metrics) → Type 0
IsCounted ms =
    (t : Metrics) × (r : Metrics) × (u : Metrics) × (ms ≡ none ∷ some t ∷ some r ∷ some u ∷ [])

pub record IsReady (g : Group) : Type 0 where
  pub connected : g.clients ≢ []
  pub counted : IsCounted g.metric_groups

pub record IsUsable (sc : ShardedClient) : Type 0 where
  pub grouped : sc.groups ≢ []
  pub ready : All IsReady sc.groups
  pub fresh : All IsFresh sc.pool

module _ {ℓ} {A : Type ℓ} where
  pub get_elem?-some : (xs : List A) (i : ℕ) → i < length xs → (x : A) × (get_elem? xs i ≡ some x)
  get_elem?-some [] i h = elim h [ ]
  get_elem?-some (x ∷ xs) zero h = (x, refl)
  get_elem?-some (x ∷ xs) (suc i) h = get_elem?-some xs i (omega arith)

  -- A pick from a list that is not empty finds an element.
  pub pick-some :
      (counter : ℕ) (xs : List A)
      → xs ≢ []
      → (i : ℕ) × (x : A) × (pick counter (length xs) ≡ some i) × (get_elem? xs i ≡ some x)
  unfolding pick
  pick-some counter [] full = absurd (full refl)
  pick-some counter (x ∷ xs) full =
      let i = (counter + 1) % 2 ^ 64 % length (x ∷ xs) in
      let (y, found) = get_elem?-some (x ∷ xs) i (mod-lt ((counter + 1) % 2 ^ 64) (omega arith)) in
      (i, y, ground arith, found)

  set-full : (xs : List A) (i : ℕ) (v : A) → xs ≢ [] → set xs i v ≢ []
  set-full [] i v full = full
  set-full (x ∷ xs) zero v full = cc
  set-full (x ∷ xs) (suc i) v full = cc

  All-set : (P : A → Type 0) (xs : List A) (i : ℕ) (v : A) → All P xs → P v → All P (set xs i v)
  All-set P [] i v h hv = tt
  All-set P (x ∷ xs) zero v h hv = (hv, h.1)
  All-set P (x ∷ xs) (suc i) v h hv = (h.0, All-set P xs i v h.1 hv)

get_group-some :
    (sc : ShardedClient)
    → IsUsable sc
    → (i : ℕ) × (g : Group) × (get_group sc ≡ some (i, g)) × IsReady g
unfolding get_group
get_group-some sc ok =
    let (i, g, picked, found) = pick-some sc.round_robin sc.groups ok.grouped in
    (i, g, rw (picked, found) refl, All-get_elem? IsReady sc.groups i g ok.ready found)

get_client-some : (g : Group) → IsReady g → (j : ℕ) × (c : Client) × (get_client g ≡ some (j, c))
unfolding get_client
get_client-some g ok =
    let (j, c, picked, found) = pick-some g.round_robin g.clients ok.connected in
    (j, c, rw (picked, found) refl)

metrics_of-some :
    (ms : List (Option Metrics)) (reqn : ℕ)
    → IsCounted ms
    → 1 ≤ reqn
    → reqn ≤ Register.max_request_identifier
    → (m : Metrics) × (metrics_of ms reqn ≡ some m)
metrics_of-some ms zero counted low high = elim low [ ]
metrics_of-some ms (suc zero) (t, r, u, e) low high = (t, rw e refl)
metrics_of-some ms (suc (suc zero)) (t, r, u, e) low high = (r, rw e refl)
metrics_of-some ms (suc (suc (suc zero))) (t, r, u, e) low high = (u, rw e refl)
metrics_of-some ms (suc (suc (suc (suc n)))) (t, r, u, e) low high = absurd (omega arith)

set-IsCounted :
    (ms : List (Option Metrics)) (reqn : ℕ) (m : Metrics)
    → IsCounted ms
    → 1 ≤ reqn
    → IsCounted (set ms reqn (some m))
set-IsCounted ms zero m counted low = elim low [ ]
set-IsCounted ms (suc zero) m (t, r, u, e) low = (m, r, u, rw e refl)
set-IsCounted ms (suc (suc zero)) m (t, r, u, e) low = (t, m, u, rw e refl)
set-IsCounted ms (suc (suc (suc zero))) m (t, r, u, e) low = (t, r, m, rw e refl)
set-IsCounted ms (suc (suc (suc (suc n)))) m (t, r, u, e) low = (t, r, u, rw e refl)

module _ {A : Type 0} (reqn : ℕ) (unmarshal : Bytes → Option A) (choice : ℕ) where
  do_unary-IsFresh :
      (raw : Option Bytes) (do_deadline : Request → Answer) (pool : List Request) (m : Metrics)
      → All IsFresh pool
      → All IsFresh (do_unary reqn raw unmarshal do_deadline choice pool m).pool
  unfolding do_unary
  do_unary-IsFresh none do_deadline pool m h = h
  do_unary-IsFresh (some bytes) do_deadline pool m h =
      let taken = wire_request reqn bytes (acquire pool choice).0 in
      elim (Bool-cases (is_empty bytes)) [
        | inl e ↦ rw e h
        | inr e ↦ rw e (release-IsFresh _ taken (acquire-IsFresh pool choice h).1)
      ]

  -- A call of a usable client asks one of its connections, and leaves the client usable.
  pub call_runs :
      (raw : Option Bytes) (transport : ℕ → ℕ → Request → Answer) (sc : ShardedClient)
      → IsUsable sc
      → 1 ≤ reqn
      → reqn ≤ Register.max_request_identifier
      → (i : ℕ) × (j : ℕ) × (m : Metrics) × (sc' : ShardedClient) × (let out =
            do_unary reqn raw unmarshal (transport i j) choice sc.pool m in
          (call sc reqn raw unmarshal transport choice ≡ some (sc', (out.status, out.result)))
          × IsUsable sc')
  unfolding call
  call_runs raw transport sc ok low high =
      let (i, g, grouped, ready) = get_group-some sc ok in
      let (j, c, connected) = get_client-some g ready in
      let (m, counted) = metrics_of-some g.metric_groups reqn ready.counted low high in
      let out = do_unary reqn raw unmarshal (transport i j) choice sc.pool m in
      let g' = record g {
        round_robin = next_counter g.round_robin;
        metric_groups = set g.metric_groups reqn (some out.metrics);
      } in
      (
        i,
        j,
        m,
        after_call sc i g reqn out,
        (
          rw (grouped, connected, counted) refl,
          record {
            grouped = set-full sc.groups i g' ok.grouped;
            ready = All-set IsReady sc.groups i g' ok.ready (record {
              connected = ready.connected;
              counted = set-IsCounted g.metric_groups reqn out.metrics ready.counted low;
            });
            fresh = do_unary-IsFresh raw (transport i j) sc.pool m ok.fresh;
          },
        ),
      )
