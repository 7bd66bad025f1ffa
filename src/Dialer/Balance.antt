-- ===== src/Dialer/Balance.antt =====
-- Which connections a rebalancing closes.
use mathlib.Core.List.{Sublistᴰ}
use mathlib.Core.List.Sublistᴰ.{slnil, cons, cons-cons}
use dcr_sdk.Common.{
  ℕ, ◌-◌, ◌/◌, ◌≡◌, ◌≢◌, refl, ap, Bool, true, false, List, [], ◌∷◌, Bytes, All, arith, min, length,
  if◌then◌else◌,
}
use dcr_sdk.Common.Strings.{bytes_eq_iff}
use dcr_sdk.Dialer.{
  Conn, Counts, is_idle, count_of, decrement, contains, count_conns, close_loop, target_of,
  rebalance, at_least_one,
}
use dcr_sdk.Dialer.Counts.{
  conns_at, idle_at, conns_on, count_of-decrement, count_of-count_conns, total-count_conns,
}

-- The connections to `a` that are over the target, as far as they are idle; all idle ones where `a`
-- is no longer an address of the host.
abbrev pub excess_at : List Bytes → ℕ → Bytes → ℕ → ℕ → ℕ
excess_at allowed target a idle held = if contains a allowed then min idle (held - target) else idle

close_loop_at :
    (allowed : List Bytes) (target : ℕ) (a : Bytes) (conns : List Conn) (counts : Counts)
    → conns_at a (close_loop allowed target conns counts)
      ≡ excess_at allowed target a (idle_at a conns) (count_of a counts)
unfolding close_loop conns_at idle_at
close_loop_at allowed target a [] counts = ground arith
close_loop_at allowed target a (c ∷ conns) counts = ground (
  arith,
  close_loop_at allowed target a conns counts,
  close_loop_at allowed target a conns (decrement c.addr counts),
  count_of-decrement c.addr a counts,
  bytes_eq_iff c.addr a,
)

close_loop-idle :
    (allowed : List Bytes) (target : ℕ) (conns : List Conn) (counts : Counts)
    → All (λ c. is_idle c ≡ true) (close_loop allowed target conns counts)
unfolding close_loop
close_loop-idle allowed target [] counts = tt
close_loop-idle allowed target (c ∷ conns) counts = ground (
  arith,
  close_loop-idle allowed target conns counts,
  close_loop-idle allowed target conns (decrement c.addr counts),
)

take_or_leave :
    {c : Conn} {xs ys conns : List Conn} (b : Bool)
    → Sublistᴰ xs conns
    → Sublistᴰ ys conns
    → Sublistᴰ (if b then c ∷ xs else ys) (c ∷ conns)
take_or_leave true taken left = cons-cons refl taken
take_or_leave false taken left = cons left

close_loop-Sublistᴰ :
    (allowed : List Bytes) (target : ℕ) (conns : List Conn) (counts : Counts)
    → Sublistᴰ (close_loop allowed target conns counts) conns
unfolding close_loop
close_loop-Sublistᴰ allowed target [] counts = slnil
close_loop-Sublistᴰ allowed target (c ∷ conns) counts =
    take_or_leave _ (close_loop-Sublistᴰ allowed target conns _)
      (close_loop-Sublistᴰ allowed target conns counts)

-- A rebalancing over the addresses `addrs` closes, at each address of the host, exactly the
-- connections over the target as far as they are idle, and at any other address all idle ones.
pub conns_at-rebalance :
    (addrs : List Bytes) (conns : List Conn) (a : Bytes)
    → addrs ≢ []
    → conns_at a (rebalance addrs conns)
      ≡ excess_at addrs (target_of addrs conns) a (idle_at a conns) (conns_at a conns)
unfolding rebalance
conns_at-rebalance [] conns a full = absurd (full refl)
conns_at-rebalance (b ∷ addrs) [] a full = unfold conns_at idle_at in ground arith
conns_at-rebalance (b ∷ addrs) (c ∷ conns) a full = ground (
  arith,
  close_loop_at (b ∷ addrs) (target_of (b ∷ addrs) (c ∷ conns)) a (c ∷ conns)
      (count_conns (b ∷ addrs) (c ∷ conns) []),
  count_of-count_conns (b ∷ addrs) a (c ∷ conns),
)

-- The target is the even share of an address, of the connections to the host's addresses, and at
-- least one.
pub target_of_lem :
    (addrs : List Bytes) (conns : List Conn)
    → target_of addrs conns ≡ at_least_one (conns_on addrs conns / length addrs)
unfolding target_of
target_of_lem addrs conns =
    ap (λ n. at_least_one (n / length addrs)) (total-count_conns addrs conns)

nil-Sublistᴰ : (conns : List Conn) → Sublistᴰ [] conns
nil-Sublistᴰ [] = slnil
nil-Sublistᴰ (c ∷ conns) = cons (nil-Sublistᴰ conns)

-- A rebalancing closes idle connections only, and only connections of the dialer, each at most once.
pub rebalance-idle :
    (addrs : List Bytes) (conns : List Conn)
    → All (λ c. is_idle c ≡ true) (rebalance addrs conns) × Sublistᴰ (rebalance addrs conns) conns
unfolding rebalance
rebalance-idle [] conns = (tt, nil-Sublistᴰ conns)
rebalance-idle (b ∷ addrs) [] = (tt, slnil)
rebalance-idle (b ∷ addrs) (c ∷ conns) =
    (close_loop-idle (b ∷ addrs) _ (c ∷ conns) _, close_loop-Sublistᴰ (b ∷ addrs) _ (c ∷ conns) _)
