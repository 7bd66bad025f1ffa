-- ===== src/Dialer/Rotation.antt =====
-- Which addresses the dialer dials, one after another.
use dcr_sdk.Common.{
  ℕ, zero, suc, ◌+◌, ◌-◌, ◌%◌, ◌^◌, ◌≤◌, ◌<◌, ◌≡◌, refl, ap, ◌∙◌, Option, some, List, [], ◌∷◌,
  Bytes, Any, arith, length, get_elem?, ◌⊎◌, inl, inr,
}
use native.Mathlib.Nat.{mod-lt}
use dcr_sdk.Common.Rotation.{rotation_hits}
use dcr_sdk.Dialer.{Dialer, next_addr}

-- The dialer after `j` dials.
unfoldable pub after_dials : Dialer → ℕ → Dialer
after_dials d zero = d
after_dials d (suc j) = (next_addr (after_dials d j)).0

-- The address of dial `j`, counted from 0.
unfoldable pub dialled : Dialer → ℕ → Option Bytes
unfolding after_dials
dialled d j = (next_addr (after_dials d j)).1

get_elem?-Any :
    (addrs : List Bytes) (i : ℕ)
    → i < length addrs
    → (a : Bytes) × (get_elem? addrs i ≡ some a) × Any (λ b. b ≡ a) addrs
get_elem?-Any [] i h = elim h [ ]
get_elem?-Any (a ∷ addrs) zero h = (a, refl, inl refl)
get_elem?-Any (a ∷ addrs) (suc i) h =
    let (b, e, m) = get_elem?-Any addrs i (omega arith) in (b, e, inr m)

next_addr_at :
    (d : Dialer) (b : Bytes) (rest : List Bytes)
    → d.addrs ≡ b ∷ rest
    → d.next < 2 ^ 64
    → (next_addr d).1 ≡ get_elem? (b ∷ rest) (d.next % length (b ∷ rest))
unfolding next_addr
next_addr_at d b rest e h =
    let exact : ((d.next + 1) % 2 ^ 64 + 2 ^ 64 - 1) % 2 ^ 64 ≡ d.next = omega arith in
    rw (e, next_addr) (rw exact)

next_addr_none : (d : Dialer) → d.addrs ≡ [] → (next_addr d).1 ≡ some d.addr
unfolding next_addr
next_addr_none d e = ground arith

from_addrs :
    (d : Dialer) (addrs : List Bytes)
    → d.addrs ≡ addrs
    → d.next < 2 ^ 64
    → (a : Bytes) × ((next_addr d).1 ≡ some a)
      × (Any (λ b. b ≡ a) addrs ⊎ ((addrs ≡ []) × (a ≡ d.addr)))
from_addrs d [] e h = (d.addr, next_addr_none d e, inr (refl, refl))
from_addrs d (b ∷ rest) e h =
    let (a, found, m) =
      get_elem?-Any (b ∷ rest) (d.next % length (b ∷ rest)) (mod-lt d.next (omega arith)) in
    (a, next_addr_at d b rest e h ∙ found, inl m)

-- A dial never goes out of the list, whatever the 64-bit counter has reached: it dials one of the
-- resolved addresses, or the configured address where there is none.
pub next_addr-Any :
    (d : Dialer)
    → d.next < 2 ^ 64
    → (a : Bytes) × ((next_addr d).1 ≡ some a)
      × (Any (λ b. b ≡ a) d.addrs ⊎ ((d.addrs ≡ []) × (a ≡ d.addr)))
next_addr-Any d h = from_addrs d d.addrs refl h

after_dials_lem :
    (d : Dialer) (a : Bytes) (rest : List Bytes) (j : ℕ)
    → d.addrs ≡ a ∷ rest
    → d.next + j < 2 ^ 64
    → after_dials d j ≡ record d { next = d.next + j }
unfolding after_dials next_addr
after_dials_lem d a rest zero e h = ground arith
after_dials_lem d a rest (suc j) e h = ground (arith, after_dials_lem d a rest j e)

dialled_lem :
    (d : Dialer) (a : Bytes) (rest : List Bytes) (j : ℕ)
    → d.addrs ≡ a ∷ rest
    → d.next + j < 2 ^ 64
    → dialled d j ≡ get_elem? (a ∷ rest) ((d.next + j) % length (a ∷ rest))
unfolding dialled
dialled_lem d a rest j e h =
    ap (λ (x : Dialer). (next_addr x).1) (after_dials_lem d a rest j e h)
    ∙ next_addr_at (record d { next = d.next + j }) a rest e h

round_of :
    (d : Dialer) (addrs : List Bytes) (i : ℕ)
    → d.addrs ≡ addrs
    → d.next + length addrs ≤ 2 ^ 64
    → i < length addrs
    → (j : ℕ) × (j < length addrs) × (dialled d j ≡ get_elem? addrs i)
round_of d [] i e room h = elim h [ ]
round_of d (a ∷ rest) i e room h =
    let (j, small, hit) = rotation_hits d.next (length (a ∷ rest)) i h in
    (j, small, dialled_lem d a rest j e (omega arith) ∙ ap (get_elem? (a ∷ rest)) hit)

-- Among as many dials in a row as there are addresses, while the addresses stay and the counter does
-- not pass its 64 bits, there is one to each place of the list.
pub dialled_round :
    (d : Dialer) (i : ℕ)
    → d.next + length d.addrs ≤ 2 ^ 64
    → i < length d.addrs
    → (j : ℕ) × (j < length d.addrs) × (dialled d j ≡ get_elem? d.addrs i)
dialled_round d i room h = round_of d d.addrs i refl room h
