-- ===== src/Dialer/Refresh.antt =====
-- What a refresh of the addresses leaves of the connections.
use mathlib.Core.List.{Sublistᴰ}
use mathlib.Core.List.Sublistᴰ.{slnil, cons, cons-cons}
use dcr_sdk.Common.{
  ℕ, ◌+◌, ◌-◌, ◌≤◌, ◌≡◌, ◌≢◌, refl, sym, ap, subst, List, [], ◌∷◌, Bytes, All, arith, min, max,
  if◌then◌else◌,
}
use dcr_sdk.Dialer.{Conn, Dialer, contains, rebalance, target_of, remove, close_all, refresh_once}
use dcr_sdk.Dialer.Counts.{conns_at, idle_at}
use dcr_sdk.Dialer.Balance.{conns_at-rebalance, rebalance-idle}

abbrev pub NotIn : ℕ → List Conn → Type 0
NotIn id = All (λ c. c.id ≢ id)

-- The map has one entry for each connection.
abbrev pub IsDistinct : List Conn → Type 0
IsDistinct [] = Unit {0}
IsDistinct (c ∷ conns) = NotIn c.id conns × IsDistinct conns

NotIn-sublist :
    (id : ℕ) {closing conns : List Conn}
    → Sublistᴰ closing conns
    → NotIn id conns
    → NotIn id closing
NotIn-sublist id slnil h = tt
NotIn-sublist id (cons s) (hc, h) = NotIn-sublist id s h
NotIn-sublist id (cons-cons e s) (hc, h) =
    (subst (λ (c : Conn). c.id ≢ id) (sym e) hc, NotIn-sublist id s h)

close_all-cons :
    (closing : List Conn) (c : Conn) (conns : List Conn)
    → NotIn c.id closing
    → close_all closing (c ∷ conns) ≡ c ∷ close_all closing conns
unfolding close_all
close_all-cons [] c conns h = refl
close_all-cons (k ∷ closing) c conns (ne, h) =
    ground (arith, close_all-cons closing c (remove k.id conns) h)

-- Closing some of the connections takes just these away, at each address.
conns_at-close_all :
    (a : Bytes) {closing conns : List Conn}
    → Sublistᴰ closing conns
    → IsDistinct conns
    → conns_at a (close_all closing conns) + conns_at a closing ≡ conns_at a conns
unfolding close_all conns_at
conns_at-close_all a slnil h = omega arith
conns_at-close_all a (cons {a = c} {l₁ = closing} {l₂ = conns} s) (fresh, h) =
    rw (close_all-cons closing c conns (NotIn-sublist c.id s fresh))
      (ground (arith, conns_at-close_all a s h))
conns_at-close_all a (cons-cons {a = k} {b = c} {l₁ = closing} {l₂ = conns} e s) (fresh, h) =
    ground (arith, conns_at-close_all a s h, ap (λ (x : Conn). x.id) e, ap (λ (x : Conn). x.addr) e)

-- The connections that an address keeps: up to the target all of them, over it the busy ones as far
-- as they are more; where the address is gone, the busy ones.
abbrev pub kept_at : List Bytes → ℕ → Bytes → ℕ → ℕ → ℕ
kept_at allowed target a idle held =
    if contains a allowed then max (held - idle) (min held target) else held - idle

idle_at-le : (a : Bytes) (conns : List Conn) → idle_at a conns ≤ conns_at a conns
unfolding idle_at conns_at
idle_at-le a [] = omega arith
idle_at-le a (c ∷ conns) = ground (arith, idle_at-le a conns)

-- After a refresh that resolves the host to some addresses, each address of the host keeps all its
-- connections up to the target, and of those over it the busy ones; an address that is gone keeps
-- the busy ones only.
pub conns_at-refresh_once :
    (d : Dialer) (addrs : List Bytes) (a : Bytes)
    → addrs ≢ []
    → IsDistinct d.conns
    → conns_at a (refresh_once d addrs).0.conns
      ≡ kept_at addrs (target_of addrs d.conns) a (idle_at a d.conns) (conns_at a d.conns)
unfolding refresh_once
conns_at-refresh_once d [] a full distinct = absurd (full refl)
conns_at-refresh_once d (b ∷ addrs) a full distinct = ground (
  arith,
  conns_at-close_all a (rebalance-idle (b ∷ addrs) d.conns).1 distinct,
  conns_at-rebalance (b ∷ addrs) d.conns a full,
  idle_at-le a d.conns,
)

remove-NotIn : (id i : ℕ) (conns : List Conn) → NotIn i conns → NotIn i (remove id conns)
unfolding remove
remove-NotIn id i [] h = tt
remove-NotIn id i (c ∷ conns) h = ground (arith, remove-NotIn id i conns h.1)

remove-IsDistinct : (id : ℕ) (conns : List Conn) → IsDistinct conns → IsDistinct (remove id conns)
unfolding remove
remove-IsDistinct id [] h = tt
remove-IsDistinct id (c ∷ conns) h =
    ground (arith, remove-IsDistinct id conns h.1, remove-NotIn id c.id conns h.0)

close_all-IsDistinct :
    (closing conns : List Conn) → IsDistinct conns → IsDistinct (close_all closing conns)
unfolding close_all
close_all-IsDistinct [] conns h = h
close_all-IsDistinct (c ∷ closing) conns h =
    close_all-IsDistinct closing (remove c.id conns) (remove-IsDistinct c.id conns h)

-- A refresh keeps the entries of the map distinct, and one that resolves to nothing changes nothing
-- and closes nothing.
pub refresh_once-IsDistinct :
    (d : Dialer) (addrs : List Bytes)
    → IsDistinct d.conns
    → IsDistinct (refresh_once d addrs).0.conns × (refresh_once d [] ≡ (d, []))
unfolding refresh_once
refresh_once-IsDistinct d [] h = (h, refl)
refresh_once-IsDistinct d (b ∷ addrs) h =
    (close_all-IsDistinct (rebalance (b ∷ addrs) d.conns) d.conns h, refl)
