-- ===== src/Dialer/AnyOrder.antt =====
-- A refresh goes through a Go map, whose iteration is in any order.
use mathlib.Core.List.{Permᴰ}
use mathlib.Core.List.Permᴰ.{nil, cons, swap, trans}
use dcr_sdk.Common.{
  ℕ, ◌+◌, ◌&&◌, Bool, if◌then◌else◌, ◌/◌, ◌≡◌, ◌≢◌, refl, sym, ap, ◌∙◌, List, [], ◌∷◌, Bytes,
  length, arith,
}
use dcr_sdk.Common.Strings.{bytes_eq}
use dcr_sdk.Dialer.{Conn, Dialer, refresh_once, target_of, at_least_one, is_idle, contains}
use dcr_sdk.Dialer.Counts.{conns_at, idle_at, conns_on}
use dcr_sdk.Dialer.Balance.{target_of_lem}
use dcr_sdk.Dialer.Refresh.{IsDistinct, conns_at-refresh_once, kept_at}

-- What the order of a map's entries does not change.
module _ {V : Type 0} (f : List Conn → V) (step : Conn → V → V)
    (unfolded : (c : Conn) (conns : List Conn) → f (c ∷ conns) ≡ step c (f conns))
    (commutes : (c d : Conn) (v : V) → step c (step d v) ≡ step d (step c v)) where
  twice : (c d : Conn) (xs : List Conn) → f (c ∷ d ∷ xs) ≡ step c (step d (f xs))
  twice c d xs = unfolded c (d ∷ xs) ∙ ap (step c) (unfolded d xs)

  any_order : {xs ys : List Conn} → Permᴰ xs ys → f xs ≡ f ys
  any_order nil = refl
  any_order (cons {a = c} {b = d} {l₁ = xs} {l₂ = ys} e p) =
      unfolded c xs ∙ ap (step c) (any_order p) ∙ ap (λ k. step k (f ys)) e ∙ sym (unfolded d ys)
  any_order (swap {a = c} {b = d} {a' = c'} {b' = d'} {l = xs} e g) =
      twice c d xs
      ∙ commutes c d (f xs)
      ∙ ap (λ k. step d (step k (f xs))) e
      ∙ ap (λ k. step k (step d' (f xs))) g
      ∙ sym (twice c' d' xs)
  any_order (trans p q) = any_order p ∙ any_order q

add_if : Bool → ℕ → ℕ
add_if counted n = if counted then 1 + n else n

add_if_comm : (p q : Bool) (n : ℕ) → add_if p (add_if q n) ≡ add_if q (add_if p n)
unfolding add_if
add_if_comm p q n = ground arith

conns_at-any_order : (a : Bytes) {xs ys : List Conn} → Permᴰ xs ys → conns_at a xs ≡ conns_at a ys
unfolding conns_at add_if
conns_at-any_order a =
    any_order (conns_at a) (λ c. add_if (bytes_eq c.addr a)) (λ c conns. refl)
      (λ c d n. add_if_comm (bytes_eq c.addr a) (bytes_eq d.addr a) n)

idle_at-any_order : (a : Bytes) {xs ys : List Conn} → Permᴰ xs ys → idle_at a xs ≡ idle_at a ys
unfolding idle_at add_if
idle_at-any_order a =
    any_order (idle_at a) (λ c. add_if (bytes_eq c.addr a && is_idle c)) (λ c conns. ground arith)
      (λ c d n. add_if_comm (bytes_eq c.addr a && is_idle c) (bytes_eq d.addr a && is_idle d) n)

conns_on-any_order :
    (addrs : List Bytes) {xs ys : List Conn} → Permᴰ xs ys → conns_on addrs xs ≡ conns_on addrs ys
unfolding conns_on add_if
conns_on-any_order addrs =
    any_order (conns_on addrs) (λ c. add_if (contains c.addr addrs)) (λ c conns. refl)
      (λ c d n. add_if_comm (contains c.addr addrs) (contains d.addr addrs) n)

target_of-any_order :
    (addrs : List Bytes) {xs ys : List Conn} → Permᴰ xs ys → target_of addrs xs ≡ target_of addrs ys
target_of-any_order addrs {xs} {ys} p =
    target_of_lem addrs xs
    ∙ ap (λ n. at_least_one (n / length addrs)) (conns_on-any_order addrs p)
    ∙ sym (target_of_lem addrs ys)

-- Which connections a refresh closes depends on the order in which it meets the entries of the map of
-- connections, but not how many: in whatever order they are met, the refresh to some addresses leaves
-- equally many connections to each address, where each connection has one entry.
pub refresh_once-any_order :
    (d : Dialer) (conns : List Conn) (addrs : List Bytes) (a : Bytes)
    → Permᴰ d.conns conns
    → addrs ≢ []
    → IsDistinct d.conns
    → IsDistinct conns
    → conns_at a (refresh_once d addrs).0.conns
      ≡ conns_at a (refresh_once (record d { conns = conns }) addrs).0.conns
refresh_once-any_order d conns addrs a p full distinct distinct' =
    conns_at-refresh_once d addrs a full distinct
    ∙ ap (λ n. kept_at addrs n a (idle_at a d.conns) (conns_at a d.conns))
        (target_of-any_order addrs p)
    ∙ ap (λ n. kept_at addrs (target_of addrs conns) a n (conns_at a d.conns))
        (idle_at-any_order a p)
    ∙ ap (kept_at addrs (target_of addrs conns) a (idle_at a conns)) (conns_at-any_order a p)
    ∙ sym (conns_at-refresh_once (record d { conns = conns }) addrs a full distinct')
