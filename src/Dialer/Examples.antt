-- ===== src/Dialer/Examples.antt =====
-- Tests of the dialer by evaluation, and the theorems at concrete inputs.
use dcr_sdk.Common.{
  ◌↔◌, String, ℕ, ◌-◌, ◌^◌, ◌≡◌, refl, Option, none, some, List, [], ◌∷◌, Bytes, codes, All, arith,
}
use dcr_sdk.Common.Strings.{bytes_eq}
use dcr_sdk.Dialer.{
  Conn, Dialer, is_idle, next_addr, count_of, increment, decrement, total, contains, count_conns,
  close_loop, target_of, rebalance, remove, close_all, refresh_once,
}
use dcr_sdk.Dialer.Counts.{conns_at, idle_at}
use mathlib.Core.List.Permᴰ.{swap}
use dcr_sdk.Dialer.AnyOrder.{refresh_once-any_order}
use dcr_sdk.Dialer.Refresh.{IsDistinct, kept_at, conns_at-refresh_once}
use dcr_sdk.Common.Strings.{bytes_ltb}
use dcr_sdk.Common.Int.{pos}
use dcr_sdk.Text.Sorting.{IsAscending, Among, sort_strings, insert}
use dcr_sdk.Dialer.Resolve.{
  IpLibrary, to4, join_host_port, dialable, collect, resolve, new_dns_dialer, refresh,
}
use dcr_sdk.Dialer.Addresses.{IsIpv4Of, resolve_iff}
use dcr_sdk.Dialer.Known.{IsKnown}
use dcr_sdk.Dialer.Reachable.{here, later, refreshed, next_addr-Reach}

abbrev conn : ℕ → String → Option ℕ → Conn
conn id addr pending = record { id = id; addr = codes addr; pending = pending }

abbrev held : List Conn
held =
    conn 4 "a:1" (some 0) ∷ conn 3 "a:1" (some 2) ∷ conn 2 "a:1" none ∷ conn 1 "c:1" (some 0) ∷ []

abbrev resolved : List Bytes
resolved = codes "a:1" ∷ codes "b:1" ∷ []

abbrev dialer : Dialer
dialer = record {
  addr = codes "cloud:1";
  host = codes "cloud";
  port = codes "1";
  next = 2 ^ 64 - 3;
  addrs = resolved;
  conns = held;
}

-- The share of each of the two addresses is one connection; the busy one stays, and the connection
-- to an address that is gone is closed.
closed :
    rebalance resolved held ≡ conn 4 "a:1" (some 0) ∷ conn 2 "a:1" none ∷ conn 1 "c:1" (some 0) ∷ []
unfolding rebalance target_of close_loop count_conns count_of increment decrement total contains
    is_idle bytes_eq
closed = refl

left : (refresh_once dialer resolved).0.conns ≡ conn 3 "a:1" (some 2) ∷ []
unfolding refresh_once close_all remove closed
left = refl

held-IsDistinct : IsDistinct held
held-IsDistinct = ground arith

conns_at-refresh_once_example :
    conns_at (codes "a:1") (refresh_once dialer resolved).0.conns
    ≡ kept_at resolved
        (target_of resolved held)
        (codes "a:1")
        (idle_at (codes "a:1") held)
        (conns_at (codes "a:1") held)
conns_at-refresh_once_example =
    conns_at-refresh_once dialer resolved (codes "a:1") (cc) held-IsDistinct

-- An IP is written as its bytes; no host is a literal.
abbrev ips : IpLibrary
ips = record { parse_ip = λ host. none; ip_string = λ ip. ip }

-- `2001:db8::1` in the midst of two IPv4 addresses, one of them twice.
abbrev answer : List Bytes
answer =
    (9 ∷ 2 ∷ 3 ∷ 4 ∷ [])
    ∷ (0x20 ∷ 1 ∷ 0x0d ∷ 0xb8 ∷ 0 ∷ 0 ∷ 0 ∷ 0 ∷ 0 ∷ 0 ∷ 0 ∷ 0 ∷ 0 ∷ 0 ∷ 0 ∷ 1 ∷ [])
    ∷ (1 ∷ 2 ∷ 3 ∷ 4 ∷ [])
    ∷ (9 ∷ 2 ∷ 3 ∷ 4 ∷ [])
    ∷ []

abbrev in_order : List Bytes
in_order = (1 ∷ 2 ∷ 3 ∷ 4 ∷ codes ":1") ∷ (9 ∷ 2 ∷ 3 ∷ 4 ∷ codes ":1") ∷ []

resolving : resolve ips (codes "c") (codes "1") (some answer) ≡ in_order
unfolding resolve collect dialable to4 join_host_port sort_strings insert bytes_ltb contains
    bytes_eq
resolving = refl

resolve_iff_example :
    (resolve ips (codes "c") (codes "1") (some answer) ≡ in_order)
    ↔ (IsAscending in_order × ((a : Bytes) → Among a in_order ↔ IsIpv4Of ips (codes "1") a answer))
resolve_iff_example = resolve_iff ips (codes "1") (codes "c") answer in_order refl refl refl

abbrev made : Dialer
made = (new_dns_dialer ips (codes "c:1") (pos 5) none).0

-- The first lookup fails, and the next one brings addresses.
abbrev refreshed_once : Dialer
refreshed_once = (refresh ips made (some answer)).0

next_addr-Reach_example :
    ((a : Bytes) × ((next_addr refreshed_once).1 ≡ some a)
      × IsKnown ips (codes "c:1") made.host made.port (some answer ∷ none ∷ []) a)
    × All
        (λ c. IsKnown ips (codes "c:1") made.host made.port (some answer ∷ none ∷ []) c.addr)
        refreshed_once.conns
next_addr-Reach_example =
    next_addr-Reach ips (codes "c:1") (pos 5) none (some answer ∷ none ∷ []) refreshed_once
      (later here (refreshed (some answer)))

-- The same entries of the map, met in another order.
abbrev swapped : List Conn
swapped =
    conn 3 "a:1" (some 2) ∷ conn 4 "a:1" (some 0) ∷ conn 2 "a:1" none ∷ conn 1 "c:1" (some 0) ∷ []

refresh_once-any_order_example :
    conns_at (codes "a:1") (refresh_once dialer resolved).0.conns
    ≡ conns_at (codes "a:1") (refresh_once (record dialer { conns = swapped }) resolved).0.conns
refresh_once-any_order_example =
    refresh_once-any_order dialer swapped resolved (codes "a:1") (swap refl refl) (λ e. cc)
      held-IsDistinct (ground arith)
