-- ===== src/Dialer.antt =====
-- pkg/client/dnsDialer.go: the dialer that spreads connections over the addresses of a host.
--
-- The connections are listed in the order in which an iteration over the map `conns` meets them,
-- which is any order. Whether a connection is idle is read once in an iteration.
pub mod Rotation
pub mod Counts
pub mod Balance
pub mod Refresh
pub mod AnyOrder
pub mod Resolve
pub mod Ipv4
pub mod Addresses
pub mod Known
pub mod Reachable
mod Examples
use dcr_sdk.Common.{
  is_empty, ℕ, zero, suc, ◌+◌, ◌-◌, ◌/◌, ◌%◌, ◌^◌, ◌==◌, ltb, Bool, true, false, not, ◌&&◌, ◌||◌,
  Option, none, some, List, [], ◌∷◌, Bytes, length, get_elem?, if◌then◌else◌,
}
use dcr_sdk.Common.Strings.{bytes_eq}

-- `trackedConn`: `pending` is the owner's number of pending requests, `none` without an owner.
pub record Conn : Type 0 where
  pub id : ℕ
  pub addr : Bytes
  pub pending : Option ℕ

pub record Dialer : Type 0 where
  pub addr : Bytes
  pub host : Bytes
  pub port : Bytes
  pub next : ℕ
  pub addrs : List Bytes
  pub conns : List Conn

unfoldable pub is_idle : Conn → Bool
is_idle c = elim c.pending [ none ↦ true | some n ↦ n == 0 ]

-- `nextAddr`; `next` is a `uint64`. The index is that before the increment.
unfoldable pub next_addr : Dialer → Dialer × Option Bytes
next_addr d =
    let next' = (d.next + 1) % 2 ^ 64 in
    let index = (next' + 2 ^ 64 - 1) % 2 ^ 64 in
    elim d.addrs [
      | [] ↦ (d, some d.addr)
      | a ∷ rest ↦ (record d { next = next' }, get_elem? (a ∷ rest) (index % length (a ∷ rest)))
    ]

-- A map from addresses to numbers; a missing key reads as 0.
abbrev pub Counts : Type 0
Counts = List (Bytes × ℕ)

unfoldable pub count_of : Bytes → Counts → ℕ
count_of a [] = 0
count_of a ((b, n) ∷ counts) = if bytes_eq b a then n else count_of a counts

-- `counts[addr]++`
unfoldable pub increment : Bytes → Counts → Counts
increment a [] = (a, 1) ∷ []
increment a ((b, n) ∷ counts) =
    if bytes_eq b a then (b, n + 1) ∷ counts else (b, n) ∷ increment a counts

-- `counts[addr]--`, of a key that is there
unfoldable pub decrement : Bytes → Counts → Counts
decrement a [] = []
decrement a ((b, n) ∷ counts) =
    if bytes_eq b a then (b, n - 1) ∷ counts else (b, n) ∷ decrement a counts

-- `for _, count := range counts { totalAllowed += count }`
unfoldable pub total : Counts → ℕ
total [] = 0
total ((b, n) ∷ counts) = n + total counts

unfoldable pub contains : Bytes → List Bytes → Bool
contains a [] = false
contains a (b ∷ addrs) = bytes_eq b a || contains a addrs

module _ (allowed : List Bytes) where
  -- The counting loop.
  unfoldable pub count_conns : List Conn → Counts → Counts
  count_conns [] counts = counts
  count_conns (c ∷ conns) counts =
      count_conns conns (if contains c.addr allowed then increment c.addr counts else counts)

  -- The closing loop.
  unfoldable pub close_loop : ℕ → List Conn → Counts → List Conn
  close_loop target [] counts = []
  close_loop target (c ∷ conns) counts =
      let is_allowed = contains c.addr allowed in
      let closed =
        close_loop target conns (if is_allowed then decrement c.addr counts else counts) in
      let kept = close_loop target conns counts in
      if (not is_allowed || ltb target (count_of c.addr counts)) && is_idle c
      then c ∷ closed
      else kept

abbrev pub at_least_one : ℕ → ℕ
at_least_one n = if ltb n 1 then 1 else n

-- The number of connections that each address should keep.
unfoldable pub target_of : List Bytes → List Conn → ℕ
unfolding count_conns total
target_of addrs conns = at_least_one (total (count_conns addrs conns []) / length addrs)

abbrev no_conns : List Conn → Bool
no_conns [] = true
no_conns (c ∷ conns) = false

abbrev no_addrs : List Bytes → Bool
no_addrs [] = true
no_addrs (a ∷ addrs) = false

-- `rebalanceLocked`: the connections to close.
unfoldable pub rebalance : List Bytes → List Conn → List Conn
unfolding target_of close_loop
rebalance addrs conns =
    if no_addrs addrs || no_conns conns
    then []
    else close_loop addrs (target_of addrs conns) conns (count_conns addrs conns [])

-- `trackedConn.Close` takes the connection out of the map.
unfoldable pub remove : ℕ → List Conn → List Conn
remove id [] = []
remove id (c ∷ conns) = if c.id == id then conns else c ∷ remove id conns

unfoldable pub close_all : List Conn → List Conn → List Conn
unfolding remove
close_all [] conns = conns
close_all (c ∷ closing) conns = close_all closing (remove c.id conns)

-- `refreshOnce`, with what `resolve` returned. The new dialer, and the connections that were closed.
unfoldable pub refresh_once : Dialer → List Bytes → Dialer × List Conn
refresh_once d addrs =
    let closing = rebalance addrs d.conns in
    if no_addrs addrs
    then (d, [])
    else (record d { addrs = addrs; conns = close_all closing d.conns }, closing)

-- `dial` once a connection is established: it is tracked under a new identity.
unfoldable pub track : Dialer → Conn → Dialer
track d c = record d { conns = c ∷ d.conns }

unfoldable pub established : Dialer → Option Bytes → Option (ℕ × Option ℕ) → Dialer
unfolding track
established d (some a) (some (id, pending)) =
    track d (record { id = id; addr = a; pending = pending })
established d (some a) none = d
established d none outcome = d

-- `dial`, for what `fasthttp.DialTimeout` makes of the address: `none` for its error, or the identity
-- of the connection and its owner's pending requests. The dialer, and the address that was dialled.
unfoldable pub dial : Dialer → Option (ℕ × Option ℕ) → Dialer × Option Bytes
unfolding next_addr established
dial d outcome = let (d', addr) = next_addr d in (established d' addr outcome, addr)
