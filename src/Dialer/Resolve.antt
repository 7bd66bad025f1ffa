-- ===== src/Dialer/Resolve.antt =====
-- `resolve` and `init` of pkg/client/dnsDialer.go: the addresses of a host.
--
-- What the resolver answers is an argument, `none` for its error or timeout, and so are
-- `net.ParseIP` and `IP.String`. An IP is its bytes; one that is nil has none.
use dcr_sdk.Common.{
  ◌==◌, Bool, true, false, not, ◌&&◌, ◌||◌, Option, none, some, List, [], ◌∷◌, ◌++◌, Bytes,
  is_empty, length, take, drop, replicate, if◌then◌else◌,
}
use dcr_sdk.Common.Strings.{bytes_eq}
use dcr_sdk.Common.Int.{ℤ, is_positive}
use dcr_sdk.Text.Sorting.{sort_strings}
use dcr_sdk.Config.HostPort.{split_host_port, index}
use dcr_sdk.Dialer.{Dialer, contains, refresh_once, Conn}

pub record IpLibrary : Type 0 where
  pub parse_ip : Bytes → Option Bytes
  pub ip_string : Bytes → Bytes

-- What `LookupIPAddr` answers.
abbrev pub Lookup : Type 0
Lookup = Option (List Bytes)

-- `IP.To4`: of four bytes, or of sixteen that map an IPv4 address.
unfoldable pub to4 : Bytes → Option Bytes
unfolding bytes_eq
to4 ip =
    if length ip == 4
    then some ip
    else if length ip == 16 && bytes_eq (take 12 ip) (replicate 10 0 ++ 0xff ∷ 0xff ∷ [])
    then some (drop 12 ip)
    else none

-- `net.JoinHostPort`
unfoldable pub join_host_port : Bytes → Bytes → Bytes
unfolding index
join_host_port host port = elim (index b':' host) [
  | none ↦ host ++ b':' ∷ port
  | some i ↦ b'[' ∷ host ++ b']' ∷ b':' ∷ port
]

module _ (lib : IpLibrary) where
  -- The address of an IP that can be dialled.
  unfoldable pub dialable : Bytes → Bytes → Option Bytes
  unfolding to4 join_host_port
  dialable port ip = elim (to4 ip) [
    | none ↦ none
    | some v4 ↦ some (join_host_port (lib.ip_string ip) port)
  ]

  -- The loop over the answer, which has the addresses in `seen` already.
  unfoldable pub collect : Bytes → List Bytes → List Bytes → List Bytes
  collect port [] seen = []
  collect port (ip ∷ ips) seen =
      let skipped = collect port ips seen in
      elim (dialable port ip) [
        | none ↦ skipped
        | some addr ↦
            let kept = collect port ips (addr ∷ seen) in
            if contains addr seen then skipped else addr ∷ kept
      ]

  unfoldable pub resolve : Bytes → Bytes → Lookup → List Bytes
  unfolding collect sort_strings
  resolve host port lookup =
      if is_empty host || is_empty port then [] else (elim (lib.parse_ip host) [
        | some ip ↦ join_host_port (lib.ip_string ip) port ∷ []
        | none ↦ elim lookup [ none ↦ [] | some ips ↦ sort_strings (collect port ips []) ]
      ])

  abbrev pub or_configured : Bytes → List Bytes → List Bytes
  or_configured addr [] = addr ∷ []
  or_configured addr (a ∷ addrs) = a ∷ addrs

  abbrev is_literal : Bytes → Bool
  is_literal host = elim (lib.parse_ip host) [ none ↦ false | some ip ↦ true ]

  -- `newDNSDialer` for the address: the dialer, and whether it refreshes its addresses.
  unfoldable pub new_dns_dialer : Bytes → ℤ → Lookup → Dialer × Bool
  new_dns_dialer addr refresh_interval lookup = elim (split_host_port addr) [
    | none ↦ (
      record { addr = addr; host = []; port = []; next = 0; addrs = addr ∷ []; conns = [] },
      false,
    )
    | some hp ↦ (
      record {
        addr = addr;
        host = hp.0;
        port = hp.1;
        next = 0;
        addrs = or_configured addr (resolve hp.0 hp.1 lookup);
        conns = [];
      },
      is_positive refresh_interval && not (is_literal hp.0),
    )
  ]

  -- `refreshOnce`, with its `resolve`.
  unfoldable pub refresh : Dialer → Lookup → Dialer × List Conn
  refresh d lookup = refresh_once d (resolve d.host d.port lookup)
