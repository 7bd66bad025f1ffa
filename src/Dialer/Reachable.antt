-- ===== src/Dialer/Reachable.antt =====
-- The states that a dialer goes through, and what it dials in them.
use mathlib.Core.List.{map}
use mathlib.Core.Option.{some-injective}
use dcr_sdk.Common.{
  ℕ, ◌^◌, ◌<◌, ◌≡◌, refl, sym, subst, ◌∙◌, inl, inr, Option-cases, Option, none, some, List, [],
  ◌∷◌, Bytes, All, arith,
}
use dcr_sdk.Common.Int.{ℤ}
use dcr_sdk.Config.HostPort.{split_host_port}
use dcr_sdk.Text.Sorting.{All-Among}
use dcr_sdk.Dialer.{
  Dialer, Conn, next_addr, dial, established, track, remove, refresh_once, rebalance,
}
use dcr_sdk.Dialer.Rotation.{next_addr-Any}
use dcr_sdk.Dialer.Resolve.{IpLibrary, Lookup, resolve, or_configured, new_dns_dialer, refresh}
use dcr_sdk.Dialer.Known.{
  All-imp, remove-All, close_all-All, worked-All, noted, IsKnown, IsKnown-noted, resolve-IsKnown,
}

module _ (lib : IpLibrary) where
  -- The refresh of a tick; a dial, which may fail; the close of a connection; and requests that come
  -- and go on the connections. The resolver's answer, if one was asked for, is the index.
  pub data Step (d : Dialer) : Option Lookup → Dialer → Type 0 where
    refreshed : (lookup : Lookup) → Step d (some lookup) (refresh lib d lookup).0
    dialled : (outcome : Option (ℕ × Option ℕ)) → Step d none (dial d outcome).0
    closed : (id : ℕ) → Step d none (record d { conns = remove id d.conns })
    worked :
        (pending : Conn → Option ℕ)
        → Step d none
            (record d { conns = map {A = Conn} (λ c. record c { pending = pending c }) d.conns })

  -- With the answers of the resolver, the last one first.
  pub data Reach (d : Dialer) (lookups : List Lookup) : List Lookup → Dialer → Type 0 where
    here : Reach d lookups lookups d
    later :
        {asked : List Lookup} {e f : Dialer} {o : Option Lookup}
        → Reach d lookups asked e
        → Step e o f
        → Reach d lookups (noted lib o asked) f

  module _ (addr host port : Bytes) where
    abbrev Known : List Lookup → Bytes → Type 0
    Known = IsKnown lib addr host port

    pub record IsSound (d : Dialer) (lookups : List Lookup) : Type 0 where
      pub same_addr : d.addr ≡ addr
      pub same_host : d.host ≡ host
      pub same_port : d.port ≡ port
      pub counted : d.next < 2 ^ 64
      pub known : All (Known lookups) d.addrs
      pub connected : All (λ c. Known lookups c.addr) d.conns

    IsSound-noted :
        (o : Option Lookup) (d : Dialer) (lookups : List Lookup)
        → IsSound d lookups
        → IsSound d (noted lib o lookups)
    IsSound-noted o d lookups s = record {
      same_addr = s.same_addr;
      same_host = s.same_host;
      same_port = s.same_port;
      counted = s.counted;
      known = All-imp _ _ d.addrs (IsKnown-noted lib addr host port o lookups) s.known;
      connected =
          All-imp _ _ d.conns (λ c. IsKnown-noted lib addr host port o lookups c.addr) s.connected;
    }

    -- With other connections and addresses.
    conns-IsSound :
        (d : Dialer) (conns : List Conn) (addrs : List Bytes) (lookups : List Lookup)
        → IsSound d lookups
        → All (Known lookups) addrs
        → All (λ c. Known lookups c.addr) conns
        → IsSound (record d { conns = conns; addrs = addrs }) lookups
    conns-IsSound d conns addrs lookups s known connected = record {
      same_addr = s.same_addr;
      same_host = s.same_host;
      same_port = s.same_port;
      counted = s.counted;
      known = known;
      connected = connected;
    }

    refresh_once-IsSound :
        (d : Dialer) (addrs : List Bytes) (lookups : List Lookup)
        → IsSound d lookups
        → All (Known lookups) addrs
        → IsSound (refresh_once d addrs).0 lookups
    unfolding refresh_once
    refresh_once-IsSound d [] lookups s h = s
    refresh_once-IsSound d (a ∷ rest) lookups s h = conns-IsSound d _ (a ∷ rest) lookups s h (
        close_all-All (λ c. Known lookups c.addr) (rebalance (a ∷ rest) d.conns) d.conns
          s.connected)

    resolve-IsSound :
        (d : Dialer) (lookup : Lookup) (lookups : List Lookup)
        → IsSound d lookups
        → All (Known (lookup ∷ lookups)) (resolve lib d.host d.port lookup)
    resolve-IsSound d lookup lookups s =
        rw (s.same_host, s.same_port) (resolve-IsKnown lib addr host port lookup lookups)

    refresh-IsSound :
        (d : Dialer) (lookup : Lookup) (lookups : List Lookup)
        → IsSound d lookups
        → IsSound (refresh lib d lookup).0 (lookup ∷ lookups)
    unfolding refresh
    refresh-IsSound d lookup lookups s =
        refresh_once-IsSound d (resolve lib d.host d.port lookup) (lookup ∷ lookups)
          (IsSound-noted (some lookup) d lookups s) (resolve-IsSound d lookup lookups s)

    next-IsSound :
        (d : Dialer) (addrs : List Bytes) (lookups : List Lookup)
        → d.addrs ≡ addrs
        → IsSound d lookups
        → IsSound (next_addr d).0 lookups
    unfolding next_addr
    next-IsSound d [] lookups e s = rw (e, next_addr) s
    next-IsSound d (a ∷ rest) lookups e s =
        rw (e, next_addr)
          (record {
            same_addr = s.same_addr;
            same_host = s.same_host;
            same_port = s.same_port;
            counted = omega arith;
            known = s.known;
            connected = s.connected;
          })

    next-IsKnown :
        (d : Dialer) (lookups : List Lookup)
        → IsSound d lookups
        → (a : Bytes) × ((next_addr d).1 ≡ some a) × Known lookups a
    next-IsKnown d lookups s =
        let (a, e, from) = next_addr-Any d s.counted in
        (
          a,
          e,
          elim from [
            | inl m ↦ All-Among (Known lookups) a d.addrs s.known m
            | inr (none_left, f) ↦ inl (f ∙ s.same_addr)
          ],
        )

    established-IsSound :
        (d : Dialer) (o : Option Bytes) (a : Bytes) (outcome : Option (ℕ × Option ℕ))
        (lookups : List Lookup)
        → IsSound d lookups
        → o ≡ some a
        → Known lookups a
        → IsSound (established d o outcome) lookups
    unfolding established track
    established-IsSound d none a outcome lookups s e k = cc
    established-IsSound d (some b) a none lookups s e k = s
    established-IsSound d (some b) a (some (id, pending)) lookups s e k =
        conns-IsSound d _ d.addrs lookups s s.known
          (subst (Known lookups) (some-injective a b (sym e)) k, s.connected)

    dial-IsSound :
        (d : Dialer) (outcome : Option (ℕ × Option ℕ)) (lookups : List Lookup)
        → IsSound d lookups
        → IsSound (dial d outcome).0 lookups
    unfolding dial
    dial-IsSound d outcome lookups s =
        let (a, e, k) = next-IsKnown d lookups s in
        established-IsSound (next_addr d).0 (next_addr d).1 a outcome lookups
          (next-IsSound d d.addrs lookups refl s) e k

    Step-IsSound :
        {o : Option Lookup} (d e : Dialer) (lookups : List Lookup)
        → Step d o e
        → IsSound d lookups
        → IsSound e (noted lib o lookups)
    Step-IsSound d e lookups (refreshed lookup) s = refresh-IsSound d lookup lookups s
    Step-IsSound d e lookups (dialled outcome) s = dial-IsSound d outcome lookups s
    Step-IsSound d e lookups (closed id) s =
        conns-IsSound d (remove id d.conns) d.addrs lookups s s.known
          (remove-All (λ c. Known lookups c.addr) id d.conns s.connected)
    Step-IsSound d e lookups (worked pending) s =
        conns-IsSound d _ d.addrs lookups s s.known
          (worked-All (Known lookups) pending d.conns s.connected)

    Reach-IsSound :
        (d : Dialer) (lookups : List Lookup) {asked : List Lookup} (e : Dialer)
        → IsSound d lookups
        → Reach d lookups asked e
        → IsSound e asked
    Reach-IsSound d lookups e s here = s
    Reach-IsSound d lookups f s (later {asked} {e} r step) =
        Step-IsSound e f asked step (Reach-IsSound d lookups e s r)

    or_configured-IsKnown :
        (addrs : List Bytes) (lookups : List Lookup)
        → All (Known lookups) addrs
        → All (Known lookups) (or_configured lib addr addrs)
    or_configured-IsKnown [] lookups h = (inl refl, tt)
    or_configured-IsKnown (a ∷ addrs) lookups h = h

  new_dns_dialer-IsSound :
      (addr : Bytes) (interval : ℤ) (lookup : Lookup)
      → let d = (new_dns_dialer lib addr interval lookup).0 in
        IsSound addr d.host d.port d (lookup ∷ [])
  unfolding new_dns_dialer
  new_dns_dialer-IsSound addr interval lookup = elim (Option-cases (split_host_port addr)) [
    | inl e ↦
        rw (e, new_dns_dialer)
          (record {
            same_addr = refl;
            same_host = refl;
            same_port = refl;
            counted = omega arith;
            known = (inl refl, tt);
            connected = tt;
          })
    | inr (hp, e) ↦
        rw (e, new_dns_dialer)
          (record {
            same_addr = refl;
            same_host = refl;
            same_port = refl;
            counted = omega arith;
            known =
                or_configured-IsKnown addr hp.0 hp.1 (resolve lib hp.0 hp.1 lookup) (lookup ∷ [])
                  (resolve-IsKnown lib addr hp.0 hp.1 lookup []);
            connected = tt;
          })
  ]

  -- However long a dialer lives, and whatever the resolver answers it and becomes of its connections,
  -- it always has an address to dial, which is the configured one, the IP that the host spells, with
  -- the port, or the address of an IPv4 IP in one of the resolver's answers so far; and so is the
  -- address of each of its connections.
  pub next_addr-Reach :
      (addr : Bytes) (interval : ℤ) (lookup : Lookup) (asked : List Lookup) (d : Dialer)
      → let made = (new_dns_dialer lib addr interval lookup).0 in
        Reach made (lookup ∷ []) asked d
        → ((a : Bytes) × ((next_addr d).1 ≡ some a) × IsKnown lib addr made.host made.port asked a)
          × All (λ c. IsKnown lib addr made.host made.port asked c.addr) d.conns
  next_addr-Reach addr interval lookup asked d r =
      let made = (new_dns_dialer lib addr interval lookup).0 in
      let s =
        Reach-IsSound addr made.host made.port made (lookup ∷ []) d
          (new_dns_dialer-IsSound addr interval lookup) r in
      (next-IsKnown addr made.host made.port d asked s, s.connected)
