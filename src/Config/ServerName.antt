-- ===== src/Config/ServerName.antt =====
-- `resolveServerName` of pkg/client/mtls.go: the name that the server's certificate is verified for.
use dcr_sdk.Common.Strings.{bytes_eq, bytes_eq_iff}
use dcr_sdk.Common.{
  Option-cases, inl, inr, ap, is_empty, Any, ◌≡◌, ◌≢◌, refl, sym, subst, ◌⊎◌, ◌↔◌, not, Option,
  none, some, List, [], ◌∷◌, Bytes, Result, ok, err, All, arith, if◌then◌else◌,
}
use mathlib.Core.Option.{some-injective}
use dcr_sdk.Config.{Configuration, normalize_configuration, addrs_of, or_nil}
use dcr_sdk.Config.HostPort.{split_host_port}
use dcr_sdk.Config.Addrs.{or_cloud_addr, addrs_of-normalize_configuration}

pub data NameError : Type 0 where
  several_hosts : Bytes → Bytes → NameError
  no_host : Bytes → NameError

-- The host of an address, or the whole address where it has no port.
unfoldable pub host_of : Bytes → Bytes
host_of addr = elim (split_host_port addr) [ none ↦ addr | some (host, port) ↦ host ]

-- The loop over the addresses, with the name found so far.
unfoldable pub agree_on : Bytes → List Bytes → Result NameError Bytes
agree_on name [] = ok name
agree_on name (addr ∷ addrs) =
    let host = host_of addr in
    let skip = agree_on name addrs in
    let first = agree_on host addrs in
    if is_empty host
    then skip
    else if is_empty name
    then first
    else if not (bytes_eq host name)
    then err (several_hosts name host)
    else skip

abbrev named : Bytes → Result NameError Bytes → Result NameError Bytes
named addrs (err e) = err e
named addrs (ok name) = if is_empty name then err (no_host addrs) else ok name

unfoldable pub resolve_server_name : Bytes → Option Configuration → Result NameError Bytes
resolve_server_name configured cfg =
    let addrs = (normalize_configuration cfg).addrs in
    if not (is_empty configured) then ok configured else named addrs (agree_on [] (addrs_of addrs))

-- The host that an address has: that of its host and port, or the whole address if it is not of that
-- form.
abbrev pub HasHost : Bytes → Bytes → Type 0
HasHost addr host =
    ((port : Bytes) × (split_host_port addr ≡ some (host, port)))
    ⊎ ((split_host_port addr ≡ none) × (host ≡ addr))

host_of_iff : (addr host : Bytes) → (host_of addr ≡ host) ↔ HasHost addr host
unfolding host_of
host_of_iff addr host = elim (Option-cases (split_host_port addr)) [
  | inl e ↦ rw (e, host_of) (ground arith)
  | inr ((h, port), e) ↦
      rw (e, host_of)
        (
          λ same. inl (port, ap (λ x. some (x, port)) same),
          λ has. elim has [
            | inl (port', whole) ↦ ap (λ (hp : Bytes × Bytes). hp.0) (some-injective _ _ whole)
            | inr (whole, same) ↦ cc
          ],
        )
]

-- An address has the host `name`, or an empty one.
abbrev pub Agrees : Bytes → Bytes → Type 0
Agrees name addr = HasHost addr [] ⊎ HasHost addr name

agree_on_named :
    (name n : Bytes) (addrs : List Bytes)
    → name ≢ []
    → (agree_on name addrs ≡ ok n) ↔ ((n ≡ name) × All (Agrees name) addrs)
unfolding agree_on
agree_on_named [] n addrs full = absurd (full refl)
agree_on_named (c ∷ name) n [] full = ground arith
agree_on_named (c ∷ name) n (addr ∷ addrs) full = ground (
  arith,
  agree_on_named (c ∷ name) n addrs full,
  bytes_eq_iff (host_of addr) (c ∷ name),
  host_of_iff addr [],
  host_of_iff addr (c ∷ name),
)

agree_on_unnamed :
    (n : Bytes) (addrs : List Bytes)
    → n ≢ []
    → (agree_on [] addrs ≡ ok n) ↔ (All (Agrees n) addrs × Any (λ addr. HasHost addr n) addrs)
unfolding agree_on
agree_on_unnamed n [] full = ground arith
agree_on_unnamed n (addr ∷ addrs) full = ground (
  arith,
  agree_on_unnamed n addrs full,
  agree_on_named (host_of addr) n addrs,
  host_of_iff addr [],
  host_of_iff addr n,
)

named_iff :
    (addrs : Bytes) (r : Result NameError Bytes) (n : Bytes)
    → (named addrs r ≡ ok n) ↔ ((n ≢ []) × (r ≡ ok n))
named_iff addrs (err e) n = ground arith
named_iff addrs (ok []) n = ground arith
named_iff addrs (ok (c ∷ m)) n = ground arith

-- The addresses that the name is taken from.
abbrev pub used_addrs : Option Configuration → List Bytes
used_addrs cfg = or_cloud_addr (addrs_of (or_nil cfg).addrs)

-- Without a configured name, the name is `n` exactly when `n` is not empty, is the host of some
-- address in use, and each address in use has that host or an empty one. The host of an address is
-- that of its host and port, or the whole address if it cannot be split into these.
pub resolve_server_name_iff :
    (cfg : Option Configuration) (n : Bytes)
    → (resolve_server_name [] cfg ≡ ok n)
      ↔ ((n ≢ []) × All (Agrees n) (used_addrs cfg) × Any (λ addr. HasHost addr n) (used_addrs cfg))
unfolding resolve_server_name
resolve_server_name_iff cfg n =
    let normal = (normalize_configuration cfg).addrs in
    let used = addrs_of-normalize_configuration cfg in
    let (of_named, to_named) = named_iff normal (agree_on [] (addrs_of normal)) n in
    (
      λ e.
          let (full, agreed) = of_named e in
          let (all, any) = (agree_on_unnamed n (addrs_of normal) full).0 agreed in
          (full, subst (All (Agrees n)) used all, subst (Any (λ addr. HasHost addr n)) used any),
      λ (full, all, any). to_named (
        full,
        (agree_on_unnamed n (addrs_of normal) full).1 (
          subst (All (Agrees n)) (sym used) all,
          subst (Any (λ addr. HasHost addr n)) (sym used) any,
        ),
      ),
    )
