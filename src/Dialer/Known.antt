-- ===== src/Dialer/Known.antt =====
-- Which addresses a dialer can know of, from what the resolver has answered it.
use mathlib.Core.List.{map}
use dcr_sdk.Common.{
  ℕ, ◌==◌, ◌≡◌, refl, sym, subst, ◌⊎◌, inl, inr, Bool-cases, Option-cases, ◌||◌, Option, none, some,
  List, [], ◌∷◌, Bytes, All, Any, is_empty,
}
use dcr_sdk.Text.Sorting.{sort_strings, sort_strings-All}
use dcr_sdk.Dialer.{Conn, remove, close_all}
use dcr_sdk.Dialer.Resolve.{IpLibrary, Lookup, join_host_port, collect, resolve}
use dcr_sdk.Dialer.Addresses.{IsIpv4Of, collect-Among, Among-All}

module _ {A : Type 0} (P Q : A → Type 0) where
  pub All-imp : (xs : List A) → ((x : A) → P x → Q x) → All P xs → All Q xs
  All-imp [] h a = tt
  All-imp (x ∷ xs) h (p, a) = (h x p, All-imp xs h a)

module _ (P : Conn → Type 0) where
  pub remove-All : (id : ℕ) (conns : List Conn) → All P conns → All P (remove id conns)
  unfolding remove
  remove-All id [] h = tt
  remove-All id (c ∷ conns) (p, h) = elim (Bool-cases (c.id == id)) [
    | inl e ↦ rw (e, remove) h
    | inr e ↦ rw (e, remove) (p, remove-All id conns h)
  ]

  pub close_all-All : (closing conns : List Conn) → All P conns → All P (close_all closing conns)
  unfolding close_all
  close_all-All [] conns h = h
  close_all-All (c ∷ closing) conns h =
      close_all-All closing (remove c.id conns) (remove-All c.id conns h)

pub worked-All :
    (P : Bytes → Type 0) (pending : Conn → Option ℕ) (conns : List Conn)
    → All (λ c. P c.addr) conns
    → All (λ c. P c.addr) (map {A = Conn} (λ c. record c { pending = pending c }) conns)
worked-All P pending [] h = tt
worked-All P pending (c ∷ conns) (p, h) = (p, worked-All P pending conns h)

module _ (lib : IpLibrary) where
  abbrev pub noted : Option Lookup → List Lookup → List Lookup
  noted none lookups = lookups
  noted (some lookup) lookups = lookup ∷ lookups

  abbrev pub Answered : Bytes → Bytes → Lookup → Type 0
  Answered port a none = ⊥
  Answered port a (some ips) = IsIpv4Of lib port a ips

  module _ (addr host port : Bytes) where
    -- The configured address; the IP that the host spells, with the port; or an IPv4 address that
    -- one of the resolver's answers has.
    abbrev pub IsKnown : List Lookup → Bytes → Type 0
    IsKnown lookups a =
        (a ≡ addr)
        ⊎ (((ip : Bytes) × (lib.parse_ip host ≡ some ip)
              × (a ≡ join_host_port (lib.ip_string ip) port))
            ⊎ Any (Answered port a) lookups)

    pub IsKnown-noted :
        (o : Option Lookup) (lookups : List Lookup) (a : Bytes)
        → IsKnown lookups a
        → IsKnown (noted o lookups) a
    IsKnown-noted none lookups a h = h
    IsKnown-noted (some lookup) lookups a (inl e) = inl e
    IsKnown-noted (some lookup) lookups a (inr (inl e)) = inr (inl e)
    IsKnown-noted (some lookup) lookups a (inr (inr m)) = inr (inr (inr m))

    collect-IsKnown :
        (ips : List Bytes) (lookups : List Lookup)
        → All (IsKnown (some ips ∷ lookups)) (sort_strings (collect lib port ips []))
    collect-IsKnown ips lookups =
        sort_strings-All (IsKnown (some ips ∷ lookups)) (collect lib port ips []) (
          Among-All lib port (IsKnown (some ips ∷ lookups)) (collect lib port ips [])
            (λ a m. inr (inr (inl ((collect-Among lib port a ips []).0 m).0))))

    pub resolve-IsKnown :
        (lookup : Lookup) (lookups : List Lookup)
        → All (IsKnown (lookup ∷ lookups)) (resolve lib host port lookup)
    unfolding resolve
    resolve-IsKnown lookup lookups = elim (Bool-cases (is_empty host || is_empty port)) [
      | inl e ↦ rw (e, resolve) tt
      | inr e ↦ elim (Option-cases (lib.parse_ip host)) [
        | inr (ip, f) ↦ rw (e, f, resolve) (inr (inl (ip, f, refl)), tt)
        | inl f ↦ elim (Option-cases lookup) [
          | inl g ↦ rw (e, f, g, resolve) tt
          | inr (ips, g) ↦
              subst (λ l. All (IsKnown (l ∷ lookups)) (resolve lib host port l)) (sym g)
                (rw (e, f, resolve) (collect-IsKnown ips lookups))
        ]
      ]
    ]
