-- ===== src/Dialer/Addresses.antt =====
-- Which addresses `resolve` gives.
use dcr_sdk.Common.{
  ◌≡◌, ◌≢◌, refl, sym, subst, ◌∙◌, ◌↔◌, inl, inr, Bool-cases, Option-cases, false, none, some, List,
  [], ◌∷◌, Bytes, All, Any, is_empty, arith,
}
use dcr_sdk.Common.Strings.{bytes_eq_iff}
use dcr_sdk.Text.Sorting.{
  IsAscending, IsDistinct, Among, sort_strings, sort_strings-IsAscending, sort_strings-Among,
  IsAscending-unique,
}
use dcr_sdk.Dialer.{contains}
use dcr_sdk.Dialer.Resolve.{IpLibrary, join_host_port, dialable, collect, resolve}
use dcr_sdk.Dialer.Ipv4.{IsIpv4, dialable_iff}

module _ (lib : IpLibrary) (port : Bytes) where
  -- `a` is the address, with the port, of one of the IPs, which is an IPv4 one.
  abbrev pub IsIpv4Of : Bytes → List Bytes → Type 0
  IsIpv4Of a ips = Any (λ ip. IsIpv4 ip × (join_host_port (lib.ip_string ip) port ≡ a)) ips

  pub collect-Among :
      (b : Bytes) (ips seen : List Bytes)
      → Among b (collect lib port ips seen) ↔ (IsIpv4Of b ips × (contains b seen ≡ false))
  unfolding collect contains
  collect-Among b [] seen = (λ h. absurd h, λ h. h.0)
  collect-Among b (ip ∷ ips) seen =
      let skipped = collect-Among b ips seen in
      let described = dialable_iff lib port ip b in
      elim (Option-cases (dialable lib port ip)) [
        | inl e ↦ rw (e, collect) (ground arith)
        | inr (a, e) ↦ elim (Bool-cases (contains a seen)) [
          | inl c ↦ rw (e, c, collect) (ground arith)
          | inr c ↦
              let kept = collect-Among b ips (a ∷ seen) in
              let same = bytes_eq_iff a b in rw (e, c, collect) (ground arith)
        ]
      ]

  pub Among-All :
      (P : Bytes → Type 0) (xs : List Bytes) → ((b : Bytes) → Among b xs → P b) → All P xs
  Among-All P [] h = tt
  Among-All P (x ∷ xs) h = (h x (inl refl), Among-All P xs (λ b m. h b (inr m)))

  collect-IsDistinct : (ips seen : List Bytes) → IsDistinct (collect lib port ips seen)
  unfolding collect contains
  collect-IsDistinct [] seen = tt
  collect-IsDistinct (ip ∷ ips) seen = elim (Option-cases (dialable lib port ip)) [
    | inl e ↦ rw (e, collect) (collect-IsDistinct ips seen)
    | inr (a, e) ↦ elim (Bool-cases (contains a seen)) [
      | inl c ↦ rw (e, c, collect) (collect-IsDistinct ips seen)
      | inr c ↦
          let others =
            Among-All (λ b. b ≢ a) (collect lib port ips (a ∷ seen))
              (λ b m same. ground (arith, collect-Among b ips (a ∷ seen), bytes_eq_iff a b)) in
          rw (e, c, collect) (others, collect-IsDistinct ips (a ∷ seen))
    ]
  ]

  -- For a host that is no IP literal, and a port, `resolve` gives for the resolver's answer the one
  -- list that is in order, so names no address twice, and has exactly the addresses of the IPv4 IPs
  -- of the answer, in whatever order and however often these are there.
  pub resolve_iff :
      (host : Bytes) (ips addrs : List Bytes)
      → is_empty host ≡ false
      → is_empty port ≡ false
      → lib.parse_ip host ≡ none
      → (resolve lib host port (some ips) ≡ addrs)
        ↔ (IsAscending addrs × ((a : Bytes) → Among a addrs ↔ IsIpv4Of a ips))
  unfolding resolve
  resolve_iff host ips addrs named ported asked =
      let found : resolve lib host port (some ips) ≡ sort_strings (collect lib port ips []) =
        rw (named, ported, asked, resolve) refl in
      let ascending =
        sort_strings-IsAscending (collect lib port ips []) (collect-IsDistinct ips []) in
      let complete : (a : Bytes)
          → Among a (sort_strings (collect lib port ips [])) ↔ IsIpv4Of a ips =
        λ a.
          unfold contains in
          ground (arith, sort_strings-Among a (collect lib port ips []), collect-Among a ips []) in
      (
        λ e.
            subst (λ xs. IsAscending xs × ((a : Bytes) → Among a xs ↔ IsIpv4Of a ips))
              (sym found ∙ e) (ascending, complete),
        λ (h, same).
            found
            ∙ IsAscending-unique _ addrs ascending h
                (λ a. (λ m. (same a).1 ((complete a).0 m), λ m. (complete a).1 ((same a).0 m))),
      )
