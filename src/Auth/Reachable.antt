-- ===== src/Auth/Reachable.antt =====
-- The states that a connection of the server can reach, and whom they belong to.
use dcr_sdk.Common.{
  Any, [], ◌∷◌, ℕ, ◌==◌, ◌≡◌, refl, sym, subst, Bool, true, false, not, ◌⊎◌, Option-cases,
  Bool-cases, inl, inr, none, some, List, Bytes, Result, ok, err, arith,
}
use dcr_sdk.Payer.{UuidLibrary, nil_uuid}
use dcr_sdk.Auth.{
  AuthConn, NetConn, AuthLibrary, AuthConfig, AuthError, with_auth, get_uuid, set_uuid,
  increment_requests, authenticate_client_certificate,
}
use dcr_sdk.Auth.Handshake.{TlsConfig, verify_peer_certificate, store, refuses}

module _ (lib : AuthLibrary) (uuid : UuidLibrary) (auth : AuthConfig) where
  -- A handshake that asks for certificates, which succeeds; one that does not, as that of a
  -- plaintext client, of a resumed session or under a configuration without client certificates; a
  -- request that is counted; and a handler that binds the connection to an identity of its own by
  -- `SetUUID`. With each goes the list of the identities that handlers have bound so far. A handshake
  -- that fails closes the connection.
  pub data Step (c : NetConn) (bound_uuids : List ℕ) : NetConn → List ℕ → Type 0 where
    verified :
        (child : TlsConfig) (raw_certs : List Bytes)
        → (verify_peer_certificate lib uuid auth child c raw_certs).1 ≡ none
        → Step c bound_uuids (verify_peer_certificate lib uuid auth child c raw_certs).0 bound_uuids
    unverified : Step c bound_uuids c bound_uuids
    counted :
        (a : AuthConn)
        → c.auth ≡ some a
        → Step c bound_uuids (record c { auth = some (increment_requests a).0 }) bound_uuids
    bound : (u : ℕ) → Step c bound_uuids (set_uuid c u).0 (u ∷ bound_uuids)

  pub data Reach (c : NetConn) : NetConn → List ℕ → Type 0 where
    here : Reach c c []
    later : {d e : NetConn} {us vs : List ℕ} → Reach c d us → Step d us e vs → Reach c e vs

  -- Some client certificate, checked in full, identified the partner.
  abbrev pub IsCertified : ℕ → Type 0
  IsCertified uid =
      (raw_certs : List Bytes) × (authenticate_client_certificate lib uuid auth raw_certs ≡ ok uid)

  -- There is no identity, or it was verified, or bound.
  abbrev Earned : List ℕ → ℕ × Bool → Type 0
  Earned us (uid, known) = (known ≡ false) ⊎ (IsCertified uid ⊎ Any (λ u. u ≡ uid) us)

  abbrev IsEarned : List ℕ → NetConn → Type 0
  IsEarned us c = Earned us (get_uuid c)

  with_auth-IsEarned : (c : NetConn) → IsEarned [] (with_auth c)
  unfolding get_uuid
  with_auth-IsEarned c = inl refl

  set_uuid-IsEarned :
      (c : NetConn) (us : List ℕ) (u : ℕ)
      → IsCertified u ⊎ Any (λ v. v ≡ u) us
      → IsEarned us (set_uuid c u).0
  set_uuid-IsEarned c us u origin = elim (Option-cases c.auth) [
    | inl e ↦
        let unknown : (get_uuid (set_uuid c u).0).1 ≡ false =
          unfold set_uuid get_uuid in ground arith in
        inl unknown
    | inr (a, e) ↦
        let stored : get_uuid (set_uuid c u).0 ≡ (u, not (u == nil_uuid)) =
          unfold set_uuid get_uuid in rw (e, set_uuid, get_uuid) refl in
        subst (Earned us) (sym stored) (inr origin)
  ]

  store-IsEarned :
      (c : NetConn) (us : List ℕ) (raw_certs : List Bytes) (r : Result AuthError ℕ)
      → authenticate_client_certificate lib uuid auth raw_certs ≡ r
      → IsEarned us c
      → IsEarned us (store lib uuid auth c r).0
  store-IsEarned c us raw_certs (err e) h earned = earned
  store-IsEarned c us raw_certs (ok uid) h earned = set_uuid-IsEarned c us uid (inl (raw_certs, h))

  verified-IsEarned :
      (child : TlsConfig) (c : NetConn) (us : List ℕ) (raw_certs : List Bytes)
      → IsEarned us c
      → IsEarned us (verify_peer_certificate lib uuid auth child c raw_certs).0
  unfolding verify_peer_certificate
  verified-IsEarned child c us raw_certs earned =
      elim (Bool-cases (refuses child.verify raw_certs)) [
        | inl e ↦ rw (e, verify_peer_certificate) earned
        | inr e ↦
            rw (e, verify_peer_certificate)
              (store-IsEarned c us raw_certs
                (authenticate_client_certificate lib uuid auth raw_certs) refl earned)
      ]

  counted-get_uuid :
      (c : NetConn) (a : AuthConn)
      → c.auth ≡ some a
      → get_uuid (record c { auth = some (increment_requests a).0 }) ≡ get_uuid c
  unfolding get_uuid increment_requests
  counted-get_uuid c a e = rw (e, get_uuid) refl

  Step-IsEarned : {c d : NetConn} {us vs : List ℕ} → Step c us d vs → IsEarned us c → IsEarned vs d
  Step-IsEarned {c} {us = us} (verified child raw_certs h) earned =
      verified-IsEarned child c us raw_certs earned
  Step-IsEarned unverified earned = earned
  Step-IsEarned {c} {us = us} (counted a e) earned =
      subst (Earned us) (sym (counted-get_uuid c a e)) earned
  Step-IsEarned {c} {us = us} (bound u) earned = set_uuid-IsEarned c (u ∷ us) u (inr (inl refl))

  Reach-IsEarned : {c d : NetConn} {us : List ℕ} → IsEarned [] c → Reach c d us → IsEarned us d
  Reach-IsEarned earned here = earned
  Reach-IsEarned earned (later r s) = Step-IsEarned s (Reach-IsEarned earned r)

  Earned-known :
      (us : List ℕ) (g : ℕ × Bool)
      → g.1 ≡ true
      → Earned us g
      → IsCertified g.0 ⊎ Any (λ u. u ≡ g.0) us
  Earned-known us (uid, known) h (inl unknown) = cc
  Earned-known us (uid, known) h (inr origin) = origin

  -- Whatever handshakes and requests a connection that the listener accepted has gone through, if it
  -- has an identity, then that is the partner whom some client certificate, checked in full,
  -- identified, or one of the identities that handlers bound to the connection by `SetUUID`.
  pub get_uuid-Reach :
      (c d : NetConn) (bound_uuids : List ℕ)
      → Reach (with_auth c) d bound_uuids
      → (get_uuid d).1 ≡ true
      → IsCertified (get_uuid d).0 ⊎ Any (λ u. u ≡ (get_uuid d).0) bound_uuids
  get_uuid-Reach c d us r known =
      Earned-known us (get_uuid d) known (Reach-IsEarned (with_auth-IsEarned c) r)
