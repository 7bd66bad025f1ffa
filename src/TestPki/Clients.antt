-- ===== src/TestPki/Clients.antt =====
-- Clients that are made with a certificate of the test PKI, and a cloud with its TLS configuration.
use dcr_sdk.Common.{
  ℕ, ◌+◌, ◌^◌, ◌<◌, ◌≡◌, refl, sym, ap, ◌∙◌, Bool, Option, none, some, List, [], ◌∷◌, Bytes, All,
  ok, inl, inr, Option-cases, ok-injective,
}
use dcr_sdk.Config.{Configuration}
use dcr_sdk.Config.ServerName.{resolve_server_name}
use dcr_sdk.Certs.{Pki, Certificate, CertProvider, new_cert_check, or_pool, load, update}
use dcr_sdk.Contract.Request.{Request}
use dcr_sdk.Contract.Pools.{IsFresh}
use dcr_sdk.Payer.{UuidLibrary}
use dcr_sdk.Client.Usable.{IsUsable}
use dcr_sdk.Mtls.{MtlsConfig, MtlsClient, new_with_mtls, check_of, get_client_certificate}
use dcr_sdk.Mtls.Construction.{IsMade, new_with_mtls_of_loaded, new_with_mtls-IsMade}
use dcr_sdk.Auth.{NetConn, AuthError, with_auth}
use dcr_sdk.Auth.Handshake.{handshake}
use dcr_sdk.TestPki.{
  Generator, MtlsCertificate, Certificates, client_config, new_client_certificate, new_certificates,
}
use dcr_sdk.TestPki.Identity.{
  IsPki, IsIssued, Issues, new_certificates-IsPki, server_library, stored, presented, load-Issued,
  handshake-Issued,
}

-- A configuration with the client certificate of the PKI, which is checked against its client CA.
abbrev pub with_certificates : MtlsConfig → Certificates → MtlsConfig
with_certificates m certs = record m {
  cert_pem = certs.client_cert_pem;
  key_pem = certs.client_key_pem;
  client_cert_roots = some certs.client_roots;
  current_time = none;
}

-- What is relied on of `uuid.New`: a UUID is never nil.
abbrev pub NeverNil : Generator → Type 0
NeverNil gen = (draw : ℕ) → (0 < gen.new_uuid draw) × (gen.new_uuid draw < 2 ^ 128)

check_of-with :
    (carried : List Certificate × List Certificate) (m : MtlsConfig) (certs : Certificates)
    → check_of carried (with_certificates m certs) ≡ record {
      roots = certs.client_roots;
      intermediates = or_pool m.client_cert_intermediates carried.1;
      current_time = none;
    }
unfolding new_cert_check
check_of-with (roots, intermediates) m certs = refl

module _ (pki : Pki) (check_status : Certificate → Option Certificate → Option Bool)
    (uuid_of : Certificate → Bytes) (uuid : UuidLibrary) (gen : Generator) where
  -- A handshake of a server with the TLS configuration of the PKI.
  abbrev pub shaken : Certificates → NetConn → List Bytes → NetConn × Option AuthError
  shaken certs conn raw_certs =
      handshake (server_library pki check_status uuid_of) uuid certs.server_tls (with_auth conn)
        raw_certs

  shaken-Issued :
      (certs : Certificates) (is_pki : IsPki uuid gen certs) (conn : NetConn) (id : ℕ)
      (c : MtlsCertificate)
      (issued : IsIssued pki uuid_of (client_config uuid id certs.client_ca) c)
      → id < 2 ^ 128
      → shaken certs conn (issued.der ∷ []) ≡ (stored conn id, none)
  shaken-Issued certs is_pki conn id c issued fits = rw is_pki.serves (
      handshake-Issued pki check_status uuid_of uuid is_pki.server conn id certs.client_ca c issued
        fits)

  module _ (issues : Issues pki uuid_of gen) where
    loads :
        (certs : Certificates) (is_pki : IsPki uuid gen certs)
        (carried : List Certificate × List Certificate) (m : MtlsConfig)
        → load pki
            (check_of carried (with_certificates m certs))
            certs.client_cert_pem
            certs.client_key_pem
          ≡ ok (presented pki check_status uuid_of uuid (issues _ _ is_pki.client is_pki.generated))
    loads certs is_pki carried m =
        let issued = issues _ _ is_pki.client is_pki.generated in
        rw (check_of-with carried m certs, is_pki.trusted, is_pki.texts.0, is_pki.texts.1)
          (load-Issued pki check_status uuid_of uuid _ is_pki.client issued _ refl refl)

    module _ (never_nil : NeverNil gen) where
      fits : (certs : Certificates) → IsPki uuid gen certs → certs.client_id < 2 ^ 128
      fits certs is_pki = rw is_pki.identified ((never_nil (is_pki.draw + 1)).1)

      -- A client with the certificate of a PKI.
      pub record IsClient (certs : Certificates) (made : MtlsClient) : Type 0 where
        pub usable : IsUsable made.client
        pub known :
            (conn : NetConn)
            → shaken certs conn (get_client_certificate made.provider).certificate
              ≡ (stored conn certs.client_id, none)

      IsMade-IsClient :
          (certs : Certificates) (is_pki : IsPki uuid gen certs)
          (carried : List Certificate × List Certificate) (pool : List Request)
          (cfg : Option Configuration) (m : MtlsConfig) (made : MtlsClient)
          → IsMade pki carried pool cfg (with_certificates m certs) made
          → IsClient certs made
      IsMade-IsClient certs is_pki carried pool cfg m made is_made =
          let issued = issues _ _ is_pki.client is_pki.generated in
          let same = ok-injective (sym is_made.presents ∙ loads certs is_pki carried m) in
          record {
            usable = is_made.usable;
            known = λ conn. rw same (
                shaken-Issued certs is_pki conn certs.client_id is_pki.client issued
                  (fits certs is_pki));
          }

      -- `NewWithMTLS` makes a client of a configuration with the client certificate of a test PKI,
      -- checked against the PKI's client CA, where the server's name can be resolved. The client can
      -- be called, and a server with the PKI's TLS configuration takes the certificate that it
      -- presents, on any connection that its listener accepted, for that of the PKI's partner.
      pub new_with_mtls-IsClient :
          (draw : ℕ) (times : ℕ × ℕ) (certs : Certificates)
          (carried : List Certificate × List Certificate) (pool : List Request)
          (cfg : Option Configuration) (m : MtlsConfig) (name : Bytes)
          → new_certificates uuid gen draw times ≡ ok certs
          → All IsFresh pool
          → resolve_server_name m.server_name cfg ≡ ok name
          → (made : MtlsClient) × (new_with_mtls pki carried pool cfg (with_certificates m certs)
              ≡ ok made)
            × IsClient certs made
      new_with_mtls-IsClient draw times certs carried pool cfg m name generated fresh named =
          let is_pki = new_certificates-IsPki uuid gen draw times certs generated in
          let (made, is_ok, is_made, presents) =
            new_with_mtls_of_loaded pki carried pool cfg (with_certificates m certs) _ name fresh
              (loads certs is_pki carried m) named in
          (made, is_ok, IsMade-IsClient certs is_pki carried pool cfg m made is_made)

      pub made-IsClient :
          (draw : ℕ) (times : ℕ × ℕ) (certs : Certificates)
          (carried : List Certificate × List Certificate) (pool : List Request)
          (cfg : Option Configuration) (m : MtlsConfig) (made : MtlsClient)
          → new_certificates uuid gen draw times ≡ ok certs
          → All IsFresh pool
          → new_with_mtls pki carried pool cfg (with_certificates m certs) ≡ ok made
          → IsClient certs made
      made-IsClient draw times certs carried pool cfg m made generated fresh is_ok =
          let is_pki = new_certificates-IsPki uuid gen draw times certs generated in
          IsMade-IsClient certs is_pki carried pool cfg m made
            (new_with_mtls-IsMade pki carried pool cfg (with_certificates m certs) made fresh is_ok)

      -- A certificate that `NewClientCertificate` issues for a UUID replaces that of a provider which
      -- checks against the PKI's client CA, with the present time, and a server with the PKI's TLS
      -- configuration then stores that UUID on each accepted connection on which the provider's
      -- certificate is presented.
      pub update-Issued :
          (draw draw' : ℕ) (times : ℕ × ℕ) (certs : Certificates) (id : ℕ) (c k : Bytes)
          (p : CertProvider)
          → new_certificates uuid gen draw times ≡ ok certs
          → new_client_certificate uuid gen draw' certs id ≡ ok (c, k)
          → id < 2 ^ 128
          → p.check.roots ≡ certs.client_roots
          → p.check.current_time ≡ none
          → (p' : CertProvider) × (update pki p c k ≡ (p', none))
            × ((conn : NetConn)
                → shaken certs conn (get_client_certificate p').certificate
                  ≡ (stored conn id, none))
      unfolding new_client_certificate update get_client_certificate
      update-Issued draw draw' times certs id c k p generated issued_as small roots clock =
          let is_pki = new_certificates-IsPki uuid gen draw times certs generated in
          elim (Option-cases (gen.generate draw' (client_config uuid id certs.client_ca))) [
            | inl h ↦ cc (rw (h, new_client_certificate) at issued_as)
            | inr (cert, h) ↦
                let issued = issues _ _ cert h in
                let texts : (cert.cert_pem, cert.key_pem) ≡ (c, k) =
                  ok-injective (rw (h, new_client_certificate) at issued_as) in
                let cert_text : cert.cert_pem ≡ c = ap (λ (t : Bytes × Bytes). t.0) texts in
                let key_text : cert.key_pem ≡ k = ap (λ (t : Bytes × Bytes). t.1) texts in
                let loaded : load pki p.check c k
                    ≡ ok (presented pki check_status uuid_of uuid issued) =
                  rw (sym cert_text, sym key_text)
                    (load-Issued pki check_status uuid_of uuid _ cert issued p.check
                      (roots ∙ is_pki.trusted) clock) in
                (
                  record p {
                    current = record {
                      cert = presented pki check_status uuid_of uuid issued;
                      cert_pem = c;
                    };
                  },
                  rw (loaded, update) refl,
                  λ conn. shaken-Issued certs is_pki conn id cert issued small,
                )
          ]
