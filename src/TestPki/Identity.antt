-- ===== src/TestPki/Identity.antt =====
-- Whom a client with a certificate of the test PKI is, to a server with the PKI's TLS configuration.
use dcr_sdk.Common.{
  ℕ, ◌+◌, ◌^◌, ◌<◌, ◌≡◌, refl, Bool, true, Option, none, some, List, [], ◌∷◌, Bytes, Result, ok,
  err, Option-cases, arith, codes, subst, ok-injective, inl, inr,
}
use dcr_sdk.Certs.{Pki, Certificate, CertCheck, TlsCertificate, load, add_intermediates}
use dcr_sdk.Payer.{UuidLibrary}
use dcr_sdk.Auth.{
  NetConn, AuthLibrary, with_auth, get_uuid, set_uuid, authenticate_client_certificate,
}
use dcr_sdk.Auth.Identity.{authenticate_client_certificate_iff}
use dcr_sdk.Auth.Handshake.{server_tls, handshake, verify_peer_certificate}
use dcr_sdk.Cloud.Serve.{partner_of}
use dcr_sdk.TestPki.{
  MtlsCertificate, GenerateConfig, Generator, Certificates, PkiError, client_config, auth_of,
  new_server_certificate, with_server_certificate, new_certificates,
}

-- How the server checks certificates: with the functions that the client checks them with.
abbrev pub server_library :
    Pki → (Certificate → Option Certificate → Option Bool) → (Certificate → Bytes) → AuthLibrary
server_library pki check_status uuid_of = record {
  parse_certificate = pki.parse_certificate;
  check_tls = pki.check_tls;
  check_status = check_status;
  uuid_of = uuid_of;
}

-- What is relied on of `mtls.Generate`: the PEM texts hold the certificate, alone, and its key, the
-- certificate is valid under its CA, whatever intermediates there are, and names the configured UUID.
pub record IsIssued (pki : Pki) (uuid_of : Certificate → Bytes) (cfg : GenerateConfig)
    (c : MtlsCertificate) : Type 0 where
  pub der : Bytes
  pub paired : pki.key_pair c.cert_pem c.key_pem ≡ some (der ∷ [])
  pub parsed : pki.parse_certificate der ≡ some c.cert
  pub valid :
      (intermediates : List Certificate)
      → pki.check_tls c.cert (cfg.ca.cert ∷ []) intermediates none ≡ true
  pub named : uuid_of c.cert ≡ cfg.uuid

abbrev pub Issues : Pki → (Certificate → Bytes) → Generator → Type 0
Issues pki uuid_of gen =
    (draw : ℕ) (cfg : GenerateConfig) (c : MtlsCertificate)
    → gen.generate draw cfg ≡ some c
    → IsIssued pki uuid_of cfg c

-- What a PKI is made of.
pub record IsPki (uuid : UuidLibrary) (gen : Generator) (certs : Certificates) : Type 0 where
  pub draw : ℕ
  pub client : MtlsCertificate
  pub generated :
      gen.generate (draw + 2) (client_config uuid certs.client_id certs.client_ca) ≡ some client
  pub identified : certs.client_id ≡ gen.new_uuid (draw + 1)
  pub texts : (certs.client_cert_pem ≡ client.cert_pem) × (certs.client_key_pem ≡ client.key_pem)
  pub trusted : certs.client_roots ≡ certs.client_ca.cert ∷ []
  pub server : TlsCertificate
  pub serves : certs.server_tls ≡ server_tls (server ∷ []) 0x0303 (auth_of certs.client_ca)

module _ (uuid : UuidLibrary) (gen : Generator) where
  with_server-IsPki :
      (draw : ℕ) (client_ca client server_ca : MtlsCertificate) (certs : Certificates)
      (r : Result PkiError TlsCertificate)
      → gen.generate (draw + 2) (client_config uuid (gen.new_uuid (draw + 1)) client_ca)
        ≡ some client
      → with_server_certificate uuid gen (gen.new_uuid (draw + 1)) client_ca client server_ca r
        ≡ ok certs
      → IsPki uuid gen certs
  unfolding with_server_certificate
  with_server-IsPki draw client_ca client server_ca certs (err e) made e2 = cc
  with_server-IsPki draw client_ca client server_ca certs (ok server) made e2 =
      subst (IsPki uuid gen) (ok-injective e2) (record {
        draw = draw;
        client = client;
        generated = made;
        identified = refl;
        texts = (refl, refl);
        trusted = refl;
        server = server;
        serves = refl;
      })

  pub new_certificates-IsPki :
      (draw : ℕ) (times : ℕ × ℕ) (certs : Certificates)
      → new_certificates uuid gen draw times ≡ ok certs
      → IsPki uuid gen certs
  unfolding new_certificates
  new_certificates-IsPki draw times certs made =
      elim (Option-cases (gen.generate_ca draw (codes "dcr-sdk-test-client-ca"))) [
        | inl h ↦ cc (rw (h, new_certificates) at made)
        | inr (client_ca, h) ↦
            let id = gen.new_uuid (draw + 1) in
            elim (Option-cases (gen.generate (draw + 2) (client_config uuid id client_ca))) [
              | inl g ↦ cc (rw (h, g, new_certificates) at made)
              | inr (client, g) ↦
                  elim (Option-cases
                    (gen.generate_ca (draw + 3) (codes "dcr-sdk-test-server-ca"))) [
                      | inl k ↦ cc (rw (h, g, k, new_certificates) at made)
                      | inr (server_ca, k) ↦
                          with_server-IsPki draw client_ca client server_ca certs
                            (new_server_certificate uuid gen (draw + 4) times server_ca) g
                            (rw (h, g, k, new_certificates) at made)
                    ]
            ]
      ]

-- The connection of partner `id`.
abbrev pub stored : NetConn → ℕ → NetConn
stored conn id = record conn { auth = some (record { requests = 0; auth_id = id }) }

pub partner_of-stored : (conn : NetConn) (id : ℕ) → 0 < id → partner_of (stored conn id) ≡ some id
unfolding get_uuid
partner_of-stored conn id known = ground arith

module _ (pki : Pki) (check_status : Certificate → Option Certificate → Option Bool)
    (uuid_of : Certificate → Bytes) (uuid : UuidLibrary) where
  -- What a certificate loads as.
  abbrev pub presented :
      {cfg : GenerateConfig} {c : MtlsCertificate} → IsIssued pki uuid_of cfg c → TlsCertificate
  presented {cfg} {c} issued = record { certificate = issued.der ∷ []; leaf = c.cert }

  pub load-Issued :
      (cfg : GenerateConfig) (c : MtlsCertificate) (issued : IsIssued pki uuid_of cfg c)
      (check : CertCheck)
      → check.roots ≡ cfg.ca.cert ∷ []
      → check.current_time ≡ none
      → load pki check c.cert_pem c.key_pem ≡ ok (presented issued)
  unfolding load add_intermediates
  load-Issued cfg c issued check roots clock =
      rw (issued.paired, issued.parsed, roots, clock, issued.valid check.intermediates, load) refl

  authenticated :
      (id : ℕ) (ca c : MtlsCertificate) (issued : IsIssued pki uuid_of (client_config uuid id ca) c)
      → id < 2 ^ 128
      → authenticate_client_certificate
          (server_library pki check_status uuid_of)
          uuid
          (auth_of ca)
          (issued.der ∷ [])
        ≡ ok id
  authenticated id ca c issued fits =
      (authenticate_client_certificate_iff (server_library pki check_status uuid_of) uuid
          (auth_of ca) (issued.der ∷ []) id).1
        (
          issued.der,
          [],
          c.cert,
          refl,
          issued.parsed,
          (issued.valid [], refl, rw issued.named (uuid.parse-to_string id fits)),
        )

  pub handshake-Issued :
      (server : TlsCertificate) (conn : NetConn) (id : ℕ) (ca c : MtlsCertificate)
      (issued : IsIssued pki uuid_of (client_config uuid id ca) c)
      → id < 2 ^ 128
      → handshake
          (server_library pki check_status uuid_of)
          uuid
          (server_tls (server ∷ []) 0x0303 (auth_of ca))
          (with_auth conn)
          (issued.der ∷ [])
        ≡ (stored conn id, none)
  unfolding server_tls verify_peer_certificate set_uuid
  handshake-Issued server conn id ca c issued fits = rw (authenticated id ca c issued fits) refl
