-- ===== src/TestCloud/Clients.antt =====
-- Whom the test cloud's command lets in.
use dcr_sdk.Common.{
  ℕ, ◌≡◌, ◌≢◌, refl, sym, ap, ◌∙◌, ◌↔◌, ◌||◌, inl, inr, true, Option, none, some, List, [], ◌∷◌,
  Bytes, Result, ok, err, Option-cases, Result-cases, Bool-cases, ok-injective, is_empty,
  if◌then◌else◌, subst,
}
use mathlib.Core.Option.{some-injective}
use dcr_sdk.Certs.{Certificate, TlsCertificate}
use dcr_sdk.Payer.{UuidLibrary}
use dcr_sdk.Auth.{
  NetConn, AuthLibrary, AuthConfig, AuthError, with_auth, set_uuid, authenticate_client_certificate,
}
use dcr_sdk.Auth.Identity.{authenticate_client_certificate_iff}
use dcr_sdk.Auth.Handshake.{
  ServerTls, server_tls, handshake, verify_peer_certificate, store, new_tls_config,
}
use dcr_sdk.TestPki.Identity.{stored}
use dcr_sdk.TestCloud.{
  Flags, System, issuer_of, with_issuer, with_roots, with_client_ca, with_key_pair, load_tls_config,
}

-- The authentication that the flags and the files ask for.
pub record IsLoaded (sys : System) (f : Flags) (tls : ServerTls) : Type 0 where
  pub cert : TlsCertificate
  pub pem : Bytes
  pub issuer : Option Certificate
  pub paired : sys.load_x509_key_pair f.tls_cert_path f.tls_key_path ≡ some cert
  pub client_ca : sys.read_file f.client_ca_path ≡ some pem
  pub trusts : sys.certs_of pem ≢ []
  pub issued : issuer_of sys f ≡ ok issuer
  pub serves :
      tls
      ≡ server_tls (cert ∷ []) 0 (record {
        roots = sys.certs_of pem;
        intermediates = [];
        current_time = none;
        issuer = issuer;
        require_ocsp = f.require_ocsp;
      })

module _ (sys : System) (f : Flags) where
  with_roots-ok :
      (cert : TlsCertificate) (certs : List Certificate) (tls : ServerTls)
      → with_roots sys f cert certs ≡ ok tls
      → (issuer : Option Certificate) × (certs ≢ [])
        × (issuer_of sys f ≡ ok issuer)
        × (tls
            ≡ server_tls (cert ∷ []) 0 (record {
              roots = certs;
              intermediates = [];
              current_time = none;
              issuer = issuer;
              require_ocsp = f.require_ocsp;
            }))
  unfolding with_roots with_issuer
  with_roots-ok cert [] tls e = cc
  with_roots-ok cert (c ∷ certs) tls e = elim (Result-cases (issuer_of sys f)) [
    | inl (x, h) ↦ cc (rw (h, with_issuer) at e)
    | inr (issuer, h) ↦ (issuer, cc, h, sym (ok-injective (rw (h, with_issuer) at e)))
  ]

  load_tls_config-IsLoaded : (tls : ServerTls) → load_tls_config sys f ≡ ok tls → IsLoaded sys f tls
  unfolding load_tls_config with_client_ca
  load_tls_config-IsLoaded tls made =
      elim (Bool-cases
        (is_empty f.tls_cert_path || is_empty f.tls_key_path || is_empty f.client_ca_path)) [
          | inl h ↦ cc (rw (h, load_tls_config) at made)
          | inr h ↦ elim (Option-cases (sys.load_x509_key_pair f.tls_cert_path f.tls_key_path)) [
            | inl k ↦ cc (rw (h, k, load_tls_config, with_key_pair) at made)
            | inr (cert, k) ↦ elim (Option-cases (sys.read_file f.client_ca_path)) [
              | inl r ↦ cc (rw (h, k, r, load_tls_config, with_key_pair, with_client_ca) at made)
              | inr (pem, r) ↦
                  let parts =
                    with_roots-ok cert (sys.certs_of pem) tls
                      (rw (h, k, r, load_tls_config, with_key_pair, with_client_ca) at made) in
                  record {
                    cert = cert;
                    pem = pem;
                    issuer = parts.0;
                    paired = k;
                    client_ca = r;
                    trusts = parts.1;
                    issued = parts.2;
                    serves = parts.3;
                  }
            ]
          ]
        ]

auth_id_of : NetConn → ℕ
auth_id_of conn = elim conn.auth [ none ↦ 0 | some a ↦ a.auth_id ]

stored-injective : (conn : NetConn) (u v : ℕ) → stored conn u ≡ stored conn v → u ≡ v
unfolding auth_id_of
stored-injective conn u v e = ap auth_id_of e

module _ (lib : AuthLibrary) (uuid : UuidLibrary) where
  handshake-ok :
      (certs : List TlsCertificate) (version : ℕ) (auth : AuthConfig) (conn : NetConn)
      (raws : List Bytes) (r : Result AuthError ℕ)
      → authenticate_client_certificate lib uuid auth raws ≡ r
      → handshake lib uuid (server_tls certs version auth) (with_auth conn) raws
        ≡ store lib uuid auth (with_auth conn) r
  unfolding server_tls new_tls_config verify_peer_certificate
  handshake-ok certs version auth conn raws r e = rw e refl

  store_iff :
      (auth : AuthConfig) (conn : NetConn) (r : Result AuthError ℕ) (u : ℕ)
      → (store lib uuid auth (with_auth conn) r ≡ (stored conn u, none)) ↔ (r ≡ ok u)
  unfolding set_uuid
  store_iff auth conn (err e) u = (λ h. cc, λ h. cc)
  store_iff auth conn (ok v) u = (
    λ h. ap ok (stored-injective conn v u (ap (λ (t : NetConn × Option AuthError). t.0) h)),
    λ h. ap (λ w. (stored conn w, none)) (ok-injective h),
  )

  handshake_iff :
      (certs : List TlsCertificate) (version : ℕ) (auth : AuthConfig) (conn : NetConn)
      (raws : List Bytes) (u : ℕ)
      → (handshake lib uuid (server_tls certs version auth) (with_auth conn) raws
          ≡ (stored conn u, none))
        ↔ (authenticate_client_certificate lib uuid auth raws ≡ ok u)
  handshake_iff certs version auth conn raws u =
      let same = handshake-ok certs version auth conn raws _ refl in
      let iff = store_iff auth conn (authenticate_client_certificate lib uuid auth raws) u in
      (λ h. iff.0 (sym same ∙ h), λ h. same ∙ iff.1 h)

  -- The certificate is valid and current, and names the partner `u`.
  abbrev pub Admits : System → Flags → Bytes → Option Certificate → Certificate → ℕ → Type 0
  Admits sys f pem issuer leaf u =
      (lib.check_tls leaf (sys.certs_of pem) [] none ≡ true)
      × ((if f.require_ocsp then lib.check_status leaf issuer else some true) ≡ some true)
      × (uuid.parse (lib.uuid_of leaf) ≡ some u)

  -- A connection that the command's server accepts is stored as partner `u`'s by a handshake, with no
  -- error, exactly if the first certificate of the client can be parsed, is valid under the
  -- certificates of the -clientCA file, without intermediates, names `u`, and, with -requireOCSP, has a
  -- good status by the certificate of the -clientIssuer file, or by none where that flag is empty.
  pub handshake-loaded :
      (sys : System) (f : Flags) (tls : ServerTls) (conn : NetConn) (raws : List Bytes) (u : ℕ)
      → load_tls_config sys f ≡ ok tls
      → (handshake lib uuid tls (with_auth conn) raws ≡ (stored conn u, none)) ↔ (
          (pem : Bytes) × (issuer : Option Certificate) × (raw : Bytes) × (rest : List Bytes)
          × (leaf : Certificate) × (sys.read_file f.client_ca_path ≡ some pem)
          × (issuer_of sys f ≡ ok issuer)
          × (raws ≡ raw ∷ rest)
          × (lib.parse_certificate raw ≡ some leaf)
          × Admits sys f pem issuer leaf u)
  handshake-loaded sys f tls conn raws u made =
      let loaded = load_tls_config-IsLoaded sys f tls made in
      let auth : AuthConfig = record {
        roots = sys.certs_of loaded.pem;
        intermediates = [];
        current_time = none;
        issuer = loaded.issuer;
        require_ocsp = f.require_ocsp;
      } in
      let shaken = handshake_iff (loaded.cert ∷ []) 0 auth conn raws u in
      let identified = authenticate_client_certificate_iff lib uuid auth raws u in
      rw loaded.serves (
        λ h.
            let (raw, rest, leaf, e, p, named) = identified.0 (shaken.0 h) in
            (
              loaded.pem, loaded.issuer, raw, rest, leaf, loaded.client_ca, loaded.issued, e, p,
              named,
            ),
        λ (pem, issuer, raw, rest, leaf, r, i, e, p, named).
            let same_pem = some-injective _ _ (sym r ∙ loaded.client_ca) in
            let same_issuer = ok-injective (sym i ∙ loaded.issued) in
            let admitted =
              subst (λ q. Admits sys f loaded.pem q leaf u) same_issuer
                (subst (λ q. Admits sys f q issuer leaf u) same_pem named) in
            shaken.1 (identified.1 (raw, rest, leaf, e, p, admitted)),
      )
