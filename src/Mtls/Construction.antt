-- ===== src/Mtls/Construction.antt =====
-- What `NewWithMTLS` makes, and when it refuses.
use dcr_sdk.Common.{
  ℕ, ◌≡◌, ◌≢◌, refl, sym, ap, subst, ◌∙◌, ◌↔◌, ◌⊎◌, inl, inr, Bool, true, false, Option, none, List,
  [], ◌∷◌, Bytes, All, Result, ok, err, Result-cases, ok-injective, arith,
}
use dcr_sdk.Config.{Configuration}
use dcr_sdk.Config.ServerName.{NameError, resolve_server_name, resolve_server_name_iff}
use dcr_sdk.Contract.Request.{Request}
use dcr_sdk.Contract.Pools.{IsFresh}
use dcr_sdk.Certs.{
  Pki, Certificate, CertProvider, TlsCertificate, LoadError, load, new_cert_provider,
}
use dcr_sdk.Certs.Renewal.{new_auto_renewer}
use dcr_sdk.Common.Int.{ℤ, pos, negsuc}
use dcr_sdk.Client.Usable.{IsUsable}
use dcr_sdk.Client.Runs.{new_client-IsUsable}
use dcr_sdk.Mtls.{
  MtlsConfig, MtlsClient, MtlsError, certificate_refused, name_unresolved, get_client_certificate,
  or_tls12, check_of, with_name, with_provider, new_with_mtls,
}

resolve_server_name-full :
    (configured : Bytes) (cfg : Option Configuration) (name : Bytes)
    → resolve_server_name configured cfg ≡ ok name
    → name ≢ []
resolve_server_name-full [] cfg name e = ((resolve_server_name_iff cfg name).0 e).0
resolve_server_name-full (c ∷ s) cfg name e =
    let given : resolve_server_name (c ∷ s) cfg ≡ ok (c ∷ s) = unfold resolve_server_name in refl in
    let same : c ∷ s ≡ name = ok-injective (sym given ∙ e) in λ empty. absurd (full (same ∙ empty))
  where
    full : c ∷ s ≢ []
    full h = cc

or_tls12-set : (version : ℕ) → or_tls12 version ≢ 0
or_tls12-set version = ground arith

-- There is no renewer where none is asked for.
renewer-none :
    (given : Bool) (before every : ℤ)
    → (new_auto_renewer given before every ≡ none)
      ↔ ((given ≡ false) ⊎ ((n : ℕ) × (before ≡ negsuc n)))
unfolding new_auto_renewer
renewer-none false before every = (λ h. inl refl, λ h. refl)
renewer-none true (pos n) every = (λ h. cc, λ h. elim h [ inl e ↦ cc | inr (k, e) ↦ cc ])
renewer-none true (negsuc n) every = (λ h. inr (n, refl), λ h. refl)

module _ (pki : Pki) (carried : List Certificate × List Certificate) (pool : List Request)
    (cfg : Option Configuration) (m : MtlsConfig) where
  abbrev loaded : Result LoadError TlsCertificate
  loaded = load pki (check_of carried m) m.cert_pem m.key_pem

  abbrev resolved : Result NameError Bytes
  resolved = resolve_server_name m.server_name cfg

  pub record IsMade (made : MtlsClient) : Type 0 where
    pub usable : IsUsable made.client
    pub presents : loaded ≡ ok (get_client_certificate made.provider)
    pub named : resolved ≡ ok made.tls.server_name
    pub verifies : made.tls.server_name ≢ []
    pub versioned : made.tls.min_version ≢ 0
    pub renews :
        (made.renewer ≡ none) ↔ ((m.on_renewed ≡ false) ⊎ ((n : ℕ) × (m.renew_before ≡ negsuc n)))

  abbrev pub IsRefused : MtlsError → Type 0
  IsRefused (certificate_refused e) = loaded ≡ err e
  IsRefused (name_unresolved e) =
      ((cert : TlsCertificate) × (loaded ≡ ok cert)) × (resolved ≡ err e)

  abbrev Outcome : Result MtlsError MtlsClient → Type 0
  Outcome out =
      ((made : MtlsClient) × (out ≡ ok made) × IsMade made)
      ⊎ ((e : MtlsError) × (out ≡ err e) × IsRefused e)

  with_name-Outcome :
      (provider : CertProvider) (r : Result NameError Bytes)
      → All IsFresh pool
      → loaded ≡ ok (get_client_certificate provider)
      → resolved ≡ r
      → Outcome (with_name pool cfg m provider r)
  unfolding with_name
  with_name-Outcome provider (err e) fresh loads h = inr (_, refl, ((_, loads), h))
  with_name-Outcome provider (ok name) fresh loads h = inl (
    _,
    refl,
    record {
      usable = new_client-IsUsable pool cfg fresh;
      presents = loads;
      named = h;
      verifies = resolve_server_name-full m.server_name cfg name h;
      versioned = or_tls12-set m.min_version;
      renews = renewer-none m.on_renewed m.renew_before m.renew_check_interval;
    },
  )

  -- `NewWithMTLS` either makes a client or refuses. The client can be called, presents the given
  -- certificate, which was validated with its key, verifies the server for the resolved name, which
  -- is not empty, has a minimum TLS version, and has no renewer exactly if `OnRenewed` is missing or
  -- `RenewBefore` negative. It refuses because the certificate does not load, or, if it does, because
  -- there is no one name to verify.
  pub new_with_mtls-Outcome :
      All IsFresh pool
      → let out = new_with_mtls pki carried pool cfg m in
        ((made : MtlsClient) × (out ≡ ok made) × IsMade made)
        ⊎ ((e : MtlsError) × (out ≡ err e) × IsRefused e)
  unfolding new_with_mtls with_provider new_cert_provider get_client_certificate
  new_with_mtls-Outcome fresh = elim (Result-cases loaded) [
    | inl (e, fails) ↦ rw (fails, new_cert_provider) (inr (_, refl, fails))
    | inr (cert, loads) ↦
        rw (loads, new_cert_provider) (with_name-Outcome _ resolved fresh loads refl)
  ]

  never_refused :
      (cert : TlsCertificate) (name : Bytes) (e : MtlsError)
      → loaded ≡ ok cert
      → resolved ≡ ok name
      → IsRefused e
      → ⊥
  never_refused cert name (certificate_refused e) loads named refused = cc
  never_refused cert name (name_unresolved e) loads named refused = cc

  -- Where the certificate loads and the name can be resolved, there is a client.
  pub new_with_mtls_of_loaded :
      (cert : TlsCertificate) (name : Bytes)
      → All IsFresh pool
      → loaded ≡ ok cert
      → resolved ≡ ok name
      → (made : MtlsClient) × (new_with_mtls pki carried pool cfg m ≡ ok made)
        × IsMade made
        × (get_client_certificate made.provider ≡ cert)
  new_with_mtls_of_loaded cert name fresh loads named = elim (new_with_mtls-Outcome fresh) [
    | inl (made, is_ok, is_made) ↦
        (made, is_ok, is_made, ok-injective (sym is_made.presents ∙ loads))
    | inr (e, fails, refused) ↦ absurd (never_refused cert name e loads named refused)
  ]

  pub new_with_mtls-IsMade :
      (made : MtlsClient)
      → All IsFresh pool
      → new_with_mtls pki carried pool cfg m ≡ ok made
      → IsMade made
  new_with_mtls-IsMade made fresh is_ok = elim (new_with_mtls-Outcome fresh) [
    | inl (made', is_ok', is_made) ↦ subst IsMade (ok-injective (sym is_ok' ∙ is_ok)) is_made
    | inr (e, fails, refused) ↦ cc
  ]

  -- The provider of a client keeps the checks of its configuration.
  pub new_with_mtls-check :
      (made : MtlsClient)
      → new_with_mtls pki carried pool cfg m ≡ ok made
      → made.provider.check ≡ check_of carried m
  unfolding new_with_mtls with_provider with_name new_cert_provider
  new_with_mtls-check made is_ok = elim (Result-cases loaded) [
    | inl (e, fails) ↦ cc (rw (fails, new_with_mtls, new_cert_provider, with_provider) at is_ok)
    | inr (cert, loads) ↦ elim (Result-cases resolved) [
      | inl (e, h) ↦
          cc (rw (loads, h, new_with_mtls, new_cert_provider, with_provider, with_name) at is_ok)
      | inr (name, h) ↦
          ap (λ (t : MtlsClient). t.provider.check)
            (ok-injective (
              sym (
                rw (loads, h, new_with_mtls, new_cert_provider, with_provider, with_name) at
                  is_ok)))
    ]
  ]
