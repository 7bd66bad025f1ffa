-- ===== src/Certs/Laws.antt =====
-- What a check of the renewer leaves: a certificate that was validated, saved and is served, or the
-- one before.
use dcr_sdk.Common.{
  ℕ, ◌+◌, ◌==◌, ltb, ◌≡◌, ◌≢◌, refl, sym, subst, ◌∙◌, ◌⊎◌, inl, inr, Bool, true, Bool-cases, Option,
  none, some, List, [], ◌∷◌, Bytes, Result, ok, err, Result-cases, ok-injective, arith,
}
use dcr_sdk.Certs.{
  Pki, Certificate, CertCheck, CertProvider, TlsCertificate, LoadError, load, update, leaf,
  new_cert_provider,
}
use dcr_sdk.Certs.Fetch.{FetchError}
use dcr_sdk.Certs.Renewal.{
  AutoRenewer, Renewals, Checked, handed_over, updated, reconnected, CheckError, leaf_of,
  after_update, after_load, after_leaf, after_fetch, check, turn, run, with_wait,
}

module _ (pki : Pki) where
  -- The certificate that is served was validated, with some key.
  abbrev pub IsValidated : CertProvider → Type 0
  IsValidated p = (key : Bytes) × (load pki p.check p.current.cert_pem key ≡ ok p.current.cert)

  -- Loading decides an update: the certificate that loads is served, and one that does not leaves
  -- the provider as it was.
  pub update-load :
      (p : CertProvider) (c k : Bytes)
      → ((cert : TlsCertificate) × (load pki p.check c k ≡ ok cert)
          × (update pki p c k
              ≡ (record p { current = record { cert = cert; cert_pem = c } }, none)))
        ⊎ ((e : LoadError) × (load pki p.check c k ≡ err e) × (update pki p c k ≡ (p, some e)))
  unfolding update
  update-load p c k = elim (Result-cases (load pki p.check c k)) [
    | inl (e, fails) ↦ inr (e, fails, rw (fails, update) refl)
    | inr (cert, loads) ↦ inl (cert, loads, rw (loads, update) refl)
  ]

  module _ (on_renewed : Bytes → Bytes → Bool) where
    -- The pair `c`, `k` came from the CA, is not the one in use, was validated, was saved, and then
    -- only is served, and the open connections are moved onto it.
    pub record Replaced (p : CertProvider) (n : Renewals)
        (fetched : Result FetchError (Bytes × Bytes)) (out : Checked) : Type 0 where
      pub pem : Bytes
      pub key : Bytes
      pub renewed : Certificate
      pub cert : TlsCertificate
      pub came : fetched ≡ ok (pem, key)
      pub read : leaf_of pki on_renewed pem ≡ some renewed
      pub other : renewed.serial ≢ (leaf p).serial
      pub loads : load pki p.check pem key ≡ ok cert
      pub kept : on_renewed pem key ≡ true
      pub in_order : out.effects ≡ handed_over pem key ∷ updated pem key ∷ reconnected ∷ []
      pub served : out.provider ≡ record p { current = record { cert = cert; cert_pem = pem } }
      pub counted : out.renewals.renewed ≡ n.renewed + 1

    -- Nothing is served, closed or counted as renewed.
    pub record Kept (p : CertProvider) (n : Renewals) (out : Checked) : Type 0 where
      pub same : out.provider ≡ p
      pub open_connections :
          (out.effects ≡ []) ⊎ ((c : Bytes) × (k : Bytes) × (out.effects ≡ handed_over c k ∷ []))
      pub uncounted : out.renewals.renewed ≡ n.renewed
      pub not_renewed : out.result ≢ ok true

    abbrev Outcome : CertProvider → Renewals → Result FetchError (Bytes × Bytes) → Checked → Type 0
    Outcome p n fetched out = ((out.result ≡ ok true) × Replaced p n fetched out) ⊎ Kept p n out

    after_load-Outcome :
        (p : CertProvider) (n : Renewals) (c k : Bytes) (renewed : Certificate)
        → leaf_of pki on_renewed c ≡ some renewed
        → renewed.serial ≢ (leaf p).serial
        → Outcome p n (ok (c, k)) (after_load pki on_renewed p n c k (load pki p.check c k))
    unfolding after_load after_update
    after_load-Outcome p n c k renewed read other = elim (update-load p c k) [
      | inr (e, fails, _) ↦ rw fails (
          inr (record {
            same = refl;
            open_connections = inl refl;
            uncounted = refl;
            not_renewed = cc;
          }))
      | inl (cert, loads, updates) ↦ elim (Bool-cases (on_renewed c k)) [
        | inl kept ↦
            rw (loads, kept, updates)
              (inl (
                refl,
                record {
                  pem = c;
                  key = k;
                  renewed = renewed;
                  cert = cert;
                  came = refl;
                  read = read;
                  other = other;
                  loads = loads;
                  kept = kept;
                  in_order = refl;
                  served = refl;
                  counted = refl;
                },
              ))
        | inr lost ↦
            rw (loads, lost)
              (inr (record {
                same = refl;
                open_connections = inr (c, k, refl);
                uncounted = refl;
                not_renewed = cc;
              }))
      ]
    ]

    after_leaf-Outcome :
        (p : CertProvider) (n : Renewals) (c k : Bytes) (read : Option Certificate)
        → leaf_of pki on_renewed c ≡ read
        → Outcome p n (ok (c, k)) (after_leaf pki on_renewed p n c k read)
    unfolding after_leaf
    after_leaf-Outcome p n c k none e =
        inr
          (record { same = refl; open_connections = inl refl; uncounted = refl; not_renewed = cc })
    after_leaf-Outcome p n c k (some renewed) e =
        elim (Bool-cases (renewed.serial == (leaf p).serial)) [
          | inl same ↦ rw same (
              inr (record {
                same = refl;
                open_connections = inl refl;
                uncounted = refl;
                not_renewed = cc;
              }))
          | inr other ↦ rw other (after_load-Outcome p n c k renewed e (ground arith))
        ]

    after_fetch-Outcome :
        (p : CertProvider) (n : Renewals) (fetched : Result FetchError (Bytes × Bytes))
        → Outcome p n fetched (after_fetch pki on_renewed p n fetched)
    unfolding after_fetch
    after_fetch-Outcome p n (err e) =
        inr
          (record { same = refl; open_connections = inl refl; uncounted = refl; not_renewed = cc })
    after_fetch-Outcome p n (ok (c, k)) = after_leaf-Outcome p n c k (leaf_of pki on_renewed c) refl

    -- A check either reports a renewal, and then the certificate that the CA issued has another
    -- serial number, was validated, was handed to the application, which saved it, and only then is
    -- served, after which the open connections are closed; or it reports none, and then the
    -- certificate in use stays and no connection is closed.
    pub check-Outcome :
        (p : CertProvider) (n : Renewals) (r : AutoRenewer) (now : ℕ)
        (fetched : Result FetchError (Bytes × Bytes))
        → let out = check pki on_renewed p n r now fetched in
          ((out.result ≡ ok true) × Replaced p n fetched out) ⊎ Kept p n out
    unfolding check
    check-Outcome p n r now fetched = elim (Bool-cases (ltb (now + r.before) (leaf p).not_after)) [
      | inl early ↦ rw early (
          inr (record {
            same = refl;
            open_connections = inl refl;
            uncounted = refl;
            not_renewed = cc;
          }))
      | inr due ↦ rw due (after_fetch-Outcome p n fetched)
    ]

    of_check :
        (p : CertProvider) (n : Renewals) (fetched : Result FetchError (Bytes × Bytes))
        (out : Checked)
        → IsValidated p
        → Outcome p n fetched out
        → IsValidated out.provider
    of_check p n fetched out valid (inr kept) = subst IsValidated (sym kept.same) valid
    of_check p n fetched out valid (inl (e, r)) = subst IsValidated (sym r.served) (r.key, r.loads)

    with_wait-provider :
        (r : AutoRenewer) (checked : Checked) (result : Result CheckError Bool)
        → (with_wait pki on_renewed r checked result).0.provider ≡ checked.provider
    with_wait-provider r checked (ok b) = refl
    with_wait-provider r checked (err e) = refl

    pub turn-provider :
        (r : AutoRenewer) (p : CertProvider) (n : Renewals) (now : ℕ)
        (fetched : Result FetchError (Bytes × Bytes))
        → (turn pki on_renewed r p n now fetched).0.provider
          ≡ (check pki on_renewed p n r now fetched).provider
    unfolding turn
    turn-provider r p n now fetched =
        with_wait-provider r (check pki on_renewed p n r now fetched) _

    run_from :
        (r : AutoRenewer) (p : CertProvider) (n : Renewals)
        (turns : List (ℕ × Result FetchError (Bytes × Bytes)))
        → IsValidated p
        → IsValidated (run pki on_renewed r p n turns).0
    unfolding run
    run_from r p n [] valid = valid
    run_from r p n ((now, fetched) ∷ turns) valid =
        run_from r (turn pki on_renewed r p n now fetched).0.provider _ turns (
          subst IsValidated (sym (turn-provider r p n now fetched))
            (of_check p n fetched _ valid (check-Outcome p n r now fetched)))

    new_cert_provider-IsValidated :
        (c : CertCheck) (pem key : Bytes) (p : CertProvider)
        → new_cert_provider pki c pem key ≡ ok p
        → IsValidated p
    new_cert_provider-IsValidated c pem key p made = elim (Result-cases (load pki c pem key)) [
      | inl (e, fails) ↦
          let refusal : new_cert_provider pki c pem key ≡ err e =
            unfold new_cert_provider in rw (fails, new_cert_provider) refl in
          let failure : Path (Result LoadError CertProvider) (err e) (ok p) = sym refusal ∙ made in
          cc
      | inr (cert, loads) ↦
          let built : CertProvider = record {
            check = c;
            current = record { cert = cert; cert_pem = pem };
          } in
          let success : new_cert_provider pki c pem key ≡ ok built =
            unfold new_cert_provider in rw (loads, new_cert_provider) refl in
          let same : built ≡ p = ok-injective (sym success ∙ made) in
          subst IsValidated same (key, loads)
    ]

    -- However long the renewer of a client runs, and whatever the CA and the application answer, the
    -- certificate that new connections present is one that was validated, with its key, against the
    -- client's pools.
    pub run-IsValidated :
        (c : CertCheck) (pem key : Bytes) (p : CertProvider) (r : AutoRenewer) (n : Renewals)
        (turns : List (ℕ × Result FetchError (Bytes × Bytes)))
        → new_cert_provider pki c pem key ≡ ok p
        → IsValidated (run pki on_renewed r p n turns).0
    run-IsValidated c pem key p r n turns made =
        run_from r p n turns (new_cert_provider-IsValidated c pem key p made)
