-- ===== src/Certs/Waits.antt =====
-- How long the renewer waits, and that a client whose CA works keeps a certificate that has not ended.
use dcr_sdk.Common.{
  ℕ, zero, suc, ◌+◌, ◌≤◌, ◌<◌, ◌==◌, ltb, ◌≡◌, ◌≢◌, refl, sym, ap, subst, ◌⊎◌, inl, inr, Bool, true,
  false, Bool-cases, Option, none, some, List, [], ◌∷◌, Bytes, Result, ok, err, arith,
}
use dcr_sdk.Common.Int.{ℤ, pos, negsuc}
use dcr_sdk.Certs.{Pki, Certificate, CertProvider, TlsCertificate, LoadError, load, update, leaf}
use dcr_sdk.Certs.Fetch.{FetchError}
use dcr_sdk.Certs.Renewal.{
  AutoRenewer, Renewals, Checked, CheckError, interval, new_auto_renewer, renew_retry_interval,
  leaf_of, after_update, after_load, after_leaf, after_fetch, check, turn, run, with_wait,
}
use dcr_sdk.Certs.Laws.{turn-provider}

module _ (pki : Pki) (on_renewed : Bytes → Bytes → Bool) where
  interval-positive : (every : ℤ) → 0 < interval every
  interval-positive (pos zero) = omega arith
  interval-positive (pos (suc n)) = omega arith
  interval-positive (negsuc n) = omega arith

  abbrev every_of : AutoRenewer → Option AutoRenewer → ℕ
  every_of r none = r.every
  every_of r (some r') = r'.every

  new_auto_renewer-every :
      (given : Bool) (before every : ℤ) (r : AutoRenewer)
      → new_auto_renewer given before every ≡ some r
      → 0 < r.every
  unfolding new_auto_renewer
  new_auto_renewer-every false before every r made = cc
  new_auto_renewer-every true (negsuc n) every r made = cc
  new_auto_renewer-every true (pos n) every r made =
      let positive : 0 < interval every = interval-positive every in
      let same : interval every ≡ r.every = ap (λ o. every_of r o) made in omega arith

  with_wait-bounds :
      (r : AutoRenewer) (checked : Checked) (result : Result CheckError Bool)
      → checked.result ≡ result
      → 0 < r.every
      → let out = with_wait pki on_renewed r checked result in
        (0 < out.1)
        × (((b : Bool) × (out.0.result ≡ ok b) × (out.1 ≡ r.every))
            ⊎ ((e : CheckError) × (out.0.result ≡ err e)
                × (out.1 ≤ r.every)
                × (out.1 ≤ renew_retry_interval)))
  with_wait-bounds r checked (ok b) same h = (h, inl (b, same, refl))
  with_wait-bounds r checked (err e) same h = (omega arith, inr (e, same, omega arith, omega arith))

  with_wait-shorter :
      (r : AutoRenewer) (checked : Checked) (result : Result CheckError Bool)
      → (with_wait pki on_renewed r checked result).1 ≤ r.every
  with_wait-shorter r checked (ok b) = omega arith
  with_wait-shorter r checked (err e) = omega arith

  -- The CA's answer is a certificate with another serial number that loads, with its key, under the
  -- provider's pools, that the application saves, and whose end is further away than `before`.
  pub record IsGood (p : CertProvider) (r : AutoRenewer) (now : ℕ)
      (fetched : Result FetchError (Bytes × Bytes)) : Type 0 where
    pub pem : Bytes
    pub key : Bytes
    pub renewed : Certificate
    pub cert : TlsCertificate
    pub came : fetched ≡ ok (pem, key)
    pub read : leaf_of pki on_renewed pem ≡ some renewed
    pub other : renewed.serial ≢ (leaf p).serial
    pub loads : load pki p.check pem key ≡ ok cert
    pub kept : on_renewed pem key ≡ true
    pub lasts : now + r.before < cert.leaf.not_after

  -- It is early, or the CA answers well.
  abbrev pub IsServed : CertProvider → AutoRenewer → ℕ → Result FetchError (Bytes × Bytes) → Type 0
  IsServed p r now fetched = (now + r.before < (leaf p).not_after) ⊎ IsGood p r now fetched

  -- An answer that is good is what `check` makes of it: the certificate is replaced.
  after_fetch-good :
      (p : CertProvider) (n : Renewals) (r : AutoRenewer) (now : ℕ)
      (fetched : Result FetchError (Bytes × Bytes)) (g : IsGood p r now fetched)
      → let out = after_fetch pki on_renewed p n fetched in
        (out.result ≡ ok true)
        × (out.provider ≡ record p { current = record { cert = g.cert; cert_pem = g.pem } })
  unfolding after_fetch
  after_fetch-good p n r now fetched g =
      let differs : (g.renewed.serial == (leaf p).serial) ≡ false = ground (arith, g.other) in
      let updates : update pki p g.pem g.key
          ≡ (record p { current = record { cert = g.cert; cert_pem = g.pem } }, none) =
        unfold update in rw (g.loads, update) refl in
      rw
        (
          g.came, after_fetch, g.read, after_leaf, differs, g.loads, after_load, g.kept, updates,
          after_update,
        )
        (refl, ap (λ (u : CertProvider × Option LoadError). u.0) updates)

  pub check-good :
      (p : CertProvider) (n : Renewals) (r : AutoRenewer) (now : ℕ)
      (fetched : Result FetchError (Bytes × Bytes)) (g : IsGood p r now fetched)
      → (leaf p).not_after ≤ now + r.before
      → let out = check pki on_renewed p n r now fetched in
        (out.result ≡ ok true)
        × (out.provider ≡ record p { current = record { cert = g.cert; cert_pem = g.pem } })
  unfolding check
  check-good p n r now fetched g due =
      let is_due : ltb (now + r.before) (leaf p).not_after ≡ false = ground arith in
      rw (is_due, check) (after_fetch-good p n r now fetched g)

  check-served :
      (p : CertProvider) (n : Renewals) (r : AutoRenewer) (now : ℕ)
      (fetched : Result FetchError (Bytes × Bytes))
      → IsServed p r now fetched
      → now + r.before < (leaf (check pki on_renewed p n r now fetched).provider).not_after
  unfolding check leaf
  check-served p n r now fetched (inl early) =
      let soon : ltb (now + r.before) (leaf p).not_after ≡ true = ground arith in
      rw (soon, check) early
  check-served p n r now fetched (inr g) =
      elim (Bool-cases (ltb (now + r.before) (leaf p).not_after)) [
        | inl soon ↦ rw (soon, check) (ground arith)
        | inr due ↦
            let out = after_fetch-good p n r now fetched g in
            let lasts : now + r.before
                < (leaf (after_fetch pki on_renewed p n fetched).provider).not_after =
              rw (out.1, leaf) g.lasts in
            rw (due, check) lasts
      ]

  -- A turn of a renewer that `newAutoRenewer` made waits for its interval if the check had no error,
  -- and otherwise for some time that is within both the interval and an hour.
  pub turn-wait :
      (given : Bool) (before every : ℤ) (r : AutoRenewer) (p : CertProvider) (n : Renewals)
      (now : ℕ) (fetched : Result FetchError (Bytes × Bytes))
      → new_auto_renewer given before every ≡ some r
      → let out = turn pki on_renewed r p n now fetched in
        (0 < out.1)
        × (((b : Bool) × (out.0.result ≡ ok b) × (out.1 ≡ r.every))
            ⊎ ((e : CheckError) × (out.0.result ≡ err e)
                × (out.1 ≤ r.every)
                × (out.1 ≤ renew_retry_interval)))
  unfolding turn
  turn-wait given before every r p n now fetched made =
      let checked = check pki on_renewed p n r now fetched in
      with_wait-bounds r checked checked.result refl
        (new_auto_renewer-every given before every r made)

  turn-shorter :
      (r : AutoRenewer) (p : CertProvider) (n : Renewals) (now : ℕ)
      (fetched : Result FetchError (Bytes × Bytes))
      → (turn pki on_renewed r p n now fetched).1 ≤ r.every
  unfolding turn
  turn-shorter r p n now fetched = with_wait-shorter r (check pki on_renewed p n r now fetched) _

  module _ (r : AutoRenewer) (slack : ℕ) where
    -- Each turn begins when the wait of the turn before is over, or up to `slack` later, and its check
    -- is early or the CA answers it well.
    abbrev pub IsTimely :
        ℕ → CertProvider → Renewals → List (ℕ × Result FetchError (Bytes × Bytes)) → Type 0
    IsTimely limit p n [] = Unit
    IsTimely limit p n ((now, fetched) ∷ turns) =
        let (out, wait) = turn pki on_renewed r p n now fetched in
        (now ≤ limit)
        × IsServed p r now fetched
        × IsTimely (now + wait + slack) out.provider out.renewals turns

    -- When the turn after these begins at the latest.
    abbrev pub next_limit :
        ℕ → CertProvider → Renewals → List (ℕ × Result FetchError (Bytes × Bytes)) → ℕ
    next_limit limit p n [] = limit
    next_limit limit p n ((now, fetched) ∷ turns) =
        let (out, wait) = turn pki on_renewed r p n now fetched in
        next_limit (now + wait + slack) out.provider out.renewals turns

    turn-served :
        (p : CertProvider) (n : Renewals) (now : ℕ) (fetched : Result FetchError (Bytes × Bytes))
        → r.every + slack ≤ r.before
        → IsServed p r now fetched
        → let (out, wait) = turn pki on_renewed r p n now fetched in
          now + wait + slack < (leaf out.provider).not_after
    turn-served p n now fetched enough served =
        let same = turn-provider pki on_renewed r p n now fetched in
        let lasts = check-served p n r now fetched served in
        let shorter = turn-shorter r p n now fetched in
        subst (λ q. now + (turn pki on_renewed r p n now fetched).1 + slack < (leaf q).not_after)
          (sym same) (omega arith)

    -- While the CA answers well, the certificate in use has not ended: where `before` is at least the
    -- interval and what a turn takes beside its wait, the certificate that is served at the start
    -- lasts until the first turn begins, and each check is early or answered with a certificate that
    -- loads, is saved and lasts, the certificate that is served after these turns lasts until the
    -- next turn begins.
    pub run-lasts :
        (limit : ℕ) (p : CertProvider) (n : Renewals)
        (turns : List (ℕ × Result FetchError (Bytes × Bytes)))
        → r.every + slack ≤ r.before
        → limit < (leaf p).not_after
        → IsTimely limit p n turns
        → next_limit limit p n turns < (leaf (run pki on_renewed r p n turns).0).not_after
    unfolding run
    run-lasts limit p n [] enough lasts timely = lasts
    run-lasts limit p n ((now, fetched) ∷ turns) enough lasts (begun, served, timely) =
        let (out, wait) = turn pki on_renewed r p n now fetched in
        run-lasts (now + wait + slack) out.provider out.renewals turns enough
          (turn-served p n now fetched enough served) timely
