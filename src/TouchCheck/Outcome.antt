-- ===== src/TouchCheck/Outcome.antt =====
-- How a run of touch-check ends.
use dcr_sdk.Common.{
  true, Option-cases, none, ◌≢◌, ap, ◌∷◌, ℕ, ◌≡◌, refl, sym, ◌∙◌, ◌⊎◌, inl, inr, ◌||◌, Bool-cases,
  false, Option, some, List, [], Bytes, All, Result, Result-cases, ok, err, is_empty,
}
use dcr_sdk.Contract.Request.{Request}
use dcr_sdk.Contract.Pools.{IsFresh}
use dcr_sdk.Messages.{TouchRequest, TouchResponse}
use dcr_sdk.Payer.{UuidLibrary}
use dcr_sdk.Certs.{Pki, Certificate}
use dcr_sdk.Config.HostPort.{split_host_port}
use dcr_sdk.Client.Usable.{IsUsable}
use dcr_sdk.Client.Requests.{ClientError, Protobuf, Transport, Returned, touch}
use dcr_sdk.Client.Runs.{touch-Returns}
use dcr_sdk.Mtls.{MtlsConfig, MtlsClient, MtlsError, new_with_mtls}
use dcr_sdk.Mtls.Construction.{IsMade, new_with_mtls-Outcome}
use dcr_sdk.TouchCheck.{
  cert_unread, key_unread, addr_malformed, server_ca_failed, client_ca_failed, load_pool, name_of,
  mtls_config, PoolError, pool_unread, no_certificates, Flags, CheckError, pair_required,
  identifier_required, client_refused, touch_failed, request_uids, no_uids, prepare, configuration,
  reported, asked, prepared, run,
}
use dcr_sdk.TouchCheck.Identifiers.{
  given_uids, request_uids-given_uids, no_uids_iff, is_empty_lem, is_empty-false,
}

-- What an error of the run means.
abbrev pub PoolFails :
    (Bytes → Option Bytes) → (Bytes → List Certificate) → Bytes → PoolError → Type 0
PoolFails read_file certs_of path pool_unread = (path ≢ []) × (read_file path ≡ none)
PoolFails read_file certs_of path no_certificates =
    (path ≢ []) × ((pem : Bytes) × (read_file path ≡ some pem) × (certs_of pem ≡ []))

module _ (read_file : Bytes → Option Bytes) (certs_of : Bytes → List Certificate) where
  of_certs :
      (path pem : Bytes) (certs : List Certificate)
      → is_empty path ≡ false
      → read_file path ≡ some pem
      → certs_of pem ≡ certs
      → ((e : PoolError) × (load_pool read_file certs_of path ≡ err e)
          × PoolFails read_file certs_of path e)
        ⊎ ((roots : Option (List Certificate)) × (load_pool read_file certs_of path ≡ ok roots))
  unfolding load_pool
  of_certs path pem [] e r c =
      inl (no_certificates, rw (e, r, load_pool, c) refl, (is_empty-false path e, (pem, r, c)))
  of_certs path pem (d ∷ certs) e r c = inr (some (d ∷ certs), rw (e, r, load_pool, c) refl)

  load_pool-Outcome :
      (path : Bytes)
      → ((e : PoolError) × (load_pool read_file certs_of path ≡ err e)
          × PoolFails read_file certs_of path e)
        ⊎ ((roots : Option (List Certificate)) × (load_pool read_file certs_of path ≡ ok roots))
  unfolding load_pool
  load_pool-Outcome path = elim (Bool-cases (is_empty path)) [
    | inl e ↦ inr (none, rw (e, load_pool) refl)
    | inr e ↦ elim (Option-cases (read_file path)) [
      | inl r ↦ inl (pool_unread, rw (e, r, load_pool) refl, (is_empty-false path e, r))
      | inr (pem, r) ↦ of_certs path pem (certs_of pem) e r refl
    ]
  ]

  -- What an error means that is found before the client is made.
  abbrev pub Explains : Flags → CheckError → Type 0
  Explains f pair_required = (f.cert_path ≡ []) ⊎ (f.key_path ≡ [])
  Explains f identifier_required = given_uids f ≡ []
  Explains f cert_unread = read_file f.cert_path ≡ none
  Explains f key_unread = read_file f.key_path ≡ none
  Explains f addr_malformed = (f.server_name ≡ []) × (split_host_port f.addr ≡ none)
  Explains f (server_ca_failed e) = PoolFails read_file certs_of f.server_ca e
  Explains f (client_ca_failed e) = PoolFails read_file certs_of f.client_ca e
  Explains f (client_refused e) = ⊥
  Explains f (touch_failed status e) = ⊥

  -- The configuration has the certificate and the key of the flags' files.
  abbrev pub IsPrepared : Flags → MtlsConfig → Type 0
  IsPrepared f config =
      (prepare read_file certs_of f ≡ ok config)
      × (read_file f.cert_path ≡ some config.cert_pem)
      × (read_file f.key_path ≡ some config.key_pem)
      × (given_uids f ≢ [])

  abbrev Prepares : Flags → Type 0
  Prepares f =
      ((e : CheckError) × (prepare read_file certs_of f ≡ err e) × Explains f e)
      ⊎ ((config : MtlsConfig) × IsPrepared f config)

  unnamed :
      (f : Flags)
      → name_of read_file certs_of f ≡ none
      → (f.server_name ≡ []) × (split_host_port f.addr ≡ none)
  unfolding name_of
  unnamed f n = elim (Bool-cases (is_empty f.server_name)) [
    | inr e ↦ cc (rw (e, name_of) at n)
    | inl e ↦ elim (Option-cases (split_host_port f.addr)) [
      | inl h ↦ (is_empty_lem f.server_name e, h)
      | inr (hp, h) ↦ cc (rw (e, h, name_of) at n)
    ]
  ]

  given : (f : Flags) → no_uids (request_uids f) ≡ false → given_uids f ≢ []
  given f u same =
      let none_there = (no_uids_iff (request_uids f)).1 (request_uids-given_uids f ∙ same) in cc

  with_files :
      (f : Flags) (cert_pem key_pem : Bytes)
      → (is_empty f.cert_path || is_empty f.key_path) ≡ false
      → no_uids (request_uids f) ≡ false
      → read_file f.cert_path ≡ some cert_pem
      → read_file f.key_path ≡ some key_pem
      → Prepares f
  unfolding prepare
  with_files f cert_pem key_pem p u c k = elim (Option-cases (name_of read_file certs_of f)) [
    | inl n ↦ inl (addr_malformed, rw (p, u, c, k, n, prepare) refl, unnamed f n)
    | inr (name, n) ↦ elim (load_pool-Outcome f.server_ca) [
      | inl (e, s, why) ↦ inl (server_ca_failed e, rw (p, u, c, k, n, s, prepare) refl, why)
      | inr (server_roots, s) ↦ elim (load_pool-Outcome f.client_ca) [
        | inl (e, l, why) ↦ inl (client_ca_failed e, rw (p, u, c, k, n, s, l, prepare) refl, why)
        | inr (client_roots, l) ↦ inr (
          mtls_config read_file certs_of cert_pem key_pem name server_roots client_roots,
          (rw (p, u, c, k, n, s, l, prepare) refl, c, k, given f u),
        )
      ]
    ]
  ]

  absent : (s t : Bytes) → (is_empty s || is_empty t) ≡ true → (s ≡ []) ⊎ (t ≡ [])
  absent [] t h = inl refl
  absent (c ∷ s) t h = inr (is_empty_lem t h)

  prepare-Outcome : (f : Flags) → Prepares f
  unfolding prepare
  prepare-Outcome f = elim (Bool-cases (is_empty f.cert_path || is_empty f.key_path)) [
    | inl p ↦ inl (pair_required, rw (p, prepare) refl, absent f.cert_path f.key_path p)
    | inr p ↦ elim (Bool-cases (no_uids (request_uids f))) [
      | inl u ↦ inl (
        identifier_required,
        rw (p, u, prepare) refl,
        sym (request_uids-given_uids f) ∙ (no_uids_iff (request_uids f)).0 u,
      )
      | inr u ↦ elim (Option-cases (read_file f.cert_path)) [
        | inl c ↦ inl (cert_unread, rw (p, u, c, prepare) refl, c)
        | inr (cert_pem, c) ↦ elim (Option-cases (read_file f.key_path)) [
          | inl k ↦ inl (key_unread, rw (p, u, c, k, prepare) refl, k)
          | inr (key_pem, k) ↦ with_files f cert_pem key_pem p u c k
        ]
      ]
    ]
  ]

  module _ (pki : Pki) (carried : List Certificate × List Certificate) (pool : List Request)
      (uuid : UuidLibrary) (proto : Protobuf) (transport : Transport) (choice : ℕ) where
    abbrev pub RunResult : Type 0
    RunResult = Option (Result CheckError (ℕ × TouchResponse))

    -- The client that was made makes one touch, with the identifiers of the flags that are given, and
    -- the run ends with its response, or with its error.
    abbrev pub Touches : Flags → MtlsClient → RunResult → Type 0
    Touches f made r =
        (out : Returned TouchRequest TouchResponse) × (touch uuid proto transport choice made.client
            (record { uids = given_uids f; context = []; inventory = [] })
          ≡ some out)
        × (((e : ClientError) × (out.result ≡ err e) × (r ≡ some (err (touch_failed out.status e))))
            ⊎ ((resp : TouchResponse) × (out.result ≡ ok resp)
                × (r ≡ some (ok (out.status, resp)))))

    -- With a configuration, the client is made or refused.
    abbrev pub Goes : Flags → MtlsConfig → RunResult → Type 0
    Goes f config r =
        ((made : MtlsClient) × IsMade pki carried pool (some (configuration read_file certs_of f))
            config made
          × Touches f made r)
        ⊎ ((e : MtlsError) × (new_with_mtls pki carried pool
                (some (configuration read_file certs_of f)) config
              ≡ err e)
            × (r ≡ some (err (client_refused e))))

    asked-Touches :
        (f : Flags) (made : MtlsClient)
        → IsUsable made.client
        → Touches f made
            (asked read_file certs_of pki carried pool uuid proto transport choice f (ok made))
    unfolding asked reported
    asked-Touches f made usable =
        let req : TouchRequest = record { uids = request_uids f; context = []; inventory = [] } in
        let (out, called, still) =
          touch-Returns uuid proto transport choice made.client req usable in
        let sent =
          ap
            (λ uids.
              touch uuid proto transport choice made.client
                (record { uids = uids; context = []; inventory = [] }))
            (sym (request_uids-given_uids f))
          ∙ called in
        elim (Result-cases out.result) [
          | inl (e, fails) ↦ (out, sent, inl (e, fails, rw (asked, called, reported, fails) refl))
          | inr (resp, answers) ↦
              (out, sent, inr (resp, answers, rw (asked, called, reported, answers) refl))
        ]

    -- touch-check always ends, and never panics. Either an error says what is wrong with the flags: a
    -- path or every identifier is missing, a file cannot be read, the address names no host, or a CA
    -- file is unread or without certificates. Or the configuration has the certificate and the key of
    -- the flags' files, and the run ends with the error of a client that could not be made; or the
    -- client is made, with that certificate validated, and the run ends with the response or the error
    -- of one touch, which has the identifiers of the flags that are given, with their types, at least
    -- one.
    pub run-Answered :
        (f : Flags)
        → All IsFresh pool
        → let r = run read_file certs_of pki carried pool uuid proto transport choice f in
          ((e : CheckError) × (r ≡ some (err e)) × Explains f e)
          ⊎ ((config : MtlsConfig) × IsPrepared f config × Goes f config r)
    unfolding run prepared
    run-Answered f fresh = elim (prepare-Outcome f) [
      | inl (e, refused, why) ↦ inl (e, rw (refused, run, prepared) refl, why)
      | inr (config, is_prepared) ↦
          let cfg = some (configuration read_file certs_of f) in
          let goes =
            elim (new_with_mtls-Outcome pki carried pool cfg config fresh)
              as (λ x. Goes f config (
                asked read_file certs_of pki carried pool uuid proto transport choice f
                  (new_with_mtls pki carried pool cfg config))) [
                    | inl (made, is_ok, is_made) ↦
                        rw is_ok (inl (made, is_made, asked-Touches f made is_made.usable))
                    | inr (e, refused, why) ↦
                        inr (e, refused, unfold asked in rw (refused, asked) refl)
                  ] in
          inr (config, is_prepared, rw (is_prepared.0, run, prepared) goes)
    ]
