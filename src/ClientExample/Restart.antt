-- ===== src/ClientExample/Restart.antt =====
-- A restart of client-example after a renewal.
use dcr_sdk.Common.{
  ℕ, ◌≡◌, ◌≢◌, refl, sym, ap, ◌∙◌, ◌||◌, inl, inr, Bool, true, false, Option, none, some, List,
  Bytes, All, Result, ok, err, Option-cases, Result-cases, Bool-cases, ok-injective, is_empty,
}
use dcr_sdk.Config.HostPort.{split_host_port}
use dcr_sdk.Config.ServerName.{resolve_server_name}
use dcr_sdk.Contract.Request.{Request}
use dcr_sdk.Contract.Pools.{IsFresh}
use dcr_sdk.Certs.{Pki, Certificate, TlsCertificate, load}
use dcr_sdk.Certs.Fetch.{FetchError}
use dcr_sdk.Certs.Renewal.{AutoRenewer, Renewals, Checked, check}
use dcr_sdk.Certs.Laws.{Replaced, check-Outcome}
use dcr_sdk.Files.{File, FileSystem, Fault, Faults, read_file}
use dcr_sdk.Files.Pair.{save_to_files-new_pair}
use dcr_sdk.Mtls.{
  MtlsConfig, MtlsClient, MtlsError, new_with_mtls, check_of, get_client_certificate,
}
use dcr_sdk.Mtls.Construction.{new_with_mtls-check, new_with_mtls_of_loaded, new_with_mtls-IsMade}
use dcr_sdk.ClientExample.{
  Flags, ExampleError, configuration, mtls_config, with_files, prepare, saves, succeeded, of_client,
  with_config, start,
}

-- What a start found: the two files and the host of the address.
pub record IsPrepared (f : Flags) (m : MtlsConfig) : Type 0 where
  pub cert : Bytes
  pub key : Bytes
  pub host : Bytes
  pub port : Bytes
  pub given : (is_empty f.cert_path || is_empty f.key_path) ≡ false
  pub named : split_host_port f.addr ≡ some (host, port)
  pub config : m ≡ mtls_config f cert key host

with_files-Prepared :
    (f : Flags) (c k : Option File) (m : MtlsConfig)
    → (is_empty f.cert_path || is_empty f.key_path) ≡ false
    → with_files f c k ≡ ok m
    → IsPrepared f m
unfolding with_files dcr_sdk.ClientExample.with_name
with_files-Prepared f none k m given e = cc
with_files-Prepared f (some c) none m given e = cc
with_files-Prepared f (some c) (some k) m given e = elim (Option-cases (split_host_port f.addr)) [
  | inl h ↦ cc (rw (h, with_files, dcr_sdk.ClientExample.with_name) at e)
  | inr (hp, h) ↦ record {
    cert = c.content;
    key = k.content;
    host = hp.0;
    port = hp.1;
    given = given;
    named = h;
    config = sym (ok-injective (rw (h, with_files, dcr_sdk.ClientExample.with_name) at e));
  }
]

prepare-Prepared :
    (f : Flags) (fs : FileSystem) (m : MtlsConfig) → prepare f fs ≡ ok m → IsPrepared f m
unfolding prepare
prepare-Prepared f fs m e = elim (Bool-cases (is_empty f.cert_path || is_empty f.key_path)) [
  | inl h ↦ cc (rw (h, prepare) at e)
  | inr h ↦ with_files-Prepared f _ _ m h (rw (h, prepare) at e)
]

prepare-again :
    (f : Flags) (fs : FileSystem) (m : MtlsConfig) (cert key : File) (was : IsPrepared f m)
    → read_file f.cert_path fs ≡ some cert
    → read_file f.key_path fs ≡ some key
    → prepare f fs ≡ ok (mtls_config f cert.content key.content was.host)
unfolding prepare with_files dcr_sdk.ClientExample.with_name
prepare-again f fs m cert key was c k =
    rw (was.given, c, k, was.named, prepare, with_files, dcr_sdk.ClientExample.with_name) refl

module _ (pki : Pki) (carried : List Certificate × List Certificate) (pool : List Request) where
  of_client-ok :
      (r : Result MtlsError MtlsClient) (made : MtlsClient)
      → of_client pki carried pool r ≡ ok made
      → r ≡ ok made
  of_client-ok (err e) made h = cc
  of_client-ok (ok made') made h = ap ok (ok-injective h)

  pub start-Parts :
      (f : Flags) (fs : FileSystem) (made : MtlsClient)
      → start pki carried pool f fs ≡ ok made
      → (m : MtlsConfig) × IsPrepared f m
        × (new_with_mtls pki carried pool (some (configuration f)) m ≡ ok made)
  unfolding start
  start-Parts f fs made e = elim (Result-cases (prepare f fs)) [
    | inl (x, h) ↦ cc (rw (h, with_config) at e)
    | inr (m, h) ↦ (m, prepare-Prepared f fs m h, of_client-ok _ made (rw (h, with_config) at e))
  ]

  -- A client of the same flags can be made of any pair that loads, and presents it.
  remade :
      (f : Flags) (m : MtlsConfig) (cert key : File) (was : IsPrepared f m) (made : MtlsClient)
      (fs : FileSystem) (served : TlsCertificate)
      → All IsFresh pool
      → new_with_mtls pki carried pool (some (configuration f)) m ≡ ok made
      → read_file f.cert_path fs ≡ some cert
      → read_file f.key_path fs ≡ some key
      → load pki made.provider.check cert.content key.content ≡ ok served
      → (made' : MtlsClient) × (start pki carried pool f fs ≡ ok made')
        × (get_client_certificate made'.provider ≡ served)
  unfolding start
  remade f m cert key was made fs served fresh is_made c k loads =
      let cfg = some (configuration f) in
      let m' = mtls_config f cert.content key.content was.host in
      let same_check : check_of carried m ≡ check_of carried m' = rw was.config refl in
      let loads' : load pki (check_of carried m') cert.content key.content ≡ ok served =
        rw (sym same_check, sym (new_with_mtls-check pki carried pool cfg m made is_made)) loads in
      let was_made = new_with_mtls-IsMade pki carried pool cfg m made fresh is_made in
      let named' : resolve_server_name m'.server_name cfg ≡ ok made.tls.server_name =
        rw was.config at was_made.named in
      let (made', is_ok, _, presents) =
        new_with_mtls_of_loaded pki carried pool cfg m' served made.tls.server_name fresh loads'
          named' in
      (made', rw (prepare-again f fs m cert key was c k, with_config, is_ok) refl, presents)

  module _ (f : Flags) (cert_tmp key_tmp : Bytes) (faults : Faults) (fs : FileSystem) where
    -- Whether `OnRenewed` succeeds.
    abbrev pub saved : Bytes → Bytes → Bool
    saved c k = succeeded (saves f cert_tmp key_tmp faults fs c k).error

    succeeded-none : (e : Option Fault) → succeeded e ≡ true → e ≡ none
    succeeded-none none h = refl
    succeeded-none (some e) h = cc

    after_renewal :
        (made : MtlsClient) (n : Renewals) (fetched : Result FetchError (Bytes × Bytes))
        (out : Checked) (fs' : FileSystem)
        → All IsFresh pool
        → key_tmp ≢ f.key_path
        → cert_tmp ≢ f.cert_path
        → cert_tmp ≢ f.key_path
        → f.cert_path ≢ f.key_path
        → start pki carried pool f fs' ≡ ok made
        → Replaced pki saved made.provider n fetched out
        → (c : Bytes) × (k : Bytes) × (made' : MtlsClient) × (fetched ≡ ok (c, k))
          × (start pki carried pool f (saves f cert_tmp key_tmp faults fs c k).left ≡ ok made')
          × (get_client_certificate made'.provider ≡ get_client_certificate out.provider)
    unfolding get_client_certificate
    after_renewal made n fetched out fs' fresh kk cert_apart ck distinct started replaced =
        let (m, was, is_made) = start-Parts f fs' made started in
        let (c, k) =
          save_to_files-new_pair f.cert_path f.key_path cert_tmp key_tmp replaced.pem replaced.key
            fs faults kk cert_apart ck distinct (succeeded-none _ replaced.kept) in
        let (made', is_ok, presents) =
          remade f m _ _ was made _ replaced.cert fresh is_made c k replaced.loads in
        (
          replaced.pem,
          replaced.key,
          made',
          replaced.came,
          is_ok,
          presents ∙ ap get_client_certificate (sym replaced.served),
        )

    -- Where a check of the renewer of a client that the command made reports a renewal, and `OnRenewed`
    -- is the saving over the files of its flags, the CA issued a pair, and a client that the command
    -- makes from the files as that saving leaves them presents the certificate that the first client
    -- now presents. The paths of the two files and of the temporary ones are distinct where one's
    -- being the other would lose a file.
    pub renewal-survives :
        (made : MtlsClient) (n : Renewals) (r : AutoRenewer) (now : ℕ)
        (fetched : Result FetchError (Bytes × Bytes)) (fs' : FileSystem)
        → All IsFresh pool
        → key_tmp ≢ f.key_path
        → cert_tmp ≢ f.cert_path
        → cert_tmp ≢ f.key_path
        → f.cert_path ≢ f.key_path
        → start pki carried pool f fs' ≡ ok made
        → let out = check pki saved made.provider n r now fetched in
          out.result ≡ ok true
          → (c : Bytes) × (k : Bytes) × (made' : MtlsClient) × (fetched ≡ ok (c, k))
            × (start pki carried pool f (saves f cert_tmp key_tmp faults fs c k).left ≡ ok made')
            × (get_client_certificate made'.provider ≡ get_client_certificate out.provider)
    renewal-survives made n r now fetched fs' fresh kk cert_apart ck distinct started renewed =
        elim (check-Outcome pki saved made.provider n r now fetched) [
          | inl (_, replaced) ↦
              after_renewal made n fetched _ fs' fresh kk cert_apart ck distinct started replaced
          | inr kept ↦ absurd (kept.not_renewed renewed)
        ]
