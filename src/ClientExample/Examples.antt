-- ===== src/ClientExample/Examples.antt =====
-- Tests of client-example by evaluation, and the theorems at concrete inputs.
use dcr_sdk.Common.{
  arith, ℕ, ◌+◌, ◌*◌, ◌==◌, leb, if◌then◌else◌, ◌≡◌, ◌≢◌, refl, true, Option, none, some, [], ◌∷◌,
  Bytes, codes, Result, ok, err,
}
use dcr_sdk.Common.Int.{pos}
use dcr_sdk.Common.Strings.{bytes_eq}
use dcr_sdk.Config.HostPort.{split_host_port}
use dcr_sdk.Config.ServerName.{resolve_server_name}
use dcr_sdk.Certs.{
  current_pem, Pki, Certificate, load, new_cert_check, new_cert_provider, update, leaf,
}
use dcr_sdk.Certs.Fetch.{FetchError}
use dcr_sdk.Certs.Renewal.{AutoRenewer, Renewals, check, leaf_of, after_load, new_auto_renewer}
use dcr_sdk.Client.Build.{new_client}
use dcr_sdk.Files.{FileSystem, read_file, save_to_files, remove}
use dcr_sdk.Mtls.{MtlsClient, with_provider, with_name, new_with_mtls, get_client_certificate}
use dcr_sdk.Config.{second}
use dcr_sdk.Certs.Fetch.{CaRenewResponse, parse_ca_renew_response}
use dcr_sdk.Certs.Timed.{CaAnswer, fetch_from, renew_fetch_timeout, poll_interval}
use dcr_sdk.Certs.Issuing.{IsIssuing}
use dcr_sdk.Certs.Waits.{IsGood}
use dcr_sdk.ClientExample.Renewing.{due-renewed}
use dcr_sdk.ClientExample.{
  Flags, pair_required, cert_unread, key_unread, addr_malformed, configuration, with_files, prepare,
  saves, start,
}
use dcr_sdk.ClientExample.Restart.{saved, renewal-survives}
use dcr_sdk.ClientExample.Addresses.{start-two_addrs}

-- The certificate 1 ends first.
abbrev parsed : Bytes → Option Certificate
parsed [] = none
parsed (n ∷ s) = some (record { serial = n; not_after = if n == 1 then 1000 else 5000 })

abbrev pki : Pki
pki = record {
  key_pair = λ c k. some (c ∷ []);
  parse_certificate = parsed;
  check_tls = λ leaf roots intermediates now. true;
  decode_pem = λ pem. some pem;
}

abbrev flags : Flags
flags = record { cert_path = 1 ∷ []; key_path = 2 ∷ []; addr = codes "a:1"; renew_before = pos 10 }

abbrev files : FileSystem
files =
    (1 ∷ [], record { content = 1 ∷ []; perm = 0o644 })
    ∷ (2 ∷ [], record { content = 8 ∷ []; perm = 0o600 })
    ∷ []

abbrev made : MtlsClient
made = record {
  client = new_client [] (some (configuration flags));
  provider = record {
    check = record { roots = []; intermediates = []; current_time = none };
    current = record {
      cert = record { certificate = (1 ∷ []) ∷ []; leaf = record { serial = 1; not_after = 1000 } };
      cert_pem = 1 ∷ [];
    };
  };
  tls = record { root_cas = none; server_name = codes "a"; min_version = 0x0303 };
  renewer = some (record { before = 10; every = 43200000000000 });
}

computed : Unit {0}
unfolding start prepare with_files dcr_sdk.ClientExample.with_name split_host_port read_file
    bytes_eq new_with_mtls with_provider with_name load new_cert_check new_cert_provider
    resolve_server_name new_auto_renewer
computed = tt

started : start pki ([], []) [] flags files ≡ ok made
unfolding computed
started = refl

refusals :
    (start pki ([], []) [] (record flags { key_path = [] }) files ≡ err pair_required)
    × (start pki ([], []) [] flags [] ≡ err cert_unread)
    × (start pki ([], []) [] (record flags { key_path = 5 ∷ [] }) files ≡ err key_unread)
    × (start pki ([], []) [] (record flags { addr = codes "a:1,b:2" }) files ≡ err addr_malformed)
unfolding computed
refusals = (refl, refl, refl, refl)

abbrev renewer : AutoRenewer
renewer = record { before = 10; every = 5 }

abbrev none_yet : Renewals
none_yet = record { renewed = 0; same = 0; failed = 0 }

abbrev fetched : Result FetchError (Bytes × Bytes)
fetched = ok (2 ∷ [], 9 ∷ [])

-- The certificate 2 is fetched 5 before the end of 1, and is saved without a fault.
renewal-survives_example :
    let on_renewed = saved pki ([], []) [] flags (3 ∷ []) (4 ∷ []) (none, none) files in
    (c : Bytes) × (k : Bytes) × (made' : MtlsClient) × (fetched ≡ ok (c, k))
    × (start pki ([], []) [] flags (saves flags (3 ∷ []) (4 ∷ []) (none, none) files c k).left
        ≡ ok made')
    × (get_client_certificate made'.provider
        ≡ get_client_certificate
            (check pki on_renewed made.provider none_yet renewer 995 fetched).provider)
unfolding computed check leaf_of leaf after_load update save_to_files remove
renewal-survives_example =
    renewal-survives pki ([], []) [] flags (3 ∷ []) (4 ∷ []) (none, none) files made none_yet
      renewer 995 fetched files tt (λ e. cc) (λ e. cc) (λ e. cc) (λ e. cc) started refl

start-two_addrs_example :
    start pki ([], []) [] (record flags { addr = codes "a:1,b:2" }) files ≢ ok made
start-two_addrs_example =
    start-two_addrs pki ([], []) [] (record flags { addr = codes "a:1,b:2" }) files (codes "a")
      (codes "1,b") (codes "2") made refl refl

-- A CA that has the certificate 2 ready 30 seconds after it is asked, and answers in a second.
abbrev ca : ℕ → CaAnswer
ca t = record {
  takes = second;
  reply = some (if leb (995 + 30 * second) t then 200 else 202, some (2 ∷ []));
}

abbrev decode_json : Bytes → Option CaRenewResponse
decode_json body =
    some (record {
      common_name = [];
      serial = [];
      chain = body;
      key = 9 ∷ [];
      status = [];
      reason = [];
    })

issuing : IsIssuing ca (995 + 30 * second) second (2 ∷ [])
issuing = record { prompt = λ t. omega arith; replies = λ t. refl }

good :
    IsGood pki
      (saved pki ([], []) [] flags (3 ∷ []) (4 ∷ []) (none, none) files)
      made.provider
      renewer
      995
      fetched
unfolding computed leaf leaf_of save_to_files remove
good = record {
  pem = 2 ∷ [];
  key = 9 ∷ [];
  renewed = record { serial = 2; not_after = 5000 };
  cert = record { certificate = (2 ∷ []) ∷ []; leaf = record { serial = 2; not_after = 5000 } };
  came = refl;
  read = refl;
  other = omega arith;
  loads = refl;
  kept = refl;
  lasts = omega arith;
}

due-renewed_example :
    let on_renewed = saved pki ([], []) [] flags (3 ∷ []) (4 ∷ []) (none, none) files in
    let out = check pki on_renewed made.provider none_yet renewer 995 fetched in
    (fetch_from ca (995 + renew_fetch_timeout) (poll_interval (pos 0)) pki decode_json 3 995
      ≡ some fetched)
    × (out.result ≡ ok true)
    × (get_client_certificate out.provider ≡ good.cert)
    × (current_pem out.provider ≡ 2 ∷ [])
    × ((made' : MtlsClient) × (start pki
            ([], [])
            []
            flags
            (saves flags (3 ∷ []) (4 ∷ []) (none, none) files (2 ∷ []) (9 ∷ [])).left
          ≡ ok made')
        × (get_client_certificate made'.provider ≡ good.cert))
unfolding computed leaf parse_ca_renew_response
due-renewed_example =
    due-renewed pki ([], []) [] flags (3 ∷ []) (4 ∷ []) (none, none) files decode_json made none_yet
      renewer files ca 995 (995 + 30 * second) second 2 (2 ∷ []) (2 ∷ []) (9 ∷ []) good tt (λ e. cc)
      (λ e. cc) (λ e. cc) (λ e. cc) started (omega arith) issuing refl (omega arith) (omega arith)
      (omega arith)
