-- ===== src/TestCloud/Examples.antt =====
-- Tests of the test cloud's command by evaluation, and the theorem at a concrete input.
use dcr_sdk.Common.{
  ◌≡◌, refl, ◌↔◌, ◌==◌, not, true, Option, none, some, List, [], ◌∷◌, Bytes, codes, ok, err,
  if◌then◌else◌,
}
use dcr_sdk.Common.Strings.{bytes_eq}
use dcr_sdk.Certs.{Certificate}
use dcr_sdk.Payer.OneChar.{parse_one, one_char}
use dcr_sdk.Auth.{NetConn, AuthLibrary, with_auth}
use dcr_sdk.Auth.Handshake.{ServerTls, server_tls, handshake}
use dcr_sdk.TestPki.Identity.{stored}
use dcr_sdk.Cloud.{normalize_config}
use dcr_sdk.Cloud.Lifecycle.{listen_and_serve, listen_failed}
use dcr_sdk.TestCloud.{
  Flags, System, flags_required, client_ca_unparsed, issuer_failed, issuer_undecoded, issuer_of,
  load_tls_config, with_client_ca, with_roots, with_issuer, main, tls_failed, start_failed,
}
use dcr_sdk.TestCloud.Clients.{Admits, handshake-loaded}

abbrev parsed : Bytes → Option Certificate
parsed [] = none
parsed (n ∷ s) = some (record { serial = n; not_after = 0 })

abbrev found : Bytes → List Certificate
found [] = []
found (n ∷ s) = record { serial = n; not_after = 0 } ∷ []

-- Every file holds its name; that of the issuer is a key if it starts with k.
abbrev typed : Bytes → Option (Bytes × Bytes)
typed [] = none
typed (n ∷ s) = some (if n == b'k' then codes "PRIVATE KEY" else codes "CERTIFICATE", s)

abbrev sys : System
sys = record {
  read_file = λ path. some path;
  load_x509_key_pair =
      λ c k. some (record { certificate = c ∷ []; leaf = record { serial = 1; not_after = 0 } });
  certs_of = found;
  decode_pem = typed;
  parse_certificate = parsed;
}

abbrev flags : Flags
flags = record {
  listen_addr = codes "127.0.0.1:7943";
  server_id = 65536;
  tls_cert_path = codes "c";
  tls_key_path = codes "k";
  client_ca_path = codes "a";
  client_issuer = codes "i1";
  require_ocsp = true;
}

computed : Unit {0}
unfolding load_tls_config with_client_ca with_roots with_issuer issuer_of bytes_eq main
    listen_and_serve normalize_config parse_one
computed = tt

abbrev issuer : Certificate
issuer = record { serial = b'1'; not_after = 0 }

abbrev loaded_tls : ServerTls
loaded_tls =
    server_tls
      (record { certificate = codes "c" ∷ []; leaf = record { serial = 1; not_after = 0 } } ∷ []) 0
      (record {
        roots = record { serial = b'a'; not_after = 0 } ∷ [];
        intermediates = [];
        current_time = none;
        issuer = some issuer;
        require_ocsp = true;
      })

loaded : load_tls_config sys flags ≡ ok loaded_tls
unfolding computed
loaded = refl

refusals :
    (load_tls_config sys (record flags { client_ca_path = [] }) ≡ err flags_required)
    × (load_tls_config (record sys { certs_of = λ pem. [] }) flags ≡ err client_ca_unparsed)
    × (load_tls_config sys (record flags { client_issuer = codes "k" })
        ≡ err (issuer_failed issuer_undecoded))
    × (main sys (λ a. none) (λ s a. none) (record flags { tls_key_path = [] })
        ≡ some (tls_failed flags_required))
    × (main sys (λ a. none) (λ s a. none) flags
        ≡ some (start_failed (listen_failed (codes "127.0.0.1:7943"))))
    × (main sys (λ a. some a) (λ s a. none) flags ≡ none)
unfolding computed
refusals = (refl, refl, refl, refl, refl, refl)

-- The certificate 100 is not valid, and 50 is revoked.
abbrev library : AuthLibrary
library = record {
  parse_certificate = parsed;
  check_tls = λ leaf roots intermediates time. not (leaf.serial == 100);
  check_status = λ leaf by. some (not (leaf.serial == 50));
  uuid_of = λ leaf. leaf.serial ∷ [];
}

abbrev plain : NetConn
plain = record { auth = none; remote_addr = none; local_addr = none }

handshake-loaded_example :
    (handshake library one_char loaded_tls (with_auth plain) ((7 ∷ []) ∷ [])
      ≡ (stored plain 7, none))
    ↔ ((pem : Bytes) × (by : Option Certificate) × (raw : Bytes) × (rest : List Bytes)
        × (leaf : Certificate) × (sys.read_file flags.client_ca_path ≡ some pem)
        × (issuer_of sys flags ≡ ok by)
        × ((7 ∷ []) ∷ [] ≡ raw ∷ rest)
        × (parsed raw ≡ some leaf)
        × Admits library one_char sys flags pem by leaf 7)
handshake-loaded_example =
    handshake-loaded library one_char sys flags loaded_tls plain ((7 ∷ []) ∷ []) 7 loaded
