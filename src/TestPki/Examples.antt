-- ===== src/TestPki/Examples.antt =====
-- Tests of the test PKI by evaluation, and the theorems at concrete inputs.
use dcr_sdk.Common.{
  ℕ, ◌==◌, ◌≡◌, refl, Bool, false, Option, none, some, List, [], ◌∷◌, Bytes, ok, err, sym, subst,
  ==_iff, arith,
}
use mathlib.Core.Option.{some-injective}
use dcr_sdk.Common.Int.{pos}
use dcr_sdk.Config.ServerName.{resolve_server_name}
use dcr_sdk.Certs.{Pki, Certificate, CertProvider, update, load, new_cert_check, new_cert_provider}
use dcr_sdk.Contract.Register
use dcr_sdk.Contract.Request.{Request}
use dcr_sdk.Messages.{TouchRequest, TouchResponse}
use dcr_sdk.Payer.OneChar.{parse_one, one_char}
use dcr_sdk.Auth.{NetConn, set_uuid, authenticate_client_certificate}
use dcr_sdk.Auth.Handshake.{server_tls, verify_peer_certificate}
use dcr_sdk.Mtls.{
  MtlsConfig, MtlsClient, new_with_mtls, with_provider, with_name, get_client_certificate,
}
use dcr_sdk.Certs.Renewal.{new_auto_renewer}
use dcr_sdk.Client.Build.{new_client}
use dcr_sdk.Client.Requests.{Returned, touch}
use dcr_sdk.Client.Delivery.{Carries}
use dcr_sdk.Cloud.{new_server, normalize_config}
use dcr_sdk.Cloud.Grants.{touch_answer}
use dcr_sdk.EndToEnd.Calls.{cloud_after}
use dcr_sdk.EndToEnd.Examples.{touching, proto, side, transport}
use dcr_sdk.TestPki.Touches.{touch-known}
use dcr_sdk.TestPki.{
  MtlsCertificate, GenerateConfig, Generator, Certificates, auth_of, new_client_certificate,
  new_server_certificate, new_certificates, server_serial_failed, client_certificate_failed,
  loopback,
}
use dcr_sdk.TestPki.Identity.{IsIssued, Issues}
use dcr_sdk.TestPki.Clients.{NeverNil}

-- A client certificate is written as the UUID that it names, which is its serial number, and the
-- serial number of its CA.
abbrev parsed : Bytes → Option Certificate
parsed (n ∷ ca ∷ []) = some (record { serial = n; not_after = ca })
parsed s = none

abbrev valid : Certificate → List Certificate → Bool
valid leaf [] = false
valid leaf (root ∷ roots) = leaf.not_after == root.serial

abbrev pki : Pki
pki = record {
  key_pair = λ c k. some (c ∷ []);
  parse_certificate = parsed;
  check_tls = λ leaf roots intermediates now. valid leaf roots;
  decode_pem = λ pem. some pem;
}

abbrev uuid_of : Certificate → Bytes
uuid_of c = c.serial ∷ []

abbrev check_status : Certificate → Option Certificate → Option Bool
check_status c issuer = none

abbrev ca : ℕ → Bytes → Option MtlsCertificate
ca draw cn = some (record {
  cert = record { serial = draw; not_after = draw };
  key = 75 ∷ [];
  cert_pem = [];
  key_pem = [];
})

abbrev issued : Bytes → MtlsCertificate → Option MtlsCertificate
issued (u ∷ []) parent = some (record {
  cert = record { serial = u; not_after = parent.cert.serial };
  key = 76 ∷ [];
  cert_pem = u ∷ parent.cert.serial ∷ [];
  key_pem = 77 ∷ [];
})
issued uuid parent = none

abbrev gen : Generator
gen = record {
  generate_ca = ca;
  generate = λ draw cfg. issued cfg.uuid cfg.ca;
  new_uuid = λ draw. 3;
  generate_key = λ draw. some (draw ∷ []);
  public_key = λ key. key;
  random_int = λ draw bound. some 11;
  create_certificate = λ draw t parent public private. some (t.serial_number ∷ parent.serial ∷ []);
  parse_certificate = parsed;
}

issues-IsIssued :
    (uuid : Bytes) (cfg : GenerateConfig) (c : MtlsCertificate)
    → cfg.uuid ≡ uuid
    → issued uuid cfg.ca ≡ some c
    → IsIssued pki uuid_of cfg c
issues-IsIssued (u ∷ []) cfg c named e =
    subst (IsIssued pki uuid_of cfg) (some-injective _ _ e) (record {
      der = u ∷ cfg.ca.cert.serial ∷ [];
      paired = refl;
      parsed = refl;
      valid = λ intermediates. (==_iff cfg.ca.cert.serial cfg.ca.cert.serial).1 refl;
      named = sym named;
    })
issues-IsIssued [] cfg c named e = ground arith
issues-IsIssued (u ∷ v ∷ s) cfg c named e = ground arith

issues : Issues pki uuid_of gen
issues draw cfg c e = issues-IsIssued cfg.uuid cfg c refl e

never_nil : NeverNil gen
never_nil draw = (omega arith, omega arith)

computed : Unit {0}
unfolding new_certificates new_server_certificate new_client_certificate server_tls load
    new_cert_check update parse_one
computed = tt

abbrev root : ℕ → Certificate
root draw = record { serial = draw; not_after = draw }

abbrev client_ca : MtlsCertificate
client_ca = record { cert = root 1; key = 75 ∷ []; cert_pem = []; key_pem = [] }

-- The PKI whose draws start at 1, for the partner 3.
abbrev certs : Certificates
certs = record {
  client_id = 3;
  client_cert_pem = 3 ∷ 1 ∷ [];
  client_key_pem = 77 ∷ [];
  client_roots = root 1 ∷ [];
  server_roots = root 4 ∷ [];
  server_name = loopback;
  server_tls =
      server_tls
        (record { certificate = (11 ∷ 4 ∷ []) ∷ []; leaf = record { serial = 11; not_after = 4 } }
          ∷ [])
        0x0303 (auth_of client_ca);
  client_ca = client_ca;
}

made_certs : new_certificates one_char gen 1 (0, 0) ≡ ok certs
unfolding computed
made_certs = refl

-- An error of any draw is the error of the whole.
no_serial :
    new_certificates one_char (record gen { random_int = λ draw bound. none }) 1 (0, 0)
    ≡ err server_serial_failed
unfolding computed
no_serial = refl

no_certificate :
    new_client_certificate one_char (record gen { generate = λ draw cfg. none }) 9 certs 5
    ≡ err client_certificate_failed
unfolding computed
no_certificate = refl

abbrev config : MtlsConfig
config = record {
  cert_pem = [];
  key_pem = [];
  server_root_cas = some certs.server_roots;
  server_name = loopback;
  min_version = 0;
  client_cert_roots = none;
  client_cert_intermediates = none;
  current_time = some 5;
  on_renewed = false;
  renew_before = pos 0;
  renew_check_interval = pos 0;
}

abbrev provider : CertProvider
provider = record {
  check = record { roots = root 1 ∷ []; intermediates = []; current_time = none };
  current = record { cert = record { certificate = []; leaf = root 0 }; cert_pem = [] };
}

abbrev plain : NetConn
plain = record { auth = none; remote_addr = none; local_addr = none }

abbrev client : MtlsClient
client = record {
  client = new_client [] none;
  provider = record {
    check = record { roots = root 1 ∷ []; intermediates = []; current_time = none };
    current = record {
      cert = record {
        certificate = (3 ∷ 1 ∷ []) ∷ [];
        leaf = record { serial = 3; not_after = 1 };
      };
      cert_pem = 3 ∷ 1 ∷ [];
    };
  };
  tls = record { root_cas = some (root 4 ∷ []); server_name = loopback; min_version = 0x0303 };
  renewer = none;
}

touch-known_example :
    (out : Returned TouchRequest TouchResponse) × (sent : Request) × (touch one_char proto transport
        0 client.client touching
      ≡ some out)
    × (out.result ≡ ok touch_answer)
    × Carries sent Register.touch (3 ∷ [])
    × (cloud_after one_char side sent ≡ record side.server { last_caller = some 3 })
unfolding computed new_with_mtls resolve_server_name new_auto_renewer new_cert_provider
    get_client_certificate verify_peer_certificate set_uuid authenticate_client_certificate
    new_server normalize_config with_provider with_name
touch-known_example =
    touch-known pki check_status uuid_of one_char gen issues never_nil proto side transport 1 (0, 0)
      certs ([], []) [] none config client plain 0 touching (3 ∷ []) (6 ∷ []) made_certs tt refl
      refl refl (λ i j req. refl) refl refl refl refl refl (omega arith, omega arith)
      (omega arith, omega arith)
