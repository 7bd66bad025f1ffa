-- ===== src/TouchCheck/Examples.antt =====
-- Tests of touch-check by evaluation, and the theorem at a concrete input.
use dcr_sdk.Common.{◌≡◌, ◌⊎◌, refl, true, Option, none, some, List, [], ◌∷◌, Bytes, codes, ok, err}
use dcr_sdk.Common.Int.{pos}
use dcr_sdk.Messages.{TouchResponse}
use dcr_sdk.Payer.OneChar.{one_char}
use dcr_sdk.Certs.{Pki, Certificate}
use dcr_sdk.Client.Unary.{replied}
use dcr_sdk.Client.Requests.{Protobuf}
use dcr_sdk.Config.HostPort.{split_host_port}
use dcr_sdk.Mtls.{MtlsConfig}
use dcr_sdk.TouchCheck.{
  Flags, CheckError, pair_required, identifier_required, client_ca_failed, no_certificates, uid_of,
  request_uids, load_pool, name_of, prepare, run, mtls_config,
}
use dcr_sdk.TouchCheck.Outcome.{Explains, IsPrepared, Goes, run-Answered}

abbrev parsed : Bytes → Option Certificate
parsed [] = none
parsed (n ∷ s) = some (record { serial = n; not_after = 1000 })

abbrev pki : Pki
pki = record {
  key_pair = λ c k. some (c ∷ []);
  parse_certificate = parsed;
  check_tls = λ leaf roots intermediates now. true;
  decode_pem = λ pem. some pem;
}

abbrev found : TouchResponse
found = record { user_id = codes "u"; accuracy = 1; label = [] }

abbrev proto : Protobuf
proto = record {
  marshal_target = λ req. none;
  marshal_report = λ req. none;
  marshal_touch = λ req. some (3 ∷ []);
  unmarshal_target = λ body. none;
  unmarshal_touch = λ body. some found;
}

-- Every file holds its name, and there is no CA certificate in any.
abbrev read_file : Bytes → Option Bytes
read_file path = some path

abbrev certs_of : Bytes → List Certificate
certs_of pem = []

abbrev flags : Flags
flags = record {
  addr = codes "a.example:7937";
  cert_path = codes "c";
  key_path = codes "k";
  server_name = [];
  server_ca = [];
  client_ca = [];
  device_id = codes "d";
  external_uid = [];
  external_uid_source = codes "adtelligent.com";
  otp = codes "1";
  partner_uid = [];
  timeout = pos 5;
}

computed : Unit {0}
unfolding prepare request_uids uid_of load_pool name_of split_host_port
computed = tt

prepared_configs :
    (prepare read_file certs_of flags
      ≡ ok (mtls_config read_file certs_of (codes "c") (codes "k") (codes "a.example") none none))
    × (prepare read_file certs_of (record flags { key_path = [] }) ≡ err pair_required)
    × (prepare read_file certs_of (record flags { device_id = []; otp = [] })
        ≡ err identifier_required)
    × (prepare read_file certs_of (record flags { client_ca = codes "x" })
        ≡ err (client_ca_failed no_certificates))
unfolding computed
prepared_configs = (refl, refl, refl, refl)

identifiers :
    request_uids flags
    ≡ record { id = codes "d"; id_type = 3; source = [] }
      ∷ record { id = codes "1"; id_type = 0; source = [] }
      ∷ []
unfolding computed
identifiers = refl

run-Answered_example :
    let r =
      run read_file certs_of pki ([], []) [] one_char proto (λ i j req. replied 1 []) 0 flags in
    ((e : CheckError) × (r ≡ some (err e)) × Explains read_file certs_of flags e)
    ⊎ ((config : MtlsConfig) × IsPrepared read_file certs_of flags config
        × Goes read_file certs_of pki
            ([], [])
            []
            one_char
            proto
            (λ i j req. replied 1 [])
            0
            flags
            config
            r)
run-Answered_example =
    run-Answered read_file certs_of pki ([], []) [] one_char proto (λ i j req. replied 1 []) 0 flags
      tt
