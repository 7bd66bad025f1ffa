-- ===== src/Mtls/Examples.antt =====
-- Tests of the construction of a client by evaluation, and the theorem at a concrete input.
use dcr_sdk.Common.{◌==◌, ◌≡◌, ◌⊎◌, refl, true, not, Option, none, some, [], ◌∷◌, Bytes, ok, err}
use dcr_sdk.Common.Int.{pos, negsuc}
use dcr_sdk.Common.Strings.{bytes_eq}
use dcr_sdk.Certs.{
  Pki, Certificate, new_cert_check, new_cert_provider, load, of_chain, with_leaf, verified,
  add_intermediates, check_failed,
}
use dcr_sdk.Mtls.{
  MtlsConfig, MtlsClient, MtlsError, certificate_refused, new_with_mtls, with_provider, with_name,
  add_ca, split_chain,
}
use dcr_sdk.Mtls.Construction.{IsMade, IsRefused, new_with_mtls-Outcome}

abbrev parsed : Bytes → Option Certificate
parsed [] = none
parsed (n ∷ s) = some (record { serial = n; not_after = 1000 })

-- The certificate with the number 9 is not valid.
abbrev pki : Pki
pki = record {
  key_pair = λ c k. some (c ∷ []);
  parse_certificate = parsed;
  check_tls = λ leaf roots intermediates now. not (leaf.serial == 9);
  decode_pem = λ pem. some pem;
}

abbrev config : Bytes → MtlsConfig
config cert_pem = record {
  cert_pem = cert_pem;
  key_pem = 1 ∷ [];
  server_root_cas = none;
  server_name = [];
  min_version = 0;
  client_cert_roots = none;
  client_cert_intermediates = none;
  current_time = none;
  on_renewed = true;
  renew_before = pos 0;
  renew_check_interval = negsuc 0;
}

computed : Unit {0}
unfolding new_with_mtls with_provider with_name new_cert_check new_cert_provider load of_chain
    with_leaf verified add_intermediates
computed = tt

-- A certificate that is not valid is refused before a name is resolved.
refused :
    new_with_mtls pki ([], []) [] none (config (9 ∷ [])) ≡ err (certificate_refused check_failed)
unfolding computed
refused = refl

-- The certificates 1 and 2 with equal names; the signature of 2 is another's.
split_pools :
    split_chain parsed (λ c. []) (λ c. []) (λ c. c.serial == 1) ((1 ∷ []) ∷ (2 ∷ []) ∷ []) ([], [])
    ≡ some
        (record { serial = 1; not_after = 1000 } ∷ [], record { serial = 2; not_after = 1000 } ∷ [])
unfolding split_chain add_ca bytes_eq
split_pools = refl

new_with_mtls-Outcome_example :
    let out = new_with_mtls pki ([], []) [] none (config (5 ∷ [])) in
    ((made : MtlsClient) × (out ≡ ok made) × IsMade pki ([], []) [] none (config (5 ∷ [])) made)
    ⊎ ((e : MtlsError) × (out ≡ err e) × IsRefused pki ([], []) [] none (config (5 ∷ [])) e)
new_with_mtls-Outcome_example = new_with_mtls-Outcome pki ([], []) [] none (config (5 ∷ [])) tt
