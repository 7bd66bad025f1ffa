-- ===== src/Certs/Examples.antt =====
-- Libraries for tests, tests of the renewal by evaluation, and the theorems at concrete inputs.
use dcr_sdk.Common.{
  ◌<◌, ◌≤◌, ◌*◌, arith, err, ◌≡◌, refl, ◌↔◌, ◌⊎◌, inl, inr, Bool, true, false, Option, none, some,
  List, [], ◌∷◌, Bytes, ok, is_empty, if◌then◌else◌,
}
use dcr_sdk.Certs.{
  Pki, Certificate, CertCheck, CertProvider, new_cert_provider, update, load, of_chain, with_leaf,
  verified, add_intermediates, leaf,
}
use dcr_sdk.Certs.Fetch.{CaRenewResponse, answered, fetch}
use dcr_sdk.Certs.Renewal.{
  AutoRenewer, Renewals, leaf_of, after_update, after_load, after_leaf, after_fetch, check, turn,
  run, CheckError, new_auto_renewer, renew_retry_interval, handed_over, updated, reconnected,
}
use dcr_sdk.Certs.Laws.{IsValidated, Replaced, Kept, check-Outcome, run-IsValidated}
use dcr_sdk.Certs.Polling.{Issued, fetch_iff}
use dcr_sdk.Certs.Waits.{turn-wait, run-lasts}
use dcr_sdk.Common.Int.{pos}

-- A certificate is its serial number, which says when it ends; every one is good.
abbrev serial_of : Bytes → Option Certificate
serial_of [] = none
serial_of (n ∷ s) = some (record { serial = n; not_after = 200 * n })

abbrev pair_of : Bytes → Bytes → Option (List Bytes)
pair_of c k = if is_empty k then none else some (c ∷ [])

abbrev pki : Pki
pki = record {
  key_pair = pair_of;
  parse_certificate = serial_of;
  check_tls = λ leaf roots intermediates now. true;
  decode_pem = λ pem. some pem;
}

abbrev cert_check : CertCheck
cert_check = record { roots = []; intermediates = []; current_time = none }

abbrev provider : CertProvider
provider = record {
  check = cert_check;
  current = record {
    cert = record { certificate = (5 ∷ []) ∷ []; leaf = record { serial = 5; not_after = 1000 } };
    cert_pem = 5 ∷ [];
  };
}

abbrev renewer : AutoRenewer
renewer = record { before = 100; every = 10 }

abbrev none_yet : Renewals
none_yet = record { renewed = 0; same = 0; failed = 0 }

abbrev saves : Bytes → Bytes → Bool
saves c k = true

abbrev decode_json : Bytes → Option CaRenewResponse
decode_json body =
    some (record {
      common_name = [];
      serial = [];
      chain = body;
      key = 1 ∷ [];
      status = [];
      reason = [];
    })

computed : Unit {0}
unfolding new_cert_provider update load of_chain with_leaf verified add_intermediates leaf leaf_of
    after_update after_load after_leaf after_fetch check turn run
computed = tt

made : new_cert_provider pki cert_check (5 ∷ []) (1 ∷ []) ≡ ok provider
unfolding computed
made = refl

-- Early, late with the same certificate, and late with a new one.
checks :
    ((check pki saves provider none_yet renewer 10 (ok (6 ∷ [], 1 ∷ []))).effects ≡ [])
    × ((check pki saves provider none_yet renewer 950 (ok (5 ∷ [], 1 ∷ []))).effects ≡ [])
    × ((check pki saves provider none_yet renewer 950 (ok (6 ∷ [], 1 ∷ []))).effects
        ≡ handed_over (6 ∷ []) (1 ∷ []) ∷ updated (6 ∷ []) (1 ∷ []) ∷ reconnected ∷ [])
unfolding computed
checks = (refl, refl, refl)

check-Outcome_example :
    let out = check pki saves provider none_yet renewer 950 (ok (6 ∷ [], 1 ∷ [])) in
    ((out.result ≡ ok true) × Replaced pki saves provider none_yet (ok (6 ∷ [], 1 ∷ [])) out)
    ⊎ Kept pki saves provider none_yet out
check-Outcome_example = check-Outcome pki saves provider none_yet renewer 950 (ok (6 ∷ [], 1 ∷ []))

run-IsValidated_example :
    IsValidated pki (run pki saves renewer provider none_yet ((950, ok (6 ∷ [], 1 ∷ [])) ∷ [])).0
run-IsValidated_example =
    run-IsValidated pki saves cert_check (5 ∷ []) (1 ∷ []) provider renewer none_yet
      ((950, ok (6 ∷ [], 1 ∷ [])) ∷ []) made

fetch_iff_example :
    (fetch pki decode_json (answered 202 [] false ∷ answered 200 (6 ∷ []) false ∷ [])
      ≡ some (ok (6 ∷ [], 1 ∷ [])))
    ↔ Issued pki decode_json
        (answered 202 [] false ∷ answered 200 (6 ∷ []) false ∷ [])
        (6 ∷ [], 1 ∷ [])
fetch_iff_example =
    fetch_iff pki decode_json (answered 202 [] false ∷ answered 200 (6 ∷ []) false ∷ [])
      (6 ∷ [], 1 ∷ [])

turn-wait_example :
    let out = turn pki saves renewer provider none_yet 950 (ok ([], 1 ∷ [])) in
    (0 < out.1)
    × (((b : Bool) × (out.0.result ≡ ok b) × (out.1 ≡ 10))
        ⊎ ((e : CheckError) × (out.0.result ≡ err e)
            × (out.1 ≤ 10)
            × (out.1 ≤ renew_retry_interval)))
unfolding new_auto_renewer
turn-wait_example =
    turn-wait pki saves true (pos 100) (pos 10) renewer provider none_yet 950 (ok ([], 1 ∷ [])) refl

-- An early check, and one that renews.
run-lasts_example :
    920
    < (leaf
        (run pki saves renewer provider none_yet
          ((890, ok ([], [])) ∷ (905, ok (6 ∷ [], 1 ∷ [])) ∷ [])).0).not_after
unfolding computed
run-lasts_example =
    run-lasts pki saves renewer 5 890 provider none_yet
      ((890, ok ([], [])) ∷ (905, ok (6 ∷ [], 1 ∷ [])) ∷ []) (omega arith) (omega arith)
      (
        omega arith,
        inl (omega arith),
        (
          omega arith,
          inr (record {
            pem = 6 ∷ [];
            key = 1 ∷ [];
            renewed = record { serial = 6; not_after = 1200 };
            cert = record {
              certificate = (6 ∷ []) ∷ [];
              leaf = record { serial = 6; not_after = 1200 };
            };
            came = refl;
            read = refl;
            other = omega arith;
            loads = refl;
            kept = refl;
            lasts = omega arith;
          }),
          tt,
        ),
      )
