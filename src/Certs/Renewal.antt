-- ===== src/Certs/Renewal.antt =====
-- pkg/client/autorenew.go: the renewer and one check of it. What the application's `OnRenewed` returns
-- is an argument, and what the check does is listed in its order. No one else changes the certificate
-- during a check.
use dcr_sdk.Common.{
  ℕ, zero, suc, ◌+◌, ◌*◌, ◌==◌, ltb, min, Bool, true, false, Option, none, some, List, [], ◌∷◌,
  Bytes, Result, ok, err, if◌then◌else◌,
}
use dcr_sdk.Common.Int.{ℤ, pos, negsuc}
use dcr_sdk.Config.{second}
use dcr_sdk.Certs.{Pki, Certificate, CertProvider, TlsCertificate, LoadError, load, update, leaf}
use dcr_sdk.Certs.Fetch.{FetchError}

abbrev pub hour : ℕ
hour = 3600 * second

abbrev pub default_renew_before : ℕ
default_renew_before = 7 * 24 * hour

abbrev pub default_renew_check_interval : ℕ
default_renew_check_interval = 12 * hour

abbrev pub renew_retry_interval : ℕ
renew_retry_interval = hour

pub record AutoRenewer : Type 0 where
  pub before : ℕ
  pub every : ℕ

abbrev pub interval : ℤ → ℕ
interval (pos zero) = default_renew_check_interval
interval (pos (suc n)) = suc n
interval (negsuc n) = default_renew_check_interval

abbrev renew_before : ℕ → ℕ
renew_before zero = default_renew_before
renew_before (suc n) = suc n

-- `newAutoRenewer`, for whether `OnRenewed` is given: `none` without it, or with a negative
-- `RenewBefore`.
unfoldable pub new_auto_renewer : Bool → ℤ → ℤ → Option AutoRenewer
new_auto_renewer false before every = none
new_auto_renewer true (negsuc n) every = none
new_auto_renewer true (pos n) every =
    some (record { before = renew_before n; every = interval every })

-- The counters of renewals.
pub record Renewals : Type 0 where
  pub renewed : ℕ
  pub same : ℕ
  pub failed : ℕ

-- The certificate is handed to `OnRenewed`, served to new connections, and the open connections are
-- closed.
pub data Effect : Type 0 where
  handed_over updated : Bytes → Bytes → Effect
  reconnected : Effect

pub data CheckError : Type 0 where
  fetch_failed : FetchError → CheckError
  leaf_unreadable save_failed : CheckError
  load_failed update_failed : LoadError → CheckError

pub record Checked : Type 0 where
  pub provider : CertProvider
  pub effects : List Effect
  pub renewals : Renewals
  pub result : Result CheckError Bool

module _ (pki : Pki) (on_renewed : Bytes → Bytes → Bool) where
  unfoldable pub leaf_of : Bytes → Option Certificate
  leaf_of cert_pem = elim (pki.decode_pem cert_pem) [
    | none ↦ none
    | some bytes ↦ pki.parse_certificate bytes
  ]

  -- The check of provider `p`, whose counters are `n`.
  module _ (p : CertProvider) (n : Renewals) where
    abbrev pub unchanged : List Effect → Result CheckError Bool → Checked
    unchanged effects result = record {
      provider = p;
      effects = effects;
      renewals = n;
      result = result;
    }

    unfoldable pub after_update : Bytes → Bytes → CertProvider × Option LoadError → Checked
    after_update c k (p', some e) = record {
      provider = p';
      effects = handed_over c k ∷ [];
      renewals = n;
      result = err (update_failed e);
    }
    after_update c k (p', none) = record {
      provider = p';
      effects = handed_over c k ∷ updated c k ∷ reconnected ∷ [];
      renewals = record n { renewed = n.renewed + 1 };
      result = ok true;
    }

    unfoldable pub after_load : Bytes → Bytes → Result LoadError TlsCertificate → Checked
    unfolding after_update
    after_load c k (err e) = unchanged [] (err (load_failed e))
    after_load c k (ok cert) =
        if on_renewed c k
        then after_update c k (update pki p c k)
        else unchanged (handed_over c k ∷ []) (err save_failed)

    unfoldable pub after_leaf : Bytes → Bytes → Option Certificate → Checked
    unfolding after_load
    after_leaf c k none = unchanged [] (err leaf_unreadable)
    after_leaf c k (some renewed) =
        if renewed.serial == (leaf p).serial
        then record {
          provider = p;
          effects = [];
          renewals = record n { same = n.same + 1 };
          result = ok false;
        }
        else after_load c k (load pki p.check c k)

    unfoldable pub after_fetch : Result FetchError (Bytes × Bytes) → Checked
    unfolding after_leaf
    after_fetch (err e) = unchanged [] (err (fetch_failed e))
    after_fetch (ok (c, k)) = after_leaf c k (leaf_of c)

    -- `check`, at time `now`, with what `Fetch` would return.
    unfoldable pub check : AutoRenewer → ℕ → Result FetchError (Bytes × Bytes) → Checked
    unfolding after_fetch
    check r now fetched =
        if ltb (now + r.before) (leaf p).not_after
        then unchanged [] (ok false)
        else after_fetch fetched

  -- One turn of `run`: the check, and how long it waits for the next.
  abbrev pub with_wait : AutoRenewer → Checked → Result CheckError Bool → Checked × ℕ
  with_wait r checked (ok b) = (checked, r.every)
  with_wait r checked (err e) = (
    record checked { renewals = record checked.renewals { failed = checked.renewals.failed + 1 } },
    min r.every renew_retry_interval,
  )

  unfoldable pub turn :
      AutoRenewer → CertProvider → Renewals → ℕ → Result FetchError (Bytes × Bytes) → Checked × ℕ
  unfolding check
  turn r p n now fetched =
      let checked = check p n r now fetched in with_wait r checked checked.result

  -- `run`, for the times of its turns and what `Fetch` returns in each.
  unfoldable pub run :
      AutoRenewer
      → CertProvider
      → Renewals
      → List (ℕ × Result FetchError (Bytes × Bytes))
      → CertProvider × Renewals
  unfolding turn
  run r p n [] = (p, n)
  run r p n ((now, fetched) ∷ turns) =
      let out = (turn r p n now fetched).0 in run r out.provider out.renewals turns
