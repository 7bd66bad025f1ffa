-- ===== src/Payer.antt =====
-- pkg/client/payer.go and the payer stamping of pkg/client/shardedClient.go: who is billed.
--
-- A `uuid.UUID` is sixteen bytes, here the number that they spell; `uuid.Nil` is 0.
pub mod Bills
pub mod Stamping
pub mod OneChar
mod Examples
use dcr_sdk.Common.{
  is_empty, ℕ, ◌+◌, ◌^◌, ◌<◌, ◌≡◌, refl, ◌==◌, Bool, true, false, not, Option, none, some, List, [],
  ◌∷◌, Bytes, Result, ok, err, if◌then◌else◌,
}
use dcr_sdk.Messages.{MatchRule, ReportRule}

-- github.com/google/uuid: `Parse`, whose error is `none`, and `UUID.String`. `Parse` yields sixteen
-- bytes and reads what `String` prints, which is never empty.
pub record UuidLibrary : Type 0 where
  pub parse : Bytes → Option ℕ
  pub to_string : ℕ → Bytes
  pub parse-to_string : (u : ℕ) → u < 2 ^ 128 → parse (to_string u) ≡ some u
  pub parse-lt : (s : Bytes) (u : ℕ) → parse s ≡ some u → u < 2 ^ 128
  pub parse-nil : parse [] ≡ none

abbrev pub nil_uuid : ℕ
nil_uuid = 0

pub data PayerError : Type 0 where
  payer_required : PayerError
  request_not_uuid rule_not_uuid : Bytes → PayerError

pub data RuleError : Type 0 where
  rule_nil : ℕ → RuleError
  rule_failed : ℕ → PayerError → RuleError

-- What the two rule messages have in common.
pub record Billable (R : Type 0) : Type 0 where
  pub payer : R → Bytes
  pub set_payer : R → Bytes → R
  pub payer-set_payer : (r : R) (s : Bytes) → payer (set_payer r s) ≡ s
  pub set_payer-set_payer : (r : R) (s t : Bytes) → set_payer (set_payer r s) t ≡ set_payer r t

abbrev pub match_billable : Billable MatchRule
match_billable = record {
  payer = λ r. r.payer;
  set_payer = λ r s. record r { payer = s };
  payer-set_payer = λ r s. refl;
  set_payer-set_payer = λ r s t. refl;
}

abbrev pub report_billable : Billable ReportRule
report_billable = record {
  payer = λ r. r.payer;
  set_payer = λ r s. record r { payer = s };
  payer-set_payer = λ r s. refl;
  set_payer-set_payer = λ r s t. refl;
}

module _ (uuid : UuidLibrary) where
  unfoldable pub resolve_request_payer : Bytes → Result PayerError ℕ
  resolve_request_payer request_payer =
      if not (is_empty request_payer)
      then (elim (uuid.parse request_payer) [
        | none ↦ err (request_not_uuid request_payer)
        | some parsed ↦ if not (parsed == nil_uuid) then ok parsed else err payer_required
      ])
      else err payer_required

  inherited : ℕ → Result PayerError ℕ
  inherited request_payer =
      if not (request_payer == nil_uuid) then ok request_payer else err payer_required

  unfoldable pub resolve_rule_payer : Bytes → ℕ → Result PayerError ℕ
  unfolding inherited
  resolve_rule_payer rule_payer request_payer =
      if not (is_empty rule_payer)
      then (elim (uuid.parse rule_payer) [
        | none ↦ err (rule_not_uuid rule_payer)
        | some parsed ↦ if not (parsed == nil_uuid) then ok parsed else inherited request_payer
      ])
      else inherited request_payer

  -- The loop of `applyMatchRulePayers` and of `applyReportRulePayers`, at rule `i`. It writes through
  -- the rules' pointers, so the rules before a failure stay stamped.
  unfoldable pub stamp_rules :
      {R : Type 0} → Billable R → List (Option R) → ℕ → ℕ → List (Option R) × Option RuleError
  stamp_rules b [] payer i = ([], none)
  stamp_rules b (none ∷ rules) payer i = (none ∷ rules, some (rule_nil i))
  stamp_rules b (some rule ∷ rules) payer i =
      let (stamped, e) = stamp_rules b rules payer (i + 1) in
      elim (resolve_rule_payer (b.payer rule) payer) [
        | err e' ↦ (some rule ∷ rules, some (rule_failed i e'))
        | ok resolved ↦ (some (b.set_payer rule (uuid.to_string resolved)) ∷ stamped, e)
      ]

  unfoldable pub apply_match_rule_payers :
      List (Option MatchRule) → ℕ → List (Option MatchRule) × Option RuleError
  unfolding stamp_rules
  apply_match_rule_payers rules default_payer = stamp_rules match_billable rules default_payer 0

  unfoldable pub apply_report_rule_payers :
      List (Option ReportRule) → ℕ → List (Option ReportRule) × Option RuleError
  unfolding stamp_rules
  apply_report_rule_payers rules request_payer = stamp_rules report_billable rules request_payer 0
