-- ===== src/Payer/Examples.antt =====
-- Tests of stamping, and the theorems at concrete inputs.
use dcr_sdk.Common.{◌≡◌, refl, ◌↔◌, Option, none, some, List, [], ◌∷◌, Bytes, ok}
use dcr_sdk.Payer.OneChar.{parse_one, one_char}
use dcr_sdk.Messages.{ReportRule}
use dcr_sdk.Payer.{report_billable, resolve_rule_payer, stamp_rules, apply_report_rule_payers}
use dcr_sdk.Payer.Bills.{Bills, resolve_rule_payer_iff}
use dcr_sdk.Payer.Stamping.{Outcome, stamp_rules-Outcome}

abbrev rule : Bytes → ReportRule
rule payer = record {
  traffic_type = 1;
  events_count = 2;
  segment_ids = 7 ∷ [];
  frequency = [];
  li = 0;
  cmp_id = 0;
  payer = payer;
}

-- One rule of its own client, one that inherits; and a rule that cannot be read.
mixed :
    apply_report_rule_payers one_char (some (rule (5 ∷ [])) ∷ some (rule []) ∷ []) 9
    ≡ (some (rule (5 ∷ [])) ∷ some (rule (9 ∷ [])) ∷ [], none)
unfolding apply_report_rule_payers parse_one resolve_rule_payer
mixed = refl

resolve_rule_payer_iff_example :
    (resolve_rule_payer one_char (5 ∷ []) 9 ≡ ok 5) ↔ Bills one_char 9 (5 ∷ []) 5
resolve_rule_payer_iff_example = resolve_rule_payer_iff one_char (5 ∷ []) 9 5

abbrev rules : List (Option ReportRule)
rules = some (rule (5 ∷ [])) ∷ some (rule []) ∷ []

stamp_rules-Outcome_example :
    Outcome one_char report_billable 9 0 rules (stamp_rules one_char report_billable rules 9 0)
stamp_rules-Outcome_example = stamp_rules-Outcome one_char report_billable rules 9 0

stamped : (stamp_rules one_char report_billable rules 9 0).1 ≡ none
unfolding stamp_rules resolve_rule_payer parse_one
stamped = refl
