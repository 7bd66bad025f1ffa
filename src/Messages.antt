-- ===== src/Messages.antt =====
-- The protobuf messages of gen/base1 that the client reads or writes. A repeated message field is a
-- list of pointers, `none` for nil, where the code looks at nil. Messages that it only passes on
-- (frequency rules, context, inventory) are kept in their serialised form.
use dcr_sdk.Common.{ℕ, Bool, Option, List, Bytes}

pub record Uid : Type 0 where
  pub id : Bytes
  pub id_type : ℕ
  pub source : Bytes

pub record MatchRule : Type 0 where
  pub traffic_type : ℕ
  pub segment_ids : List ℕ
  pub payer : Bytes

pub record ReportRule : Type 0 where
  pub traffic_type : ℕ
  pub events_count : ℕ
  pub segment_ids : List ℕ
  pub frequency : List ℕ
  pub li : ℕ
  pub cmp_id : ℕ
  pub payer : Bytes

pub record TargetRequest : Type 0 where
  pub uids : List Uid
  pub frequency : List Bytes
  pub match_rules : List (Option MatchRule)
  pub individual_errors : Bool
  pub context : Bytes
  pub inventory : Bytes

-- `none` for a nil tracking id, which is not an empty one.
pub record ReportRequest : Type 0 where
  pub payer : Bytes
  pub tracking_id : Option Bytes
  pub event : ℕ
  pub rules : List (Option ReportRule)

pub record TouchRequest : Type 0 where
  pub uids : List Uid
  pub context : Bytes
  pub inventory : Bytes

pub record TargetResponse : Type 0 where
  pub tracking_id : Bytes
  pub status_code : ℕ
  pub frequency : List ℕ
  pub match_results : List ℕ

pub record TouchResponse : Type 0 where
  pub user_id : Bytes
  pub accuracy : ℕ
  pub label : Bytes
