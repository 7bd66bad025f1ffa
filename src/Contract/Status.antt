-- ===== src/Contract/Status.antt =====
-- gen/base1/common.pb.go: `RPCServerResponseCode`, the status of a response.
use dcr_sdk.Common.{ℕ}

abbrev pub unknown : ℕ
unknown = 0

abbrev pub ok : ℕ
ok = 1

abbrev pub unauthorized : ℕ
unauthorized = 2

abbrev pub service_unavailable : ℕ
service_unavailable = 3

abbrev pub outdated : ℕ
outdated = 4

abbrev pub invalid_request : ℕ
invalid_request = 5

abbrev pub tech_error : ℕ
tech_error = 6

abbrev pub network_error : ℕ
network_error = 7

abbrev pub forbidden : ℕ
forbidden = 8
