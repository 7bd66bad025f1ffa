-- ===== src/Contract/Register.antt =====
-- pkg/contract/const.go: the numbers of the requests.
use dcr_sdk.Common.{ℕ, ◌==◌, Option, none, some, Bytes, codes, if◌then◌else◌}

abbrev pub unknown : ℕ
unknown = 0

abbrev pub target : ℕ
target = 1

abbrev pub report : ℕ
report = 2

abbrev pub touch : ℕ
touch = 3

abbrev pub auth : ℕ
auth = 4

abbrev pub max_request_identifier : ℕ
max_request_identifier = touch

-- `RPCRegister.String`; `none` is its panic.
unfoldable pub register_name : ℕ → Option Bytes
register_name r =
    if r == target
    then some (codes "target")
    else if r == report
    then some (codes "report")
    else if r == touch
    then some (codes "touch")
    else if r == auth
    then some (codes "auth")
    else none
