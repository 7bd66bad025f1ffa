-- ===== src/Certs/Timed.antt =====
-- `Fetch` and `askCA` of pkg/client/certprovider.go over time: where a renewal is asked for, how long
-- each round takes, and what the deadline of the context does to it.
--
-- The CA is an argument: what it does when asked at a time. A context is done from its deadline on.
mod Examples
use dcr_sdk.Common.{
  ℕ, zero, suc, ◌+◌, ◌*◌, ◌^◌, ◌==◌, ◌&&◌, leb, Bool, true, false, Option, none, some, List, [],
  ◌∷◌, ◌++◌, Bytes, codes, take, Result, is_empty, if◌then◌else◌,
}
use dcr_sdk.Common.Int.{ℤ, pos, is_positive, rounds}
use dcr_sdk.Config.{second}
use dcr_sdk.Certs.{Pki}
use dcr_sdk.Certs.Fetch.{CaRenewResponse, FetchError, Attempt, failed, answered, fetch}

abbrev pub slash : ℕ
slash = b'/'

abbrev pub default_ca_url : Bytes
default_ca_url = codes "https://ca.mygaru.com"

abbrev pub ca_renew_path : Bytes
ca_renew_path = codes "/cert"

abbrev pub default_ca_poll_interval : ℕ
default_ca_poll_interval = 20 * second

abbrev pub ca_response_limit : ℕ
ca_response_limit = 2 ^ 20

-- pkg/client/autorenew.go
abbrev pub renew_fetch_timeout : ℕ
renew_fetch_timeout = 120 * second

-- `strings.TrimRight`, of one character.
unfoldable pub trim_right : ℕ → Bytes → Bytes
trim_right b [] = []
trim_right b (c ∷ s) = let rest = trim_right b s in if is_empty rest && c == b then [] else c ∷ rest

-- The URL that `Fetch` asks.
unfoldable pub fetch_url : Bytes → Bytes
unfolding trim_right
fetch_url ca_url =
    trim_right slash (if is_empty ca_url then default_ca_url else ca_url) ++ ca_renew_path

unfoldable pub poll_interval : ℤ → ℕ
poll_interval interval = if is_positive interval then rounds interval else default_ca_poll_interval

-- What the CA does when asked: how long it takes, and its status and body, with no body where reading
-- it fails, or no answer.
pub record CaAnswer : Type 0 where
  pub takes : ℕ
  pub reply : Option (ℕ × Option Bytes)

module _ (ca : ℕ → CaAnswer) (deadline poll : ℕ) where
  -- `askCA` at a time, for an answer that comes by the deadline, and whether the context is done by
  -- the end of the poll interval behind it.
  abbrev pub of_reply : ℕ → Option (ℕ × Option Bytes) → Attempt
  of_reply end none = failed false
  of_reply end (some (status, none)) = failed false
  of_reply end (some (status, some body)) =
      answered status (take ca_response_limit body) (leb deadline (end + poll))

  unfoldable pub ask : ℕ → Attempt
  ask now =
      let end = now + (ca now).takes in
      if leb deadline end then failed true else of_reply end (ca now).reply

  -- The next rounds that `Fetch` would make, each a poll interval behind the answer before.
  unfoldable pub attempts : ℕ → ℕ → List Attempt
  unfolding ask
  attempts zero now = []
  attempts (suc n) now = ask now ∷ attempts n (now + (ca now).takes + poll)

  -- `Fetch` from a time on, with rounds enough.
  unfoldable pub fetch_from :
      Pki → (Bytes → Option CaRenewResponse) → ℕ → ℕ → Option (Result FetchError (Bytes × Bytes))
  fetch_from pki decode_json n now = fetch pki decode_json (attempts n now)
