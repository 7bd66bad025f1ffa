-- ===== src/Config/Examples.antt =====
-- Tests of the configuration by evaluation, and the theorems at concrete inputs.
use dcr_sdk.Common.{◌≡◌, ◌≢◌, refl, ◌↔◌, none, some, [], codes, ok, err, All, Any}
use dcr_sdk.Common.Int.{negsuc}
use dcr_sdk.Common.Strings.{bytes_eq}
use dcr_sdk.Text.{trim_space, split, join}
use dcr_sdk.Config.{
  Configuration, zero_configuration, normalize_configuration, normalize_addrs, addrs_of, keep_addrs,
}
use dcr_sdk.Config.HostPort.{split_host_port}
use dcr_sdk.Config.ServerName.{
  Agrees, host_of, used_addrs, resolve_server_name, agree_on, several_hosts,
  resolve_server_name_iff, HasHost,
}

config : Unit {0}
unfolding normalize_configuration normalize_addrs addrs_of keep_addrs trim_space split join
    split_host_port host_of agree_on bytes_eq resolve_server_name
config = tt

abbrev shards : Configuration
shards = record zero_configuration {
  addrs = codes " a.example:1, a.example:2 ,";
  max_pending_requests = negsuc 4;
}

shards_normalised : (normalize_configuration (some shards)).addrs ≡ codes "a.example:1,a.example:2"
unfolding config
shards_normalised = refl

host_port_tests :
    (split_host_port (codes "cloud.mygaru.com:7937")
      ≡ some (codes "cloud.mygaru.com", codes "7937"))
    × (split_host_port (codes "[::1]:80") ≡ some (codes "::1", codes "80"))
    × (split_host_port (codes "::1:80") ≡ none)
    × (split_host_port (codes "host") ≡ none)
unfolding config
host_port_tests = (refl, refl, refl, refl)

server_name_tests :
    (resolve_server_name [] none ≡ ok (codes "cloud.mygaru.com"))
    × (resolve_server_name [] (some shards) ≡ ok (codes "a.example"))
    × (resolve_server_name [] (some (record shards { addrs = codes "a:1,b:1" }))
        ≡ err (several_hosts (codes "a") (codes "b")))
unfolding config
server_name_tests = (refl, refl, refl)

resolve_server_name_iff_example :
    (resolve_server_name [] (some shards) ≡ ok (codes "a.example")) ↔ (
      (codes "a.example" ≢ [])
      × All (Agrees (codes "a.example")) (used_addrs (some shards))
      × Any (λ addr. HasHost addr (codes "a.example")) (used_addrs (some shards)))
resolve_server_name_iff_example = resolve_server_name_iff (some shards) (codes "a.example")
