-- ===== src/Config.antt =====
-- The configuration part of pkg/client/shardedClient.go. Durations are in nanoseconds.
pub mod Addrs
pub mod HostPort
pub mod ServerName
mod Examples
use dcr_sdk.Common.{
  is_empty, ℕ, ◌*◌, Bool, true, false, Option, none, some, List, [], ◌∷◌, Bytes, codes,
  if◌then◌else◌,
}
use dcr_sdk.Common.Int.{ℤ, pos, is_positive, is_zero}
use dcr_sdk.Text.{trim_space, split, join}

pub record Configuration : Type 0 where
  pub addrs : Bytes
  pub max_request_duration : ℤ
  pub max_dial_duration : ℤ
  pub dns_refresh_interval : ℤ
  pub max_pending_requests : ℤ
  pub maximum_simultaneous_connections : ℤ
  pub read_buffer_size : ℤ
  pub write_buffer_size : ℤ

-- `&Configuration{}`
abbrev pub zero_configuration : Configuration
zero_configuration = record {
  addrs = [];
  max_request_duration = pos 0;
  max_dial_duration = pos 0;
  dns_refresh_interval = pos 0;
  max_pending_requests = pos 0;
  maximum_simultaneous_connections = pos 0;
  read_buffer_size = pos 0;
  write_buffer_size = pos 0;
}

abbrev pub comma : ℕ
comma = b','

abbrev pub second : ℕ
second = 1_000_000_000

abbrev pub default_cloud_addr : Bytes
default_cloud_addr = codes "cloud.mygaru.com:7937"

abbrev pub default_max_request_duration : ℤ
default_max_request_duration = pos second

abbrev pub default_maximum_simultaneous_connections : ℤ
default_maximum_simultaneous_connections = pos 128

abbrev pub default_max_pending_requests : ℤ
default_max_pending_requests = pos 8

abbrev pub default_buffer_size : ℤ
default_buffer_size = pos (4 * 1024)

-- pkg/client/dnsDialer.go
abbrev pub default_dns_refresh_interval : ℤ
default_dns_refresh_interval = pos (60 * second)

-- One round of the loops over `strings.Split(addrs, ",")`: trimmed, and passed over if empty.
abbrev pub keep_addr : Bytes → List Bytes → List Bytes
keep_addr addr rest = if is_empty addr then rest else addr ∷ rest

unfoldable pub keep_addrs : List Bytes → List Bytes
keep_addrs [] = []
keep_addrs (part ∷ parts) = keep_addr (trim_space part) (keep_addrs parts)

-- The addresses that such a loop goes through.
unfoldable pub addrs_of : Bytes → List Bytes
addrs_of addrs = keep_addrs (split comma addrs)

unfoldable pub normalize_addrs : Bytes → Bytes
normalize_addrs addrs = join comma (addrs_of addrs)

abbrev pub or_default : ℤ → ℤ → ℤ
or_default x d = if is_positive x then x else d

abbrev or_cloud : Bytes → Bytes
or_cloud addrs = if is_empty addrs then default_cloud_addr else addrs

abbrev pub or_nil : Option Configuration → Configuration
or_nil none = zero_configuration
or_nil (some cfg) = cfg

unfoldable pub normalize_configuration : Option Configuration → Configuration
normalize_configuration cfg_pointer =
    let cfg = or_nil cfg_pointer in
    let request = or_default cfg.max_request_duration default_max_request_duration in
    record {
      addrs = or_cloud (normalize_addrs cfg.addrs);
      max_request_duration = request;
      max_dial_duration = or_default cfg.max_dial_duration request;
      dns_refresh_interval =
          if is_zero cfg.dns_refresh_interval
          then default_dns_refresh_interval
          else cfg.dns_refresh_interval;
      max_pending_requests = or_default cfg.max_pending_requests default_max_pending_requests;
      maximum_simultaneous_connections =
          or_default cfg.maximum_simultaneous_connections default_maximum_simultaneous_connections;
      read_buffer_size = or_default cfg.read_buffer_size default_buffer_size;
      write_buffer_size = or_default cfg.write_buffer_size default_buffer_size;
    }
