-- ===== src/Config/Addrs.antt =====
-- The addresses of a normalised configuration.
use dcr_sdk.Common.{
  if◌then◌else◌, ◌≡◌, ◌≢◌, refl, ap, ◌∙◌, true, Option, some, List, [], ◌∷◌, Bytes, All, arith,
}
use dcr_sdk.Common.Int.{is_positive, is_zero, ℤ}
use dcr_sdk.Text.{trim_space, split, join}
use dcr_sdk.Text.Laws.{IsTrimmed, Lacks, trim_space_idem, Lacks-trim_space, split-Lacks, split-join}
use dcr_sdk.Config.{
  Configuration, comma, keep_addr, keep_addrs, addrs_of, normalize_addrs, normalize_configuration,
  or_cloud, or_nil, or_default, default_cloud_addr, default_max_request_duration,
  default_max_pending_requests, default_maximum_simultaneous_connections, default_buffer_size,
  default_dns_refresh_interval,
}

-- What an address of the list is: trimmed, not empty, and free of commas.
abbrev pub IsAddr : Bytes → Type 0
IsAddr a = IsTrimmed a × (a ≢ []) × Lacks comma a

keep_addrs-IsAddr : (parts : List Bytes) → All (Lacks comma) parts → All IsAddr (keep_addrs parts)
unfolding keep_addrs
keep_addrs-IsAddr [] h = tt
keep_addrs-IsAddr (p ∷ parts) (hp, h) =
    ground (arith, keep_addrs-IsAddr parts h, trim_space_idem p, Lacks-trim_space comma p hp)

pub addrs_of-IsAddr : (addrs : Bytes) → All IsAddr (addrs_of addrs)
unfolding addrs_of
addrs_of-IsAddr addrs = keep_addrs-IsAddr (split comma addrs) (split-Lacks comma addrs)

keep_addr_of_full : (a : Bytes) (rest : List Bytes) → a ≢ [] → keep_addr a rest ≡ a ∷ rest
keep_addr_of_full [] rest full = absurd (full refl)
keep_addr_of_full (c ∷ a) rest full = refl

-- Addresses are kept as they are.
keep_addrs_of_IsAddr : (parts : List Bytes) → All IsAddr parts → keep_addrs parts ≡ parts
unfolding keep_addrs
keep_addrs_of_IsAddr [] h = refl
keep_addrs_of_IsAddr (p ∷ parts) ((trimmed, full, lacks), h) =
    ap (λ a. keep_addr a (keep_addrs parts)) trimmed
    ∙ keep_addr_of_full p (keep_addrs parts) full
    ∙ ap (◌∷◌ p) (keep_addrs_of_IsAddr parts h)

All-Lacks : (parts : List Bytes) → All IsAddr parts → All (Lacks comma) parts
All-Lacks [] h = tt
All-Lacks (p ∷ parts) (hp, h) = (hp.2, All-Lacks parts h)

addrs_of-join :
    (p : Bytes) (ps : List Bytes) → All IsAddr (p ∷ ps) → addrs_of (join comma (p ∷ ps)) ≡ p ∷ ps
unfolding addrs_of
addrs_of-join p ps h =
    ap keep_addrs (split-join comma p ps (All-Lacks (p ∷ ps) h)) ∙ keep_addrs_of_IsAddr (p ∷ ps) h

-- The addresses in use: the configured ones, or the cloud's when none is configured.
abbrev pub or_cloud_addr : List Bytes → List Bytes
or_cloud_addr [] = default_cloud_addr ∷ []
or_cloud_addr (p ∷ ps) = p ∷ ps

or_cloud-join :
    (p : Bytes) (ps : List Bytes) → p ≢ [] → or_cloud (join comma (p ∷ ps)) ≡ join comma (p ∷ ps)
unfolding join
or_cloud-join [] ps full = absurd (full refl)
or_cloud-join (c ∷ p) [] full = refl
or_cloud-join (c ∷ p) (q ∷ ps) full = refl

cloud_addrs : addrs_of default_cloud_addr ≡ default_cloud_addr ∷ []
unfolding addrs_of keep_addrs trim_space split
cloud_addrs = refl

or_cloud_cases :
    (addrs : List Bytes)
    → All IsAddr addrs
    → addrs_of (or_cloud (join comma addrs)) ≡ or_cloud_addr addrs
unfolding join
or_cloud_cases [] h = cloud_addrs
or_cloud_cases (p ∷ ps) h = ap addrs_of (or_cloud-join p ps h.0.1) ∙ addrs_of-join p ps h

-- A normalised configuration lists the configured addresses in their order, trimmed and without the
-- empty ones, and the cloud's address when none is left: taken apart again by a loop over its
-- `Addrs`, as `newClient` and `resolveServerName` do, it gives exactly these.
pub addrs_of-normalize_configuration :
    (cfg : Option Configuration)
    → addrs_of (normalize_configuration cfg).addrs ≡ or_cloud_addr (addrs_of (or_nil cfg).addrs)
unfolding normalize_configuration normalize_addrs
addrs_of-normalize_configuration cfg =
    or_cloud_cases (addrs_of (or_nil cfg).addrs) (addrs_of-IsAddr (or_nil cfg).addrs)

or_default_idem : (x d : ℤ) → is_positive d ≡ true → or_default (or_default x d) d ≡ or_default x d
or_default_idem x d h = ground arith

pub or_default-positive : (x d : ℤ) → is_positive d ≡ true → is_positive (or_default x d) ≡ true
or_default-positive x d h = ground arith

dial_idem :
    (x r d : ℤ)
    → is_positive r ≡ true
    → or_default (or_default x r) (or_default r d) ≡ or_default x r
dial_idem x r d h = ground arith

abbrev refresh : ℤ → ℤ
refresh x = if is_zero x then default_dns_refresh_interval else x

refresh_idem : (x : ℤ) → refresh (refresh x) ≡ refresh x
refresh_idem x = ground arith

normalize_addrs_again :
    (addrs : List Bytes)
    → All IsAddr addrs
    → or_cloud (normalize_addrs (or_cloud (join comma addrs))) ≡ or_cloud (join comma addrs)
unfolding normalize_addrs
normalize_addrs_again [] h = unfold join in ap (λ addrs. or_cloud (join comma addrs)) cloud_addrs
normalize_addrs_again (p ∷ ps) h =
    ap (λ addrs. or_cloud (join comma addrs)) (or_cloud_cases (p ∷ ps) h)

-- Normalising a configuration a second time changes nothing.
pub normalize_configuration_idem :
    (cfg : Option Configuration)
    → normalize_configuration (some (normalize_configuration cfg)) ≡ normalize_configuration cfg
unfolding normalize_configuration normalize_addrs
normalize_configuration_idem cfg =
    let c : Configuration = or_nil cfg in
    let request = or_default c.max_request_duration default_max_request_duration in
    let same_addrs = normalize_addrs_again (addrs_of c.addrs) (addrs_of-IsAddr c.addrs) in
    let same_request = or_default_idem c.max_request_duration default_max_request_duration refl in
    let same_dial =
      dial_idem c.max_dial_duration request default_max_request_duration
        (or_default-positive c.max_request_duration _ refl) in
    let same_refresh = refresh_idem c.dns_refresh_interval in
    let same_pending = or_default_idem c.max_pending_requests default_max_pending_requests refl in
    let same_connections =
      or_default_idem c.maximum_simultaneous_connections default_maximum_simultaneous_connections
        refl in
    let same_read = or_default_idem c.read_buffer_size default_buffer_size refl in
    let same_write = or_default_idem c.write_buffer_size default_buffer_size refl in
    λ i. record {
      addrs = same_addrs i;
      max_request_duration = same_request i;
      max_dial_duration = same_dial i;
      dns_refresh_interval = same_refresh i;
      max_pending_requests = same_pending i;
      maximum_simultaneous_connections = same_connections i;
      read_buffer_size = same_read i;
      write_buffer_size = same_write i;
    }
