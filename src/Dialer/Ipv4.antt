-- ===== src/Dialer/Ipv4.antt =====
-- Which IPs `resolve` makes an address of, stated without the code.
use dcr_sdk.Common.{
  ◌==◌, ◌≡◌, refl, sym, ap, ◌∙◌, ◌↔◌, ◌⊎◌, inl, inr, ◌&&◌, Bool-cases, Bool, true, false, Option,
  none, some, [], ◌∷◌, ◌++◌, Bytes, length, take, drop, take-append-drop, length-drop, arith,
}
use mathlib.Core.Option.{some-injective}
use dcr_sdk.Common.Strings.{bytes_eq, bytes_eq_iff}
use dcr_sdk.Dialer.Resolve.{IpLibrary, to4, join_host_port, dialable}

-- `::ffff:`, before the four bytes of an IPv4 address.
abbrev pub mapped_prefix : Bytes
mapped_prefix = 0 ∷ 0 ∷ 0 ∷ 0 ∷ 0 ∷ 0 ∷ 0 ∷ 0 ∷ 0 ∷ 0 ∷ 255 ∷ 255 ∷ []

-- An IPv4 address, in four bytes or mapped into sixteen.
abbrev pub IsIpv4 : Bytes → Type 0
IsIpv4 ip = (length ip ≡ 4) ⊎ ((v4 : Bytes) × (length v4 ≡ 4) × (ip ≡ mapped_prefix ++ v4))

abbrev is_mapped : Bytes → Bool
is_mapped ip = length ip == 16 && bytes_eq (take 12 ip) mapped_prefix

is_mapped-parts :
    (ip : Bytes)
    → is_mapped ip ≡ true
    → (length (drop 12 ip) ≡ 4) × (ip ≡ mapped_prefix ++ drop 12 ip)
is_mapped-parts ip h =
    let long : length ip ≡ 16 = ground arith in
    let same : bytes_eq (take 12 ip) mapped_prefix ≡ true = ground arith in
    (
      length-drop 12 ip ∙ omega (arith, long),
      sym (take-append-drop 12 ip)
          ∙ ap (λ p. p ++ drop 12 ip) ((bytes_eq_iff (take 12 ip) mapped_prefix).0 same),
    )

is_mapped-append : (ip v4 : Bytes) → length v4 ≡ 4 → ip ≡ mapped_prefix ++ v4 → is_mapped ip ≡ true
is_mapped-append ip v4 h e =
    let same = (bytes_eq_iff mapped_prefix mapped_prefix).1 refl in
    let whole : is_mapped (mapped_prefix ++ v4) ≡ true = ground arith in ap is_mapped e ∙ whole

not_ipv4 : (ip : Bytes) → (length ip == 4) ≡ false → is_mapped ip ≡ false → IsIpv4 ip → ⊥
not_ipv4 ip e f (inl h) = ground arith
not_ipv4 ip e f (inr (v4, h, same)) = let mapped = is_mapped-append ip v4 h same in cc

to4_cases :
    (ip : Bytes)
    → (IsIpv4 ip × ((v4 : Bytes) × (to4 ip ≡ some v4))) ⊎ ((IsIpv4 ip → ⊥) × (to4 ip ≡ none))
to4_cases ip = elim (Bool-cases (length ip == 4)) [
  | inl e ↦ inl (inl (ground arith), (ip, unfold to4 in rw (e, to4) refl))
  | inr e ↦ elim (Bool-cases (is_mapped ip)) [
    | inl f ↦ inl (
      inr (drop 12 ip, (is_mapped-parts ip f).0, (is_mapped-parts ip f).1),
      (drop 12 ip, unfold to4 in rw (e, f, to4) refl),
    )
    | inr f ↦ inr (not_ipv4 ip e f, unfold to4 in rw (e, f, to4) refl)
  ]
]

module _ (lib : IpLibrary) (port : Bytes) where
  -- An IP has the address `a` exactly if it is an IPv4 one, and that is the address of it.
  pub dialable_iff :
      (ip a : Bytes)
      → (dialable lib port ip ≡ some a) ↔ (IsIpv4 ip × (join_host_port (lib.ip_string ip) port ≡ a))
  dialable_iff ip a = elim (to4_cases ip) [
    | inl (v4, (four, e)) ↦
        let found : dialable lib port ip ≡ some (join_host_port (lib.ip_string ip) port) =
          unfold dialable in rw (e, dialable) refl in
        (λ h. (v4, some-injective _ _ (sym found ∙ h)), λ (h, same). found ∙ ap some same)
    | inr (other, e) ↦
        let lost : dialable lib port ip ≡ none = unfold dialable in rw (e, dialable) refl in
        (
          λ h. let never : Path (Option Bytes) none (some a) = sym lost ∙ h in cc,
          λ (h, same). absurd (other h),
        )
  ]
