-- ===== src/Mtls/Chain.antt =====
-- The carried CA chain, split into its pools.
use dcr_sdk.Common.{
  ◌≡◌, subst, All-append, inl, inr, Bool-cases, Option-cases, Bool, true, false, Option, none, some,
  List, [], ◌∷◌, Bytes, All,
}
use mathlib.Core.Option.{some-injective}
use dcr_sdk.Certs.{Certificate}
use dcr_sdk.Mtls.{is_root, add_ca, split_chain}

module _ (parse_certificate : Bytes → Option Certificate) (subject issuer : Certificate → Bytes)
    (signs_itself : Certificate → Bool) where
  abbrev IsRoot : Certificate → Type 0
  IsRoot c = is_root parse_certificate subject issuer signs_itself c ≡ true

  abbrev IsIntermediate : Certificate → Type 0
  IsIntermediate c = is_root parse_certificate subject issuer signs_itself c ≡ false

  -- The first pool has roots only, the second none.
  abbrev pub IsSplit : List Certificate × List Certificate → Type 0
  IsSplit (roots, intermediates) = All IsRoot roots × All IsIntermediate intermediates

  add_ca-IsSplit :
      (cas : List Certificate × List Certificate) (c : Certificate)
      → IsSplit cas
      → IsSplit (add_ca parse_certificate subject issuer signs_itself cas c)
  unfolding add_ca
  add_ca-IsSplit (roots, intermediates) c (h, g) =
      elim (Bool-cases (is_root parse_certificate subject issuer signs_itself c)) [
        | inl e ↦ rw (e, add_ca) (All-append IsRoot roots (c ∷ []) h (e, tt), g)
        | inr e ↦ rw (e, add_ca) (h, All-append IsIntermediate intermediates (c ∷ []) g (e, tt))
      ]

  -- A chain that does not panic is split into roots, whose issuer they are themselves, and others.
  pub split_chain-IsSplit :
      (blocks : List Bytes) (cas out : List Certificate × List Certificate)
      → IsSplit cas
      → split_chain parse_certificate subject issuer signs_itself blocks cas ≡ some out
      → IsSplit out
  unfolding split_chain
  split_chain-IsSplit [] cas out h e = subst IsSplit (some-injective _ _ e) h
  split_chain-IsSplit (block ∷ blocks) cas out h e = elim (Option-cases (parse_certificate block)) [
    | inl none_there ↦
        let panic : Path (Option (List Certificate × List Certificate)) none (some out) =
          rw (none_there, split_chain) at e in
        cc
    | inr (c, there) ↦
        split_chain-IsSplit blocks (add_ca parse_certificate subject issuer signs_itself cas c) out
          (add_ca-IsSplit cas c h) (rw (there, split_chain) at e)
  ]
