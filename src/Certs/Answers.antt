-- ===== src/Certs/Answers.antt =====
-- What `parseCARenewResponse` of pkg/client/certprovider.go takes from an answer of the CA.
use dcr_sdk.Common.{
  ◌≡◌, ◌≢◌, refl, sym, ap, ◌∙◌, ◌↔◌, inl, inr, Bool-cases, false, Option, Option-cases, some, [],
  ◌∷◌, List, Bytes, codes, ok, ok-injective, subst, arith,
}
use dcr_sdk.Common.Strings.{bytes_eq_iff}
use dcr_sdk.Certs.{Pki}
use dcr_sdk.Certs.Fetch.{CaRenewResponse, is_absent, parse_ca_renew_response}

-- A text that is there, and is not "null".
abbrev pub IsPresent : Bytes → Type 0
IsPresent s = (s ≢ []) × (s ≢ codes "null")

is_absent_iff : (s : Bytes) → (is_absent s ≡ false) ↔ IsPresent s
is_absent_iff [] = (λ e. cc, λ (full, other). absurd (full refl))
is_absent_iff (c ∷ s) = ground (arith, bytes_eq_iff (c ∷ s) (codes "null"))

module _ (pki : Pki) (decode_json : Bytes → Option CaRenewResponse) where
  -- The body is a JSON answer with this chain and this key, and the key is that of the certificate.
  pub record Holds (body : Bytes) (pair : Bytes × Bytes) : Type 0 where
    pub answer : CaRenewResponse
    pub certificates : List Bytes
    pub decodes : decode_json body ≡ some answer
    pub chain : (answer.chain ≡ pair.0) × IsPresent pair.0
    pub key : (answer.key ≡ pair.1) × IsPresent pair.1
    pub belongs : pki.key_pair pair.0 pair.1 ≡ some certificates

  of_answer :
      (body : Bytes) (r : CaRenewResponse) (pair : Bytes × Bytes)
      → decode_json body ≡ some r
      → parse_ca_renew_response pki decode_json body ≡ ok pair
      → Holds body pair
  unfolding parse_ca_renew_response
  of_answer body r pair e h = elim (Bool-cases (is_absent r.chain)) [
    | inl c ↦ cc (rw (e, c, parse_ca_renew_response) at h)
    | inr c ↦ elim (Bool-cases (is_absent r.key)) [
      | inl k ↦ cc (rw (e, c, k, parse_ca_renew_response) at h)
      | inr k ↦ elim (Option-cases (pki.key_pair r.chain r.key)) [
        | inl l ↦ cc (rw (e, c, k, l, parse_ca_renew_response) at h)
        | inr (leafs, l) ↦
            let taken : parse_ca_renew_response pki decode_json body ≡ ok (r.chain, r.key) =
              unfold parse_ca_renew_response in rw (e, c, k, l, parse_ca_renew_response) refl in
            subst (Holds body) (ok-injective (sym taken ∙ h)) (record {
              answer = r;
              certificates = leafs;
              decodes = e;
              chain = (refl, (is_absent_iff r.chain).0 c);
              key = (refl, (is_absent_iff r.key).0 k);
              belongs = l;
            })
      ]
    ]
  ]

  -- A chain and a key are taken from an answer exactly if it holds them.
  pub parse_ca_renew_response_iff :
      (body : Bytes) (pair : Bytes × Bytes)
      → (parse_ca_renew_response pki decode_json body ≡ ok pair) ↔ Holds body pair
  unfolding parse_ca_renew_response
  parse_ca_renew_response_iff body (chain, key) = (
    λ h. elim (Option-cases (decode_json body)) [
      | inl e ↦ cc (rw (e, parse_ca_renew_response) at h)
      | inr (r, e) ↦ of_answer body r (chain, key) e h
    ],
    λ holds.
        let same : Path (Bytes × Bytes) (holds.answer.chain, holds.answer.key) (chain, key) =
          λ i. (holds.chain.0 i, holds.key.0 i) in
        let c : is_absent holds.answer.chain ≡ false =
          (is_absent_iff holds.answer.chain).1
            (subst IsPresent (sym holds.chain.0) holds.chain.1) in
        let k : is_absent holds.answer.key ≡ false =
          (is_absent_iff holds.answer.key).1 (subst IsPresent (sym holds.key.0) holds.key.1) in
        let l : pki.key_pair holds.answer.chain holds.answer.key ≡ some holds.certificates =
          ap (λ (p : Bytes × Bytes). pki.key_pair p.0 p.1) same ∙ holds.belongs in
        rw (holds.decodes, c, k, l, parse_ca_renew_response) (ap ok same),
  )
