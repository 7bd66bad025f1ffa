-- ===== src/Payer/Bills.antt =====
-- Whom a rule bills, stated without the code: its own payer where it names one, otherwise the
-- payer of the request.
use dcr_sdk.Common.{ℕ, ◌≡◌, ◌≢◌, ◌⊎◌, ◌↔◌, some, [], ◌∷◌, Bytes, ok, arith}
use dcr_sdk.Payer.{UuidLibrary, nil_uuid, resolve_request_payer, resolve_rule_payer}

module _ (uuid : UuidLibrary) where
  -- The text names a partner.
  abbrev pub Names : Bytes → ℕ → Type 0
  Names s u = (uuid.parse s ≡ some u) × (u ≢ nil_uuid)

  -- The text names nobody: it is empty, or the nil UUID.
  abbrev pub NamesNobody : Bytes → Type 0
  NamesNobody s = (s ≡ []) ⊎ (uuid.parse s ≡ some nil_uuid)

  -- A rule with payer text `s` in a request with payer `d` bills `u`.
  abbrev pub Bills : ℕ → Bytes → ℕ → Type 0
  Bills d s u = Names s u ⊎ (NamesNobody s × (d ≢ nil_uuid) × (u ≡ d))

  -- A rule's payer is resolved to `u` exactly when the rule bills `u`: a payer of its own is kept,
  -- also beside another payer of the request, and only a rule that names nobody inherits.
  pub resolve_rule_payer_iff :
      (s : Bytes) (d u : ℕ) → (resolve_rule_payer uuid s d ≡ ok u) ↔ Bills d s u
  unfolding resolve_rule_payer
  resolve_rule_payer_iff [] d u = ground (arith, uuid.parse-nil)
  resolve_rule_payer_iff (c ∷ s) d u = ground arith

  -- A request's own payer is resolved to `u` exactly when it names `u`.
  pub resolve_request_payer_iff :
      (s : Bytes) (u : ℕ) → (resolve_request_payer uuid s ≡ ok u) ↔ Names s u
  unfolding resolve_request_payer
  resolve_request_payer_iff [] u = ground (arith, uuid.parse-nil)
  resolve_request_payer_iff (c ∷ s) u = ground arith
