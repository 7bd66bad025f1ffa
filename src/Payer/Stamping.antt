-- ===== src/Payer/Stamping.antt =====
-- What stamping a request's rules does, whether or not it fails.
use dcr_sdk.Common.{
  ℕ, ◌+◌, ◌^◌, ◌<◌, ◌≡◌, ◌≢◌, refl, sym, ap, ◌∙◌, subst, inl, inr, Option, none, some, List, [],
  ◌∷◌, ◌++◌, Bytes, Result-cases, ok, err, arith, length,
}
use dcr_sdk.Payer.{
  UuidLibrary, nil_uuid, PayerError, RuleError, rule_nil, rule_failed, Billable, resolve_rule_payer,
  stamp_rules,
}
use dcr_sdk.Payer.Bills.{Bills, resolve_rule_payer_iff}

module _ (uuid : UuidLibrary) {R : Type 0} (b : Billable R) where
  open b use {payer, set_payer}

  -- Rule by rule: each rule is there, and carries the payer that it bills; nothing else changed.
  abbrev pub Stamped : ℕ → List (Option R) → List (Option R) → Type 0
  Stamped d [] [] = Unit {0}
  Stamped d (some r ∷ rs) (some r' ∷ rs') =
      ((u : ℕ) × Bills uuid d (payer r) u × (r' ≡ set_payer r (uuid.to_string u)))
      × Stamped d rs rs'
  Stamped d _ _ = ⊥

  -- Why a rule stops the loop.
  abbrev pub Refused : ℕ → ℕ → Option R → RuleError → Type 0
  Refused d i none e = e ≡ rule_nil i
  Refused d i (some r) e =
      (e' : PayerError) × (resolve_rule_payer uuid (payer r) d ≡ err e') × (e ≡ rule_failed i e')

  -- A loop that stops at a rule: those before it are stamped, it and those behind it are as they
  -- were, and the error has its position and its reason.
  pub record Stopped (d i : ℕ) (rules out : List (Option R)) (e : RuleError) : Type 0 where
    pub before : List (Option R)
    pub stamped : List (Option R)
    pub rule : Option R
    pub after : List (Option R)
    pub rules_split : rules ≡ before ++ rule ∷ after
    pub out_split : out ≡ stamped ++ rule ∷ after
    pub Stamped_before : Stamped d before stamped
    pub refused : Refused d (i + length before) rule e

  abbrev pub Outcome : ℕ → ℕ → List (Option R) → List (Option R) × Option RuleError → Type 0
  Outcome d i rules (out, none) = Stamped d rules out
  Outcome d i rules (out, some e) = Stopped d i rules out e

  Stopped-cons :
      (d i u : ℕ) (r : R) (rules out : List (Option R)) (e : RuleError)
      → Bills uuid d (payer r) u
      → Stopped d (i + 1) rules out e
      → Stopped d i (some r ∷ rules) (some (set_payer r (uuid.to_string u)) ∷ out) e
  Stopped-cons d i u r rules out e bills s = record {
    before = some r ∷ s.before;
    stamped = some (set_payer r (uuid.to_string u)) ∷ s.stamped;
    rule = s.rule;
    after = s.after;
    rules_split = ap (◌∷◌ (some r)) s.rules_split;
    out_split = ap (◌∷◌ (some (set_payer r (uuid.to_string u)))) s.out_split;
    Stamped_before = ((u, bills, refl), s.Stamped_before);
    refused = subst (λ n. Refused d n s.rule e) (omega arith) s.refused;
  }

  Outcome-cons :
      (d i u : ℕ) (r : R) (rules : List (Option R)) (res : List (Option R) × Option RuleError)
      → Bills uuid d (payer r) u
      → Outcome d (i + 1) rules res
      → Outcome d i (some r ∷ rules) (some (set_payer r (uuid.to_string u)) ∷ res.0, res.1)
  Outcome-cons d i u r rules (out, none) bills h = ((u, bills, refl), h)
  Outcome-cons d i u r rules (out, some e) bills s = Stopped-cons d i u r rules out e bills s

  -- Stamping the rules of a request, from rule `i` on, either stamps each rule with the payer that it
  -- bills, or stops at the first rule that is nil or bills nobody.
  pub stamp_rules-Outcome :
      (rules : List (Option R)) (d i : ℕ) → Outcome d i rules (stamp_rules uuid b rules d i)
  unfolding stamp_rules
  stamp_rules-Outcome [] d i = tt
  stamp_rules-Outcome (none ∷ rules) d i = record {
    before = [];
    stamped = [];
    rule = none;
    after = rules;
    rules_split = refl;
    out_split = refl;
    Stamped_before = tt;
    refused = ap rule_nil (omega arith);
  }
  stamp_rules-Outcome (some r ∷ rules) d i =
      elim (Result-cases (resolve_rule_payer uuid (payer r) d)) [
        | inl (e, failed) ↦
            rw (failed, stamp_rules)
              (record {
                before = [];
                stamped = [];
                rule = some r;
                after = rules;
                rules_split = refl;
                out_split = refl;
                Stamped_before = tt;
                refused = (e, failed, ap (λ n. rule_failed n e) (omega arith));
              })
        | inr (u, resolved) ↦
            rw (resolved, stamp_rules)
              (Outcome-cons d i u r rules (stamp_rules uuid b rules d (i + 1))
                ((resolve_rule_payer_iff uuid (payer r) d u).0 resolved)
                (stamp_rules-Outcome rules d (i + 1)))
      ]

  pub Bills-lt : (d u : ℕ) (s : Bytes) → d < 2 ^ 128 → Bills uuid d s u → u < 2 ^ 128
  Bills-lt d u s small (inl (parsed, _)) = uuid.parse-lt s u parsed
  Bills-lt d u s small (inr (_, _, same)) = omega arith

  pub Bills-ne-nil : (d u : ℕ) (s : Bytes) → Bills uuid d s u → u ≢ nil_uuid
  Bills-ne-nil d u s (inl (_, real)) = real
  Bills-ne-nil d u s (inr (_, real, same)) = omega arith

  -- The text that stamping writes names the partner, whatever the payer of the request.
  pub resolve-to_string :
      (d d' u : ℕ) (s : Bytes)
      → d < 2 ^ 128
      → Bills uuid d s u
      → resolve_rule_payer uuid (uuid.to_string u) d' ≡ ok u
  resolve-to_string d d' u s small bills =
      (resolve_rule_payer_iff uuid (uuid.to_string u) d' u).1
        (inl (uuid.parse-to_string u (Bills-lt d u s small bills), Bills-ne-nil d u s bills))

  restamp_Stamped :
      (rules out : List (Option R)) (d d' i : ℕ)
      → d < 2 ^ 128
      → Stamped d rules out
      → stamp_rules uuid b out d' i ≡ (out, none)
  unfolding stamp_rules
  restamp_Stamped [] [] d d' i small h = refl
  restamp_Stamped [] (r' ∷ out) d d' i small h = absurd h
  restamp_Stamped (none ∷ rules) out d d' i small h = absurd h
  restamp_Stamped (some r ∷ rules) [] d d' i small h = absurd h
  restamp_Stamped (some r ∷ rules) (none ∷ out) d d' i small h = absurd h
  restamp_Stamped (some r ∷ rules) (some r' ∷ out) d d' i small ((u, bills, e), h) =
      let named : resolve_rule_payer uuid (payer r') d' ≡ ok u =
        ap (λ x. resolve_rule_payer uuid (payer x) d') e
        ∙ ap (λ s. resolve_rule_payer uuid s d') (b.payer-set_payer r (uuid.to_string u))
        ∙ resolve-to_string d d' u (payer r) small bills in
      let same : set_payer r' (uuid.to_string u) ≡ r' =
        ap (λ x. set_payer x (uuid.to_string u)) e
        ∙ b.set_payer-set_payer r (uuid.to_string u) (uuid.to_string u)
        ∙ sym e in
      rw (named, stamp_rules)
        (ap
            (λ (p : List (Option R) × Option RuleError).
              (some (set_payer r' (uuid.to_string u)) ∷ p.0, p.1))
            (restamp_Stamped rules out d d' (i + 1) small h)
          ∙ ap (λ x. (some x ∷ out, none)) same)

  -- Rules that were stamped without an error are left as they are by stamping them again, also with
  -- another payer of the request: a retry bills the same partners.
  pub restamp :
      (rules : List (Option R)) (d d' : ℕ)
      → d < 2 ^ 128
      → (stamp_rules uuid b rules d 0).1 ≡ none
      → let out = (stamp_rules uuid b rules d 0).0 in stamp_rules uuid b out d' 0 ≡ (out, none)
  restamp rules d d' small h =
      restamp_Stamped rules _ d d' 0 small
        (of_none (stamp_rules uuid b rules d 0) h (stamp_rules-Outcome rules d 0))
    where
      of_none :
          (res : List (Option R) × Option RuleError)
          → res.1 ≡ none
          → Outcome d 0 rules res
          → Stamped d rules res.0
      of_none (out, none) h o = o
      of_none (out, some e) h o = cc
