-- ===== src/Policies/Validate.antt =====
-- internal/policies/policy.go: `Validate`.
use Prim.Native.String.{◌++◌}
use secure_dev.Prelude.{
  ℕ, suc, String, Bool, true, false, not, ◌≡◌, refl, Option, none, some, List, [], ◌∷◌, any, All,
  ◌==◌, arith, if◌then◌else◌, Bool-cases, inl, inr, ◌↔◌,
}
use secure_dev.Prelude.Float.{Float}
use secure_dev.Prelude.Text.{trim_space}
use secure_dev.Scanners.{category_of_text}
use secure_dev.Normalization.Severity.{severity_of_text, severity_valid}
use secure_dev.Normalization.Finding.Validate.{valid_category}
use secure_dev.Policies.{
  Level, level_valid, Kind, severity_count, category_count, risk_score, kind_text, Rule, Policy,
}

pub data RuleError : Type 0 where
  bad_level : Level → RuleError
  negative_max above_scale : RuleError
  unknown_severity unknown_category selector_given : String → RuleError
  unknown_kind : Kind → RuleError

pub data PolicyError : Type 0 where
  bad_incomplete : Level → PolicyError
  bad_rule : ℕ → RuleError → PolicyError
  duplicate : ℕ → String → PolicyError

-- `string(r.Kind) + "/" + r.Selector`
unfoldable pub rule_key : {F : Type 0} → Rule F → String
rule_key r = kind_text r.kind ++ "/" ++ r.selector

module _ (float : Float) where
  open float use {Carrier, less, of_nat}

  -- The `switch` of `validate`.
  kind_validate : Kind → String → Carrier → Option RuleError
  kind_validate severity_count selector max =
      if severity_valid (severity_of_text selector) then none else some (unknown_severity selector)
  kind_validate category_count selector max =
      if valid_category (category_of_text selector) then none else some (unknown_category selector)
  kind_validate risk_score selector max =
      if not (trim_space selector == "")
      then some (selector_given selector)
      else if less (of_nat 100) max
      then some above_scale
      else none
  kind_validate (Kind.other t) selector max = some (unknown_kind (Kind.other t))

  unfoldable pub rule_validate : Rule Carrier → Option RuleError
  unfolding kind_validate
  rule_validate r =
      if not (level_valid r.level)
      then some (bad_level r.level)
      else if less r.max (of_nat 0)
      then some negative_max
      else kind_validate r.kind r.selector r.max

  first_error : ℕ → Option RuleError → Option PolicyError → Option PolicyError
  first_error i (some e) later = some (bad_rule i e)
  first_error i none later = later

  -- The loop from rule `i` on, with the keys of the rules before it.
  rules_validate : ℕ → List String → List (Rule Carrier) → Option PolicyError
  unfolding first_error
  rules_validate i seen [] = none
  rules_validate i seen (r ∷ rest) =
      let key = rule_key r in
      let later = rules_validate (suc i) (key ∷ seen) rest in
      first_error i (rule_validate r)
        (if any (λ k. k == key) seen then some (duplicate i key) else later)

  unfoldable pub policy_validate : Policy Carrier → Option PolicyError
  unfolding rules_validate
  policy_validate p =
      if not (level_valid p.incomplete_scan)
      then some (bad_incomplete p.incomplete_scan)
      else rules_validate 0 [] p.rules

  -- No rule measures what a rule of `seen` or a later one measures.
  abbrev pub KeysDistinct : List String → List (Rule Carrier) → Type 0
  KeysDistinct seen [] = Unit
  KeysDistinct seen (r ∷ rest) =
      (any (λ k. k == rule_key r) seen ≡ false) × KeysDistinct (rule_key r ∷ seen) rest

  one_rule :
      (i : ℕ) (o : Option RuleError) (dup : Bool) (k : String) (later : Option PolicyError)
      → (first_error i o (if dup then some (duplicate i k) else later) ≡ none)
        ↔ ((o ≡ none) × (dup ≡ false) × (later ≡ none))
  unfolding first_error
  one_rule i o dup k later = (λ h. ground arith, λ h. ground arith)

  rules_validate_iff :
      (i : ℕ) (seen : List String) (rules : List (Rule Carrier))
      → (rules_validate i seen rules ≡ none)
        ↔ (All (λ r. rule_validate r ≡ none) rules × KeysDistinct seen rules)
  unfolding rules_validate
  rules_validate_iff i seen [] = (λ h. (tt, tt), λ h. refl)
  rules_validate_iff i seen (r ∷ rest) =
      let (sound, complete) = rules_validate_iff (suc i) (rule_key r ∷ seen) rest in
      let (split, join) =
        one_rule i (rule_validate r) (any (λ k. k == rule_key r) seen) (rule_key r)
          (rules_validate (suc i) (rule_key r ∷ seen) rest) in
      (
        λ h.
            let (valid, new, later) = split h in
            let (all_valid, all_new) = sound later in ((valid, all_valid), (new, all_new)),
        λ h. join (h.0.0, h.1.0, complete (h.0.1, h.1.1)),
      )

  -- A policy is usable exactly if its treatment of incomplete scans is warn or fail, each rule
  -- stands on its own, and no two rules measure the same.
  pub policy_validate_iff :
      (p : Policy Carrier)
      → (policy_validate p ≡ none) ↔ (
          (level_valid p.incomplete_scan ≡ true)
          × All (λ r. rule_validate r ≡ none) p.rules
          × KeysDistinct [] p.rules)
  unfolding policy_validate
  policy_validate_iff p =
      let (sound, complete) = rules_validate_iff 0 [] p.rules in
      elim (Bool-cases (level_valid p.incomplete_scan)) [
        | inl e ↦ rw e (λ h. (refl, (sound h).0, (sound h).1), λ h. complete (h.1, h.2))
        | inr e ↦ rw e (λ h. cc, λ h. cc)
      ]
