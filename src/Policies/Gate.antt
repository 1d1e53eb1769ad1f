-- ===== src/Policies/Gate.antt =====
-- internal/policies/evaluate.go: what a verdict means.
use mathlib.Core.List.{Permᴰ}
use secure_dev.Prelude.{
  Bool, true, false, not, ◌&&◌, ◌||◌, ◌≡◌, refl, ◌<◌, ◌↔◌, Option, none, some, List, [], ◌∷◌, any,
  All, arith, if◌then◌else◌, ap, ◌∙◌, map,
}
use secure_dev.Prelude.Float.{Float}
use secure_dev.Prelude.Sort.{any-sort_by, sort_by-perm}
use secure_dev.Policies.{
  Verdict, pass, warn, fail, verdict_rank, Level, level_fail, level_verdict, Rule, rule_less,
  sorted_rules, Policy,
}
use secure_dev.Policies.Validate.{PolicyError, policy_validate}
use secure_dev.Policies.Evaluate.{
  Input, Result, decided, Condition, worsen, observe, breaches, conditions_of, judge, cover,
  decide_with, outcome, evaluate,
}

abbrev pub bites : Level → Bool
bites level_fail = true
bites _ = false

abbrev pub verdict_from : Bool → Bool → Verdict
verdict_from fails warns = if fails then fail else if warns then warn else pass

abbrev is_fail : Verdict → Bool
is_fail fail = true
is_fail _ = false

abbrev is_bad : Verdict → Bool
is_bad pass = false
is_bad _ = true

module _ (float : Float) where
  open float use {Carrier, less}

  -- The measured value is over the ceiling.
  abbrev pub breached_in : Input Carrier → Rule Carrier → Bool
  breached_in i r = less r.max (observe float r i)

  -- A rule whose breach fails the build is breached.
  abbrev pub fails : Input Carrier → Rule Carrier → Bool
  fails i r = breached_in i r && bites r.level

  judge_step :
      (v : Verdict) (level : Level) (broken : Bool) (later_fail later_bad : Bool)
      → verdict_from
          (is_fail (if broken then worsen v (level_verdict level) else v) || later_fail)
          (is_bad (if broken then worsen v (level_verdict level) else v) || later_bad)
        ≡ verdict_from
            (is_fail v || (broken && bites level || later_fail))
            (is_bad v || (broken || later_bad))
  unfolding worsen level_verdict
  judge_step v level broken later_fail later_bad = ground arith

  judge_lem :
      (v : Verdict) (rules : List (Rule Carrier)) (i : Input Carrier)
      → judge float v rules i
        ≡ verdict_from (is_fail v || any (fails i) rules) (is_bad v || any (breached_in i) rules)
  unfolding judge breaches
  judge_lem v [] i = ground arith
  judge_lem v (r ∷ rest) i =
      judge_lem (if breaches float r i then worsen v (level_verdict r.level) else v) rest i
      ∙ judge_step v r.level (breaches float r i) (any (fails i) rest) (any (breached_in i) rest)

  cover_lem :
      (complete : Bool) (level : Level) (a b : Bool)
      → (cover float complete level (verdict_from a b)).0
        ≡ verdict_from (a || (not complete && bites level)) (b || not complete)
  unfolding cover
  cover_lem complete level a b = ground arith

  decide_verdict :
      (p : Policy Carrier) (i : Input Carrier)
      → (decide_with float p i).verdict
        ≡ verdict_from
            (any (fails i) p.rules || (not i.scan_complete && bites p.incomplete_scan))
            (any (breached_in i) p.rules || not i.scan_complete)
  unfolding decide_with sorted_rules
  decide_verdict p i = rw (
    judge_lem pass (sorted_rules p.rules) i,
    cover_lem,
    any-sort_by rule_less (fails i) p.rules,
    any-sort_by rule_less (breached_in i) p.rules,
  )

  outcome-decided :
      (o : Option PolicyError) (x r : Result Carrier)
      → outcome float o x ≡ decided r
      → (o ≡ none) × (r ≡ x)
  unfolding outcome
  outcome-decided none x r h = (refl, cc)
  outcome-decided (some e) x r h = cc

  pub evaluate-decided :
      (p : Policy Carrier) (i : Input Carrier) (r : Result Carrier)
      → evaluate float p i ≡ decided r
      → (policy_validate float p ≡ none) × (r ≡ decide_with float p i)
  unfolding evaluate
  evaluate-decided p i r h = outcome-decided (policy_validate float p) (decide_with float p i) r h

  -- The verdict of a usable policy: fail if a rule that fails the build is breached, or if the scan
  -- is incomplete and the policy says so; else warn if any rule is breached or the scan is
  -- incomplete; else pass.
  pub evaluate-verdict :
      (p : Policy Carrier) (i : Input Carrier) (r : Result Carrier)
      → evaluate float p i ≡ decided r
      → r.verdict
        ≡ verdict_from
            (any (fails i) p.rules || (not i.scan_complete && bites p.incomplete_scan))
            (any (breached_in i) p.rules || not i.scan_complete)
  evaluate-verdict p i r h =
      ap (λ (x : Result Carrier). x.verdict) (evaluate-decided p i r h).1 ∙ decide_verdict p i

  conditions_of-rule :
      (rules : List (Rule Carrier)) (i : Input Carrier)
      → map (λ c. c.rule) (conditions_of float rules i) ≡ rules
  unfolding conditions_of
  conditions_of-rule [] i = refl
  conditions_of-rule (r ∷ rest) i = rw (conditions_of-rule rest i)

  -- What a condition says of its rule.
  abbrev pub IsExact : Input Carrier → Condition Carrier → Type 0
  IsExact i c = (c.observed ≡ observe float c.rule i) × (c.breached ≡ less c.rule.max c.observed)

  conditions_of-IsExact :
      (rules : List (Rule Carrier)) (i : Input Carrier)
      → All (IsExact i) (conditions_of float rules i)
  unfolding conditions_of
  conditions_of-IsExact [] i = tt
  conditions_of-IsExact (r ∷ rest) i = ((refl, refl), conditions_of-IsExact rest i)

  -- Every rule of the policy reports itself, once, whether or not it is breached, with the value
  -- that it measured and whether that is over its ceiling.
  pub evaluate-conditions :
      (p : Policy Carrier) (i : Input Carrier) (r : Result Carrier)
      → evaluate float p i ≡ decided r
      → Permᴰ (map (λ c. c.rule) r.conditions) p.rules × All (IsExact i) r.conditions
  unfolding decide_with sorted_rules
  evaluate-conditions p i r h = rw (evaluate-decided p i r h).1 (
    rw (conditions_of-rule (sorted_rules p.rules) i) (sort_by-perm rule_less p.rules),
    conditions_of-IsExact (sorted_rules p.rules) i,
  )

  cover-downgraded :
      (complete : Bool) (level : Level) (v : Verdict)
      → ((cover float complete level v).1 ≡ true)
        ↔ ((complete ≡ false) × (verdict_rank v < verdict_rank (level_verdict level)))
  unfolding cover
  cover-downgraded complete level v = (λ h. ground arith, λ h. ground arith)

  -- The result says that coverage changed the verdict exactly if the scan is incomplete and the
  -- rules alone would have given a less bad verdict than the policy asks of an incomplete scan.
  pub evaluate-downgraded :
      (p : Policy Carrier) (i : Input Carrier) (r : Result Carrier)
      → evaluate float p i ≡ decided r
      → (r.coverage.downgraded ≡ true) ↔ (
          (i.scan_complete ≡ false)
          × (verdict_rank (verdict_from (any (fails i) p.rules) (any (breached_in i) p.rules))
              < verdict_rank (level_verdict p.incomplete_scan)))
  unfolding decide_with sorted_rules
  evaluate-downgraded p i r h =
      rw
        (
          (evaluate-decided p i r h).1,
          ← any-sort_by rule_less (fails i) p.rules,
          ← any-sort_by rule_less (breached_in i) p.rules,
          ← judge_lem pass (sorted_rules p.rules) i,
        )
        (cover-downgraded i.scan_complete p.incomplete_scan
          (judge float pass (sorted_rules p.rules) i))
