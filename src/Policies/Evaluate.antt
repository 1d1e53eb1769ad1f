-- ===== src/Policies/Evaluate.antt =====
-- internal/policies/evaluate.go: the gate's decision and its account.
-- A map from texts to counts is an association list; a text that it lacks counts 0.
use Prim.Native.String.{◌++◌}
use secure_dev.Prelude.{
  ℕ, suc, String, Bool, true, false, Option, none, some, List, [], ◌∷◌, ltb, ◌==◌, length, keep,
  if◌then◌else◌,
}
use secure_dev.Prelude.Float.{Float}
use secure_dev.Prelude.Text.{to_upper, itoa}
use secure_dev.Scanners.{category_text}
use secure_dev.Normalization.Severity.{severity_text}
use secure_dev.Risk.{Subject, dismissed}
use secure_dev.Policies.{
  Verdict, pass, verdict_text, verdict_rank, Level, level_text, level_verdict, severity_count,
  category_count, risk_score, Rule, Policy, sorted_rules,
}
use secure_dev.Policies.Validate.{PolicyError, policy_validate}

abbrev pub Counts : Type 0
Counts = List (String × ℕ)

unfoldable pub count_of : Counts → String → ℕ
count_of [] k = 0
count_of ((j, n) ∷ m) k = if j == k then n else count_of m k

-- `m[k]++`
unfoldable pub bump : Counts → String → Counts
bump [] k = (k, 1) ∷ []
bump ((j, n) ∷ m) k = let rest = bump m k in if j == k then (j, suc n) ∷ m else (j, n) ∷ rest

pub record Input (F : Type 0) : Type 0 where
  pub severity_counts : Counts
  pub category_counts : Counts
  pub risk_score_seen : F
  pub scan_status : String
  pub scan_complete : Bool

module _ {F : Type 0} where
  -- The loop of `InputFrom`.
  unfoldable pub count_subjects : Input F → List (Subject F) → Input F
  unfolding bump dismissed
  count_subjects i [] = i
  count_subjects i (s ∷ rest) =
      count_subjects
        (if dismissed s.finding.status then i else record i {
          severity_counts = bump i.severity_counts (severity_text s.finding.severity);
          category_counts = bump i.category_counts (category_text s.finding.category);
        })
        rest

  unfoldable pub input_from : List (Subject F) → F → String → Bool → Input F
  unfolding count_subjects
  input_from subjects score status complete =
      count_subjects
        (record {
          severity_counts = [];
          category_counts = [];
          risk_score_seen = score;
          scan_status = status;
          scan_complete = complete;
        })
        subjects

pub record Condition (F : Type 0) : Type 0 where
  pub rule : Rule F
  pub observed : F
  pub breached : Bool
  pub explanation : String

pub record Coverage : Type 0 where
  pub complete : Bool
  pub scan_status : String
  pub downgraded : Bool
  pub level : Level

pub record Result (F : Type 0) : Type 0 where
  pub verdict : Verdict
  pub conditions : List (Condition F)
  pub coverage : Coverage
  pub summary : String

pub data Outcome (F : Type 0) : Type 0 where
  decided : Result F → Outcome F
  unusable : PolicyError → Outcome F

-- A breach replaces a verdict that is less bad.
unfoldable pub worsen : Verdict → Verdict → Verdict
unfolding verdict_rank
worsen current v = if ltb (verdict_rank current) (verdict_rank v) then v else current

metric_name : {F : Type 0} → Rule F → String
metric_name r = elim r.kind [
  | severity_count ↦ r.selector ++ " findings:"
  | category_count ↦ r.selector ++ " findings:"
  | _ ↦ "risk score:"
]

module _ (float : Float) where
  open float use {Carrier, less, of_nat, equal, trunc, format}

  unfoldable pub observe : Rule Carrier → Input Carrier → Carrier
  unfolding count_of
  observe r i = elim r.kind [
    | severity_count ↦ of_nat (count_of i.severity_counts r.selector)
    | category_count ↦ of_nat (count_of i.category_counts r.selector)
    | risk_score ↦ i.risk_score_seen
    | _ ↦ of_nat 0
  ]

  -- The ceiling is exceeded.
  unfoldable pub breaches : Rule Carrier → Input Carrier → Bool
  unfolding observe
  breaches r i = less r.max (observe r i)

  number : Carrier → String
  number v = if equal v (trunc v) then format (some 0) v else format (some 1) v

  unfoldable pub explain : Rule Carrier → Carrier → Bool → String
  unfolding metric_name number
  explain r observed breached =
      if breached
      then metric_name r
        ++ " "
        ++ number observed
        ++ " exceeds the limit of "
        ++ number r.max
        ++ " ("
        ++ level_text r.level
        ++ ")"
      else metric_name r ++ " " ++ number observed ++ " is within the limit of " ++ number r.max

  unfoldable pub condition : Rule Carrier → Input Carrier → Condition Carrier
  unfolding breaches explain
  condition r i = record {
    rule = r;
    observed = observe r i;
    breached = breaches r i;
    explanation = explain r (observe r i) (breaches r i);
  }

  -- The loop over the sorted rules: the conditions, and the verdict so far.
  unfoldable pub conditions_of : List (Rule Carrier) → Input Carrier → List (Condition Carrier)
  unfolding condition
  conditions_of [] i = []
  conditions_of (r ∷ rest) i = condition r i ∷ conditions_of rest i

  unfoldable pub judge : Verdict → List (Rule Carrier) → Input Carrier → Verdict
  unfolding worsen breaches level_verdict
  judge v [] i = v
  judge v (r ∷ rest) i = judge (if breaches r i then worsen v (level_verdict r.level) else v) rest i

  bullets : List (Condition Carrier) → String
  bullets [] = ""
  bullets (c ∷ rest) = "\n  • " ++ c.explanation ++ bullets rest

  rules_account : List (Condition Carrier) → List (Condition Carrier) → String
  unfolding itoa bullets
  rules_account [] [] = " — no policy rules are configured, so nothing was checked."
  rules_account [] (c ∷ all) = " — all " ++ itoa (length (c ∷ all)) ++ " policy rules satisfied."
  rules_account (b ∷ breached) all =
      " — "
      ++ itoa (length (b ∷ breached))
      ++ " of "
      ++ itoa (length all)
      ++ " policy rules breached:"
      ++ bullets (b ∷ breached)

  coverage_account : Coverage → String
  coverage_account c =
      if c.complete
      then ""
      else "\n\nCoverage: this scan is "
        ++ c.scan_status
        ++ ", not complete. A scanner that failed reported nothing, so this"
        ++ " result is computed over less than the whole project and fewer"
        ++ " findings do not mean fewer problems."
        ++ (if c.downgraded then " The verdict was downgraded for this reason." else "")

  unfoldable pub summarize : Verdict → List (Condition Carrier) → Coverage → String
  unfolding to_upper rules_account coverage_account
  summarize v conditions c =
      to_upper (verdict_text v)
      ++ rules_account (keep (λ k. k.breached) conditions) conditions
      ++ coverage_account c

  -- Incomplete coverage, applied last: the verdict, and whether it was changed.
  unfoldable pub cover : Bool → Level → Verdict → Verdict × Bool
  unfolding level_verdict verdict_rank
  cover complete level v =
      if complete
      then (v, false)
      else if ltb (verdict_rank v) (verdict_rank (level_verdict level))
      then (level_verdict level, true)
      else (v, false)

  unfoldable pub decide_with : Policy Carrier → Input Carrier → Result Carrier
  unfolding sorted_rules conditions_of judge cover summarize
  decide_with p i =
      let rules = sorted_rules p.rules in
      let conditions = conditions_of rules i in
      let (v, downgraded) = cover i.scan_complete p.incomplete_scan (judge pass rules i) in
      let c : Coverage = record {
        complete = i.scan_complete;
        scan_status = i.scan_status;
        downgraded = downgraded;
        level = p.incomplete_scan;
      } in
      record {
        verdict = v;
        conditions = conditions;
        coverage = c;
        summary = summarize v conditions c;
      }

  unfoldable pub outcome : Option PolicyError → Result Carrier → Outcome Carrier
  outcome (some e) result = unusable e
  outcome none result = decided result

  unfoldable pub evaluate : Policy Carrier → Input Carrier → Outcome Carrier
  unfolding outcome
  evaluate p i = outcome (policy_validate float p) (decide_with p i)
