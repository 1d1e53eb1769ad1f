-- ===== src/Examples/Gating.antt =====
-- Runs of the theorems on the gate.
use mathlib.Core.List.{Permᴰ}
use secure_dev.Prelude.{
  ℕ, ◌≤◌, ◌<◌, true, false, not, ◌&&◌, ◌||◌, ◌≡◌, refl, ◌↔◌, none, List, [], ◌∷◌, map, any, All,
  arith, count_if,
}
use secure_dev.Prelude.Text.{trim_space}
use secure_dev.Scanners.{dependency, category_of_text}
use secure_dev.Normalization.Severity.{Severity, severity_valid, severity_of_text}
use secure_dev.Normalization.Finding.Validate.{valid_category}
use secure_dev.Risk.{Subject}
use secure_dev.Policies.{level_valid, level_verdict, verdict_rank, Policy, default_policy}
use secure_dev.Policies.Validate.{rule_key, rule_validate, policy_validate}
use secure_dev.Policies.Evaluate.{
  Input, decided, decide_with, outcome, evaluate, input_from, count_of,
}
use secure_dev.Policies.Gate.{
  bites, verdict_from, fails, breached_in, IsExact, evaluate-verdict, evaluate-conditions,
  evaluate-downgraded,
}
use secure_dev.Policies.Counts.{live_of_severity, live_of_category, input_from-counts}
use secure_dev.Policies.Monotone.{IsWorse, evaluate-verdict_mono}
use secure_dev.Examples.{whole, finding}

abbrev gate : Policy ℕ
gate = default_policy whole

abbrev seen : List (Subject ℕ)
seen =
    record {
      finding = finding "f1" "grype" dependency Severity.high "";
      sources = "grype" ∷ [];
      issue_severity = Severity.high;
      issue_key = "";
    }
    ∷ []

abbrev clean_input : Input ℕ
clean_input = record {
  severity_counts = ("high", 1) ∷ [];
  category_counts = ("dependency", 1) ∷ [];
  risk_score_seen = 30;
  scan_status = "partial";
  scan_complete = false;
}

abbrev bad_input : Input ℕ
bad_input = record clean_input { risk_score_seen = 90 }

gate_valid : policy_validate whole gate ≡ none
unfolding policy_validate level_valid default_policy rule_validate severity_valid severity_of_text
    rule_key valid_category category_of_text trim_space
gate_valid = refl

clean_decided : evaluate whole gate clean_input ≡ decided (decide_with whole gate clean_input)
unfolding evaluate outcome
clean_decided = rw gate_valid refl

bad_decided : evaluate whole gate bad_input ≡ decided (decide_with whole gate bad_input)
unfolding evaluate outcome
bad_decided = rw gate_valid refl

evaluate-verdict_example :
    (decide_with whole gate clean_input).verdict
    ≡ verdict_from
        (any (fails whole clean_input) gate.rules
          || (not clean_input.scan_complete && bites gate.incomplete_scan))
        (any (breached_in whole clean_input) gate.rules || not clean_input.scan_complete)
evaluate-verdict_example =
    evaluate-verdict whole gate clean_input (decide_with whole gate clean_input) clean_decided

evaluate-conditions_example :
    Permᴰ (map (λ c. c.rule) (decide_with whole gate bad_input).conditions) gate.rules
    × All (IsExact whole bad_input) (decide_with whole gate bad_input).conditions
evaluate-conditions_example =
    evaluate-conditions whole gate bad_input (decide_with whole gate bad_input) bad_decided

evaluate-downgraded_example : ((decide_with whole gate clean_input).coverage.downgraded ≡ true) ↔ (
    (clean_input.scan_complete ≡ false)
    × (verdict_rank (
          verdict_from
            (any (fails whole clean_input) gate.rules)
            (any (breached_in whole clean_input) gate.rules))
        < verdict_rank (level_verdict gate.incomplete_scan)))
evaluate-downgraded_example =
    evaluate-downgraded whole gate clean_input (decide_with whole gate clean_input) clean_decided

bad-IsWorse : IsWorse whole clean_input bad_input
bad-IsWorse = record {
  severities = λ k. omega arith;
  categories = λ k. omega arith;
  score = λ m h. ground (arith, h);
  coverage = λ h. h;
}

evaluate-verdict_mono_example :
    verdict_rank (decide_with whole gate clean_input).verdict
    ≤ verdict_rank (decide_with whole gate bad_input).verdict
evaluate-verdict_mono_example =
    evaluate-verdict_mono whole (λ m a b le h. ground (arith, le, h)) gate clean_input bad_input
      (decide_with whole gate clean_input) (decide_with whole gate bad_input) bad-IsWorse
      clean_decided bad_decided

input_from_example :
    (count_of (input_from seen 30 "completed" true).severity_counts "high"
      ≡ count_if (live_of_severity "high") seen)
    × (count_of (input_from seen 30 "completed" true).category_counts "high"
        ≡ count_if (live_of_category "high") seen)
    × ((input_from seen 30 "completed" true).risk_score_seen ≡ 30)
    × ((input_from seen 30 "completed" true).scan_complete ≡ true)
input_from_example = input_from-counts seen 30 "completed" true "high"
