-- ===== src/Examples/Scoring.antt =====
-- Runs of the theorems on risk.
use mathlib.Core.List.{Permᴰ}
use mathlib.Core.List.Permᴰ
use secure_dev.Prelude.{
  ℕ, String, true, ◌≡◌, refl, List, [], ◌∷◌, map, keep, count_if, none, arith, eq_iff, subst,
  Bool-cases, inl, inr, ◌==◌,
}
use secure_dev.Prelude.Text.{itoa}
use secure_dev.Scanners.{dependency}
use secure_dev.Normalization.Severity.{Severity}
use secure_dev.Normalization.Finding.{Status}
use secure_dev.Projects.{Environment, Criticality, environments, criticalities}
use secure_dev.Risk.{Context, Subject}
use secure_dev.Risk.Weights.{
  Weights, weights_validate, weight_of, not_positive, outside_unit, check_table,
}
use secure_dev.Risk.Weights.Digest.{digest}
use secure_dev.Risk.Weights.Digest.Order.{IsSameTable, IsSameWeights, digest-IsSameWeights}
use secure_dev.Risk.Factors.{score_one}
use secure_dev.Risk.Assess.{assess_valid, assess_with, assessed, assess_with-valid}
use secure_dev.Risk.Assess.Live.{closed, is_live, assess_with-live}
use secure_dev.Risk.Assess.Bounds.{IsIeee, IsScore, assess_with-IsScore}
use secure_dev.Examples.{whole, finding}

abbrev pub online : Context
online = record {
  environment = Environment.production;
  criticality = Criticality.high;
  internet_facing = true;
}

abbrev pub open_one : Subject ℕ
open_one = record {
  finding = finding "f1" "grype" dependency Severity.high "";
  sources = "grype" ∷ "trivy" ∷ [];
  issue_severity = Severity.critical;
  issue_key = "cve:1";
}

abbrev pub closed_one : Subject ℕ
closed_one = record open_one {
  finding = record (finding "f2" "trivy" dependency Severity.critical "") {
    status = Status.ignored;
  };
}

abbrev pub both : List (Subject ℕ)
both = open_one ∷ closed_one ∷ []

-- Whole numbers stand for floats, so the weights are scaled to be over zero.
abbrev pub weights : Weights ℕ
weights = record {
  severity =
      ("critical", 100)
      ∷ ("high", 30)
      ∷ ("medium", 8)
      ∷ ("unknown", 5)
      ∷ ("low", 2)
      ∷ ("info", 1)
      ∷ [];
  environment = ("production", 3) ∷ ("staging", 2) ∷ ("development", 1) ∷ [];
  internet_facing = 2;
  criticality = ("critical", 4) ∷ ("high", 3) ∷ ("medium", 2) ∷ ("low", 1) ∷ [];
  confidence = ("high", 1) ∷ ("medium", 1) ∷ ("low", 1) ∷ [];
  exploitability_floor = 1;
  tail_weight = 1;
  saturation = 200;
}

weights_good : weights_validate whole weights ≡ none
unfolding weights_validate check_table weight_of not_positive outside_unit environments
    criticalities
weights_good = refl

both_assessed :
    assess_with whole both online weights ≡ assessed (assess_valid whole both online weights)
both_assessed = assess_with-valid whole both online weights weights_good

live_assessed :
    assess_with whole (keep is_live both) online weights
    ≡ assessed (assess_valid whole (keep is_live both) online weights)
live_assessed = assess_with-valid whole (keep is_live both) online weights weights_good

assess_with-live_example :
    ((assess_valid whole both online weights).score
      ≡ (assess_valid whole (keep is_live both) online weights).score)
    × ((assess_valid whole both online weights).total
        ≡ (assess_valid whole (keep is_live both) online weights).total)
    × ((assess_valid whole both online weights).findings
        ≡ map (score_one whole weights online) both)
    × ((assess_valid whole both online weights).live_count ≡ count_if is_live both)
    × ((assess_valid whole both online weights).dismissed_count ≡ count_if closed both)
assess_with-live_example =
    assess_with-live whole weights online both (assess_valid whole both online weights)
      (assess_valid whole (keep is_live both) online weights) both_assessed live_assessed

whole-IsIeee : IsIeee whole
whole-IsIeee = record {
  whole-is_nan = λ n. refl;
  less_irrefl = λ v. ground arith;
  hundred_not_below = refl;
}

assess_with-IsScore_example : IsScore whole (assess_valid whole both online weights).score
assess_with-IsScore_example =
    assess_with-IsScore whole whole-IsIeee both online weights
      (assess_valid whole both online weights) both_assessed

-- Two entries have changed places.
abbrev reordered : Weights ℕ
reordered = record weights {
  environment = ("staging", 2) ∷ ("production", 3) ∷ ("development", 1) ∷ [];
}

same_entries : {t : List (String × ℕ)} → IsSameTable t t
same_entries {t = t} = record { keys_perm = Permᴰ.refl _; lookups = λ k. refl }

reordered_same : IsSameWeights weights reordered
unfolding weight_of
reordered_same = record {
  severities = same_entries;
  environs = record {
    keys_perm = Permᴰ.swap refl refl;
    lookups = λ k. elim (Bool-cases ("production" == k)) [
      | inl e ↦
          subst (λ j. weight_of weights.environment j ≡ weight_of reordered.environment j)
            ((eq_iff "production" k).0 e) refl
      | inr e ↦ rw e refl
    ];
  };
  crits = same_entries;
  confidences = same_entries;
  facings = refl;
  floors = refl;
  tails = refl;
  saturations = refl;
}

digest_example : digest itoa (λ t. t) 0 weights ≡ digest itoa (λ t. t) 0 reordered
digest_example = digest-IsSameWeights itoa (λ t. t) 0 weights reordered reordered_same
