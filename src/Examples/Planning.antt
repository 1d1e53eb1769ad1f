-- ===== src/Examples/Planning.antt =====
-- Runs of the theorems on plans of remediation.
use mathlib.Core.List.{Permᴰ}
use secure_dev.Prelude.{
  ℕ, String, true, not, ◌≡◌, ◌&&◌, List, [], ◌∷◌, map, any, keep, count_if, All, ◌==◌,
  if◌then◌else◌,
}
use secure_dev.Scanners.{dependency, secrets}
use secure_dev.Normalization.Severity.{Severity}
use secure_dev.Normalization.Fix.{FixState}
use secure_dev.Risk.{Subject, dismissed}
use secure_dev.Remediation.{Action}
use secure_dev.Remediation.Group.{member_of}
use secure_dev.Remediation.Group.Dedupe.{reports}
use secure_dev.Remediation.Group.Partition.{keyed}
use secure_dev.Remediation.Plan.{live, build_with}
use secure_dev.Remediation.Plan.Partition.{plan_risk, planned, build_with-partition}
use secure_dev.Remediation.Plan.Versions.{build_with-versions}
use secure_dev.Examples.{whole, finding}
use secure_dev.Examples.Scoring.{online, open_one, closed_one, weights}

abbrev fixable : Subject ℕ
fixable = record open_one {
  finding = record (finding "f3" "trivy" dependency Severity.medium "") {
    fix = record { state = FixState.fixed; fixed_versions = "1.2" ∷ " 1.1" ∷ []; references = [] };
  };
}

abbrev secret : Subject ℕ
secret = record open_one { finding = finding "f4" "gitleaks" secrets Severity.high "" }

abbrev backlog : List (Subject ℕ)
backlog = open_one ∷ closed_one ∷ fixable ∷ secret ∷ []

build_with-partition_example :
    ((k : String)
      → count_if (λ (a : Action ℕ). a.key == k) (planned whole backlog online weights)
        ≡ (if any (keyed k) (live whole backlog) then 1 else 0))
    × All
        (λ a. Permᴰ a.members (
          map
            (member_of 0 (plan_risk whole backlog online weights))
            (keep (keyed a.key) (live whole backlog))))
        (planned whole backlog online weights)
    × ((build_with whole backlog online weights).addressable
        ≡ count_if (λ s. not (dismissed s.finding.status)) backlog)
build_with-partition_example = build_with-partition whole backlog online weights

build_with-versions_example :
    All
      (λ (a : Action ℕ).
        All
          (λ v.
            any (λ s. keyed a.key s && reports v s.finding.fix.fixed_versions) (live whole backlog)
            ≡ true)
          a.fixed_versions)
      (planned whole backlog online weights)
build_with-versions_example = build_with-versions whole backlog online weights
