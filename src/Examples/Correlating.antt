-- ===== src/Examples/Correlating.antt =====
-- Runs of the theorems on correlation.
use secure_dev.Prelude.{
  ℕ, pos, ◌≤◌, ◌<◌, ◌⊎◌, String, Bool, true, false, not, ◌&&◌, ◌≡◌, refl, List, [], ◌∷◌, map, any,
  All, arith, eq_iff, length, ◌==◌, if◌then◌else◌,
}
use secure_dev.Prelude.Text.{trim_space}
use secure_dev.Scanners.{dependency, sast}
use secure_dev.Normalization.Severity.{Severity, high, medium, critical, unknown}
use secure_dev.Correlation.{
  Key, kind_component, key_kind_text, key_text, Link, Issue, Subject, Options, deployment_present,
  deployment_absent, deployment_unknown,
}
use secure_dev.Correlation.Deployment.{deployment_of, new_inventory, deployment_of-new_inventory}
use secure_dev.Correlation.Escalation.{◌⟶◌, issue_severity, Bounds, IsWorst, issue_severity_rules}
use secure_dev.Correlation.Engine.{correlate_with}
use secure_dev.Correlation.Shared.{IsShared, correlate_with-IsShared}
use secure_dev.Examples.{finding}

abbrev vulnerable : Subject ℕ
vulnerable = record {
  finding = finding "f2" "grype" dependency medium "CVE-2026-1";
  files = "go.mod" ∷ [];
}

abbrev misused : Subject ℕ
misused = record {
  finding = finding "f1" "semgrep" sast high "CVE-2026-1";
  files = "./a/b.go" ∷ "go.mod" ∷ [];
}

abbrev two : List (Subject ℕ)
two = vulnerable ∷ misused ∷ []

abbrev capped : Options
capped = record {
  max_bucket_size = pos 2;
  artifact = new_inventory "scan-1" 5 ("pkg:npm/lib@1.0" ∷ []) true;
}

correlate_with-IsShared_example : All (IsShared capped two) (correlate_with two capped).issues
correlate_with-IsShared_example = correlate_with-IsShared two capped

abbrev shown : Issue → String × Severity × Bool
shown i = (key_text i.key, i.severity, i.escalated)

abbrev told : Link → String × String × String
told l = (l.from, l.to, l.evidence)

-- The two findings share a vulnerability, a component and a file, and the worse of them is raised.
three_issues :
    map shown (correlate_with two capped).issues
    ≡ ("cve:CVE-2026-1", Severity.critical, true)
      ∷ ("file:go.mod", Severity.critical, true)
      ∷ ("purl:pkg:npm/lib@1.0", Severity.critical, true)
      ∷ []
unfolding correlate_with
three_issues = refl

one_link :
    map told (correlate_with two capped).links ≡ ("f1", "f2", "same vulnerability CVE-2026-1") ∷ []
unfolding correlate_with
one_link = refl

abbrev both : List String
both = "dependency" ∷ "sast" ∷ []

issue_severity_example :
    Bounds (issue_severity two both).0 two
    × ((issue_severity two both).1 ≡ false
        → IsWorst (issue_severity two both).0 two
          × ((length both < 2)
              ⊎ (((issue_severity two both).0 ≡ critical)
                  ⊎ ((issue_severity two both).0 ≡ unknown))))
    × ((issue_severity two both).1 ≡ true
        → (2 ≤ length both) × ((w : Severity) × IsWorst w two × (w ⟶ (issue_severity two both).0)))
issue_severity_example = issue_severity_rules two both

abbrev component : Key
component = record { kind = kind_component; value = "pkg:npm/lib@1.0" }

deployment_example :
    deployment_of component (new_inventory "scan-1" 5 (" pkg:npm/lib@1.0" ∷ []) false) ≡ (
      if key_kind_text component.kind == "purl"
      then (if not (component.value == "")
            && any (λ t. trim_space t == component.value) (" pkg:npm/lib@1.0" ∷ [])
          then deployment_present
          else if false
          then deployment_absent
          else deployment_unknown)
      else deployment_unknown)
deployment_example =
    deployment_of-new_inventory component "scan-1" 5 (" pkg:npm/lib@1.0" ∷ []) false
      (λ h. ground (arith, (eq_iff "scan-1" "").1 h))
