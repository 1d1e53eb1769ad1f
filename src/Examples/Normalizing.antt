-- ===== src/Examples/Normalizing.antt =====
-- Runs of the theorems on normalization.
use mathlib.Core.List.{flatten}
use secure_dev.Prelude.{ℕ, pos, String, true, ◌≡◌, refl, ◌↔◌, none, List, [], ◌∷◌, map}
use secure_dev.Scanners.{dependency, container}
use secure_dev.Normalization.Severity.{high, medium, low}
use secure_dev.Normalization.Finding.{Finding, Occurrence, Result}
use secure_dev.Normalization.Finding.Validate.{validate, IsComplete, validate_iff}
use secure_dev.Normalization.Fingerprint.{FingerprintInput, fields_of, identity, fingerprint}
use secure_dev.Normalization.Fingerprint.Identity.{identity_text, fingerprint_iff}
use secure_dev.Normalization.Dedup.{deduplicate, combine}
use secure_dev.Normalization.Dedup.Identity.{first_only, distinct, deduplicate-identity}
use secure_dev.Normalization.Dedup.Identity as Order
use secure_dev.Normalization.Dedup.Merge.{IsAlone, of_identity, combine-IsMerged}
use secure_dev.Examples.{whole, finding}

abbrev first : Finding ℕ
first = finding "f1" "grype" dependency medium "CVE-2026-1"

abbrev again : Finding ℕ
again = finding "f1" "trivy" dependency high "CVE-2026-1"

abbrev another : Finding ℕ
another = finding "f2" "trivy" container low ""

abbrev sighting : Occurrence
sighting = record {
  fingerprint = "f1";
  scan_id = "s";
  file = "go.mod";
  start_line = pos 1;
  end_line = pos 1;
  scanner = "grype";
  seen_at = 4;
}

abbrev reports : List (Result ℕ)
reports =
    record { findings = first ∷ []; occurrences = sighting ∷ []; errors = [] }
    ∷ record { findings = again ∷ another ∷ []; occurrences = []; errors = [] }
    ∷ []

combine-IsMerged_example :
    IsAlone "f1"
      (flatten (map (λ r. r.findings) reports))
      (of_identity "f1" (combine reports).findings)
    × ((combine reports).occurrences ≡ flatten (map (λ r. r.occurrences) reports))
    × ((combine reports).errors ≡ flatten (map (λ r. r.errors) reports))
combine-IsMerged_example = combine-IsMerged "f1" reports

deduplicate-identity_example :
    (map Order.identity (deduplicate (first ∷ another ∷ again ∷ [])).findings
      ≡ first_only [] (map (λ f. f.fingerprint) (first ∷ another ∷ again ∷ [])))
    × (distinct (map Order.identity (deduplicate (first ∷ another ∷ again ∷ [])).findings) ≡ true)
deduplicate-identity_example = deduplicate-identity (first ∷ another ∷ again ∷ [])

validate_example : (validate whole first ≡ none) ↔ IsComplete whole first
validate_example = validate_iff whole first

abbrev rule_in : String → FingerprintInput
rule_in path = record {
  category = dependency;
  rule_id = "R1";
  location = path;
  package_id = "";
  vulnerability_id = "";
}

abbrev digest : String → String
digest t = t

-- Two spellings of one path.
spelled : fingerprint digest (rule_in "./a/b.go") ≡ identity (identity_text (rule_in "./a/b.go"))
unfolding fingerprint
spelled = refl

spelled_again :
    fingerprint digest (rule_in "a\\b.go") ≡ identity (identity_text (rule_in "a\\b.go"))
unfolding fingerprint
spelled_again = refl

fingerprint_example :
    (identity_text (rule_in "./a/b.go") ≡ identity_text (rule_in "a\\b.go"))
    ↔ (fields_of (rule_in "./a/b.go") ≡ fields_of (rule_in "a\\b.go"))
fingerprint_example =
    fingerprint_iff digest (rule_in "./a/b.go") (rule_in "a\\b.go")
      (identity_text (rule_in "./a/b.go")) (identity_text (rule_in "a\\b.go")) (λ h. h) spelled
      spelled_again

one_path : fields_of (rule_in "./a/b.go") ≡ fields_of (rule_in "a\\b.go")
unfolding fields_of
one_path = refl
