-- ===== src/Normalization/Finding.antt =====
-- internal/normalization/finding.go and threatintel.go: the canonical finding.
-- `F` is the type of Go's float64; an instant is a number, and 0 is the zero time.
pub mod Validate
use secure_dev.Prelude.{ℕ, ℤ, String, Bool, true, false, Option, none, some, List}
use secure_dev.Scanners.{Category}
use secure_dev.Normalization.Severity.{Severity, Confidence}
use secure_dev.Normalization.Fix.{Fix}

pub data Status : Type 0 where
  open_ acknowledged in_progress resolved reopened false_positive ignored : Status
  other : String → Status

abbrev pub status_text : Status → String
status_text open_ = "open"
status_text acknowledged = "acknowledged"
status_text in_progress = "in_progress"
status_text resolved = "resolved"
status_text reopened = "reopened"
status_text false_positive = "false_positive"
status_text ignored = "ignored"
status_text (Status.other t) = t

unfoldable pub status_valid : Status → Bool
status_valid (Status.other t) = false
status_valid _ = true

pub record Epss (F : Type 0) : Type 0 where
  pub probability : F
  pub percentile : F
  pub source : String
  pub observed_at : ℕ

-- `ThreatIntel`: a nil pointer is `none`.
pub record ThreatIntel (F : Type 0) : Type 0 where
  pub epss : Option (Epss F)

abbrev pub threat_available {ℓ} : {A : Type ℓ} → Option A → Bool
threat_available none = false
threat_available (some e) = true

pub record Finding (F : Type 0) : Type 0 where
  pub fingerprint : String
  pub project_id : String
  pub scanner : String
  pub scanner_finding_id : String
  pub scanner_severity : String
  pub category : Category
  pub severity : Severity
  pub confidence : Confidence
  pub title : String
  pub description : String
  pub remediation : String
  pub package_name : String
  pub package_version : String
  pub purl : String
  pub image : String
  pub endpoint : String
  pub cve : String
  pub cwe : String
  pub cvss : F
  pub fix : Fix
  pub threat : ThreatIntel F
  pub status : Status

pub record Occurrence : Type 0 where
  pub fingerprint : String
  pub scan_id : String
  pub file : String
  pub start_line : ℤ
  pub end_line : ℤ
  pub scanner : String
  pub seen_at : ℕ

-- What one raw result normalizes to.
pub record Result (F : Type 0) : Type 0 where
  pub findings : List (Finding F)
  pub occurrences : List Occurrence
  pub errors : List String
