-- ===== src/Correlation.antt =====
-- internal/correlation: when several findings describe one problem (key.go, link.go, issue.go,
-- deployment.go and the types of correlation.go).
-- A Go string type with named constants is a data type with a constructor for each constant, and
-- `other t` for any text `t` that is none of them. A map used as a set is a list.
pub mod Calendar
pub mod Deployment
pub mod Escalation
pub mod Links
pub mod Buckets
pub mod Reports
pub mod Engine
pub mod Grouping
pub mod Reference
pub mod Shared
pub mod Justified
pub mod Pairs
use Prim.Native.String.{◌++◌}
use secure_dev.Prelude.{ℕ, ℤ, String, Bool, List}
use secure_dev.Scanners.{Category}
use secure_dev.Normalization.Severity.{Severity, Confidence}
use secure_dev.Normalization.Finding.{Finding}

pub data KeyKind : Type 0 where
  kind_cve kind_component kind_file : KeyKind
  other : String → KeyKind

abbrev pub key_kind_text : KeyKind → String
key_kind_text kind_cve = "cve"
key_kind_text kind_component = "purl"
key_kind_text kind_file = "file"
key_kind_text (KeyKind.other t) = t

pub record Key : Type 0 where
  pub kind : KeyKind
  pub value : String

unfoldable pub key_text : Key → String
key_text k = key_kind_text k.kind ++ ":" ++ k.value

pub data Relationship : Type 0 where
  exact_duplicate likely_duplicate related independent : Relationship
  other : String → Relationship

pub record Link : Type 0 where
  pub from : String
  pub to : String
  pub relationship : Relationship
  pub confidence : Confidence
  pub evidence : String

pub data Deployed : Type 0 where
  deployment_unknown deployment_present deployment_absent : Deployed
  other : String → Deployed

-- An instant counts nanoseconds from Go's zero time.
pub record Inventory : Type 0 where
  pub purls : List String
  pub complete : Bool
  pub scan_id : String
  pub scanned_at : ℕ

pub record Member : Type 0 where
  pub fingerprint : String
  pub scanner : String
  pub severity : Severity
  pub evidence : String

pub record Issue : Type 0 where
  pub key : Key
  pub severity : Severity
  pub escalated : Bool
  pub categories : List String
  pub members : List Member
  pub deployment : Deployed
  pub deployment_evidence : String
  pub artifact_scan_id : String
  pub explanation : String

pub record Subject (F : Type 0) : Type 0 where
  pub finding : Finding F
  pub files : List String

pub record Options : Type 0 where
  pub max_bucket_size : ℤ
  pub artifact : Inventory

pub record Result : Type 0 where
  pub issues : List Issue
  pub links : List Link
  pub truncated : List String
