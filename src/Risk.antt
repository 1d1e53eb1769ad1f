-- ===== src/Risk.antt =====
-- internal/risk/risk.go: findings as the risk engine sees them, and their scores.
-- `F` is the type of Go's float64.
pub mod Explain
pub mod Weights
pub mod Factors
pub mod Assess
use secure_dev.Prelude.{ℕ, String, Bool, true, false, List}
use secure_dev.Normalization.Severity.{Severity}
use secure_dev.Normalization.Finding.{Status, resolved, false_positive, ignored, Finding}
use secure_dev.Projects.{Environment, Criticality}

pub record Context : Type 0 where
  pub environment : Environment
  pub criticality : Criticality
  pub internet_facing : Bool

pub record Subject (F : Type 0) : Type 0 where
  pub finding : Finding F
  pub sources : List String
  pub issue_severity : Severity
  pub issue_key : String

pub record Factor (F : Type 0) : Type 0 where
  pub name : String
  pub value : F
  pub reason : String
  pub neutral : Bool

pub record Score (F : Type 0) : Type 0 where
  pub fingerprint : String
  pub value : F
  pub severity : Severity
  pub escalated : Bool
  pub dismissed : Bool
  pub factors : List (Factor F)

pub record Assessment (F : Type 0) : Type 0 where
  pub score : F
  pub total : F
  pub findings : List (Score F)
  pub live_count : ℕ
  pub dismissed_count : ℕ

-- The package of the gate has this function too (internal/policies/evaluate.go).
unfoldable pub dismissed : Status → Bool
dismissed resolved = true
dismissed false_positive = true
dismissed ignored = true
dismissed _ = false
