-- ===== src/Remediation.antt =====
-- internal/remediation/action.go: distinct pieces of work, and the findings that each would close.
-- `F` is the type of Go's float64. The values of Kind and Source are made by the package alone, so
-- each has its constants and no other value.
pub mod Group
pub mod Statements
pub mod Plan
use secure_dev.Prelude.{String, List, if◌then◌else◌}
use secure_dev.Scanners.{Category, dependency, container, secrets, iac, license}
use secure_dev.Normalization.Severity.{Severity}
use secure_dev.Normalization.Fix.{fix_available}
use secure_dev.Normalization.Finding.{Finding}

pub data Kind : Type 0 where
  upgrade no_fix_available rotate_credential reconfigure change_code review_license : Kind

abbrev pub kind_text : Kind → String
kind_text upgrade = "upgrade"
kind_text no_fix_available = "no_fix_available"
kind_text rotate_credential = "rotate_credential"
kind_text reconfigure = "reconfigure"
kind_text change_code = "change_code"
kind_text review_license = "review_license"

pub data Source : Type 0 where
  vendor scanner derived ai_explanation : Source

pub record Statement : Type 0 where
  pub source : Source
  pub text : String

pub record Member (F : Type 0) : Type 0 where
  pub fingerprint : String
  pub scanner_name : String
  pub severity : Severity
  pub title : String
  pub risk : F

pub record Action (F : Type 0) : Type 0 where
  pub kind : Kind
  pub key : String
  pub component : String
  pub fixed_versions : List String
  pub references : List String
  pub statements : List Statement
  pub members : List (Member F)
  pub risk_removed : F
  pub score_after : F

module _ {F : Type 0} where
  -- Where no upgrade is known, the kind says so.
  abbrev pub package_kind : Finding F → Kind
  package_kind f = if fix_available f.fix then upgrade else no_fix_available

  unfoldable pub kind_for : Finding F → Kind
  unfolding fix_available
  kind_for f = elim f.category [
    | dependency ↦ package_kind f
    | container ↦ package_kind f
    | secrets ↦ rotate_credential
    | iac ↦ reconfigure
    | license ↦ review_license
    | _ ↦ change_code
  ]
