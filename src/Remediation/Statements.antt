-- ===== src/Remediation/Statements.antt =====
-- internal/remediation/group.go: the human account of an action, each claim with its source.
use Prim.Native.String.{◌++◌ as ◌+++◌}
use secure_dev.Prelude.{
  ℕ, String, Bool, true, false, ◌&&◌, ◌||◌, not, List, [], ◌∷◌, ◌++◌, any, length, nat_eqb, ◌==◌,
  if◌then◌else◌,
}
use secure_dev.Prelude.Text.{trim_space, itoa, join}
use secure_dev.Normalization.Fix.{FixState, wont_fix, not_fixed}
use secure_dev.Risk.{Subject}
use secure_dev.Remediation.{
  upgrade, no_fix_available, rotate_credential, Source, vendor, scanner, derived, ai_explanation,
  Statement, Action,
}

unfoldable pub plural : ℕ → String → String
unfolding itoa
plural n noun = if nat_eqb n 1 then "1 " +++ noun else itoa n +++ " " +++ noun +++ "s"

abbrev same_source : Source → Source → Bool
same_source vendor vendor = true
same_source scanner scanner = true
same_source derived derived = true
same_source ai_explanation ai_explanation = true
same_source _ _ = false

unfoldable pub append_unique : List Statement → Statement → List Statement
append_unique present s =
    if any (λ e. e.text == s.text && same_source e.source s.source) present
    then present
    else present ++ s ∷ []

abbrev pub is_wont_fix : FixState → Bool
is_wont_fix wont_fix = true
is_wont_fix _ = false

abbrev pub is_not_fixed : FixState → Bool
is_not_fixed not_fixed = true
is_not_fixed _ = false

module _ {F : Type 0} where
  unfoldable pub has_member : Action F → String → Bool
  has_member a fingerprint = any (λ m. m.fingerprint == fingerprint) a.members

  -- Some member's fix is in such a state.
  member_state : Action F → (FixState → Bool) → List (Subject F) → Bool
  unfolding has_member
  member_state a test subjects =
      any (λ s. has_member a s.finding.fingerprint && test s.finding.fix.state) subjects

  unfoldable pub fix_state_account : Action F → List (Subject F) → String
  unfolding member_state
  fix_state_account a subjects =
      if member_state a is_wont_fix subjects
      then "The maintainer has declined to fix at least one of these, so no upgrade will ever resolve it."
      else if member_state a is_not_fixed subjects
      then "A fix is not yet available."
      else if member_state a (λ st. not (is_wont_fix st || is_not_fixed st)) subjects
      then "No scanner reported whether a fix exists, which is not the same as there being none."
      else ""

  kind_statements : Action F → List (Subject F) → List Statement
  unfolding plural join fix_state_account
  kind_statements a subjects = elim a.kind [
    | upgrade ↦
        record {
          source = derived;
          text =
              "Upgrade "
              +++ a.component
              +++ " to a version that resolves "
              +++ plural (length a.members) "finding"
              +++ ". Versions reported as fixed: "
              +++ join a.fixed_versions ", "
              +++ ".";
        }
        ∷ record {
          source = vendor;
          text =
              "Fixed versions are as published by the advisory source; SecureOps does not choose between them.";
        }
        ∷ []
    | no_fix_available ↦
        record {
          source = derived;
          text =
              "No upgrade target is known for "
              +++ a.component
              +++ ". "
              +++ fix_state_account a subjects
              +++ " Mitigate with a compensating control, or record an accepted risk.";
        }
        ∷ []
    | rotate_credential ↦
        record {
          source = derived;
          text =
              "Revoke this credential at its issuer first. Removing it from the file does not invalidate it, and it remains in git history.";
        }
        ∷ []
    | _ ↦ []
  ]

  -- What the scanners said themselves.
  scanner_statements : Action F → List Statement → List (Subject F) → List Statement
  unfolding has_member trim_space append_unique
  scanner_statements a present [] = present
  scanner_statements a present (s ∷ rest) =
      scanner_statements a
        (if has_member a s.finding.fingerprint && not (trim_space s.finding.remediation == "")
          then append_unique present
              (record { source = scanner; text = trim_space s.finding.remediation })
          else present)
        rest

  unfoldable pub statements_for : Action F → List (Subject F) → List Statement
  unfolding kind_statements scanner_statements
  statements_for a subjects = scanner_statements a (kind_statements a subjects) subjects
