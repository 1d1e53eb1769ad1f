-- ===== src/Remediation/Group.antt =====
-- internal/remediation/group.go: findings collected into actions.
-- The map from keys to actions, with the slice of keys in the order of their first finding, is one
-- list of actions in that order, each key once. A fingerprint's characters are one byte each.
pub mod Partition
pub mod Dedupe
use Prim.Native.String.{◌++◌ as ◌+++◌}
use secure_dev.Prelude.{
  ℕ, String, Bool, true, false, ◌||◌, not, List, [], ◌∷◌, ◌++◌, map, any, keep, take, ◌==◌,
  if◌then◌else◌,
}
use secure_dev.Prelude.Text.{trim_space}
use secure_dev.Prelude.Text.Bytes.{first_bytes}
use secure_dev.Prelude.Sort.{sort_by, text_lt}
use secure_dev.Normalization.Finding.{Finding}
use secure_dev.Risk.{Subject}
use secure_dev.Remediation.{
  Kind, upgrade, no_fix_available, rotate_credential, reconfigure, change_code, review_license,
  kind_text, Member, Action, kind_for,
}

abbrev pub max_versions : ℕ
max_versions = 20

abbrev pub max_references : ℕ
max_references = 20

-- The loop of `dedupe`, with the texts seen so far.
dedupe_loop : List String → List String → List String
unfolding trim_space
dedupe_loop seen [] = []
dedupe_loop seen (v ∷ rest) =
    let skipped = dedupe_loop seen rest in
    let added = dedupe_loop (trim_space v ∷ seen) rest in
    if trim_space v == "" || any (λ t. t == trim_space v) seen
    then skipped
    else trim_space v ∷ added

unfoldable pub dedupe : List String → ℕ → List String
unfolding dedupe_loop sort_by
dedupe texts cap = take cap (sort_by text_lt (dedupe_loop [] texts))

module _ {F : Type 0} where
  package_component : Finding F → String
  unfolding trim_space
  package_component f =
      if not (trim_space f.purl == "")
      then trim_space f.purl
      else if not (trim_space f.package_name == "")
      then trim_space f.package_name
      else f.fingerprint

  rule_component : Finding F → String
  unfolding trim_space first_bytes
  rule_component f =
      if not (trim_space f.scanner_finding_id == "")
      then trim_space f.scanner_finding_id +++ "@" +++ first_bytes 12 f.fingerprint
      else f.fingerprint

  unfoldable pub component_for : Finding F → Kind → String
  unfolding package_component rule_component
  component_for f upgrade = package_component f
  component_for f no_fix_available = package_component f
  component_for f review_license = package_component f
  component_for f rotate_credential = f.fingerprint
  component_for f reconfigure = rule_component f
  component_for f change_code = rule_component f

  -- What the finding's work is keyed by.
  unfoldable pub action_key : Finding F → String
  unfolding component_for kind_for
  action_key f = kind_text (kind_for f) +++ ":" +++ component_for f (kind_for f)

  module _ (nought : F) (risk_of : String → F) where
    unfoldable pub member_of : Subject F → Member F
    member_of s = record {
      fingerprint = s.finding.fingerprint;
      scanner_name = s.finding.scanner;
      severity = s.finding.severity;
      title = s.finding.title;
      risk = risk_of s.finding.fingerprint;
    }

    -- `&Action{Kind: kind, Key: key, Component: component}`
    started : Subject F → Action F
    unfolding component_for kind_for action_key
    started s = record {
      kind = kind_for s.finding;
      key = action_key s.finding;
      component = component_for s.finding (kind_for s.finding);
      fixed_versions = [];
      references = [];
      statements = [];
      members = [];
      risk_removed = nought;
      score_after = nought;
    }

    extended : Subject F → Action F → Action F
    unfolding member_of
    extended s a = record a {
      members = a.members ++ member_of s ∷ [];
      fixed_versions = a.fixed_versions ++ s.finding.fix.fixed_versions;
      references = a.references ++ s.finding.fix.references;
    }

    -- The loop's body.
    absorb : Subject F → List (Action F) → List (Action F)
    unfolding extended started action_key
    absorb s actions =
        if any (λ a. a.key == action_key s.finding) actions
        then map (λ a. if a.key == action_key s.finding then extended s a else a) actions
        else actions ++ extended s (started s) ∷ []

    unfoldable pub collect : List (Action F) → List (Subject F) → List (Action F)
    unfolding absorb
    collect actions [] = actions
    collect actions (s ∷ rest) = collect (absorb s actions) rest

  abbrev pub by_fingerprint : Member F → Member F → Bool
  by_fingerprint a b = text_lt a.fingerprint b.fingerprint

  -- The second loop, before the statements are made.
  unfoldable pub tidied : Action F → Action F
  unfolding dedupe sort_by
  tidied a = record a {
    fixed_versions = dedupe a.fixed_versions max_versions;
    references = dedupe a.references max_references;
    members = sort_by by_fingerprint a.members;
  }
