-- ===== src/Correlation/Reports.antt =====
-- internal/correlation/correlation.go: formIssue and its texts.
use Prim.Native.String.{◌++◌ as ◌+++◌}
use secure_dev.Prelude.{
  ℕ, String, Bool, true, false, not, ◌&&◌, ◌||◌, Option, none, some, List, [], ◌∷◌, ◌++◌, map, any,
  length, ltb, ◌==◌, if◌then◌else◌,
}
use secure_dev.Prelude.Text.{itoa, join}
use secure_dev.Prelude.Sort.{sort_by, text_lt}
use secure_dev.Scanners.{category_text}
use secure_dev.Normalization.Severity.{severity_text}
use secure_dev.Correlation.{
  KeyKind, kind_cve, kind_component, kind_file, Key, key_kind_text, key_text, Deployed,
  deployment_unknown, Inventory, Member, Issue, Subject,
}
use secure_dev.Correlation.Deployment.{deployment_of, deployment_evidence}
use secure_dev.Correlation.Escalation.{issue_severity}

is_unknown : Deployed → Bool
is_unknown deployment_unknown = true
is_unknown _ = false

subject_text : Key → ℕ → String
unfolding itoa key_text
subject_text k n = elim k.kind [
  | kind_cve ↦ itoa n +++ " findings report vulnerability " +++ k.value
  | kind_component ↦ itoa n +++ " findings concern component " +++ k.value
  | kind_file ↦ itoa n +++ " findings share the file " +++ k.value
  | KeyKind.other t ↦ itoa n +++ " findings share " +++ key_text k
]

unfoldable pub explain : Key → Issue → String
unfolding subject_text join
explain k i =
    if not i.escalated
    then subject_text k (length i.members) +++ "."
    else subject_text k (length i.members)
      +++ ". Severity raised one step to "
      +++ severity_text i.severity
      +++ " because the findings span "
      +++ join i.categories " and "
      +++ ", which corroborate each other across domains."

module _ {F : Type 0} where
  -- The loop of `distinctCategories`, with the categories found so far.
  unfoldable pub collect_categories : List String → List (Subject F) → List String
  collect_categories seen [] = seen
  collect_categories seen (m ∷ rest) =
      let c = category_text m.finding.category in
      collect_categories (if c == "" || any (λ s. s == c) seen then seen else seen ++ c ∷ []) rest

  unfoldable pub distinct_categories : List (Subject F) → List String
  unfolding collect_categories sort_by
  distinct_categories members = sort_by text_lt (collect_categories [] members)

  membership_evidence : Key → Subject F → String
  unfolding key_text
  membership_evidence k m = elim k.kind [
    | kind_cve ↦ "reports " +++ k.value
    | kind_component ↦ "concerns component " +++ k.value
    | kind_file ↦ "found in " +++ k.value +++ " (" +++ category_text m.finding.category +++ ")"
    | KeyKind.other t ↦ "shares " +++ key_text k
  ]

  unfoldable pub member_of : Key → Subject F → Member
  unfolding membership_evidence
  member_of k m = record {
    fingerprint = m.finding.fingerprint;
    scanner = m.finding.scanner;
    severity = m.finding.severity;
    evidence = membership_evidence k m;
  }

  -- The issue of a bucket that earns one.
  unfoldable pub issue_of : Key → List (Subject F) → Inventory → Issue
  unfolding distinct_categories member_of issue_severity deployment_of deployment_evidence
      is_unknown explain
  issue_of k members artifact =
      let categories = distinct_categories members in
      let (severity, escalated) = issue_severity members categories in
      let deployment = deployment_of k artifact in
      let issue : Issue = record {
        key = k;
        severity = severity;
        escalated = escalated;
        categories = categories;
        members = map (member_of k) members;
        deployment = deployment;
        deployment_evidence = deployment_evidence deployment artifact;
        artifact_scan_id = if is_unknown deployment then "" else artifact.scan_id;
        explanation = "";
      } in
      record issue { explanation = explain k issue }

  unfoldable pub form_issue : Key → List (Subject F) → Inventory → Option Issue
  unfolding distinct_categories issue_of
  form_issue k members artifact =
      if key_kind_text k.kind == "file" && ltb (length (distinct_categories members)) 2
      then none
      else some (issue_of k members artifact)
