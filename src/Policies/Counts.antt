-- ===== src/Policies/Counts.antt =====
-- internal/policies/evaluate.go: `InputFrom` counts the live findings.
use secure_dev.Prelude.{
  suc, ◌+◌, String, Bool, not, ◌&&◌, ◌≡◌, refl, List, [], ◌∷◌, ◌==◌, arith, eq_iff, count_if,
  if◌then◌else◌, Bool-cases, inl, inr,
}
use secure_dev.Scanners.{category_text}
use secure_dev.Normalization.Severity.{severity_text}
use secure_dev.Risk.{Subject, dismissed}
use secure_dev.Policies.Evaluate.{Counts, count_of, bump, Input, count_subjects, input_from}

count_of-bump :
    (m : Counts) (k j : String)
    → count_of (bump m k) j ≡ (if k == j then suc (count_of m j) else count_of m j)
unfolding count_of bump
count_of-bump [] k j = ground arith
count_of-bump ((i, n) ∷ m) k j =
    ground (arith, count_of-bump m k j, eq_iff i k, eq_iff i j, eq_iff k j)

module _ {F : Type 0} where
  abbrev pub live : Subject F → Bool
  live s = not (dismissed s.finding.status)

  abbrev pub live_of_severity : String → Subject F → Bool
  live_of_severity k s = live s && severity_text s.finding.severity == k

  abbrev pub live_of_category : String → Subject F → Bool
  live_of_category k s = live s && category_text s.finding.category == k

  -- What the input made of `subjects` from `i` holds.
  record Counted (i : Input F) (subjects : List (Subject F)) (j : Input F) : Type 0 where
    by_severity :
        (k : String)
        → count_of j.severity_counts k
          ≡ count_of i.severity_counts k + count_if (live_of_severity k) subjects
    by_category :
        (k : String)
        → count_of j.category_counts k
          ≡ count_of i.category_counts k + count_if (live_of_category k) subjects
    score : j.risk_score_seen ≡ i.risk_score_seen
    complete : j.scan_complete ≡ i.scan_complete

  count_subjects-Counted :
      (i : Input F) (subjects : List (Subject F)) → Counted i subjects (count_subjects i subjects)
  unfolding count_subjects
  count_subjects-Counted i [] = record {
    by_severity = λ k. omega arith;
    by_category = λ k. omega arith;
    score = refl;
    complete = refl;
  }
  count_subjects-Counted i (s ∷ rest) = elim (Bool-cases (dismissed s.finding.status)) [
    | inl e ↦
        let c = count_subjects-Counted i rest in
        rw e (record {
          by_severity = λ k. ground (arith, c.by_severity k);
          by_category = λ k. ground (arith, c.by_category k);
          score = c.score;
          complete = c.complete;
        })
    | inr e ↦
        let counted : Input F = record i {
          severity_counts = bump i.severity_counts (severity_text s.finding.severity);
          category_counts = bump i.category_counts (category_text s.finding.category);
        } in
        let c = count_subjects-Counted counted rest in
        rw e (record {
          by_severity = λ k. ground (
            arith,
            c.by_severity k,
            count_of-bump i.severity_counts (severity_text s.finding.severity) k,
          );
          by_category = λ k. ground (
            arith,
            c.by_category k,
            count_of-bump i.category_counts (category_text s.finding.category) k,
          );
          score = c.score;
          complete = c.complete;
        })
  ]

  -- The gate's input counts, for each severity and each category, the findings of it that nobody has
  -- dismissed, and no other.
  pub input_from-counts :
      (subjects : List (Subject F)) (score : F) (status : String) (complete : Bool) (k : String)
      → let i = input_from subjects score status complete in
        (count_of i.severity_counts k ≡ count_if (live_of_severity k) subjects)
        × (count_of i.category_counts k ≡ count_if (live_of_category k) subjects)
        × (i.risk_score_seen ≡ score)
        × (i.scan_complete ≡ complete)
  unfolding input_from count_of
  input_from-counts subjects score status complete k =
      let c =
        count_subjects-Counted
          (record {
            severity_counts = [];
            category_counts = [];
            risk_score_seen = score;
            scan_status = status;
            scan_complete = complete;
          })
          subjects in
      (omega (arith, c.by_severity k), omega (arith, c.by_category k), c.score, c.complete)
