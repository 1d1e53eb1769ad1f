-- ===== src/Remediation/Plan.antt =====
-- internal/remediation/remediation.go: the ranked plan.
-- The early return without a live finding has no actions, as the loops have none then.
pub mod Partition
pub mod Versions
use secure_dev.Prelude.{
  ℕ, String, Bool, true, false, not, List, [], ◌∷◌, map, any, keep, length, ltb, nat_eqb, ◌==◌,
  if◌then◌else◌,
}
use secure_dev.Prelude.Float.{Float}
use secure_dev.Prelude.Sort.{sort_by, text_lt}
use secure_dev.Risk.{Context, Subject, Score, dismissed}
use secure_dev.Risk.Weights.{Weights, default_weights}
use secure_dev.Risk.Assess.{Outcome, assessed, misconfigured, assess_with}
use secure_dev.Remediation.{Member, Action}
use secure_dev.Remediation.Group.{collect, tidied}
use secure_dev.Remediation.Statements.{statements_for}

pub record Plan (F : Type 0) : Type 0 where
  pub actions : List (Action F)
  pub score : F
  pub addressable : ℕ

module _ {F : Type 0} where
  unfoldable pub without : List (Subject F) → List (Member F) → List (Subject F)
  without subjects members =
      keep (λ s. not (any (λ m. m.fingerprint == s.finding.fingerprint) members)) subjects

  -- The map from fingerprints to values: a later score replaces an earlier one, and a missing key
  -- reads as zero.
  unfoldable pub risk_of : F → List (Score F) → String → F
  risk_of found [] fingerprint = found
  risk_of found (sc ∷ rest) fingerprint =
      risk_of (if sc.fingerprint == fingerprint then sc.value else found) rest fingerprint

  -- The second loop of `group`.
  unfoldable pub described : List (Subject F) → Action F → Action F
  unfolding tidied statements_for
  described subjects a = record (tidied a) { statements = statements_for (tidied a) subjects }

  unfoldable pub group : F → (String → F) → List (Subject F) → List (Action F)
  unfolding collect described
  group nought risk subjects = map (described subjects) (collect nought risk [] subjects)

module _ (float : Float) where
  open float use {Carrier, less, of_nat, sub, equal}

  abbrev pub live : List (Subject Carrier) → List (Subject Carrier)
  live subjects = keep (λ s. not (dismissed s.finding.status)) subjects

  -- The package's own `assess`: the project's score, and those of the findings.
  outcome_pair : Outcome Carrier → Carrier × List (Score Carrier)
  outcome_pair (assessed a) = (a.score, a.findings)
  outcome_pair (misconfigured e) = (of_nat 0, [])

  unfoldable pub score_project :
      List (Subject Carrier) → Context → Weights Carrier → Carrier × List (Score Carrier)
  unfolding outcome_pair assess_with
  score_project subjects pc w = outcome_pair (assess_with float subjects pc w)

  unfoldable pub ranked :
      List (Subject Carrier) → Context → Weights Carrier → Carrier → Action Carrier → Action Carrier
  unfolding score_project without
  ranked subjects pc w baseline a =
      let after = (score_project (without subjects a.members) pc w).0 in
      let removed = sub baseline after in
      record a {
        score_after = after;
        risk_removed = if less removed (of_nat 0) then of_nat 0 else removed;
      }

  -- Most risk removed first, then most findings closed, then the key.
  unfoldable pub before : Action Carrier → Action Carrier → Bool
  before a b =
      if not (equal a.risk_removed b.risk_removed)
      then less b.risk_removed a.risk_removed
      else if not (nat_eqb (length a.members) (length b.members))
      then ltb (length b.members) (length a.members)
      else text_lt a.key b.key

  unfoldable pub build_with : List (Subject Carrier) → Context → Weights Carrier → Plan Carrier
  unfolding score_project group ranked before sort_by risk_of
  build_with subjects pc w =
      let (baseline, scores) = score_project (live subjects) pc w in
      record {
        score = baseline;
        addressable = length (live subjects);
        actions = sort_by before (
            map (ranked (live subjects) pc w baseline)
              (group (of_nat 0) (risk_of (of_nat 0) scores) (live subjects)));
      }

  unfoldable pub build : List (Subject Carrier) → Context → Plan Carrier
  unfolding build_with default_weights
  build subjects pc = build_with subjects pc (default_weights float)
