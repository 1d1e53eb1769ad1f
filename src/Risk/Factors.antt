-- ===== src/Risk/Factors.antt =====
-- internal/risk/risk.go: the five factors of one finding's score.
pub mod Escalated
use Prim.Native.String.{◌++◌}
use secure_dev.Prelude.{
  ℕ, String, Bool, true, false, Option, none, some, List, [], ◌∷◌, any, length, ltb, leb, not, ◌≡◌,
  refl, ◌↔◌, ◌<◌, ◌≤◌, arith, Bool-cases, inl, inr, ◌==◌, if◌then◌else◌, ◌||◌,
}
use secure_dev.Prelude.Float.{Float}
use secure_dev.Prelude.Sort.{sort_by, text_lt}
use secure_dev.Correlation.Calendar.{day_text}
use secure_dev.Normalization.Severity.{
  Severity, severity_text, severity_valid, severity_rank, Confidence, confidence_text,
  confidence_valid,
}
use secure_dev.Normalization.Finding.{status_text, Finding, ThreatIntel}
use secure_dev.Projects.{environment_text, criticality_text}
use secure_dev.Risk.{Context, Subject, Factor, Score, dismissed}
use secure_dev.Risk.Explain.{join_prose, number_text}
use secure_dev.Risk.Weights.{Weights, weight_of}

-- The loop of `distinct`, with the texts seen so far.
distinct_loop : List String → List String → List String
distinct_loop seen [] = []
distinct_loop seen (s ∷ rest) =
    let skipped = distinct_loop seen rest in
    let added = distinct_loop (s ∷ seen) rest in
    if s == "" || any (λ t. t == s) seen then skipped else s ∷ added

unfoldable pub distinct : List String → List String
unfolding sort_by distinct_loop
distinct texts = sort_by text_lt (distinct_loop [] texts)

unfoldable pub raise_confidence : Confidence → Confidence × Bool
raise_confidence Confidence.low = (Confidence.medium, true)
raise_confidence Confidence.medium = (Confidence.high, true)
raise_confidence c = (c, false)

-- What the switch of `raiseConfidence` leaves is worded by the branch taken.
unfoldable pub corroborate : Confidence → List String → Confidence × String
unfolding raise_confidence join_prose
corroborate level reporters =
    if ltb (length reporters) 2
    then (level, confidence_text level)
    else let (raised, moved) = raise_confidence level in
      if moved
      then (
        raised,
        confidence_text raised ++ ", raised by agreement between " ++ join_prose reporters,
      )
      else (level, confidence_text level ++ ", corroborated by " ++ join_prose reporters)

module _ {F : Type 0} where
  unfoldable pub effective_severity : Subject F → Severity × Bool
  unfolding severity_valid severity_rank
  effective_severity s =
      if severity_text s.issue_severity == "" || not (severity_valid s.issue_severity)
      then (s.finding.severity, false)
      else if ltb (severity_rank s.finding.severity) (severity_rank s.issue_severity)
      then (s.issue_severity, true)
      else (s.finding.severity, false)

module _ (float : Float) where
  open float use {Carrier, of_nat, add, mul}

  -- A key that a table lacks reads as zero, as in Go.
  abbrev or_nought : Option Carrier → Carrier
  or_nought (some v) = v
  or_nought none = of_nat 0

  unfoldable pub severity_factor :
      Weights Carrier → Severity → Bool → Subject Carrier → Carrier × String
  unfolding weight_of
  severity_factor w severity escalated s = elim (weight_of w.severity (severity_text severity)) [
    | none ↦ (
      or_nought (weight_of w.severity "unknown"),
      "unrecognised severity " ++ severity_text severity ++ ", scored as unknown",
    )
    | some v ↦ (
      v,
      severity_text severity
          ++ (if escalated
              then ", escalated from "
                ++ severity_text s.finding.severity
                ++ " by issue "
                ++ s.issue_key
              else ""),
    )
  ]

  unfoldable pub exploitability_factor : Weights Carrier → ThreatIntel Carrier → Factor Carrier
  unfolding number_text day_text
  exploitability_factor w t = elim t.epss [
    | none ↦ record {
      name = "exploitability";
      value = of_nat 1;
      reason = "no threat intelligence available";
      neutral = true;
    }
    | some e ↦ record {
      name = "exploitability";
      value = add w.exploitability_floor e.percentile;
      reason =
          "EPSS percentile "
          ++ number_text float e.percentile
          ++ " ("
          ++ e.source
          ++ ", "
          ++ day_text e.observed_at
          ++ ")";
      neutral = false;
    }
  ]

  -- The lookup of `exposureFactor`: the base, its reason, and whether it is neutral.
  exposure_base : Weights Carrier → Context → Carrier × String × Bool
  unfolding weight_of
  exposure_base w pc = elim (weight_of w.environment (environment_text pc.environment)) [
    | none ↦ (of_nat 1, "environment not declared", true)
    | some v ↦ (v, environment_text pc.environment, false)
  ]

  unfoldable pub exposure_factor : Weights Carrier → Context → Factor Carrier
  unfolding exposure_base
  exposure_factor w pc =
      let (base, reason, neutral) = exposure_base w pc in
      record {
        name = "exposure";
        value = if pc.internet_facing then mul base w.internet_facing else base;
        reason = if pc.internet_facing then reason ++ ", internet-facing" else reason;
        neutral = neutral;
      }

  unfoldable pub criticality_factor : Weights Carrier → Context → Factor Carrier
  unfolding weight_of
  criticality_factor w pc = elim (weight_of w.criticality (criticality_text pc.criticality)) [
    | none ↦ record {
      name = "criticality";
      value = of_nat 1;
      reason = "criticality not declared";
      neutral = true;
    }
    | some v ↦ record {
      name = "criticality";
      value = v;
      reason = criticality_text pc.criticality;
      neutral = false;
    }
  ]

  unfoldable pub confidence_factor : Weights Carrier → Subject Carrier → Factor Carrier
  unfolding confidence_valid distinct corroborate weight_of
  confidence_factor w s =
      let declared =
        if confidence_valid s.finding.confidence then s.finding.confidence else Confidence.low in
      let (level, reason) = corroborate declared (distinct s.sources) in
      record {
        name = "confidence";
        value = elim (weight_of w.confidence (confidence_text level)) [
          | some v ↦ v
          | none ↦ or_nought (weight_of w.confidence "low")
        ];
        reason = reason;
        neutral = false;
      }

  dismissed_score : Subject Carrier → Score Carrier
  dismissed_score s = record {
    fingerprint = s.finding.fingerprint;
    value = of_nat 0;
    severity = s.finding.severity;
    escalated = false;
    dismissed = true;
    factors =
        record {
          name = "status";
          value = of_nat 0;
          reason = "dismissed as " ++ status_text s.finding.status;
          neutral = false;
        }
        ∷ [];
  }

  live_score : Weights Carrier → Context → Subject Carrier → Score Carrier
  unfolding effective_severity severity_factor exploitability_factor exposure_factor
      criticality_factor confidence_factor
  live_score w pc s =
      let (severity, escalated) = effective_severity s in
      let (weight, reason) = severity_factor w severity escalated s in
      let expl = exploitability_factor w s.finding.threat in
      let exposure = exposure_factor w pc in
      let crit = criticality_factor w pc in
      let conf = confidence_factor w s in
      record {
        fingerprint = s.finding.fingerprint;
        value = mul (mul (mul (mul weight expl.value) exposure.value) crit.value) conf.value;
        severity = severity;
        escalated = escalated;
        dismissed = false;
        factors =
            record { name = "severity"; value = weight; reason = reason; neutral = false }
            ∷ expl
            ∷ exposure
            ∷ crit
            ∷ conf
            ∷ [];
      }

  unfoldable pub score_one : Weights Carrier → Context → Subject Carrier → Score Carrier
  unfolding dismissed_score live_score dismissed
  score_one w pc s = if dismissed s.finding.status then dismissed_score s else live_score w pc s

  pub score_one-dismissed :
      (w : Weights Carrier) (pc : Context) (s : Subject Carrier)
      → (score_one w pc s).dismissed ≡ dismissed s.finding.status
  unfolding score_one dismissed_score live_score
  score_one-dismissed w pc s = elim (Bool-cases (dismissed s.finding.status)) [
    | inl e ↦ rw e refl
    | inr e ↦ rw e refl
  ]
