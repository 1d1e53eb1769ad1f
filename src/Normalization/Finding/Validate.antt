-- ===== src/Normalization/Finding/Validate.antt =====
-- internal/normalization/finding.go and threatintel.go: `Validate`.
use secure_dev.Prelude.{
  ℕ, Bool, true, false, not, ◌&&◌, ◌||◌, ◌≡◌, ◌↔◌, Option, none, some, nat_eqb, ◌==◌, arith, refl,
  if◌then◌else◌,
}
use secure_dev.Prelude.Float.{Float}
use secure_dev.Scanners.{Category, sast, secrets, dependency, container, iac, dast, license}
use secure_dev.Normalization.Severity.{Severity, severity_valid, Confidence, confidence_valid}
use secure_dev.Normalization.Fix.{FixError, fix_validate, blank}
use secure_dev.Normalization.Finding.{Status, status_text, status_valid, Epss, ThreatIntel, Finding}

pub data ThreatError : Type 0 where
  probability_range percentile_range no_source no_date : ThreatError

pub data FindingError : Type 0 where
  no_fingerprint no_scanner no_title : FindingError
  unknown_category : Category → FindingError
  unknown_severity : Severity → FindingError
  unknown_confidence : Confidence → FindingError
  unknown_status : Status → FindingError
  cvss_range : FindingError
  bad_fix : FixError → FindingError
  bad_threat : ThreatError → FindingError

-- SBOM is absent: an inventory holds nothing that is wrong.
unfoldable pub valid_category : Category → Bool
valid_category sast = true
valid_category secrets = true
valid_category dependency = true
valid_category container = true
valid_category iac = true
valid_category dast = true
valid_category license = true
valid_category _ = false

or_else : Option FindingError → Option FindingError → Option FindingError
or_else (some e) later = some e
or_else none later = later

map_error {ℓ} : {E : Type ℓ} → (E → FindingError) → Option E → Option FindingError
map_error f none = none
map_error f (some e) = some (f e)

module _ (float : Float) where
  open float use {Carrier, less, of_nat}

  -- `v < lo || v > hi`
  unfoldable pub outside : ℕ → ℕ → Carrier → Bool
  outside lo hi v = less v (of_nat lo) || less (of_nat hi) v

  epss_validate : Epss Carrier → Option ThreatError
  unfolding outside
  epss_validate e =
      if outside 0 1 e.probability
      then some probability_range
      else if outside 0 1 e.percentile
      then some percentile_range
      else if e.source == ""
      then some no_source
      else if nat_eqb e.observed_at 0
      then some no_date
      else none

  unfoldable pub threat_validate : ThreatIntel Carrier → Option ThreatError
  unfolding epss_validate
  threat_validate t = elim t.epss [ none ↦ none | some e ↦ epss_validate e ]

  unfoldable pub validate : Finding Carrier → Option FindingError
  unfolding or_else map_error
  validate f =
      if blank f.fingerprint
      then some no_fingerprint
      else if blank f.scanner
      then some no_scanner
      else if blank f.title
      then some no_title
      else if not (valid_category f.category)
      then some (unknown_category f.category)
      else if not (severity_valid f.severity)
      then some (unknown_severity f.severity)
      else if not (confidence_valid f.confidence)
      then some (unknown_confidence f.confidence)
      else if not (status_text f.status == "") && not (status_valid f.status)
      then some (unknown_status f.status)
      else if outside 0 10 f.cvss
      then some cvss_range
      else or_else (map_error bad_fix (fix_validate f.fix))
          (map_error bad_threat (threat_validate f.threat))

  -- What a threat signal needs to be trusted.
  pub record IsTrusted (e : Epss Carrier) : Type 0 where
    pub likely : outside 0 1 e.probability ≡ false
    pub ranked : outside 0 1 e.percentile ≡ false
    pub sourced : (e.source == "") ≡ false
    pub dated : nat_eqb e.observed_at 0 ≡ false

  abbrev pub Supports : Option (Epss Carrier) → Type 0
  Supports none = Unit
  Supports (some e) = IsTrusted e

  -- What a finding needs to be stored.
  pub record IsComplete (f : Finding Carrier) : Type 0 where
    pub identified : blank f.fingerprint ≡ false
    pub reported : blank f.scanner ≡ false
    pub titled : blank f.title ≡ false
    pub in_category : valid_category f.category ≡ true
    pub rated : severity_valid f.severity ≡ true
    pub trusted : confidence_valid f.confidence ≡ true
    pub in_state : ((status_text f.status == "") || status_valid f.status) ≡ true
    pub scored : outside 0 10 f.cvss ≡ false
    pub fixable : fix_validate f.fix ≡ none
    pub supported : Supports f.threat.epss

  epss_validate_iff : (e : Epss Carrier) → (epss_validate e ≡ none) ↔ IsTrusted e
  unfolding epss_validate
  epss_validate_iff e = (λ h. ground arith, λ h. ground arith)

  Supports-iff :
      (o : Option (Epss Carrier)) → (threat_validate (record { epss = o }) ≡ none) ↔ Supports o
  unfolding threat_validate
  Supports-iff none = (λ h. tt, λ h. refl)
  Supports-iff (some e) = epss_validate_iff e

  validate-IsComplete : (f : Finding Carrier) → validate f ≡ none → IsComplete f
  unfolding validate
  validate-IsComplete f h = record {
    identified = ground arith;
    reported = ground arith;
    titled = ground arith;
    in_category = ground arith;
    rated = ground arith;
    trusted = ground arith;
    in_state = ground arith;
    scored = ground arith;
    fixable = ground arith;
    supported = (Supports-iff f.threat.epss).0 (ground arith);
  }

  IsComplete-validate : (f : Finding Carrier) → IsComplete f → validate f ≡ none
  unfolding validate
  IsComplete-validate f c = ground (arith, (Supports-iff f.threat.epss).1 c.supported)

  -- A finding is accepted exactly if it is complete: it is identified, reported and titled, its
  -- category, severity, confidence and status are known ones (or the status is empty), its CVSS is not
  -- outside 0 to 10, its fix passes, and a threat signal has its numbers not outside 0 to 1, a source and
  -- a date.
  pub validate_iff : (f : Finding Carrier) → (validate f ≡ none) ↔ IsComplete f
  validate_iff f = (validate-IsComplete f, IsComplete-validate f)
