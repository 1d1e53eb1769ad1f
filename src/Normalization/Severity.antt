-- ===== src/Normalization/Severity.antt =====
-- internal/normalization/severity.go.
-- A Go string type with named constants is a data type with a constructor for each constant, and
-- `other t` for any text `t` that is none of them.
pub mod Laws
use secure_dev.Prelude.{ℕ, String, Bool, true, false, ◌||◌, ◌==◌, if◌then◌else◌}
use secure_dev.Prelude.Text.{to_lower, to_upper, trim_space}

pub data Severity : Type 0 where
  critical high medium low info unknown : Severity
  other : String → Severity

abbrev pub severity_text : Severity → String
severity_text critical = "critical"
severity_text high = "high"
severity_text medium = "medium"
severity_text low = "low"
severity_text info = "info"
severity_text unknown = "unknown"
severity_text (Severity.other t) = t

-- The conversion `Severity(t)`.
unfoldable pub severity_of_text : String → Severity
severity_of_text t =
    if t == "critical"
    then critical
    else if t == "high"
    then high
    else if t == "medium"
    then medium
    else if t == "low"
    then low
    else if t == "info"
    then info
    else if t == "unknown"
    then unknown
    else Severity.other t

unfoldable pub severity_valid : Severity → Bool
severity_valid (Severity.other t) = false
severity_valid _ = true

unfoldable pub severity_rank : Severity → ℕ
severity_rank critical = 5
severity_rank high = 4
severity_rank medium = 3
severity_rank unknown = 2
severity_rank low = 1
severity_rank _ = 0

-- The `switch` of `MapSeverity`, on the trimmed and lowered text.
abbrev severity_of_word : String → Severity
severity_of_word w =
    if w == "critical"
    then critical
    else if w == "high"
    then high
    else if w == "medium" || w == "moderate"
    then medium
    else if w == "low"
    then low
    else if w == "negligible" || w == "info" || w == "informational" || w == "none"
    then info
    else unknown

unfoldable pub map_severity : String → Severity
unfolding to_lower trim_space
map_severity raw = severity_of_word (to_lower (trim_space raw))

abbrev zap_risk_of_code : String → Severity
zap_risk_of_code w =
    if w == "3"
    then high
    else if w == "2"
    then medium
    else if w == "1"
    then low
    else if w == "0"
    then info
    else unknown

unfoldable pub map_zap_risk : String → Severity
unfolding trim_space
map_zap_risk raw = zap_risk_of_code (trim_space raw)

pub data Confidence : Type 0 where
  high medium low : Confidence
  other : String → Confidence

abbrev pub confidence_text : Confidence → String
confidence_text Confidence.high = "high"
confidence_text Confidence.medium = "medium"
confidence_text Confidence.low = "low"
confidence_text (Confidence.other t) = t

unfoldable pub confidence_valid : Confidence → Bool
confidence_valid (Confidence.other t) = false
confidence_valid _ = true

abbrev zap_confidence_of_code : String → Confidence
zap_confidence_of_code w =
    if w == "3" || w == "4"
    then Confidence.high
    else if w == "2"
    then Confidence.medium
    else Confidence.low

unfoldable pub map_zap_confidence : String → Confidence
unfolding trim_space
map_zap_confidence raw = zap_confidence_of_code (trim_space raw)

abbrev semgrep_of_word : String → Severity
semgrep_of_word w =
    if w == "ERROR"
    then high
    else if w == "WARNING"
    then medium
    else if w == "INFO"
    then info
    else unknown

unfoldable pub map_semgrep_severity : String → Severity
unfolding to_upper trim_space
map_semgrep_severity raw = semgrep_of_word (to_upper (trim_space raw))
