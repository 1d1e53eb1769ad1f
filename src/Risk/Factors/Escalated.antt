-- ===== src/Risk/Factors/Escalated.antt =====
-- internal/risk/risk.go: the severity at which a finding is scored.
use secure_dev.Prelude.Float.{Float}
use secure_dev.Normalization.Severity.{Severity}
use secure_dev.Risk.Weights.{Weights}
