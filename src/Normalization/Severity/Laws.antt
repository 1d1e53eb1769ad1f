-- ===== src/Normalization/Severity/Laws.antt =====
-- What the mappings onto the severity scale can and cannot answer.
use secure_dev.Prelude.{◌≤◌, String, true, ◌≡◌, refl, arith}
use secure_dev.Prelude.Text.{to_lower, trim_space}
use secure_dev.Normalization.Severity.{
  Severity, critical, high, severity_text, severity_valid, severity_rank, map_severity,
  map_zap_risk, map_semgrep_severity, severity_of_word,
}

word_valid : (w : String) → severity_valid (severity_of_word w) ≡ true
unfolding severity_valid
word_valid w = ground arith

map_severity_valid : (raw : String) → severity_valid (map_severity raw) ≡ true
unfolding map_severity
map_severity_valid raw = word_valid (to_lower (trim_space raw))

-- `MapSeverity` answers with a severity of the scale whatever a scanner wrote, and the scale's own
-- names stand for themselves.
pub map_severity_scale :
    (raw : String) (s : Severity)
    → severity_valid s ≡ true
    → (severity_valid (map_severity raw) ≡ true) × (map_severity (severity_text s) ≡ s)
unfolding severity_valid map_severity
map_severity_scale raw critical h = (map_severity_valid raw, refl)
map_severity_scale raw (Severity.other t) h = cc
map_severity_scale raw _ h = (map_severity_valid raw, refl)

-- Neither ZAP's nor semgrep's scale reaches critical: whatever the scanner wrote, the severity is
-- one of the scale, and ranks at most as high.
pub scanner_scales_stop_at_high :
    (raw : String)
    → (severity_valid (map_zap_risk raw) ≡ true)
      × (severity_rank (map_zap_risk raw) ≤ severity_rank high)
      × (severity_valid (map_semgrep_severity raw) ≡ true)
      × (severity_rank (map_semgrep_severity raw) ≤ severity_rank high)
unfolding severity_valid severity_rank map_zap_risk map_semgrep_severity
scanner_scales_stop_at_high raw = ground arith
