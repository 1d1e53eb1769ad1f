-- ===== src/Normalization.antt =====
-- internal/normalization: what scanners report, as one model.
pub mod Severity
pub mod Fix
pub mod Finding
pub mod Dedup
pub mod Fingerprint
