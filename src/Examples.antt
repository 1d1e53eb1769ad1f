-- ===== src/Examples.antt =====
-- Data that the runs of the theorems share: findings, with whole numbers in place of Go's float64.
mod Scanning
mod Normalizing
mod Correlating
mod Gating
mod Access
mod Admitting
mod Scoring
mod Planning
mod Projecting
mod Triaging
mod Executing
mod Guarding
mod Working
use Prim.Native.Nat.{◌/◌}
use secure_dev.Prelude.{ℕ, ◌+◌, ◌-◌, ◌*◌, String, false, none, [], ltb, nat_eqb}
use secure_dev.Prelude.Float.{Float}
use secure_dev.Scanners.{Category}
use secure_dev.Normalization.Severity.{Severity, Confidence}
use secure_dev.Normalization.Fix.{FixState}
use secure_dev.Normalization.Finding.{Status, Finding}

abbrev pub whole : Float
whole = record {
  Carrier = ℕ;
  less = ltb;
  of_nat = λ n. n;
  ratio = λ n d. n / d;
  add = λ a b. a + b;
  sub = λ a b. a - b;
  mul = λ a b. a * b;
  div = λ a b. a / b;
  neg = λ a. 0;
  exp = λ a. a;
  is_nan = λ a. false;
  equal = nat_eqb;
  trunc = λ a. a;
  format = λ digits a. "";
}

abbrev pub finding : String → String → Category → Severity → String → Finding ℕ
finding fingerprint scanner category severity cve = record {
  fingerprint = fingerprint;
  project_id = "p";
  scanner = scanner;
  scanner_finding_id = "rule";
  scanner_severity = "HIGH";
  category = category;
  severity = severity;
  confidence = Confidence.high;
  title = "title";
  description = "";
  remediation = "";
  package_name = "lib";
  package_version = "1.0";
  purl = "pkg:npm/lib@1.0";
  image = "";
  endpoint = "";
  cve = cve;
  cwe = "";
  cvss = 7;
  fix = record { state = FixState.unknown; fixed_versions = []; references = [] };
  threat = record { epss = none };
  status = Status.open_;
}
