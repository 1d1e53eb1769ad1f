-- ===== src/Worker.antt =====
-- internal/worker/runner.go: the run of one scan job.
-- The stores, the executor, the adapters' parsers and the validator are parameters: a `World` says
-- what each of their calls answers, a Boolean being whether the call had no error. A run is the list
-- of the calls it makes on the stores, in their order; the instants that it passes, and the log, are
-- left out. `F` is the type of Go's float64, `C` that of an inventory's component.
pub mod Ingest
pub mod Persist
pub mod Run
pub mod Fair
pub mod Settled
use secure_dev.Prelude.{ℕ, ℤ, String, Bool, Option, List}
use secure_dev.Scanners.{Target, Degradation}
use secure_dev.Scanners.Registry.{Registry, Adapter}
use secure_dev.Scans.{Status, ScannerResult}
use secure_dev.Normalization.Finding.{Result}
use secure_dev.Normalization.Dedup.{DedupResult}
use secure_dev.Correlation.{Subject as Correlated, Result as Correlation}
use secure_dev.Risk.{Subject, Context, Assessment}
use secure_dev.Policies.{Policy}
use secure_dev.Policies.Evaluate.{Result as Evaluated}

abbrev pub Reason : Type 0
Reason = String

-- Of the raw result, the output.
pub record Execution : Type 0 where
  pub result : ScannerResult
  pub raw : String
  pub inventory : String

pub record Request : Type 0 where
  pub scan_id : String
  pub project_id : String
  pub target : Target
  pub selected : List Adapter

-- The calls of the two functions of `Events`.
pub data Progress : Type 0 where
  checked_out : String → String → Progress
  scanned : Execution → Progress

-- What `Execute` returns: nil, a *FatalError with its reason, or another error.
pub data Ending : Type 0 where
  finished : Ending
  fatal : Reason → Ending
  broken : Ending

-- A bill of materials that an adapter has read.
pub record Bom (C : Type 0) : Type 0 where
  pub components : List C
  pub degradations : List Degradation

pub record Artifact : Type 0 where
  pub found : Bool
  pub scan_id : String
  pub scanned_at : ℕ
  pub purls : List String
  pub complete : Bool

pub record ComponentStore (C : Type 0) : Type 0 where
  pub record_components : String → String → String → List C → Bool
  pub artifact_for : String → Option Artifact

pub record FindingStore (F : Type 0) : Type 0 where
  pub record_scan : String → String → DedupResult F → List String → Bool
  pub list_live : String → Option (List (Correlated F))
  pub replace_correlation : String → Correlation → Bool
  pub load_risk_inputs : String → Option (List (Subject F) × Context)
  pub save_risk_score : String → String → Assessment F → String → Bool

pub record PolicyStore (F : Type 0) : Type 0 where
  pub get_policy : String → Option (Policy F)
  pub save_result : String → String → Policy F → Evaluated F → Bool

pub record World (F C : Type 0) : Type 0 where
  pub registry : Registry
  pub max_attempts : ℤ
  -- The validator: the target to scan, or an error.
  pub validate_target : Target → Option Target
  pub mark_running : String → Bool
  -- The executor: what it reports, and what it returns.
  pub execute : Request → List Progress × Ending
  -- There is a sink for raw output.
  pub has_sink : Bool
  -- A store that is not configured is `none`.
  pub components : Option (ComponentStore C)
  pub findings : Option (FindingStore F)
  pub policies : Option (PolicyStore F)
  -- An adapter's own parsers, where it has them.
  pub inventorier : String → Option (String → Option (Bom C))
  pub normalizer : String → Option (String → String → Option (Result F))
  -- Risk's `Digest` of the default weights.
  pub weights_digest : String
  -- The worker's context has been cancelled by the end of the job.
  pub cancelled : Bool

pub data Call (F C : Type 0) : Type 0 where
  marked_running : String → Call F C
  recorded_checkout : String → String → String → Call F C
  stored_raw : String → String → String → Call F C
  recorded_components : String → String → String → List C → Call F C
  recorded_result : String → ScannerResult → Call F C
  recorded_findings : String → String → DedupResult F → List String → Call F C
  replaced_correlation : String → Correlation → Call F C
  saved_score : String → String → Assessment F → String → Call F C
  saved_verdict : String → String → Policy F → Evaluated F → Call F C
  finalized : String → Status → Reason → Call F C
