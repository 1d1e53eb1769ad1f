-- ===== src/ScanExec.antt =====
-- internal/scanexec/inprocess.go: a scan in the worker's own process.
-- A `Host` says what each call of the workspace, the fetcher and the adapters answers. An error that
-- the code tests with errors.Is is the first of the tested errors that it is. The log and the removal
-- of the workspace are left out.
pub mod Reported
use secure_dev.Prelude.{
  ℕ, ℤ, pos, String, Bool, true, false, not, Option, none, some, List, [], ◌∷◌, ◌++◌, ◌==◌,
  if◌then◌else◌,
}
use secure_dev.Scanners.{
  Target, Kind, repository, filesystem, kind_text, Degradation, output_truncated_reason,
}
use secure_dev.Scanners.Registry.{Adapter}
use secure_dev.Scans.{ScannerStatus, ScannerResult}
use secure_dev.Worker.{
  Execution, Request, Progress, checked_out, scanned, Ending, finished, fatal, Reason,
}

pub data Phase : Type 0 where
  all_phases fetch_phase scan_phase : Phase
  other : String → Phase

abbrev pub phase_text : Phase → String
phase_text all_phases = ""
phase_text fetch_phase = "fetch"
phase_text scan_phase = "scan"
phase_text (Phase.other t) = t

abbrev pub workspace_unavailable : Reason
workspace_unavailable = "the worker could not create an isolated workspace"

abbrev pub fetch_failed : Reason
fetch_failed = "the repository could not be fetched"

abbrev pub target_too_large : Reason
target_too_large = "the repository exceeds the configured size limits"

pub record Fetched : Type 0 where
  pub path : String
  pub commit_sha : String
  pub branch : String

pub data FetchAnswer : Type 0 where
  got : Fetched → FetchAnswer
  too_large failed : FetchAnswer

pub data ScanError : Type 0 where
  no_error binary_missing exec_timeout output_too_large cancelled unclassified : ScanError

pub record RawResult : Type 0 where
  pub output : String
  pub exit_code : ℤ
  pub degradations : List Degradation

-- What the calls of one adapter answer. An adapter with an inventory of its own answers with it, or
-- with an error.
pub record Tool : Type 0 where
  pub version : String
  pub version_error : ScanError
  pub scan : Target → RawResult × ScanError
  pub inventory : Option (Target → Option String)
  pub started : ℕ
  pub took : ℕ

pub record Host : Type 0 where
  pub phase : Phase
  -- The workspace's path, or an error.
  pub workspace : Option String
  pub fetch : String → Target → FetchAnswer
  pub tool : Adapter → Tool
  -- The context is cancelled by the end of the adapter's run.
  pub cancelled_after : Adapter → Bool

abbrev pub begun : Adapter → Tool → ScannerResult
begun a t = record {
  scanner = a.name;
  status = ScannerStatus.running;
  version = "";
  exit_code = pos 0;
  duration = 0;
  started_at = some t.started;
  error = "";
  degradations = [];
}

abbrev pub missing : ScannerResult → ScannerResult
missing r = record r { status = ScannerStatus.skipped; error = "scanner binary is not installed" }

abbrev pub failed_with : String → ScannerResult → ScannerResult
failed_with why r = record r { status = ScannerStatus.failed; error = why }

-- The switch on the error of `Scan`.
abbrev pub classify : ScanError → ScannerResult → ScannerResult
classify ScanError.no_error r = record r { status = ScannerStatus.succeeded }
classify ScanError.binary_missing r = missing r
classify ScanError.exec_timeout r = failed_with "scanner exceeded its execution timeout" r
classify ScanError.output_too_large r =
    failed_with "scanner output exceeded the size limit"
      (record r { degradations = output_truncated_reason ∷ [] })
classify ScanError.cancelled r = failed_with "scan was cancelled" r
classify ScanError.unclassified r = failed_with "scanner execution failed" r

-- An unsupported target and any other error leave no inventory.
abbrev pub output_or_none : Option String → String
output_or_none none = ""
output_or_none (some output) = output

abbrev pub inventory_output : ScanError → Option (Target → Option String) → Target → String
inventory_output ScanError.no_error (some scan_inventory) target =
    output_or_none (scan_inventory target)
inventory_output _ _ target = ""

abbrev pub after_scan : Adapter → Tool → Target → RawResult × ScanError → Execution
after_scan a t target (raw, err) = record {
  result = classify err (record (begun a t) {
    version = t.version;
    exit_code = raw.exit_code;
    duration = t.took;
    degradations = raw.degradations;
  });
  raw = raw.output;
  inventory = inventory_output err t.inventory target;
}

abbrev pub after_version : ScanError → Tool → Adapter → Target → Execution
after_version ScanError.binary_missing t a target = record {
  result = missing (begun a t);
  raw = "";
  inventory = "";
}
after_version _ t a target = after_scan a t target (t.scan target)

unfoldable pub run_scanner : Tool → Adapter → Target → Execution
run_scanner t a target = after_version t.version_error t a target

-- The loop over the adapters, which a cancelled context ends.
unfoldable pub dispatch : Host → Target → List Adapter → List Progress
unfolding run_scanner
dispatch h target [] = []
dispatch h target (a ∷ rest) =
    let later = dispatch h target rest in
    scanned (run_scanner (h.tool a) a target) ∷ (if h.cancelled_after a then [] else later)

abbrev pub local_target : String → Target
local_target path = record {
  kind = filesystem;
  repository_url = "";
  ref = "";
  path = path;
  image_ref = "";
  endpoint_url = "";
}

-- The target to scan, with what is reported of the checkout, or the reason of a failure.
pub data Ready : Type 0 where
  ready : List Progress → Target → Ready
  unfetched : Reason → Ready

abbrev pub after_fetch : Target → FetchAnswer → Ready
after_fetch target FetchAnswer.too_large = unfetched target_too_large
after_fetch target FetchAnswer.failed = unfetched fetch_failed
after_fetch target (got f) =
    ready (checked_out f.commit_sha (if f.branch == "" then target.ref else f.branch) ∷ [])
      (local_target f.path)

unfoldable pub fetch_if_needed : Host → String → Target → Ready
fetch_if_needed h path target =
    if not (kind_text target.kind == kind_text repository)
    then ready [] target
    else if phase_text h.phase == phase_text scan_phase
    then ready [] (local_target path)
    else after_fetch target (h.fetch path target)

abbrev pub scan_all : Host → Request → Target → List Progress
scan_all h req target =
    if phase_text h.phase == phase_text fetch_phase then [] else dispatch h target req.selected

abbrev pub after_ready : Host → Request → Ready → List Progress × Ending
after_ready h req (unfetched reason) = ([], fatal reason)
after_ready h req (ready told target) = (told ++ scan_all h req target, finished)

abbrev pub in_workspace : Host → Request → Option String → List Progress × Ending
in_workspace h req none = ([], fatal workspace_unavailable)
in_workspace h req (some path) = after_ready h req (fetch_if_needed h path req.target)

-- `Execute`
unfoldable pub execute_in_process : Host → Request → List Progress × Ending
unfolding fetch_if_needed dispatch
execute_in_process h req = in_workspace h req h.workspace
