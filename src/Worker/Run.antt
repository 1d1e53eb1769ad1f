-- ===== src/Worker/Run.antt =====
-- internal/worker/runner.go: `executeJob`.
use secure_dev.Prelude.{
  ℤ, pos, negsuc, String, Bool, true, false, Option, none, some, List, [], ◌∷◌, ◌++◌, ltb, ◌==◌,
  if◌then◌else◌,
}
use secure_dev.Prelude.Float.{Float}
use secure_dev.Scanners.{Target, effective_kind}
use secure_dev.Scanners.Registry.{Adapter, Resolution, resolved, refused, resolve}
use secure_dev.Scans.{
  Status, failed, cancelled, status_text, ScannerResult, put_result, status_of_results,
}
use secure_dev.Normalization.Finding.{Result}
use secure_dev.Queue.{Job}
use secure_dev.Worker.{
  Reason, Request, Progress, checked_out, scanned, Ending, finished, fatal, broken, World, Call,
  marked_running, recorded_checkout, recorded_result, finalized,
}
use secure_dev.Worker.Ingest.{ingest}
use secure_dev.Worker.Persist.{persist_findings, gate}

abbrev pub target_invalid : Reason
target_invalid = "target failed validation"

abbrev pub no_scanner_available : Reason
no_scanner_available = "no registered scanner supports this target kind"

abbrev pub scanner_not_registered : Reason
scanner_not_registered = "a requested scanner is not registered for this target kind"

abbrev pub max_attempts_exceeded : Reason
max_attempts_exceeded = "the job exceeded the maximum number of delivery attempts"

abbrev pub all_scanners_degraded : Reason
all_scanners_degraded = "every scanner failed or was skipped"

-- `a > b` on ints.
abbrev pub exceeds : ℤ → ℤ → Bool
exceeds (pos a) (pos b) = ltb b a
exceeds (pos a) (negsuc b) = true
exceeds (negsuc a) (pos b) = false
exceeds (negsuc a) (negsuc b) = ltb a b

-- What the callbacks have gathered: the calls, the scan's results, and what was normalized.
pub record Gathered (F C : Type 0) : Type 0 where
  pub calls : List (Call F C)
  pub results : List ScannerResult
  pub normalized : List (Result F)

abbrev append_some {ℓ} : {A : Type ℓ} → List A → Option A → List A
append_some l none = l
append_some l (some a) = l ++ a ∷ []

module _ (float : Float) {C : Type 0} (world : World float.Carrier C) (job : Job) where
  open float use {Carrier}

  -- The callbacks of `Events`.
  unfoldable pub on_progress : Gathered Carrier C → Progress → Gathered Carrier C
  unfolding ingest put_result
  on_progress g (checked_out commit branch) = record g {
    calls = g.calls ++ recorded_checkout job.scan_id commit branch ∷ [];
  }
  on_progress g (scanned x) =
      let (calls, result, normalized) = ingest world job x in
      record {
        calls = g.calls ++ calls ++ recorded_result job.scan_id result ∷ [];
        results = put_result g.results result;
        normalized = append_some g.normalized normalized;
      }

  unfoldable pub on_all : Gathered Carrier C → List Progress → Gathered Carrier C
  unfolding on_progress
  on_all g [] = g
  on_all g (p ∷ rest) = on_all (on_progress g p) rest

  abbrev pub nothing_gathered : Gathered Carrier C
  nothing_gathered = record { calls = []; results = []; normalized = [] }

  abbrev pub failed_with : Reason → Call Carrier C
  failed_with reason = finalized job.scan_id failed reason

  -- `scan.TerminalStatus()`, unless the worker's context was cancelled.
  unfoldable pub final_status : List ScannerResult → Status
  unfolding status_of_results
  final_status results = if world.cancelled then cancelled else status_of_results results

  abbrev pub final_reason : Status → Reason
  final_reason status = if status_text status == "failed" then all_scanners_degraded else ""

  -- The calls behind a run of the executor that had no error.
  unfoldable pub conclude : List ScannerResult → List (Result Carrier) → List (Call Carrier C)
  unfolding persist_findings gate final_status
  conclude results normalized =
      let (calls, scored) = persist_findings float world job results normalized in
      let status = final_status results in
      calls
      ++ gate float world job scored status
      ++ finalized job.scan_id status (final_reason status) ∷ []

  unfoldable pub settle : Gathered Carrier C → Ending → List (Call Carrier C)
  unfolding conclude
  settle g finished = g.calls ++ conclude g.results g.normalized
  settle g (fatal reason) = g.calls ++ failed_with reason ∷ []
  settle g broken = g.calls ++ failed_with all_scanners_degraded ∷ []

  unfoldable pub after_execution : List Progress × Ending → List (Call Carrier C)
  unfolding on_all settle
  after_execution (reports, ending) = settle (on_all nothing_gathered reports) ending

  abbrev pub request_of : Target → List Adapter → Request
  request_of target selected = record {
    scan_id = job.scan_id;
    project_id = job.project_id;
    target = target;
    selected = selected;
  }

  unfoldable pub start : Target → List Adapter → List (Call Carrier C)
  unfolding after_execution
  start target selected =
      if world.mark_running job.scan_id
      then marked_running job.scan_id ∷ after_execution (world.execute (request_of target selected))
      else marked_running job.scan_id ∷ []

  abbrev selection_reason : List String → Reason
  selection_reason [] = no_scanner_available
  selection_reason (name ∷ rest) = scanner_not_registered

  unfoldable pub select_and_start : Target → Resolution → List (Call Carrier C)
  unfolding start
  select_and_start target (refused e) = failed_with (selection_reason job.requested) ∷ []
  select_and_start target (resolved selected) = start target selected

  unfoldable pub execute_job : List (Call Carrier C)
  unfolding select_and_start resolve effective_kind
  execute_job =
      if exceeds job.attempt world.max_attempts
      then failed_with max_attempts_exceeded ∷ []
      else elim (world.validate_target job.target) [
        | none ↦ failed_with target_invalid ∷ []
        | some target ↦
            select_and_start target
              (resolve world.registry (effective_kind target.kind) job.requested)
      ]
