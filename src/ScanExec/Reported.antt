-- ===== src/ScanExec/Reported.antt =====
-- internal/scanexec/inprocess.go: what a run reports of its scanners.
use secure_dev.Prelude.{
  String, Bool, false, not, ◌≡◌, ◌⊎◌, refl, inl, inr, Option, none, some, List, [], ◌∷◌, ◌++◌, All,
  map, ◌==◌, if◌then◌else◌, Bool-cases,
}
use secure_dev.Scanners.{Target, kind_text, repository}
use secure_dev.Scanners.Registry.{Adapter}
use secure_dev.Scans.{ScannerStatus, ScannerResult}
use secure_dev.Worker.{
  Execution, Request, Progress, checked_out, scanned, Ending, finished, fatal, Reason,
}
use secure_dev.ScanExec.{
  Host, Tool, RawResult, ScanError, FetchAnswer, got, Ready, ready, unfetched, phase_text,
  fetch_phase, scan_phase, workspace_unavailable, classify, after_scan, after_version, run_scanner,
  dispatch, after_fetch, fetch_if_needed, scan_all, after_ready, in_workspace, execute_in_process,
}

-- The executions that are reported.
abbrev pub executions : List Progress → List Execution
executions [] = []
executions (checked_out commit branch ∷ rest) = executions rest
executions (scanned e ∷ rest) = e ∷ executions rest

-- The adapters up to the one by whose end the context is cancelled.
abbrev pub through : (Adapter → Bool) → List Adapter → List Adapter
through stop [] = []
through stop (a ∷ rest) = let later = through stop rest in a ∷ (if stop a then [] else later)

-- The scanner is no longer running, and just one that did not succeed has an error.
abbrev pub IsFinal : Execution → Type 0
IsFinal e =
    ((e.result.status ≡ ScannerStatus.succeeded) × (e.result.error ≡ ""))
    ⊎ (((e.result.status ≡ ScannerStatus.failed) ⊎ (e.result.status ≡ ScannerStatus.skipped))
        × ((e.result.error == "") ≡ false))

after_scan-IsFinal :
    (a : Adapter) (t : Tool) (target : Target) (answer : RawResult × ScanError)
    → IsFinal (after_scan a t target answer)
after_scan-IsFinal a t target (raw, ScanError.no_error) = inl (refl, refl)
after_scan-IsFinal a t target (raw, ScanError.binary_missing) = inr (inr refl, refl)
after_scan-IsFinal a t target (raw, _) = inr (inl refl, refl)

after_version-IsFinal :
    (e : ScanError) (t : Tool) (a : Adapter) (target : Target)
    → IsFinal (after_version e t a target)
after_version-IsFinal ScanError.binary_missing t a target = inr (inr refl, refl)
after_version-IsFinal _ t a target = after_scan-IsFinal a t target (t.scan target)

name-classify : (e : ScanError) (r : ScannerResult) → (classify e r).scanner ≡ r.scanner
name-classify ScanError.no_error r = refl
name-classify _ r = refl

name-after_scan :
    (a : Adapter) (t : Tool) (target : Target) (answer : RawResult × ScanError)
    → (after_scan a t target answer).result.scanner ≡ a.name
name-after_scan a t target (raw, e) = name-classify e _

name-after_version :
    (e : ScanError) (t : Tool) (a : Adapter) (target : Target)
    → (after_version e t a target).result.scanner ≡ a.name
name-after_version ScanError.binary_missing t a target = refl
name-after_version _ t a target = name-after_scan a t target (t.scan target)

-- What is reported is final, and of these adapters in order.
abbrev pub IsReport : List Execution → List Adapter → Type 0
IsReport es adapters =
    All IsFinal es × (map (λ e. e.result.scanner) es ≡ map (λ a. a.name) adapters)

module _ (h : Host) where
  dispatch-IsReport :
      (target : Target) (adapters : List Adapter)
      → IsReport (executions (dispatch h target adapters)) (through h.cancelled_after adapters)
  unfolding dispatch run_scanner
  dispatch-IsReport target [] = (tt, refl)
  dispatch-IsReport target (a ∷ rest) =
      let final = after_version-IsFinal (h.tool a).version_error (h.tool a) a target in
      let named = name-after_version (h.tool a).version_error (h.tool a) a target in
      elim (Bool-cases (h.cancelled_after a)) [
        | inl e ↦ rw e ((final, tt), rw named refl)
        | inr e ↦
            let (finals, names) = dispatch-IsReport target rest in
            rw e ((final, finals), rw (named, names) refl)
      ]

  -- The adapters that this run is to report.
  abbrev pub due : Request → List Adapter
  due req =
      if phase_text h.phase == phase_text fetch_phase
      then []
      else through h.cancelled_after req.selected

  -- Nothing but a reason, or every adapter that is due.
  abbrev pub IsReported : Request → List Progress × Ending → Type 0
  IsReported req r =
      ((reason : Reason) × (r ≡ ([], fatal reason)))
      ⊎ ((r.1 ≡ finished) × IsReport (executions r.0) (due req))

  scan_all-IsReport :
      (req : Request) (target : Target) → IsReport (executions (scan_all h req target)) (due req)
  scan_all-IsReport req target = elim (Bool-cases (phase_text h.phase == phase_text fetch_phase)) [
    | inl e ↦ rw e (tt, refl)
    | inr e ↦ rw e (dispatch-IsReport target req.selected)
  ]

  -- Checkouts alone.
  abbrev IsSilent : Ready → Type 0
  IsSilent (unfetched reason) = Unit
  IsSilent (ready told target) =
      (later : List Progress) → executions (told ++ later) ≡ executions later

  after_fetch-IsSilent :
      (target : Target) (answer : FetchAnswer) → IsSilent (after_fetch target answer)
  after_fetch-IsSilent target FetchAnswer.too_large = tt
  after_fetch-IsSilent target FetchAnswer.failed = tt
  after_fetch-IsSilent target (got f) = λ later. refl

  fetch_if_needed-IsSilent :
      (path : String) (target : Target) → IsSilent (fetch_if_needed h path target)
  unfolding fetch_if_needed
  fetch_if_needed-IsSilent path target =
      elim (Bool-cases (not (kind_text target.kind == kind_text repository))) [
        | inl e ↦ rw e (λ later. refl)
        | inr e ↦ elim (Bool-cases (phase_text h.phase == phase_text scan_phase)) [
          | inl f ↦ rw (e, f) (λ later. refl)
          | inr f ↦ rw (e, f) (after_fetch-IsSilent target (h.fetch path target))
        ]
      ]

  after_ready-IsReported :
      (req : Request) (o : Ready) → IsSilent o → IsReported req (after_ready h req o)
  after_ready-IsReported req (unfetched reason) silent = inl (reason, refl)
  after_ready-IsReported req (ready told target) silent =
      inr (refl, rw (silent (scan_all h req target)) (scan_all-IsReport req target))

  in_workspace-IsReported :
      (req : Request) (o : Option String) → IsReported req (in_workspace h req o)
  in_workspace-IsReported req none = inl (workspace_unavailable, refl)
  in_workspace-IsReported req (some path) =
      after_ready-IsReported req (fetch_if_needed h path req.target)
        (fetch_if_needed-IsSilent path req.target)

  -- A run fails as a whole, with a reason and no report, not even of a scanner, or it ends without an
  -- error and reports, each once and in their order, the adapters asked for, up to the one by whose end
  -- the context is cancelled; in the fetch phase it reports none. Each that is reported has succeeded,
  -- without an error, or it has failed or been skipped, with one; none is left running.
  pub execute_in_process-IsReported : (req : Request) → IsReported req (execute_in_process h req)
  unfolding execute_in_process
  execute_in_process-IsReported req = in_workspace-IsReported req h.workspace
