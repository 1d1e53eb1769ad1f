-- ===== src/Worker/Settled.antt =====
-- internal/worker/runner.go: how a job ends.
use secure_dev.Prelude.{
  ℕ, zero, suc, String, Bool, true, false, ◌≡◌, refl, sym, ◌⊎◌, inl, inr, List, [], ◌∷◌, ◌++◌, All,
  All-append, All-imp, All-map, All-keep_imp, any, any-append, ◌&&◌, eq_refl, ◌==◌, Bool-cases,
  Option-cases, arith,
}
use mathlib.Core.List.{append_assoc}
use secure_dev.Prelude.Float.{Float}
use secure_dev.Scanners.{Target}
use secure_dev.Scanners.Registry.{Adapter, Resolution, resolved, refused}
use secure_dev.Scans.{
  Status, failed, terminal, ScannerResult, tally, result_succeeded, put_result, status_of_tally,
  result_succeeded, put_result, status_of_results,
}
use secure_dev.Normalization.Finding.{Result}
use secure_dev.Queue.{Job}
use secure_dev.Worker.{
  recorded_result, Reason, Progress, checked_out, scanned, Ending, finished, fatal, broken, World,
  Call, marked_running, finalized,
}
use secure_dev.Worker.Ingest.{ingest}
use secure_dev.Worker.Persist.{persist_findings, complete_scanners, gate}
use secure_dev.Worker.Fair.{IsFair, on_all-IsFair, persist-IsFair, gate-IsFair}
use secure_dev.Worker.Run.{
  Gathered, nothing_gathered, after_execution, request_of, exceeds, on_progress, on_all,
  final_status, final_reason, conclude, settle, start, select_and_start, execute_job,
}

-- A result of this scanner is recorded, and it succeeded without degradation.
abbrev pub recorded_ok : {F : Type 0} {C : Type 0} → String → Call F C → Bool
recorded_ok name (recorded_result id r) = r.scanner == name && result_succeeded r
recorded_ok name _ = false

-- Each of these scanners has such a result among the calls.
abbrev pub AreRecorded : {F C : Type 0} → List (Call F C) → List String → Type 0
AreRecorded calls scanners = All (λ n. any (recorded_ok n) calls ≡ true) scanners

module _ (float : Float) {C : Type 0} (world : World float.Carrier C) (job : Job) where
  open float use {Carrier}

  -- How a job ends: the calls end by finalizing its scan, as a status that is terminal, and none
  -- before does so; a verdict saved before takes coverage for complete exactly if that status is
  -- completed.
  pub record IsSettled (calls : List (Call Carrier C)) : Type 0 where
    pub earlier : List (Call Carrier C)
    pub status : Status
    pub reason : Reason
    pub ends : calls ≡ earlier ++ finalized job.scan_id status reason ∷ []
    pub last : terminal status ≡ true
    pub fair : All (IsFair (AreRecorded earlier) status) earlier

  -- A scan that could not be marked as running: nothing else is called.
  abbrev pub IsStranded : List (Call Carrier C) → Type 0
  IsStranded calls =
      (calls ≡ marked_running job.scan_id ∷ []) × (world.mark_running job.scan_id ≡ false)

  status_of_tally-terminal : (t : ℕ × ℕ) → terminal (status_of_tally t) ≡ true
  unfolding terminal
  status_of_tally-terminal (zero, bad) = refl
  status_of_tally-terminal (suc good, zero) = refl
  status_of_tally-terminal (suc good, suc bad) = refl

  from_results : (results : List ScannerResult) → terminal (status_of_results results) ≡ true
  unfolding status_of_results terminal
  from_results [] = refl
  from_results (r ∷ rest) = status_of_tally-terminal (tally (r ∷ rest))

  final-terminal :
      (results : List ScannerResult) → terminal (final_status float world job results) ≡ true
  unfolding final_status terminal
  final-terminal results = elim (Bool-cases world.cancelled) [
    | inl e ↦ rw e refl
    | inr e ↦ rw e (from_results results)
  ]

  -- Of each result gathered, one like it has been recorded, if it succeeded.
  abbrev IsBacked : List (Call Carrier C) → List ScannerResult → Type 0
  IsBacked calls results =
      All (λ r. result_succeeded r ≡ true → any (recorded_ok r.scanner) calls ≡ true) results

  put_result-All :
      (P : ScannerResult → Type 0) (results : List ScannerResult) (r : ScannerResult)
      → All P results
      → P r
      → All P (put_result results r)
  unfolding put_result
  put_result-All P [] r h k = (k, tt)
  put_result-All P (x ∷ rest) r (h, hs) k = elim (Bool-cases (x.scanner == r.scanner)) [
    | inl e ↦ rw e (k, hs)
    | inr e ↦ rw e (h, put_result-All P rest r hs k)
  ]

  later-IsBacked :
      (calls more : List (Call Carrier C)) (results : List ScannerResult)
      → IsBacked calls results
      → IsBacked (calls ++ more) results
  later-IsBacked calls more results h =
      All-imp (λ r k good. rw (any-append (recorded_ok r.scanner) calls more, k good) refl) results
        h

  recorded-IsBacked :
      (calls : List (Call Carrier C)) (r : ScannerResult)
      → result_succeeded r ≡ true
      → any (recorded_ok r.scanner) (calls ++ recorded_result job.scan_id r ∷ []) ≡ true
  recorded-IsBacked calls r good =
      rw
        (
          any-append (recorded_ok r.scanner) calls (recorded_result job.scan_id r ∷ []),
          eq_refl r.scanner,
          good,
        )
        (ground arith)

  on_progress-IsBacked :
      (g : Gathered Carrier C) (p : Progress)
      → IsBacked g.calls g.results
      → IsBacked (on_progress float world job g p).calls (on_progress float world job g p).results
  unfolding on_progress
  on_progress-IsBacked g (checked_out commit branch) h = later-IsBacked g.calls _ g.results h
  on_progress-IsBacked g (scanned x) h =
      put_result-All _ g.results _
        (later-IsBacked (g.calls ++ (ingest world job x).0) (recorded_result job.scan_id _ ∷ [])
          g.results (later-IsBacked g.calls (ingest world job x).0 g.results h))
        (recorded-IsBacked (g.calls ++ (ingest world job x).0) _)

  on_all-IsBacked :
      (g : Gathered Carrier C) (reports : List Progress)
      → IsBacked g.calls g.results
      → IsBacked (on_all float world job g reports).calls (on_all float world job g reports).results
  unfolding on_all
  on_all-IsBacked g [] h = h
  on_all-IsBacked g (p ∷ rest) h =
      on_all-IsBacked (on_progress float world job g p) rest (on_progress-IsBacked g p h)

  -- The scanners by whose silence findings are resolved.
  complete-recorded :
      (calls more : List (Call Carrier C)) (results : List ScannerResult)
      → IsBacked calls results
      → AreRecorded (calls ++ more) (complete_scanners float world job results)
  unfolding complete_scanners
  complete-recorded calls more results h =
      All-map (λ n. any (recorded_ok n) (calls ++ more) ≡ true) _ _
        (All-keep_imp (λ r. any (recorded_ok r.scanner) (calls ++ more) ≡ true) result_succeeded
          results (later-IsBacked calls more results h))

  -- The calls that any job may begin with.
  abbrev IsOpening : List (Call Carrier C) → Type 1
  IsOpening calls =
      (known : List String → Type 0) (status : Status) → All (IsFair known status) calls

  conclude-IsSettled :
      (calls : List (Call Carrier C)) (results : List ScannerResult)
      (normalized : List (Result Carrier))
      → IsOpening calls
      → IsBacked calls results
      → IsSettled (calls ++ conclude float world job results normalized)
  unfolding conclude
  conclude-IsSettled calls results normalized fair backed =
      let status = final_status float world job results in
      let (stored, scored) = persist_findings float world job results normalized in
      let later = stored ++ gate float world job scored status in
      let known = AreRecorded (calls ++ later) in
      record {
        earlier = calls ++ later;
        status = status;
        reason = final_reason float world job status;
        ends = sym (append_assoc calls later _);
        last = final-terminal results;
        fair = All-append (IsFair known status) calls later (fair known status) (
            All-append (IsFair known status) stored (gate float world job scored status)
              (persist-IsFair float world job known status results normalized
                (complete-recorded calls later results backed))
              (gate-IsFair float world job known status scored));
      }

  failed-IsSettled :
      (calls : List (Call Carrier C)) (reason : Reason)
      → IsOpening calls
      → IsSettled (calls ++ finalized job.scan_id failed reason ∷ [])
  unfolding terminal
  failed-IsSettled calls reason fair = record {
    earlier = calls;
    status = failed;
    reason = reason;
    ends = refl;
    last = refl;
    fair = fair (AreRecorded calls) failed;
  }

  settle-IsSettled :
      (g : Gathered Carrier C) (ending : Ending)
      → IsOpening g.calls
      → IsBacked g.calls g.results
      → IsSettled (marked_running job.scan_id ∷ settle float world job g ending)
  unfolding settle
  settle-IsSettled g finished fair backed =
      conclude-IsSettled (marked_running job.scan_id ∷ g.calls) g.results g.normalized
        (λ known status. (tt, fair known status)) backed
  settle-IsSettled g (fatal reason) fair backed =
      failed-IsSettled (marked_running job.scan_id ∷ g.calls) reason
        λ known status. (tt, fair known status)
  settle-IsSettled g broken fair backed =
      failed-IsSettled (marked_running job.scan_id ∷ g.calls) _
        λ known status. (tt, fair known status)

  after-IsSettled :
      (run : List Progress × Ending)
      → IsSettled (marked_running job.scan_id ∷ after_execution float world job run)
  unfolding after_execution
  after-IsSettled (reports, ending) =
      settle-IsSettled (on_all float world job (nothing_gathered float world job) reports) ending
        (λ known status.
          on_all-IsFair float world job known status (nothing_gathered float world job) reports tt)
        (on_all-IsBacked (nothing_gathered float world job) reports tt)

  start-IsSettled :
      (target : Target) (selected : List Adapter)
      → IsSettled (start float world job target selected)
        ⊎ IsStranded (start float world job target selected)
  unfolding start
  start-IsSettled target selected = elim (Bool-cases (world.mark_running job.scan_id)) [
    | inl e ↦
        rw e (inl (after-IsSettled (world.execute (request_of float world job target selected))))
    | inr e ↦ rw e (inr (refl, refl))
  ]

  select-IsSettled :
      (target : Target) (r : Resolution)
      → IsSettled (select_and_start float world job target r)
        ⊎ IsStranded (select_and_start float world job target r)
  unfolding select_and_start
  select-IsSettled target (refused e) = inl (failed-IsSettled [] _ λ known status. tt)
  select-IsSettled target (resolved selected) = start-IsSettled target selected

  -- Every job ends with its scan finalized, once and as the last call, in a terminal status; but for
  -- the one case that the scan could not be marked as running, where nothing else is called. A
  -- verdict of the gate takes the scan's coverage for complete exactly if the scan is finalized as
  -- completed. And findings are stored with leave to resolve those that a scanner did not report only
  -- for scanners of which a result without failure or degradation was recorded.
  pub execute_job-IsSettled :
      IsSettled (execute_job float world job) ⊎ IsStranded (execute_job float world job)
  unfolding execute_job
  execute_job-IsSettled = elim (Bool-cases (exceeds job.attempt world.max_attempts)) [
    | inl e ↦ rw e (inl (failed-IsSettled [] _ λ known status. tt))
    | inr e ↦ rw e (elim (Option-cases (world.validate_target job.target)) [
      | inl g ↦ rw g (inl (failed-IsSettled [] _ λ known status. tt))
      | inr (target, g) ↦ rw g (select-IsSettled target _)
    ])
  ]
