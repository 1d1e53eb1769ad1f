-- ===== src/Examples/Scanning.antt =====
-- Runs of the theorems on scans and on the registry of scanners.
use secure_dev.Prelude.{pos, String, true, ◌≡◌, ◌≢◌, refl, ◌↔◌, none, some, [], ◌∷◌, arith}
use secure_dev.Scanners.{repository, filesystem, sast, secrets}
use secure_dev.Scanners.Registry.{Adapter, Registry, resolved, resolve}
use secure_dev.Scanners.Registry.Laws.{ResolvedBy, resolve-ResolvedBy}
use secure_dev.Scans.{
  queued, running, partial, completed, failed, ScannerStatus, ScannerResult, Scan, valid, terminal,
  transition, complete, has_complete_coverage,
}
use secure_dev.Scans.Lifecycle as Lifecycle
use secure_dev.Scans.Lifecycle.{
  ◌⟶◌, Moved, Event, result, move, end, run, life, transition_correct, run-IsWellFormed,
  terminal_final,
}
use secure_dev.Scans.Create.{NewScan, accepted, rejected, bad_branch, normalize}
use secure_dev.Scans.Create.Canonical.{IsCanonical, normalize-IsCanonical}
use secure_dev.Scans.Coverage.{complete-coverage}

abbrev whole_output : ScannerResult
whole_output = record {
  scanner = "semgrep";
  status = ScannerStatus.succeeded;
  version = "1";
  exit_code = pos 0;
  duration = 5;
  started_at = some 2;
  error = "";
  degradations = [];
}

abbrev cut_output : ScannerResult
cut_output = record whole_output { scanner = "trivy"; degradations = "output_truncated" ∷ [] }

abbrev waiting : Scan
waiting = record {
  id = "s";
  project_id = "p";
  repository_id = none;
  status = queued;
  target = record {
    kind = repository;
    repository_url = "https://example.com/r";
    ref = "main";
    path = "";
    image_ref = "";
    endpoint_url = "";
  };
  commit_sha = "";
  branch = "main";
  requested_scanners = [];
  failure_reason = "";
  results = [];
  queued_at = 1;
  started_at = none;
  completed_at = none;
}

abbrev working : Scan
working = record waiting {
  status = running;
  started_at = some 2;
  results = whole_output ∷ cut_output ∷ [];
}

abbrev ended : Scan
ended = record working { status = partial; completed_at = some 9 }

complete-coverage_example :
    ((complete working 9).1 ≡ none)
    × (((complete working 9).0.status ≡ completed) ↔ (has_complete_coverage working ≡ true))
complete-coverage_example = complete-coverage working 9 refl

waiting-IsWellFormed : Lifecycle.IsWellFormed waiting
unfolding valid terminal
waiting-IsWellFormed = record {
  known = refl;
  closed = refl;
  waiting = λ h. refl;
  live = λ h. cc;
  covered = λ h. ground (arith, h);
  distinct = tt;
}

run-IsWellFormed_example : Lifecycle.IsWellFormed (
    run waiting
      (move running 2 ∷ result whole_output ∷ result cut_output ∷ end 9 ∷ move failed 10 ∷ []))
run-IsWellFormed_example =
    run-IsWellFormed waiting
      (move running 2 ∷ result whole_output ∷ result cut_output ∷ end 9 ∷ move failed 10 ∷ [])
      waiting-IsWellFormed

transition_correct_example :
    (((transition working completed 9).1 ≡ none) ↔ running ⟶ completed)
    × ((transition working completed 9).1 ≡ none
        → Moved working completed 9 (transition working completed 9).0)
    × ((transition working completed 9).1 ≢ none → (transition working completed 9).0 ≡ working)
transition_correct_example = transition_correct working completed 9

terminal_final_example : life (run ended (move running 11 ∷ end 12 ∷ [])) ≡ life ended
unfolding terminal
terminal_final_example = terminal_final ended (move running 11 ∷ end 12 ∷ []) refl

abbrev adapter : String → Adapter
adapter name = record {
  name = name;
  capabilities = record {
    supported = filesystem ∷ [];
    categories = sast ∷ secrets ∷ [];
    network_kinds = [];
  };
}

abbrev two_adapters : Registry
two_adapters = ("trivy", adapter "trivy") ∷ ("semgrep", adapter "semgrep") ∷ []

explicit :
    resolve two_adapters filesystem ("trivy" ∷ "semgrep" ∷ [])
    ≡ resolved (adapter "semgrep" ∷ adapter "trivy" ∷ [])
unfolding resolve
explicit = refl

resolve-ResolvedBy_example :
    ResolvedBy two_adapters filesystem
      ("trivy" ∷ "semgrep" ∷ [])
      (adapter "semgrep" ∷ adapter "trivy" ∷ [])
resolve-ResolvedBy_example =
    resolve-ResolvedBy two_adapters filesystem "trivy" ("semgrep" ∷ [])
      (adapter "semgrep" ∷ adapter "trivy" ∷ []) explicit

abbrev asked : NewScan
asked = record {
  project_id = " p ";
  repository_id = some " r ";
  target = waiting.target;
  commit_sha = "ABCDEF0";
  branch = "feature/x-1";
  scanners = "Trivy" ∷ "semgrep" ∷ " trivy" ∷ [];
}

abbrev granted : NewScan
granted = record asked {
  project_id = "p";
  repository_id = some "r";
  commit_sha = "abcdef0";
  scanners = "semgrep" ∷ "trivy" ∷ [];
}

asked-accepted : normalize asked ≡ accepted granted
unfolding normalize
asked-accepted = refl

normalize-IsCanonical_example : IsCanonical asked.scanners granted
normalize-IsCanonical_example = normalize-IsCanonical asked granted asked-accepted

flag_branch : normalize (record asked { branch = "--flag" }) ≡ rejected bad_branch
unfolding normalize
flag_branch = refl
