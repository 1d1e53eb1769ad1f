-- ===== src/Examples/Executing.antt =====
-- A run of the theorem on a scan in the worker's own process.
use secure_dev.Prelude.{String, pos, none, some, [], ◌∷◌, ◌==◌, if◌then◌else◌}
use secure_dev.Scanners.{repository, filesystem, sast}
use secure_dev.Scanners.Registry.{Adapter}
use secure_dev.Worker.{Request}
use secure_dev.ScanExec.{Host, ScanError, got, all_phases, execute_in_process}
use secure_dev.ScanExec.Reported.{IsReported, execute_in_process-IsReported}

abbrev tool_named : String → Adapter
tool_named name = record {
  name = name;
  capabilities = record { supported = filesystem ∷ []; categories = sast ∷ []; network_kinds = [] };
}

-- The second adapter is not installed, and the context is cancelled by its end.
abbrev host : Host
host = record {
  phase = all_phases;
  workspace = some "/work/s-1";
  fetch = λ path target. got (record { path = path; commit_sha = "c0ffee"; branch = "" });
  tool = λ a. record {
    version = "1.0";
    version_error = if a.name == "syft" then ScanError.binary_missing else ScanError.no_error;
    scan = λ target.
        (record { output = "{}"; exit_code = pos 0; degradations = [] }, ScanError.no_error);
    inventory = none;
    started = 3;
    took = 4;
  };
  cancelled_after = λ a. a.name == "syft";
}

abbrev asked_for : Request
asked_for = record {
  scan_id = "s-1";
  project_id = "p-1";
  target = record {
    kind = repository;
    repository_url = "https://example.com/shop.git";
    ref = "main";
    path = "";
    image_ref = "";
    endpoint_url = "";
  };
  selected = tool_named "semgrep" ∷ tool_named "syft" ∷ tool_named "trivy" ∷ [];
}

execute_in_process_example : IsReported host asked_for (execute_in_process host asked_for)
execute_in_process_example = execute_in_process-IsReported host asked_for
