-- ===== src/Scans/Coverage.antt =====
-- internal/scans/scan.go: the end state that the per-scanner results imply.
use secure_dev.Prelude.{
  ℕ, zero, suc, String, Bool, true, false, not, ◌&&◌, ◌≡◌, refl, ◌↔◌, inl, inr, Option, none, some,
  List, [], ◌∷◌, arith, ◌==◌, eq_iff, any, if◌then◌else◌, Bool-cases, ltb, length,
}
use secure_dev.Scans.{
  Status, running, partial, completed, failed, Scan, ScannerResult, result_succeeded, transition,
  terminal_status, complete, status_of_results, status_of_tally, tally, has_complete_coverage,
  all_succeeded, degraded_scanners, degraded_names, put_result, record_result,
}
use secure_dev.Scans.Lifecycle.{◌⟶◌, finish, degrade, break, transition_correct}

abbrev pub some_usable : Scan → Bool
some_usable s = any result_succeeded s.results

abbrev pub some_unusable : Scan → Bool
some_unusable s = any (λ r. not (result_succeeded r)) s.results

any-tally :
    (l : List ScannerResult)
    → (any result_succeeded l ≡ ltb 0 (tally l).0)
      × (any (λ r. not (result_succeeded r)) l ≡ ltb 0 (tally l).1)
unfolding tally
any-tally [] = (refl, refl)
any-tally (r ∷ l) =
    let (good, bad) = any-tally l in
    elim (Bool-cases (result_succeeded r)) [
      | inl e ↦ rw e (ground arith, ground arith)
      | inr e ↦ rw e (ground arith, ground arith)
    ]

status_of_tally_lem :
    (good bad : ℕ)
    → status_of_tally (good, bad)
      ≡ (if ltb 0 good then if ltb 0 bad then partial else completed else failed)
status_of_tally_lem zero bad = refl
status_of_tally_lem (suc good) zero = ground arith
status_of_tally_lem (suc good) (suc bad) = ground arith

status_of_results_lem :
    (l : List ScannerResult)
    → status_of_results l ≡ (
        if any result_succeeded l
        then if any (λ r. not (result_succeeded r)) l then partial else completed
        else failed)
unfolding status_of_results
status_of_results_lem [] = refl
status_of_results_lem (r ∷ l) =
    let (good, bad) = any-tally (r ∷ l) in
    rw (good, bad) (status_of_tally_lem (tally (r ∷ l)).0 (tally (r ∷ l)).1)

-- The end state by the rules of the lifecycle: failed where no scanner gave usable output, none
-- having run included; else partial where some scanner did not, and completed where all did.
pub terminal_status_rules :
    (s : Scan)
    → terminal_status s
      ≡ (if some_usable s then if some_unusable s then partial else completed else failed)
unfolding terminal_status
terminal_status_rules s = status_of_results_lem s.results

all_succeeded-eq-all :
    (l : List ScannerResult) → all_succeeded l ≡ not (any (λ r. not (result_succeeded r)) l)
unfolding all_succeeded
all_succeeded-eq-all [] = refl
all_succeeded-eq-all (r ∷ l) = ground (arith, all_succeeded-eq-all l)

coverage_cases :
    (l : List ScannerResult)
    → (any (λ r. not (result_succeeded r)) l ≡ false)
    → (any result_succeeded l ≡ ltb 0 (length l))
coverage_cases [] h = refl
coverage_cases (r ∷ l) h = ground arith

has_complete_coverage_rules :
    (s : Scan) → has_complete_coverage s ≡ (some_usable s && not (some_unusable s))
unfolding has_complete_coverage
has_complete_coverage_rules s =
    ground (arith, all_succeeded-eq-all s.results, coverage_cases s.results)

ends : (good bad : Bool) → running ⟶ (if good then if bad then partial else completed else failed)
ends true true = degrade
ends true false = finish
ends false _ = break

completed_iff :
    (s : Scan) (end : Status)
    → end ≡ terminal_status s
    → (end ≡ completed) ↔ (has_complete_coverage s ≡ true)
completed_iff s end e =
    rw (e, terminal_status_rules s, has_complete_coverage_rules s) (ground arith)

-- A running scan can always be completed. It then counts as completed exactly if it has results and
-- each of them is usable and whole: a degraded result never reads as a completed scan.
pub complete-coverage :
    (s : Scan) (at : ℕ)
    → s.status ≡ running
    → ((complete s at).1 ≡ none)
      × (((complete s at).0.status ≡ completed) ↔ (has_complete_coverage s ≡ true))
unfolding complete
complete-coverage s at h =
    let step : s.status ⟶ terminal_status s =
      rw (h, terminal_status_rules s) (ends (some_usable s) (some_unusable s)) in
    let (moved, done, kept) = transition_correct s (terminal_status s) at in
    (
      moved.1 step,
      completed_iff s (transition s (terminal_status s) at).0.status (done (moved.1 step)).0,
    )

degraded_names_lem :
    (name : String) (l : List ScannerResult)
    → any (λ n. n == name) (degraded_names l)
      ≡ any (λ r. (r.scanner == name) && not (result_succeeded r)) l
unfolding degraded_names
degraded_names_lem name [] = refl
degraded_names_lem name (r ∷ l) = ground (arith, degraded_names_lem name l)

-- The entry of a scanner.
abbrev pub result_of : String → List ScannerResult → Option ScannerResult
result_of name [] = none
result_of name (r ∷ l) = if r.scanner == name then some r else result_of name l

result_of-put_result :
    (name : String) (l : List ScannerResult) (r : ScannerResult)
    → result_of name (put_result l r) ≡ (if r.scanner == name then some r else result_of name l)
unfolding put_result
result_of-put_result name [] r = refl
result_of-put_result name (x ∷ l) r = ground (
  arith,
  result_of-put_result name l r,
  eq_iff x.scanner r.scanner,
  eq_iff x.scanner name,
  eq_iff r.scanner name,
)

-- A recorded result is the scanner's entry from then on, a retry superseding the attempt before it;
-- the entries of the other scanners stay.
pub record_result-result_of :
    (s : Scan) (r : ScannerResult) (name : String)
    → result_of name (record_result s r).results
      ≡ (if r.scanner == name then some r else result_of name s.results)
unfolding record_result
record_result-result_of s r name = result_of-put_result name s.results r

-- A scanner is listed as degraded exactly if it has a result that is not usable and complete.
pub degraded_scanners_lem :
    (s : Scan) (name : String)
    → any (λ n. n == name) (degraded_scanners s)
      ≡ any (λ r. (r.scanner == name) && not (result_succeeded r)) s.results
unfolding degraded_scanners
degraded_scanners_lem s name = degraded_names_lem name s.results
