-- ===== src/Normalization/Dedup.antt =====
-- internal/normalization/dedup.go. The map from fingerprints to merged findings, with the slice of
-- fingerprints in the order of their first report, is one list of merged findings in that order.
pub mod Identity
pub mod Reports
pub mod Merge
use secure_dev.Prelude.{String, Bool, List, [], ◌∷◌, ◌++◌, map, any, ltb, ◌==◌, if◌then◌else◌}
use secure_dev.Prelude.Sort.{sort_by, text_lt}
use secure_dev.Normalization.Severity.{severity_rank}
use secure_dev.Normalization.Finding.{Finding, Occurrence, Result}

pub record MergedFinding (F : Type 0) : Type 0 where
  pub finding : Finding F
  pub sources : List String

pub record DedupResult (F : Type 0) : Type 0 where
  pub findings : List (MergedFinding F)
  pub occurrences : List Occurrence
  pub errors : List String

unfoldable pub contains_string : List String → String → Bool
contains_string haystack needle = any (λ s. s == needle) haystack

module _ {F : Type 0} where
  -- The first report of an identity.
  fresh : Finding F → MergedFinding F
  fresh f = record { finding = f; sources = f.scanner ∷ [] }

  -- The severity after a duplicate: the higher one.
  raise : Finding F → Finding F → Finding F
  unfolding severity_rank
  raise kept f =
      if ltb (severity_rank kept.severity) (severity_rank f.severity)
      then record kept { severity = f.severity }
      else kept

  -- A duplicate: its scanner is recorded, the higher severity is kept, all else stays.
  merge : MergedFinding F → Finding F → MergedFinding F
  unfolding contains_string raise
  merge existing f = record {
    finding = raise existing.finding f;
    sources =
        if contains_string existing.sources f.scanner
        then existing.sources
        else existing.sources ++ f.scanner ∷ [];
  }

  -- The loop's body.
  pub absorb : Finding F → List (MergedFinding F) → List (MergedFinding F)
  unfolding fresh merge
  absorb f [] = fresh f ∷ []
  absorb f (m ∷ rest) =
      let later = absorb f rest in
      if m.finding.fingerprint == f.fingerprint then merge m f ∷ rest else m ∷ later

  collect : List (MergedFinding F) → List (Finding F) → List (MergedFinding F)
  unfolding absorb
  collect merged [] = merged
  collect merged (f ∷ rest) = collect (absorb f merged) rest

  sort_sources : MergedFinding F → MergedFinding F
  unfolding sort_by
  sort_sources m = record m { sources = sort_by text_lt m.sources }

  unfoldable pub deduplicate : List (Finding F) → DedupResult F
  unfolding collect sort_sources
  deduplicate findings = record {
    findings = map sort_sources (collect [] findings);
    occurrences = [];
    errors = [];
  }

  pub all_findings : List (Result F) → List (Finding F)
  all_findings [] = []
  all_findings (r ∷ rest) = r.findings ++ all_findings rest

  all_occurrences : List (Result F) → List Occurrence
  all_occurrences [] = []
  all_occurrences (r ∷ rest) = r.occurrences ++ all_occurrences rest

  all_errors : List (Result F) → List String
  all_errors [] = []
  all_errors (r ∷ rest) = r.errors ++ all_errors rest

  unfoldable pub combine : List (Result F) → DedupResult F
  unfolding deduplicate all_findings all_occurrences all_errors
  combine results = record (deduplicate (all_findings results)) {
    occurrences = all_occurrences results;
    errors = all_errors results;
  }
