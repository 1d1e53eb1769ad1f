-- ===== src/Normalization/Dedup/Merge.antt =====
-- internal/normalization/dedup.go: what a scan's results combine into.
use mathlib.Core.List.{append_assoc, append-nil, flatten}
use secure_dev.Prelude.{
  String, true, false, ◌≡◌, refl, sym, ◌⊎◌, Option, none, some, List, [], ◌∷◌, ◌++◌, map, any, keep,
  keep-eq_nil, any-map, ◌==◌, arith, eq_iff, Bool-cases, inl, inr, subst, ap, ◌∙◌,
}
use secure_dev.Prelude.Sort.{
  text_lt, count_if-sort_by, IsSorted, sort_by-IsSorted, text_lt_asymm, text_lt_negtrans,
}
use secure_dev.Normalization.Finding.{Finding, Result}
use secure_dev.Normalization.Dedup.{
  MergedFinding, absorb, collect, sort_sources, deduplicate, combine, all_findings, all_occurrences,
  all_errors,
}
use secure_dev.Normalization.Dedup.Identity.{identity, distinct, deduplicate-identity}
use secure_dev.Normalization.Dedup.Reports.{
  entry, reports, IsMerged, IsEntry, entry-absorb, absorb-IsEntry,
}

module _ {F : Type 0} (fp : String) where
  collect-IsEntry :
      (seen : List (Finding F)) (l : List (MergedFinding F)) (fs : List (Finding F))
      → IsEntry fp seen (entry fp l)
      → IsEntry fp (seen ++ fs) (entry fp (collect l fs))
  unfolding collect
  collect-IsEntry seen l [] w = rw append-nil w
  collect-IsEntry seen l (f ∷ fs) w = rw (append_assoc seen (f ∷ []) fs) at (
      collect-IsEntry (seen ++ f ∷ []) (absorb f l) fs
        (rw (entry-absorb fp f l) (absorb-IsEntry fp seen f (entry fp l) w)))

  sort_sources-IsMerged :
      (fs : List (Finding F)) (m : MergedFinding F)
      → IsMerged fp fs m
      → IsMerged fp fs (sort_sources m)
  unfolding sort_sources
  sort_sources-IsMerged fs m w = record {
    first = w.first;
    reported = w.reported;
    prose = w.prose;
    worst = w.worst;
    attained = w.attained;
    sourced = λ name. count_if-sort_by text_lt (λ n. n == name) m.sources ∙ w.sourced name;
  }

  sort_sources-IsEntry :
      (fs : List (Finding F)) (l : List (MergedFinding F))
      → IsEntry fp fs (entry fp l)
      → IsEntry fp fs (entry fp (map sort_sources l))
  unfolding sort_sources
  sort_sources-IsEntry fs [] w = w
  sort_sources-IsEntry fs (m ∷ l) w = elim (Bool-cases (m.finding.fingerprint == fp)) [
    | inl e ↦ rw e (sort_sources-IsMerged fs m (rw e at w))
    | inr e ↦ rw e (sort_sources-IsEntry fs l (rw e at w))
  ]

  deduplicate-IsEntry : (fs : List (Finding F)) → IsEntry fp fs (entry fp (deduplicate fs).findings)
  unfolding deduplicate
  deduplicate-IsEntry fs = sort_sources-IsEntry fs (collect [] fs) (collect-IsEntry [] [] fs refl)

  -- The merged findings of the identity.
  abbrev pub of_identity : List (MergedFinding F) → List (MergedFinding F)
  of_identity = keep (λ m. m.finding.fingerprint == fp)

  abbrev alone : Option (MergedFinding F) → List (MergedFinding F)
  alone none = []
  alone (some m) = m ∷ []

  absent :
      (m : MergedFinding F) (l : List (MergedFinding F))
      → (m.finding.fingerprint == fp) ≡ true
      → distinct (map identity (m ∷ l)) ≡ true
      → any (λ x. x.finding.fingerprint == fp) l ≡ false
  absent m l e d =
      sym (any-map (λ s. s == fp) identity l)
      ∙ subst (λ t. any (λ s. s == t) (map identity l) ≡ false)
          ((eq_iff m.finding.fingerprint fp).0 e) (ground arith)

  -- Where no identity stands twice, the merged findings of one are the first that there is.
  of_identity-alone :
      (l : List (MergedFinding F))
      → distinct (map identity l) ≡ true
      → of_identity l ≡ alone (entry fp l)
  of_identity-alone [] d = refl
  of_identity-alone (m ∷ l) d = elim (Bool-cases (m.finding.fingerprint == fp)) [
    | inl e ↦ rw (e, keep-eq_nil (λ x. x.finding.fingerprint == fp) l (absent m l e d)) refl
    | inr e ↦ rw e (of_identity-alone l (ground arith))
  ]

  sources-IsSorted :
      (l : List (MergedFinding F)) (m : MergedFinding F)
      → entry fp (map sort_sources l) ≡ some m
      → IsSorted text_lt m.sources
  unfolding sort_sources
  sources-IsSorted [] m h = cc
  sources-IsSorted (n ∷ l) m h = elim (Bool-cases (n.finding.fingerprint == fp)) [
    | inl e ↦
        let k = rw e at h in
        let same : sort_sources n ≡ m = cc in
        subst (λ x. IsSorted text_lt x.sources) same
          (sort_by-IsSorted text_lt text_lt_asymm text_lt_negtrans n.sources)
    | inr e ↦ sources-IsSorted l m (let k = rw e at h in k)
  ]

  -- No merged finding of an identity that none reported; otherwise just one, which is what it owes
  -- to the reports, with its sources in order.
  abbrev pub IsAlone : List (Finding F) → List (MergedFinding F) → Type 0
  IsAlone fs l =
      ((l ≡ []) × (any (reports fp) fs ≡ false))
      ⊎ ((m : MergedFinding F) × (l ≡ m ∷ []) × IsMerged fp fs m × IsSorted text_lt m.sources)

  alone-IsAlone :
      (fs : List (Finding F)) (o : Option (MergedFinding F))
      → IsEntry fp fs o
      → ((m : MergedFinding F) → o ≡ some m → IsSorted text_lt m.sources)
      → IsAlone fs (alone o)
  alone-IsAlone fs none w sorted = inl (refl, w)
  alone-IsAlone fs (some m) w sorted = inr (m, refl, w, sorted m refl)

  deduplicate-IsAlone : (fs : List (Finding F)) → IsAlone fs (of_identity (deduplicate fs).findings)
  unfolding deduplicate
  deduplicate-IsAlone fs =
      rw (of_identity-alone (deduplicate fs).findings (deduplicate-identity fs).1) (
        alone-IsAlone fs (entry fp (deduplicate fs).findings) (deduplicate-IsEntry fs)
          (λ m h. sources-IsSorted (collect [] fs) m h))

all_findings-flatten :
    {F : Type 0} (results : List (Result F))
    → all_findings results ≡ flatten (map (λ r. r.findings) results)
unfolding all_findings flatten
all_findings-flatten [] = refl
all_findings-flatten (r ∷ rest) = ap (λ l. r.findings ++ l) (all_findings-flatten rest)

all_occurrences-flatten :
    {F : Type 0} (results : List (Result F))
    → all_occurrences results ≡ flatten (map (λ r. r.occurrences) results)
unfolding all_occurrences flatten
all_occurrences-flatten [] = refl
all_occurrences-flatten (r ∷ rest) = ap (λ l. r.occurrences ++ l) (all_occurrences-flatten rest)

all_errors-flatten :
    {F : Type 0} (results : List (Result F))
    → all_errors results ≡ flatten (map (λ r. r.errors) results)
unfolding all_errors flatten
all_errors-flatten [] = refl
all_errors-flatten (r ∷ rest) = ap (λ l. r.errors ++ l) (all_errors-flatten rest)

-- Of each identity that a scan's scanners reported, `Combine` gives exactly one merged finding: the
-- first report of it, at the severity of a worst report, its sources being the scanners that
-- reported it, each once and in order. Of an identity that none reported it gives none. The
-- sightings and the errors are those of the results, one result after the other.
pub combine-IsMerged :
    {F : Type 0} (fp : String) (results : List (Result F))
    → IsAlone fp
        (flatten (map (λ r. r.findings) results))
        (of_identity fp (combine results).findings)
      × ((combine results).occurrences ≡ flatten (map (λ r. r.occurrences) results))
      × ((combine results).errors ≡ flatten (map (λ r. r.errors) results))
unfolding combine
combine-IsMerged fp results = (
  subst (λ fs. IsAlone fp fs (of_identity fp (deduplicate (all_findings results)).findings))
      (all_findings-flatten results) (deduplicate-IsAlone fp (all_findings results)),
  all_occurrences-flatten results,
  all_errors-flatten results,
)
