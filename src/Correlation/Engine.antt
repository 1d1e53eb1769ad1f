-- ===== src/Correlation/Engine.antt =====
-- internal/correlation/correlation.go: the run of the engine.
use secure_dev.Prelude.{
  ℕ, pos, negsuc, false, Option, none, some, List, [], ◌∷◌, ◌++◌, length, take, ltb, nat_eqb,
  if◌then◌else◌,
}
use secure_dev.Prelude.Sort.{sort_by, text_lt}
use secure_dev.Correlation.{Key, key_text, Issue, Subject, Options, Result}
use secure_dev.Correlation.Links.{link_bucket, sorted_links}
use secure_dev.Correlation.Buckets.{Buckets, bucket, bucketize, sorted_keys}
use secure_dev.Correlation.Reports.{form_issue}

unfoldable pub bucket_limit : Options → ℕ
bucket_limit o = elim o.max_bucket_size [ pos n ↦ if nat_eqb n 0 then 500 else n | negsuc n ↦ 500 ]

abbrev pub with_issue : Option Issue → List Issue → List Issue
with_issue none issues = issues
with_issue (some i) issues = issues ++ i ∷ []

module _ {F : Type 0} where
  -- One turn of the loop over the keys; the links are those of the set so far.
  unfoldable pub visit : Options → List (Subject F) → Key → Result → Result
  unfolding bucket_limit link_bucket form_issue key_text
  visit o found k r =
      let over = ltb (bucket_limit o) (length found) in
      let members = if over then take (bucket_limit o) found else found in
      let truncated = if over then r.truncated ++ key_text k ∷ [] else r.truncated in
      if ltb (length members) 2 then record r { truncated = truncated } else record {
        issues = with_issue (form_issue k members o.artifact) r.issues;
        links = link_bucket k members r.links;
        truncated = truncated;
      }

  unfoldable pub visit_all : Options → Buckets F → List Key → Result → Result
  unfolding visit bucket
  visit_all o buckets [] r = r
  visit_all o buckets (k ∷ rest) r = visit_all o buckets rest (visit o (bucket k buckets) k r)

  unfoldable pub by_fingerprint : List (Subject F) → List (Subject F)
  unfolding sort_by
  by_fingerprint subjects =
      sort_by (λ a b. text_lt a.finding.fingerprint b.finding.fingerprint) subjects

  unfoldable pub correlate_with : List (Subject F) → Options → Result
  unfolding by_fingerprint bucketize sorted_keys visit_all sorted_links
  correlate_with subjects o =
      let buckets = bucketize [] (by_fingerprint subjects) in
      let r =
        visit_all o buckets (sorted_keys buckets)
          (record { issues = []; links = []; truncated = [] }) in
      record r { links = sorted_links r.links }

  unfoldable pub correlate : List (Subject F) → Result
  unfolding correlate_with
  correlate subjects = correlate_with subjects (record {
    max_bucket_size = pos 0;
    artifact = record { purls = []; complete = false; scan_id = ""; scanned_at = 0 };
  })
