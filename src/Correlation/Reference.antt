-- ===== src/Correlation/Reference.antt =====
-- internal/correlation/correlation.go: the engine's issues, told from the findings alone.
use mathlib.Core.List.{append-nil, append_assoc}
use secure_dev.Prelude.{
  ℕ, suc, zero, Bool, false, ◌≡◌, refl, sym, ap, ◌∙◌, Option, none, some, List, [], ◌∷◌, ◌++◌, map,
  any, keep, length, take, ltb, arith, if◌then◌else◌, Bool-cases, inl, inr,
}
use secure_dev.Prelude.Sort.{any-sort_by}
use secure_dev.Correlation.{Key, key_text, Issue, Subject, Options, Result}
use secure_dev.Correlation.Buckets.{same_key, bucket, bucketize, key_less, sorted_keys}
use secure_dev.Correlation.Reports.{form_issue}
use secure_dev.Correlation.Engine.{
  bucket_limit, with_issue, visit, visit_all, by_fingerprint, correlate_with,
}
use secure_dev.Correlation.Grouping.{carries, keys_in, bucket-bucketize, any-bucketize}

with_issue-append :
    (i : Option Issue) (issues : List Issue) → with_issue i issues ≡ issues ++ with_issue i []
with_issue-append none issues = sym (append-nil issues)
with_issue-append (some i) issues = refl

module _ {F : Type 0} where
  -- The findings that carry a key, those of the smallest fingerprints if they are too many.
  abbrev pub sharing : Options → List (Subject F) → Key → List (Subject F)
  sharing o subjects k = take (bucket_limit o) (keep (carries k) (by_fingerprint subjects))

  -- What a key makes of the findings that carry it.
  abbrev pub issue_at : Options → List (Subject F) → Key → Option Issue
  issue_at o subjects k =
      if ltb (length (sharing o subjects k)) 2
      then none
      else form_issue k (sharing o subjects k) o.artifact

  abbrev pub issues_at : Options → List (Subject F) → List Key → List Issue
  issues_at o subjects [] = []
  issues_at o subjects (k ∷ rest) =
      with_issue (issue_at o subjects k) [] ++ issues_at o subjects rest

  abbrev pub too_many : Options → List (Subject F) → Key → Bool
  too_many o subjects k = ltb (bucket_limit o) (length (keep (carries k) (by_fingerprint subjects)))

  take_all : (n : ℕ) (l : List (Subject F)) → ltb n (length l) ≡ false → take n l ≡ l
  take_all zero [] h = refl
  take_all zero (x ∷ l) h = ground (arith, h)
  take_all (suc n) [] h = refl
  take_all (suc n) (x ∷ l) h = ap (λ r. x ∷ r) (take_all n l (ground (arith, h)))

  capped : (n : ℕ) (l : List (Subject F)) → (if ltb n (length l) then take n l else l) ≡ take n l
  capped n l = elim (Bool-cases (ltb n (length l))) [
    | inl e ↦ rw e refl
    | inr e ↦ rw (e, take_all n l e) refl
  ]

  visit-issues :
      (o : Options) (found : List (Subject F)) (k : Key) (r : Result)
      → (visit o found k r).issues
        ≡ r.issues
          ++ with_issue
              (if ltb (length (take (bucket_limit o) found)) 2
                then none
                else form_issue k (take (bucket_limit o) found) o.artifact)
              []
  unfolding visit
  visit-issues o found k r =
      rw (capped (bucket_limit o) found)
        (elim (Bool-cases (ltb (length (take (bucket_limit o) found)) 2)) [
          | inl e ↦ rw e (sym (append-nil r.issues))
          | inr e ↦
              rw e
                (with_issue-append (form_issue k (take (bucket_limit o) found) o.artifact) r.issues)
        ])

  visit-truncated :
      (o : Options) (found : List (Subject F)) (k : Key) (r : Result)
      → (visit o found k r).truncated ≡ (
          if ltb (bucket_limit o) (length found)
          then r.truncated ++ key_text k ∷ []
          else r.truncated)
  unfolding visit
  visit-truncated o found k r =
      rw (capped (bucket_limit o) found)
        (elim (Bool-cases (ltb (length (take (bucket_limit o) found)) 2)) [
          | inl e ↦ rw e refl
          | inr e ↦ rw e refl
        ])

  visit_all-issues :
      (o : Options) (subjects : List (Subject F)) (keys : List Key) (r : Result)
      → (visit_all o (bucketize [] (by_fingerprint subjects)) keys r).issues
        ≡ r.issues ++ issues_at o subjects keys
  unfolding visit_all
  visit_all-issues o subjects [] r = sym (append-nil r.issues)
  visit_all-issues o subjects (k ∷ keys) r =
      let buckets = bucketize [] (by_fingerprint subjects) in
      let found = bucket k buckets in
      rw
        (
          visit_all-issues o subjects keys (visit o found k r),
          visit-issues o found k r,
          bucket-bucketize k [] (by_fingerprint subjects),
        )
        (append_assoc r.issues _ (issues_at o subjects keys))

  visit_all-truncated :
      (o : Options) (subjects : List (Subject F)) (keys : List Key) (r : Result)
      → (visit_all o (bucketize [] (by_fingerprint subjects)) keys r).truncated
        ≡ r.truncated ++ map key_text (keep (too_many o subjects) keys)
  unfolding visit_all
  visit_all-truncated o subjects [] r = sym (append-nil r.truncated)
  visit_all-truncated o subjects (k ∷ keys) r =
      let buckets = bucketize [] (by_fingerprint subjects) in
      let found = bucket k buckets in
      rw
        (
          visit_all-truncated o subjects keys (visit o found k r),
          visit-truncated o found k r,
          bucket-bucketize k [] (by_fingerprint subjects),
        )
        (elim (Bool-cases (too_many o subjects k)) [
          | inl e ↦ rw e (append_assoc r.truncated (key_text k ∷ []) _)
          | inr e ↦ rw e refl
        ])

  -- The keys that the engine visits, in its order.
  abbrev pub visited : List (Subject F) → List Key
  visited subjects = sorted_keys (bucketize [] (by_fingerprint subjects))

  any-visited :
      (subjects : List (Subject F)) (k : Key)
      → any (same_key k) (visited subjects) ≡ any (carries k) subjects
  unfolding sorted_keys by_fingerprint
  any-visited subjects k =
      any-sort_by key_less (same_key k) (keys_in (bucketize [] (by_fingerprint subjects)))
      ∙ any-bucketize k [] (by_fingerprint subjects)
      ∙ any-sort_by _ (carries k) subjects

  pub correlate_with-issues :
      (subjects : List (Subject F)) (o : Options)
      → ((correlate_with subjects o).issues ≡ issues_at o subjects (visited subjects))
        × ((correlate_with subjects o).truncated
            ≡ map key_text (keep (too_many o subjects) (visited subjects)))
        × ((k : Key) → any (same_key k) (visited subjects) ≡ any (carries k) subjects)
  unfolding correlate_with
  correlate_with-issues subjects o = (
    visit_all-issues o subjects (visited subjects) _,
    visit_all-truncated o subjects (visited subjects) _,
    any-visited subjects,
  )
