-- ===== src/Correlation/Links.antt =====
-- internal/correlation/link.go, and linkFor and linkBucket of correlation.go.
use Prim.Native.String.{◌++◌}
use secure_dev.Prelude.{
  ℕ, Bool, true, false, not, ◌&&◌, Option, none, some, List, [], ◌∷◌, ltb, nat_eqb, ◌==◌,
  if◌then◌else◌,
}
use secure_dev.Prelude.Sort.{sort_by, text_lt}
use secure_dev.Scanners.{category_text}
use secure_dev.Normalization.Severity.{Confidence}
use secure_dev.Correlation.{
  KeyKind, kind_cve, kind_component, kind_file, Key, Relationship, likely_duplicate, related, Link,
  Subject,
}

unfoldable pub confidence_rank : Confidence → ℕ
confidence_rank Confidence.high = 3
confidence_rank Confidence.medium = 2
confidence_rank Confidence.low = 1
confidence_rank (Confidence.other t) = 0

abbrev pub is_likely : Relationship → Bool
is_likely likely_duplicate = true
is_likely _ = false

unfoldable pub stronger : Link → Link → Bool
unfolding confidence_rank
stronger a b =
    if not (nat_eqb (confidence_rank a.confidence) (confidence_rank b.confidence))
    then ltb (confidence_rank b.confidence) (confidence_rank a.confidence)
    else is_likely a.relationship && not (is_likely b.relationship)

abbrev pub same_pair : Link → Link → Bool
same_pair a b = a.from == b.from && a.to == b.to

-- `l.From > l.To`: the ends are exchanged.
unfoldable pub directed : Link → Link
directed l = if text_lt l.to l.from then record l { from = l.to; to = l.from } else l

-- The map's entry for the pair of `l`.
unfoldable pub keep_stronger : Link → List Link → List Link
unfolding stronger
keep_stronger l [] = l ∷ []
keep_stronger l (x ∷ rest) =
    let later = keep_stronger l rest in
    if same_pair x l then (if stronger l x then l ∷ rest else x ∷ rest) else x ∷ later

unfoldable pub add : Link → List Link → List Link
unfolding directed keep_stronger
add l links = keep_stronger (directed l) links

unfoldable pub link_less : Link → Link → Bool
link_less a b = if not (a.from == b.from) then text_lt a.from b.from else text_lt a.to b.to

unfoldable pub sorted_links : List Link → List Link
unfolding sort_by link_less
sorted_links = sort_by link_less

unfoldable pub add_found : Option Link → List Link → List Link
unfolding add
add_found none links = links
add_found (some l) links = add l links

module _ {F : Type 0} where
  unfoldable pub link_for : Key → Subject F → Subject F → Option Link
  link_for k a b = elim k.kind [
    | kind_cve ↦ some (record {
      from = a.finding.fingerprint;
      to = b.finding.fingerprint;
      relationship = related;
      confidence = Confidence.high;
      evidence = "same vulnerability " ++ k.value;
    })
    | kind_component ↦
        if category_text a.finding.category == category_text b.finding.category
          && a.finding.cve == ""
          && b.finding.cve == ""
        then some (record {
          from = a.finding.fingerprint;
          to = b.finding.fingerprint;
          relationship = likely_duplicate;
          confidence = Confidence.medium;
          evidence =
              "same component " ++ k.value ++ " and category " ++ category_text a.finding.category;
        })
        else some (record {
          from = a.finding.fingerprint;
          to = b.finding.fingerprint;
          relationship = related;
          confidence = Confidence.medium;
          evidence = "same component " ++ k.value;
        })
    | kind_file ↦
        if category_text a.finding.category == category_text b.finding.category
        then none
        else some (record {
          from = a.finding.fingerprint;
          to = b.finding.fingerprint;
          relationship = related;
          confidence = Confidence.low;
          evidence =
              "same file "
              ++ k.value
              ++ ", categories "
              ++ category_text a.finding.category
              ++ " and "
              ++ category_text b.finding.category;
        })
    | KeyKind.other t ↦ none
  ]

  -- The inner loop: `a` with each of the members behind it.
  unfoldable pub link_with : Key → Subject F → List (Subject F) → List Link → List Link
  unfolding link_for add_found
  link_with k a [] links = links
  link_with k a (b ∷ rest) links = link_with k a rest (add_found (link_for k a b) links)

  unfoldable pub link_bucket : Key → List (Subject F) → List Link → List Link
  unfolding link_with
  link_bucket k [] links = links
  link_bucket k (a ∷ rest) links = link_bucket k rest (link_with k a rest links)
