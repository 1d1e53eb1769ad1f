-- ===== src/Correlation/Buckets.antt =====
-- internal/correlation/correlation.go: keysOf and bucketize.
-- The map from keys to findings is an association list.
use secure_dev.Prelude.{
  String, Bool, ◌&&◌, ◌||◌, List, [], ◌∷◌, ◌++◌, map, any, ◌==◌, if◌then◌else◌,
}
use secure_dev.Prelude.Text.{trim_space}
use secure_dev.Prelude.Sort.{sort_by, text_lt}
use secure_dev.Normalization.Fingerprint.{normalize_location}
use secure_dev.Correlation.{
  KeyKind, kind_cve, kind_component, kind_file, Key, key_kind_text, key_text, Subject,
}

-- A text is a key of its kind unless it is empty.
abbrev pub named_key : KeyKind → String → List Key
named_key kind value = if value == "" then [] else record { kind = kind; value = value } ∷ []

-- The files' keys, each once.
unfoldable pub file_keys : List String → List String → List Key
unfolding normalize_location
file_keys seen [] = []
file_keys seen (f ∷ rest) =
    let p = normalize_location f in
    let skipped = file_keys seen rest in
    let taken = file_keys (p ∷ seen) rest in
    if p == "" || any (λ q. q == p) seen
    then skipped
    else record { kind = kind_file; value = p } ∷ taken

-- Go's `==` on keys
abbrev pub same_key : Key → Key → Bool
same_key a b = key_kind_text a.kind == key_kind_text b.kind && a.value == b.value

abbrev pub Buckets : Type 0 → Type 0
Buckets F = List (Key × List (Subject F))

unfoldable pub key_less : Key → Key → Bool
unfolding key_text
key_less a b = text_lt (key_text a) (key_text b)

module _ {F : Type 0} where
  unfoldable pub keys_of : Subject F → List Key
  unfolding trim_space file_keys
  keys_of s =
      named_key kind_cve (trim_space s.finding.cve)
      ++ named_key kind_component (trim_space s.finding.purl)
      ++ file_keys [] s.files

  -- `buckets[k]`
  unfoldable pub bucket : Key → Buckets F → List (Subject F)
  bucket k [] = []
  bucket k ((j, members) ∷ rest) = if same_key j k then members else bucket k rest

  -- `buckets[k] = append(buckets[k], s)`
  unfoldable pub put : Key → Subject F → Buckets F → Buckets F
  put k s [] = (k, s ∷ []) ∷ []
  put k s ((j, members) ∷ rest) =
      let later = put k s rest in
      if same_key j k then (j, members ++ s ∷ []) ∷ rest else (j, members) ∷ later

  unfoldable pub put_all : Subject F → List Key → Buckets F → Buckets F
  unfolding put
  put_all s [] buckets = buckets
  put_all s (k ∷ rest) buckets = put_all s rest (put k s buckets)

  unfoldable pub bucketize : Buckets F → List (Subject F) → Buckets F
  unfolding put_all keys_of
  bucketize buckets [] = buckets
  bucketize buckets (s ∷ rest) = bucketize (put_all s (keys_of s) buckets) rest

  unfoldable pub sorted_keys : Buckets F → List Key
  unfolding sort_by key_less
  sorted_keys buckets = sort_by key_less (map (λ entry. entry.0) buckets)
