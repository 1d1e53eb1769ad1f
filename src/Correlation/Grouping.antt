-- ===== src/Correlation/Grouping.antt =====
-- internal/correlation/correlation.go: what the buckets hold.
use mathlib.Core.List.{append-nil, append_assoc}
use secure_dev.Prelude.{
  String, Bool, true, false, not, ◌&&◌, ◌||◌, ◌≡◌, refl, sym, subst, ◌∙◌, List, [], ◌∷◌, ◌++◌, map,
  any, keep, arith, eq_iff, eq_refl, ◌==◌, if◌then◌else◌, Bool-cases, Bool-ext, inl, inr,
}
use secure_dev.Prelude.Text.{trim_space}
use secure_dev.Normalization.Fingerprint.{normalize_location}
use secure_dev.Correlation.{kind_cve, kind_component, kind_file, Key, key_kind_text, Subject}
use secure_dev.Correlation.Buckets.{
  named_key, file_keys, same_key, Buckets, keys_of, bucket, put, put_all, bucketize,
}

-- Equal texts are interchangeable in the test against a third.
eq_cong : (a b c : String) → (a == b) ≡ true → (a == c) ≡ (b == c)
eq_cong a b c h = rw ((eq_iff a b).0 h) refl

same_key_cong : (a b c : Key) → same_key a b ≡ true → same_key a c ≡ same_key b c
same_key_cong a b c h = ground (
  arith,
  eq_cong (key_kind_text a.kind) (key_kind_text b.kind) (key_kind_text c.kind),
  eq_cong a.value b.value c.value,
)

same_key_refl : (k : Key) → same_key k k ≡ true
same_key_refl k = rw (eq_refl (key_kind_text k.kind), eq_refl k.value) refl

eq_sym : (a b : String) → (a == b) ≡ (b == a)
eq_sym a b =
    Bool-ext (a == b) (b == a) (λ h. rw ((eq_iff a b).0 h) (eq_refl b))
      (λ h. rw ((eq_iff b a).0 h) (eq_refl a))

same_key_sym : (a b : Key) → same_key a b ≡ same_key b a
same_key_sym a b =
    rw (eq_sym (key_kind_text a.kind) (key_kind_text b.kind), eq_sym a.value b.value) refl

same_key_apart : (h k j : Key) → same_key h k ≡ false → same_key h j ≡ true → same_key k j ≡ false
same_key_apart h k j e f = same_key_sym k j ∙ sym (same_key_cong h j k f) ∙ e

any-apart :
    (k j : Key) (keys : List Key)
    → same_key k j ≡ true
    → any (same_key k) keys ≡ false
    → any (λ x. same_key x j) keys ≡ false
any-apart k j [] e h = refl
any-apart k j (x ∷ keys) e h =
    ground (arith, any-apart k j keys e, same_key_cong k j x e, same_key_sym j x)

-- A key of another kind than a file's is none of the files' keys.
any-file_keys_other :
    (k : Key) (seen files : List String)
    → key_kind_text k.kind == "file" ≡ false
    → any (same_key k) (file_keys seen files) ≡ false
unfolding file_keys
any-file_keys_other k seen [] e = refl
any-file_keys_other k seen (f ∷ files) e =
    let p = normalize_location f in
    ground (arith, e, any-file_keys_other k seen files e, any-file_keys_other k (p ∷ seen) files e)

seen_apart :
    (p q : String) (seen : List String)
    → any (λ x. x == p) seen ≡ true
    → any (λ x. x == q) seen ≡ false
    → (p == q) ≡ false
seen_apart p q seen e h = elim (Bool-cases (p == q)) [
  | inl same ↦
      let moved = subst (λ (t : String). any (λ x. x == t) seen ≡ true) ((eq_iff p q).0 same) e in
      ground (arith, moved, h)
  | inr apart ↦ apart
]

-- A file that was seen gets no key again.
any-file_keys_seen :
    (p : String) (seen files : List String)
    → any (λ q. q == p) seen ≡ true
    → any (same_key (record { kind = kind_file; value = p })) (file_keys seen files) ≡ false
unfolding file_keys
any-file_keys_seen p seen [] e = refl
any-file_keys_seen p seen (f ∷ files) e =
    let q = normalize_location f in
    ground (
      arith,
      any-file_keys_seen p seen files e,
      any-file_keys_seen p (q ∷ seen) files (ground (arith, e)),
      seen_apart p q seen e,
    )

-- Each key stands once.
abbrev pub distinct_keys : List Key → Bool
distinct_keys [] = true
distinct_keys (k ∷ rest) = not (any (same_key k) rest) && distinct_keys rest

distinct-file_keys : (seen files : List String) → distinct_keys (file_keys seen files) ≡ true
unfolding file_keys
distinct-file_keys seen [] = refl
distinct-file_keys seen (f ∷ files) =
    let p = normalize_location f in
    ground (
      arith,
      distinct-file_keys seen files,
      distinct-file_keys (p ∷ seen) files,
      any-file_keys_seen p (p ∷ seen) files (ground (arith, eq_refl p)),
    )

distinct-named :
    (cve purl : String) (files : List Key)
    → distinct_keys files ≡ true
    → any (same_key (record { kind = kind_cve; value = cve })) files ≡ false
    → any (same_key (record { kind = kind_component; value = purl })) files ≡ false
    → distinct_keys (named_key kind_cve cve ++ named_key kind_component purl ++ files) ≡ true
distinct-named cve purl files d e f = elim (Bool-cases (cve == "")) [
  | inl p ↦ elim (Bool-cases (purl == "")) [ inl q ↦ rw (p, q) d | inr q ↦ rw (p, q, f) d ]
  | inr p ↦ elim (Bool-cases (purl == "")) [ inl q ↦ rw (p, q, e) d | inr q ↦ rw (p, q, e, f) d ]
]

module _ {F : Type 0} where
  -- The finding has the key.
  abbrev pub carries : Key → Subject F → Bool
  carries k s = any (λ j. same_key j k) (keys_of s)

  bucket-put :
      (k j : Key) (s : Subject F) (m : Buckets F)
      → bucket j (put k s m) ≡ (if same_key k j then bucket j m ++ s ∷ [] else bucket j m)
  unfolding bucket put
  bucket-put k j s [] = refl
  bucket-put k j s ((h, members) ∷ rest) = elim (Bool-cases (same_key h k)) [
    | inl e ↦ rw (e, same_key_cong h k j e) (ground arith)
    | inr e ↦ elim (Bool-cases (same_key h j)) [
      | inl f ↦ rw (e, f, same_key_apart h k j e f) refl
      | inr f ↦ rw (e, f) (bucket-put k j s rest)
    ]
  ]

  -- The finding goes at the end of the bucket of each of its keys.
  bucket-put_all :
      (keys : List Key) (j : Key) (s : Subject F) (m : Buckets F)
      → distinct_keys keys ≡ true
      → bucket j (put_all s keys m)
        ≡ (if any (λ k. same_key k j) keys then bucket j m ++ s ∷ [] else bucket j m)
  unfolding put_all
  bucket-put_all [] j s m d = refl
  bucket-put_all (k ∷ rest) j s m d = elim (Bool-cases (same_key k j)) [
    | inl e ↦
        rw
          (
            bucket-put_all rest j s (put k s m) (ground arith),
            bucket-put k j s m,
            e,
            any-apart k j rest e (ground arith),
          )
          refl
    | inr e ↦ rw (bucket-put_all rest j s (put k s m) (ground arith), bucket-put k j s m, e) refl
  ]

  distinct-keys_of : (s : Subject F) → distinct_keys (keys_of s) ≡ true
  unfolding keys_of
  distinct-keys_of s =
      let cve = trim_space s.finding.cve in
      let purl = trim_space s.finding.purl in
      distinct-named cve purl (file_keys [] s.files) (distinct-file_keys [] s.files)
        (any-file_keys_other (record { kind = kind_cve; value = cve }) [] s.files refl)
        (any-file_keys_other (record { kind = kind_component; value = purl }) [] s.files refl)

  -- The bucket of a key holds the findings that carry it, in their order.
  pub bucket-bucketize :
      (j : Key) (m : Buckets F) (subjects : List (Subject F))
      → bucket j (bucketize m subjects) ≡ bucket j m ++ keep (carries j) subjects
  unfolding bucketize
  bucket-bucketize j m [] = sym (append-nil (bucket j m))
  bucket-bucketize j m (s ∷ rest) = elim (Bool-cases (carries j s)) [
    | inl e ↦
        rw
          (
            bucket-bucketize j (put_all s (keys_of s) m) rest,
            bucket-put_all (keys_of s) j s m (distinct-keys_of s),
            e,
          )
          (append_assoc (bucket j m) (s ∷ []) (keep (carries j) rest))
    | inr e ↦
        rw
          (
            bucket-bucketize j (put_all s (keys_of s) m) rest,
            bucket-put_all (keys_of s) j s m (distinct-keys_of s),
            e,
          )
          refl
  ]

  abbrev pub keys_in : Buckets F → List Key
  keys_in m = map (λ entry. entry.0) m

  any-put :
      (k j : Key) (s : Subject F) (m : Buckets F)
      → any (same_key k) (keys_in (put j s m)) ≡ (any (same_key k) (keys_in m) || same_key k j)
  unfolding put
  any-put k j s [] = ground arith
  any-put k j s ((h, members) ∷ rest) = elim (Bool-cases (same_key h j)) [
    | inl e ↦ rw e (ground (arith, same_key_sym k h, same_key_sym k j, same_key_cong h j k e))
    | inr e ↦ rw e (ground (arith, any-put k j s rest))
  ]

  any-put_all :
      (k : Key) (keys : List Key) (s : Subject F) (m : Buckets F)
      → any (same_key k) (keys_in (put_all s keys m))
        ≡ (any (same_key k) (keys_in m) || any (λ j. same_key j k) keys)
  unfolding put_all
  any-put_all k [] s m = ground arith
  any-put_all k (j ∷ keys) s m =
      ground (arith, any-put_all k keys s (put j s m), any-put k j s m, same_key_sym k j)

  -- A key has a bucket exactly if some finding carries it.
  pub any-bucketize :
      (k : Key) (m : Buckets F) (subjects : List (Subject F))
      → any (same_key k) (keys_in (bucketize m subjects))
        ≡ (any (same_key k) (keys_in m) || any (carries k) subjects)
  unfolding bucketize
  any-bucketize k m [] = ground arith
  any-bucketize k m (s ∷ rest) =
      ground (arith, any-bucketize k (put_all s (keys_of s) m) rest, any-put_all k (keys_of s) s m)
